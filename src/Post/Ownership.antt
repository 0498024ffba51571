-- ===== src/Post/Ownership.antt =====
-- What the use cases on a post do to it, by who asks.
use photer_api.Base.{
  trim, ℕ, ◌≡◌, ◌⊎◌, inl, inr, refl, sym, subst, String, true, false, none, some, List, map, arith,
  Result, ok, Delegate, Sequence, All, Has, All-change, All-true, ap, ◌∙◌, Bool-cases, Has-map_inv,
  change,
}
use photer_api.Base.Prisma.Calls.{find_first_hit, find_first_miss}
use photer_api.Notification.{success, bad_request, internal_error}
use photer_api.Post.{Photo, Post, is_short, update_description}
use photer_api.Post.Repository.{
  PostRow, PhotoRow, Blog, same_post, same_photo, has_post_id, is_live_post, is_photo_of,
  written_post, photo_of, post_to_domain, find_post_by_id, save_post,
}
use photer_api.Auth.Registration.{one}
use photer_api.Post.Saving.{save_post_hit}
use photer_api.Post.Commands.{is_description, update_post, delete_post}
use photer_api.Post.Deletion.{
  deleted, delete_post_lem, deleted_lem, others_kept, Survives, rows_survive,
}

module _ (post : Delegate PostRow same_post) (photo : Delegate PhotoRow same_photo)
    (post_ids : Sequence PostRow (λ r. r.id)) (photo_ids : Sequence PhotoRow (λ r. r.id)) where
  module _ (user_id post_id : ℕ) (s : Blog) {r : PostRow}
      (found : post.find_first (is_live_post post_id) s.posts ≡ some r) where
    -- A deletion by the owner hides the post, whatever the storage service answers about the files;
    -- only the answer depends on it. Each photo row of the post has one in its place with its address,
    -- marked as deleted, the photo rows of the other posts stay, and every photo row of the post that
    -- there is afterwards is marked.
    pub delete_post_hides :
        (reply : List String → Result ℕ) (now : ℕ → ℕ)
        → r.user_id ≡ user_id
        → let (a, s') = delete_post post photo post_ids photo_ids user_id post_id reply now s in
          (find_post_by_id post photo post_id s' ≡ none)
          × All (λ x. (is_photo_of post_id x ≡ false) ⊎ (x.is_deleted ≡ true)) s'.photos
          × All
              (λ y.
                ((is_photo_of post_id y ≡ false) × Has y s'.photos)
                ⊎ ((x : PhotoRow) × Has x s'.photos
                    × (x.post_id ≡ post_id)
                    × (x.photo_url ≡ y.photo_url)
                    × (x.is_deleted ≡ true)))
              s.photos
          × ((a ≡ ok (success none))
              ⊎ (a ≡ ok (internal_error "Partial files deletion"))
              ⊎ (a ≡ ok (internal_error "Deletion failed")))
    unfolding find_post_by_id
    delete_post_hides reply now owner =
        let (key, gone, marks) =
          deleted_lem post photo post_ids photo_ids user_id post_id s found (now 0) in
        let (h, k) = post.find_first-some (is_live_post post_id) s.posts r found in
        let (y, q, h', k') =
          find_first_hit post (has_post_id post_id) s.posts h (ground (arith, k)) in
        let Q : PhotoRow → Type 0 = λ x. (is_photo_of post_id x ≡ false) ⊎ (x.is_deleted ≡ true) in
        let (b, t, photos, written) =
          save_post_hit post photo post_ids photo_ids Q
            (deleted post photo post_ids photo_ids user_id post_id s found (now 0)) (now 1) s key q
            (λ id x m. inr (marks x m))
            (others_kept post photo post_ids photo_ids user_id post_id s found Q s.photos
              (λ x m. inl m)) in
        let (e, answers) =
          delete_post_lem post photo post_ids photo_ids user_id post_id s found reply now owner b in
        let hidden : All (λ x. is_live_post post_id x ≡ false)
            (change (has_post_id post_id)
              (written_post (deleted post photo post_ids photo_ids user_id post_id s found (now 0))
                (now 1))
              s.posts) =
          All-change (λ x. Unit {0}) (λ x. is_live_post post_id x ≡ false) (has_post_id post_id)
            (written_post (deleted post photo post_ids photo_ids user_id post_id s found (now 0))
              (now 1))
            s.posts (λ x u m. ground (arith, gone)) (λ x u m. ground (arith, m))
            (All-true s.posts) in
        let miss =
          find_first_miss post (is_live_post post_id)
            (change (has_post_id post_id)
              (written_post (deleted post photo post_ids photo_ids user_id post_id s found (now 0))
                (now 1))
              s.posts)
            hidden in
        (
          ground (arith, e, t, miss),
          subst (λ (z : Blog). All Q z.photos) (sym e) photos,
          subst
              (λ z. All (Survives post photo post_ids photo_ids user_id post_id s found z) s.photos)
              (sym (ap (λ (z : Blog). z.photos) e ∙ written))
              (rows_survive post photo post_ids photo_ids user_id post_id s found (now 0)),
          answers,
        )

    -- The aggregate of the row, with another description.
    abbrev described : String → ℕ → Post
    described d now = record (post_to_domain r (photo.find_many (is_photo_of r.id) s.photos)) {
      description = some d;
      updated_at = now;
    }

    -- An update by the owner: a description that is the one of the post, or longer than 500
    -- characters, both after trimming, is refused and nothing changes; otherwise the row of the post
    -- has the trimmed description, and every photo row is one of another post or has the address and
    -- the mark of a photo that was there.
    pub update_post_cases :
        (description : String) (now : ℕ → ℕ)
        → r.user_id ≡ user_id
        → let (a, s') =
            update_post post photo post_ids photo_ids user_id post_id description now s in
          let d = trim description in
          ((is_description d r.description ≡ true)
            × (a ≡ ok (bad_request (one "No changes detected" "description")))
            × (s' ≡ s))
          ⊎ ((is_description d r.description ≡ false)
              × (is_short d ≡ false)
              × (a
                  ≡ ok (bad_request (one "Description exceeds 500 characters limit" "description")))
              × (s' ≡ s))
          ⊎ ((is_description d r.description ≡ false)
              × (is_short d ≡ true)
              × (a ≡ ok (success none))
              × (s'.posts
                  ≡ change
                      (has_post_id post_id)
                      (λ x. record x {
                        description = some d;
                        user_id = r.user_id;
                        updated_at = now 1;
                        is_deleted = r.is_deleted;
                        status = r.status;
                      })
                      s.posts)
              × All
                  (λ x.
                    (is_photo_of post_id x ≡ false)
                    ⊎ ((y : PhotoRow) × Has y s.photos
                        × (x.photo_url ≡ y.photo_url)
                        × (x.is_deleted ≡ y.is_deleted)))
                  s'.photos)
    unfolding update_post find_post_by_id post_to_domain update_description
    update_post_cases description now owner =
        let d = trim description in
        let (h, k) = post.find_first-some (is_live_post post_id) s.posts r found in
        let (y, q, h', k') =
          find_first_hit post (has_post_id post_id) s.posts h (ground (arith, k)) in
        let Q : PhotoRow → Type 0 = λ x.
          (is_photo_of post_id x ≡ false)
          ⊎ ((y : PhotoRow) × Has y s.photos
              × (x.photo_url ≡ y.photo_url)
              × (x.is_deleted ≡ y.is_deleted)) in
        let (b, t, photos, _) =
          save_post_hit post photo post_ids photo_ids Q (described d (now 0)) (now 1) s
            (ground (arith, k)) q (λ id x m. inr (photo_kept x m))
            (others_kept post photo post_ids photo_ids user_id post_id s found Q s.photos
              (λ x m. inl m)) in
        elim (Bool-cases (is_description d r.description)) [
          | inl same ↦
              let run : update_post post photo post_ids photo_ids user_id post_id description now s
                  ≡ (ok (bad_request (one "No changes detected" "description")), s) =
                ground (arith, found, owner, same) in
              rw run (inl (same, refl, refl))
          | inr differs ↦ elim (Bool-cases (is_short d)) [
            | inr long ↦
                let run : update_post post photo post_ids photo_ids user_id post_id description now
                      s
                    ≡ (
                      ok (
                          bad_request
                            (one "Description exceeds 500 characters limit" "description")),
                      s,
                    ) =
                  ground (arith, found, owner, differs, long) in
                rw run (inr (inl (differs, long, refl, refl)))
            | inl short ↦
                let run : update_post post photo post_ids photo_ids user_id post_id description now
                      s
                    ≡ (
                      ok (success none),
                      (save_post post photo post_ids photo_ids (described d (now 0)) (now 1) s).1,
                    ) =
                  ground (arith, found, owner, differs, short, b) in
                rw run (inr (inr (differs, short, refl, t, photos)))
          ]
        ]
      where
        photo_kept :
            (x : Photo)
            → Has x (map photo_of (photo.find_many (is_photo_of r.id) s.photos))
            → (y : PhotoRow) × Has y s.photos
              × (x.photo_url ≡ y.photo_url)
              × (x.is_deleted ≡ y.is_deleted)
        photo_kept x m =
            let (y, k, e) = Has-map_inv photo_of (photo.find_many (is_photo_of r.id) s.photos) m in
            let (k', p) = photo.find_many-sound (is_photo_of r.id) s.photos y k in
            (y, k', ground (arith, e), ground (arith, e))
