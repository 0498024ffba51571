-- ===== src/Post/Deletion.antt =====
-- What the deletion of a post makes of the aggregate and of its photo rows.
use photer_api.Base.{
  ℕ, ◌≡◌, ◌⊎◌, inl, inr, refl, sym, subst, String, true, false, none, some, List, [], ◌∷◌, map,
  arith, Result, ok, Delegate, Sequence, All, Has, Has-All, Has-map, Has-discard, Bool-cases,
  Has-map_inv, discard,
}
use photer_api.Notification.{success, internal_error}
use photer_api.Post.{Photo, Post, mark_photo, mark_as_deleted}
use photer_api.Post.Repository.{
  PostRow, PhotoRow, Blog, same_post, same_photo, is_live_post, is_photo_of, photo_of, photo_row,
  create_photos, post_to_domain, find_post_by_id, save_post,
}
use photer_api.Post.Saving.{create_photos-kept, create_photos-made}
use photer_api.Post.Commands.{delete_post}

module _ (post : Delegate PostRow same_post) (photo : Delegate PhotoRow same_photo)
    (post_ids : Sequence PostRow (λ r. r.id)) (photo_ids : Sequence PhotoRow (λ r. r.id)) where
  module _ (user_id post_id : ℕ) (s : Blog) {r : PostRow}
      (found : post.find_first (is_live_post post_id) s.posts ≡ some r) where
    -- The aggregate of the row, deleted.
    abbrev pub deleted : (now : ℕ) → Post
    deleted now =
        mark_as_deleted now (post_to_domain r (photo.find_many (is_photo_of r.id) s.photos))

    pub delete_post_lem :
        (reply : List String → Result ℕ) (now : ℕ → ℕ)
        → r.user_id ≡ user_id
        → (save_post post photo post_ids photo_ids (deleted (now 0)) (now 1) s).0
          ≡ ok (deleted (now 0))
        → let (a, s') = delete_post post photo post_ids photo_ids user_id post_id reply now s in
          (s' ≡ (save_post post photo post_ids photo_ids (deleted (now 0)) (now 1) s).1)
          × ((a ≡ ok (success none))
              ⊎ (a ≡ ok (internal_error "Partial files deletion"))
              ⊎ (a ≡ ok (internal_error "Deletion failed")))
    unfolding delete_post find_post_by_id post_to_domain
    delete_post_lem reply now owner saved = ground (arith, found, owner, saved)

    marked : (xs : List Photo) (x : Photo) → Has x (map mark_photo xs) → x.is_deleted ≡ true
    marked xs x h = let (y, k, e) = Has-map_inv mark_photo xs h in ground (arith, e)

    pub deleted_lem :
        (now : ℕ)
        → ((deleted now).id ≡ some post_id)
          × ((deleted now).is_deleted ≡ true)
          × ((x : Photo) → Has x (deleted now).photos → x.is_deleted ≡ true)
    unfolding mark_as_deleted post_to_domain
    deleted_lem now =
        let (h, k) = post.find_first-some (is_live_post post_id) s.posts r found in
        let live : r.is_deleted ≡ false = ground (arith, k) in
        let row = post_to_domain r (photo.find_many (is_photo_of r.id) s.photos) in
        let all : (deleted now).photos ≡ map mark_photo row.photos = ground (arith, live) in
        (
          ground (arith, k, live),
          ground (arith, live),
          λ x h'. marked row.photos x (subst (Has x) all h'),
        )

    pub others_kept :
        (Q : PhotoRow → Type 0) (t : List PhotoRow)
        → ((x : PhotoRow) → is_photo_of post_id x ≡ false → Q x)
        → All Q (discard (is_photo_of post_id) t)
    others_kept Q [] h = tt
    others_kept Q (x ∷ xs) h = elim (Bool-cases (is_photo_of post_id x)) [
      | inl m ↦ rw m (others_kept Q xs h)
      | inr m ↦ rw m (h x m, others_kept Q xs h)
    ]

    -- What becomes of a photo row when the photos of the post are marked and written anew.
    abbrev pub Survives : List PhotoRow → PhotoRow → Type 0
    Survives t y =
        ((is_photo_of post_id y ≡ false) × Has y t)
        ⊎ ((x : PhotoRow) × Has x t
            × (x.post_id ≡ post_id)
            × (x.photo_url ≡ y.photo_url)
            × (x.is_deleted ≡ true))

    -- A photo of the post is one of the aggregate, marked.
    deleted-photo :
        (now : ℕ) (y : PhotoRow)
        → Has y s.photos
        → is_photo_of post_id y ≡ true
        → Has (mark_photo (photo_of y)) (deleted now).photos
    unfolding mark_as_deleted post_to_domain
    deleted-photo now y h m =
        let (_, k) = post.find_first-some (is_live_post post_id) s.posts r found in
        let live : r.is_deleted ≡ false = ground (arith, k) in
        let own : is_photo_of r.id y ≡ true = ground (arith, k, m) in
        let rows = photo.find_many (is_photo_of r.id) s.photos in
        let read = photo.find_many-complete (is_photo_of r.id) s.photos y h own in
        let all : (deleted now).photos ≡ map mark_photo (map photo_of rows) =
          ground (arith, live) in
        subst (Has (mark_photo (photo_of y))) (sym all)
          (Has-map mark_photo (map photo_of rows) (photo_of y) (Has-map photo_of rows y read))

    pub rows_survive :
        (now : ℕ)
        → All
            (Survives
              (create_photos post photo post_ids photo_ids post_id
                (deleted now).photos
                (discard (is_photo_of post_id) s.photos)).1)
            s.photos
    rows_survive now =
        let t = discard (is_photo_of post_id) s.photos in
        let xs = (deleted now).photos in
        let t' = (create_photos post photo post_ids photo_ids post_id xs t).1 in
        Has-All (Survives t') s.photos (λ y h. elim (Bool-cases (is_photo_of post_id y)) [
          | inl own ↦
              let x = mark_photo (photo_of y) in
              let (id, made) =
                create_photos-made post photo post_ids photo_ids post_id xs t x
                  (deleted-photo now y h own) in
              inr (photo_row id post_id x, made, refl, refl, refl)
          | inr other ↦ inl (
            other,
            create_photos-kept post photo post_ids photo_ids post_id xs t y
                (Has-discard (is_photo_of post_id) s.photos h other),
          )
        ])
