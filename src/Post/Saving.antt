-- ===== src/Post/Saving.antt =====
-- What a save of the aggregate leaves in the two tables.
use photer_api.Base.{
  ℕ, ◌≡◌, ◌≢◌, inl, inr, refl, false, none, some, List, [], ◌∷◌, arith, ok, Delegate, Sequence, All,
  Has, All-map_of, any, any-none, change, discard,
}
use photer_api.Base.Prisma.Calls.{run_create_fresh, run_update_hit, run_delete_many_lem}
use photer_api.Post.{Photo, Post}
use photer_api.Post.Repository.{
  PostRow, PhotoRow, Blog, same_post, same_photo, has_post_id, is_photo_of, post_row, written_post,
  photo_row, create_photos, save_post,
}

module _ (post : Delegate PostRow same_post) (photo : Delegate PhotoRow same_photo)
    (post_ids : Sequence PostRow (λ r. r.id)) (photo_ids : Sequence PhotoRow (λ r. r.id)) where
  -- The first row has a new key, so that it is written.
  create_photos-step :
      (post_id : ℕ) (x : Photo) (xs : List Photo) (t : List PhotoRow)
      → create_photos post photo post_ids photo_ids post_id (x ∷ xs) t
        ≡ create_photos post photo post_ids photo_ids post_id xs
            (photo_row (photo_ids.next_id t) post_id x ∷ t)
  unfolding create_photos
  create_photos-step post_id x xs t =
      let row = photo_row (photo_ids.next_id t) post_id x in
      let unused : any (same_photo row) t ≡ false = any-none (same_photo row) t (
        All-map_of (λ r. r.id ≢ row.id) (λ r. same_photo row r ≡ false) t (λ r h. ground arith)
          (photo_ids.next_id-fresh t)) in
      let added = run_create_fresh photo row t unused in ground (arith, added)

  -- The rows that were there stay.
  pub create_photos-kept :
      (post_id : ℕ) (xs : List Photo) (t : List PhotoRow) (y : PhotoRow)
      → Has y t
      → Has y (create_photos post photo post_ids photo_ids post_id xs t).1
  unfolding create_photos
  create_photos-kept post_id [] t y h = h
  create_photos-kept post_id (x ∷ xs) t y h =
      let rest =
        create_photos-kept post_id xs (photo_row (photo_ids.next_id t) post_id x ∷ t) y (inr h) in
      rw (create_photos-step post_id x xs t) rest

  -- Each photo has a row.
  pub create_photos-made :
      (post_id : ℕ) (xs : List Photo) (t : List PhotoRow) (x : Photo)
      → Has x xs
      → (id : ℕ) × Has
          (photo_row id post_id x)
          (create_photos post photo post_ids photo_ids post_id xs t).1
  create_photos-made post_id [] t z h = absurd h
  create_photos-made post_id (x ∷ xs) t z (inl e) =
      let row = photo_row (photo_ids.next_id t) post_id x in
      let made = create_photos-kept post_id xs (row ∷ t) row (inl refl) in
      (photo_ids.next_id t, rw (e, create_photos-step post_id x xs t) made)
  create_photos-made post_id (x ∷ xs) t z (inr h) =
      let rest =
        create_photos-made post_id xs (photo_row (photo_ids.next_id t) post_id x ∷ t) z h in
      rw (create_photos-step post_id x xs t) rest

  -- The rows of photos are written, and what is true of the old ones and of each new one is true of
  -- all.
  pub create_photos-All :
      (Q : PhotoRow → Type 0) (post_id : ℕ) (xs : List Photo) (t : List PhotoRow)
      → ((id : ℕ) (x : Photo) → Has x xs → Q (photo_row id post_id x))
      → All Q t
      → let (a, t') = create_photos post photo post_ids photo_ids post_id xs t in
        (a ≡ ok tt) × All Q t'
  unfolding create_photos
  create_photos-All Q post_id [] t new old = (refl, old)
  create_photos-All Q post_id (x ∷ xs) t new old =
      let row = photo_row (photo_ids.next_id t) post_id x in
      let rest =
        create_photos-All Q post_id xs (row ∷ t) (λ id y h. new id y (inr h))
          (new (photo_ids.next_id t) x (inl refl), old) in
      rw (create_photos-step post_id x xs t) rest

  pub save_post_hit :
      (Q : PhotoRow → Type 0) (p : Post) {id : ℕ} (now : ℕ) (s : Blog) {r : PostRow}
      → p.id ≡ some id
      → post.find_first (has_post_id id) s.posts ≡ some r
      → ((photo_id : ℕ) (x : Photo) → Has x p.photos → Q (photo_row photo_id id x))
      → All Q (discard (is_photo_of id) s.photos)
      → let (a, s') = save_post post photo post_ids photo_ids p now s in
        (a ≡ ok p)
        × (s'.posts ≡ change (has_post_id id) (written_post p now) s.posts)
        × All Q s'.photos
        × (s'.photos
            ≡ (create_photos post photo post_ids photo_ids id p.photos
                (discard (is_photo_of id) s.photos)).1)
  unfolding save_post
  save_post_hit Q p {id} now s {r} key q new old =
      let updated = run_update_hit post (has_post_id id) (written_post p now) s.posts q in
      let emptied = run_delete_many_lem photo (is_photo_of id) s.photos in
      let (b, rows) = create_photos-All Q id p.photos (discard (is_photo_of id) s.photos) new old in
      let t =
        (create_photos post photo post_ids photo_ids id p.photos
          (discard (is_photo_of id) s.photos)).1 in
      let run : save_post post photo post_ids photo_ids p now s ≡ (
        ok p,
        record { posts = change (has_post_id id) (written_post p now) s.posts; photos = t },
      ) =
        ground (arith, key, updated, emptied, b) in
      rw run (refl, refl, rows, refl)

  -- A new post.
  pub save_post_new :
      (Q : PhotoRow → Type 0) (p : Post) (now : ℕ) (s : Blog)
      → p.id ≡ none
      → ((id : ℕ) (x : Photo) → Has x p.photos → Q (photo_row id (post_ids.next_id s.posts) x))
      → All Q s.photos
      → let (a, s') = save_post post photo post_ids photo_ids p now s in
        let id = post_ids.next_id s.posts in
        (a ≡ ok (record p { id = some id }))
        × (s'.posts ≡ post_row id now p ∷ s.posts)
        × All Q s'.photos
        × (s'.photos ≡ (create_photos post photo post_ids photo_ids id p.photos s.photos).1)
  unfolding save_post
  save_post_new Q p now s key new old =
      let row = post_row (post_ids.next_id s.posts) now p in
      let unused : any (same_post row) s.posts ≡ false = any-none (same_post row) s.posts (
        All-map_of (λ r. r.id ≢ row.id) (λ r. same_post row r ≡ false) s.posts (λ r h. ground arith)
          (post_ids.next_id-fresh s.posts)) in
      let added = run_create_fresh post row s.posts unused in
      let (b, rows) = create_photos-All Q row.id p.photos s.photos new old in
      let t = (create_photos post photo post_ids photo_ids row.id p.photos s.photos).1 in
      let run : save_post post photo post_ids photo_ids p now s
          ≡ (ok (record p { id = some row.id }), record { posts = row ∷ s.posts; photos = t }) =
        ground (arith, key, added, b) in
      rw run (refl, refl, rows, refl)
