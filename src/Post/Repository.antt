-- ===== src/Post/Repository.antt =====
-- infrastructure/post.repository.ts and photo.repository.ts of apps/gateway/src/features/content/post.
use photer_api.Base.{
  ℕ, String, Bool, true, false, not, ◌&&◌, Option, none, some, List, [], ◌∷◌, map, ◌==◌, Action,
  throws, rejection, pure, transaction, ◌>>=◌, ◌>>◌, Delegate, Sequence, run_create, run_update,
  run_update_many, run_delete_many, if◌then◌else◌,
}
use photer_api.Post.{Photo, Post, PostStatus}

pub record PostRow : Type 0 where
  pub id : ℕ
  pub description : Option String
  pub user_id : ℕ
  pub created_at : ℕ
  pub updated_at : ℕ
  pub is_deleted : Bool
  pub status : PostStatus

pub record PhotoRow : Type 0 where
  pub id : ℕ
  pub photo_url : String
  pub post_id : ℕ
  pub created_at : ℕ
  pub is_deleted : Bool

pub record Blog : Type 0 where
  pub posts : List PostRow
  pub photos : List PhotoRow

abbrev pub same_post : PostRow → PostRow → Bool
same_post p q = p.id == q.id

abbrev pub same_photo : PhotoRow → PhotoRow → Bool
same_photo p q = p.id == q.id

abbrev pub on_posts : {A : Type 0} → Action (List PostRow) A → Action Blog A
on_posts m s = let (r, t) = m s.posts in (r, record s { posts = t })

abbrev pub on_photos : {A : Type 0} → Action (List PhotoRow) A → Action Blog A
on_photos m s = let (r, t) = m s.photos in (r, record s { photos = t })

abbrev pub has_post_id : ℕ → PostRow → Bool
has_post_id id r = r.id == id

abbrev pub is_live_post : ℕ → PostRow → Bool
is_live_post id r = r.id == id && not r.is_deleted

abbrev pub is_live_post_of : ℕ → ℕ → PostRow → Bool
is_live_post_of id user_id r = r.id == id && r.user_id == user_id && not r.is_deleted

abbrev pub is_photo_of : ℕ → PhotoRow → Bool
is_photo_of post_id r = r.post_id == post_id

abbrev pub photo_of : PhotoRow → Photo
photo_of r = record {
  id = r.id;
  photo_url = r.photo_url;
  post_id = some r.post_id;
  created_at = r.created_at;
  is_deleted = r.is_deleted;
}

-- `mapToDomain`, of a row with the photos that were read with it.
unfoldable pub post_to_domain : PostRow → List PhotoRow → Post
post_to_domain r photos = record {
  id = some r.id;
  description = r.description;
  user_id = r.user_id;
  photos = map photo_of photos;
  created_at = r.created_at;
  updated_at = r.updated_at;
  status = r.status;
  is_deleted = r.is_deleted;
}

-- `toPersistence` in a new row, and over an old one.
abbrev pub post_row : ℕ → ℕ → Post → PostRow
post_row id now p = record {
  id = id;
  description = p.description;
  user_id = p.user_id;
  created_at = now;
  updated_at = now;
  is_deleted = p.is_deleted;
  status = p.status;
}

abbrev pub written_post : Post → ℕ → PostRow → PostRow
written_post p now r = record r {
  description = p.description;
  user_id = p.user_id;
  updated_at = now;
  is_deleted = p.is_deleted;
  status = p.status;
}

abbrev pub photo_row : ℕ → ℕ → Photo → PhotoRow
photo_row id post_id photo = record {
  id = id;
  photo_url = photo.photo_url;
  post_id = post_id;
  created_at = photo.created_at;
  is_deleted = photo.is_deleted;
}

module _ (post : Delegate PostRow same_post) (photo : Delegate PhotoRow same_photo) where
  module _ (post_ids : Sequence PostRow (λ r. r.id))
      (photo_ids : Sequence PhotoRow (λ r. r.id)) where
    -- `createMany`: a row for each photo, in their order, with the next keys.
    unfoldable pub create_photos : ℕ → List Photo → Action (List PhotoRow) (Unit {0})
    create_photos post_id [] t = pure tt t
    create_photos post_id (x ∷ xs) t =
        (run_create photo (photo_row (photo_ids.next_id t) post_id x) >> create_photos post_id xs) t

    unfoldable pub save_post : Post → (now : ℕ) → Action Blog Post
    save_post p now = transaction (elim p.id [
      | none ↦
          (λ s. on_posts (run_create post (post_row (post_ids.next_id s.posts) now p)) s)
          >>= λ created.
              on_photos (create_photos created.id p.photos)
              >> pure (record p { id = some created.id })
      | some id ↦
          on_posts (run_update post (has_post_id id) (written_post p now))
          >> on_photos (run_delete_many photo (is_photo_of id))
          >> on_photos (create_photos id p.photos)
          >> pure p
    ])

  abbrev pub domain_of_post : List PhotoRow → Option PostRow → Option Post
  domain_of_post photos none = none
  domain_of_post photos (some r) =
      some (post_to_domain r (photo.find_many (is_photo_of r.id) photos))

  unfoldable pub find_post_by_id : ℕ → Blog → Option Post
  find_post_by_id id s = domain_of_post s.photos (post.find_first (is_live_post id) s.posts)

  unfoldable pub find_by_id_and_user_id : ℕ → ℕ → Blog → Option Post
  find_by_id_and_user_id id user_id s =
      domain_of_post s.photos (post.find_first (is_live_post_of id user_id) s.posts)

  -- A key that is `null` is refused by the client, and the `catch` answers false.
  unfoldable pub soft_delete_post : Option ℕ → Action Blog Bool
  soft_delete_post none = pure false
  soft_delete_post (some id) =
      on_posts (run_update_many post (is_live_post id) (λ r. record r { is_deleted = true }))
      >>= λ n s.
          if n == 0
          then pure false s
          else (on_photos
                  (run_update_many photo (is_photo_of id) (λ r. record r { is_deleted = true }))
                >> pure true)
              s

  -- `PhotoRepository.create`: a photo without a post is refused by the client.
  unfoldable pub create_photo_of :
      Sequence PhotoRow (λ r. r.id) → Photo → Action (List PhotoRow) (Unit {0})
  create_photo_of photo_ids x t = elim x.post_id [
    | none ↦ (throws (rejection "Argument `postId` must not be null"), t)
    | some post_id ↦
        (run_create photo
              (photo_row (photo_ids.next_id t) post_id (record x { is_deleted = false }))
            >> pure tt)
          t
  ]

  -- `PhotoRepository.softDeleteByPostId`
  unfoldable pub soft_delete_by_post_id : ℕ → Action (List PhotoRow) (Unit {0})
  soft_delete_by_post_id post_id =
      run_update_many photo (is_photo_of post_id) (λ r. record r { is_deleted = true }) >> pure tt
