-- ===== src/Post/Commands.antt =====
-- aplication/use-case of apps/gateway/src/features/content/post: creating, updating and deleting a
-- post. The storage service is asked over the message queue; what it answers is an argument.
use Prim.Native.String.{String}
use photer_api.Base.{
  ℕ, ◌+◌, Bool, false, not, Option, none, some, List, [], ◌∷◌, map, ◌==◌, ◌===◌, Action, Result, ok,
  throws, Exception, error, domain_validation_error, rejection, message, trim, pure, catching,
  settle, ◌>>=◌, ◌>>◌, Delegate, Sequence, if◌then◌else◌,
}
use photer_api.Notification.{
  Notification, success, not_found, forbidden, bad_request, internal_error,
}
use photer_api.Post.{
  Photo, Post, ParsedUrl, add_photo, create_post_entity, update_description, mark_as_deleted,
}
use photer_api.Post.Repository.{
  PostRow, PhotoRow, Blog, same_post, same_photo, save_post, find_post_by_id, soft_delete_post,
}

-- `String.prototype` methods aside, `===` between a text and a description that may be `null`.
abbrev pub is_description : String → Option String → Bool
is_description text none = false
is_description text (some d) = text === d

-- `fileUrls.forEach((url) => post.addPhoto(url))`
abbrev pub add_photos :
    (String → Option ParsedUrl) → List String → (now : ℕ → ℕ) → Action Post (Unit {0})
add_photos parse_url [] now = pure tt
add_photos parse_url (url ∷ urls) now =
    add_photo parse_url url now >> add_photos parse_url urls (λ i. now (i + 2))

-- The aggregate of a new post; a missing list of addresses is the `TypeError` of `forEach`.
unfoldable pub assemble_post :
    (String → Option ParsedUrl)
    → ℕ
    → Option String
    → Option (List String)
    → (now : ℕ → ℕ) → Result Post
assemble_post parse_url user_id description file_urls now =
    elim (create_post_entity user_id description now) [
      | throws e ↦ throws e
      | ok p ↦ elim file_urls [
        | none ↦ throws (error "Cannot read properties of undefined (reading 'forEach')")
        | some urls ↦
            let (r, p') = add_photos parse_url urls (λ i. now (i + 2)) p in
            elim r [ throws e ↦ throws e | ok _ ↦ ok p' ]
      ]
    ]

abbrev own_fault : Exception → Result (Notification (Unit {0}))
own_fault (domain_validation_error m field) =
    ok (bad_request (record { field = field; text = m } ∷ []))
own_fault (error m) = throws (error m)
own_fault (rejection m) = throws (rejection m)

module _ (post : Delegate PostRow same_post) (photo : Delegate PhotoRow same_photo)
    (post_ids : Sequence PostRow (λ r. r.id)) (photo_ids : Sequence PhotoRow (λ r. r.id)) where
  -- The key that is answered.
  abbrev save_new_post : Post → (now : ℕ) → Action Blog (Notification ℕ)
  save_new_post p now =
      save_post post photo post_ids photo_ids p now >>= λ saved. pure (success saved.id)

  -- A post that was assembled has no key when the `catch` deletes it, so that nothing is deleted.
  unfoldable pub create_post :
      (String → Option ParsedUrl)
      → ℕ
      → Option String
      → (reply : Result (Option (List String))) → (now : ℕ → ℕ) → Action Blog (Notification ℕ)
  create_post parse_url user_id description reply now =
      catching
        (settle reply >>= λ urls.
          settle (assemble_post parse_url user_id description urls now) >>= λ p.
          save_new_post p (now 2))
        (λ e. soft_delete_post post photo none >> pure (internal_error (message e)))

  unfoldable pub update_post :
      (user_id post_id : ℕ) → String → (now : ℕ → ℕ) → Action Blog (Notification (Unit {0}))
  update_post user_id post_id description now s = elim (find_post_by_id post photo post_id s) [
    | none ↦ pure (not_found "Post not found") s
    | some p ↦
        if not (p.user_id == user_id)
        then pure (forbidden "Not post owner") s
        else if is_description (trim description) p.description
        then pure
            (bad_request (record { field = "description"; text = "No changes detected" } ∷ [])) s
        else let (r, p') = update_description (trim description) (now 0) p in
          elim r [
            | throws e ↦ (own_fault e, s)
            | ok _ ↦ (save_post post photo post_ids photo_ids p' (now 1) >> pure (success none)) s
          ]
  ]

  abbrev length_of : List Photo → ℕ
  length_of [] = 0
  length_of (x ∷ xs) = length_of xs + 1

  -- The reply of the storage service is `deletedLength`, as the files that it is asked for.
  unfoldable pub delete_post :
      (user_id post_id : ℕ)
      → (reply : List String → Result ℕ) → (now : ℕ → ℕ) → Action Blog (Notification (Unit {0}))
  delete_post user_id post_id reply now =
      catching
        (λ s. elim (find_post_by_id post photo post_id s) [
          | none ↦ pure (not_found "Post not found") s
          | some p ↦
              if not (p.user_id == user_id)
              then pure (forbidden "Not post owner") s
              else let p' = mark_as_deleted (now 0) p in
                (save_post post photo post_ids photo_ids p' (now 1)
                    >> settle (reply (map (λ x. x.photo_url) p'.photos))
                    >>= λ deleted_length.
                        if not (deleted_length == length_of p'.photos)
                        then pure (internal_error "Partial files deletion")
                        else pure (success none))
                  s
        ])
        (λ e. pure (internal_error "Deletion failed"))
