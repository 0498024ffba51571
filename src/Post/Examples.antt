-- ===== src/Post/Examples.antt =====
-- The use cases on a post, for a table with one post and one photo.
use photer_api.Base.{
  trim, ℕ, ◌+◌, ◌≡◌, ◌⊎◌, refl, String, true, false, Option, none, some, List, [], ◌∷◌, Result, ok,
  Delegate, Sequence, All, Has, change,
}
use photer_api.Base.Prisma.Memory.{list_delegate, list_sequence}
use photer_api.Notification.{success, bad_request, internal_error}
use photer_api.Auth.Registration.{one}
use photer_api.Post.{Post, ParsedUrl, public, is_short, has_image_extension}
use photer_api.Post.Repository.{
  PostRow, PhotoRow, Blog, same_post, same_photo, has_post_id, is_photo_of, find_post_by_id,
}
use photer_api.Post.Commands.{is_description, update_post, delete_post}
use photer_api.Post.Ownership.{delete_post_hides, update_post_cases}

abbrev posts : Delegate PostRow same_post
posts = list_delegate same_post

abbrev photos : Delegate PhotoRow same_photo
photos = list_delegate same_photo

abbrev post_ids : Sequence PostRow (λ r. r.id)
post_ids = list_sequence (λ r. r.id)

abbrev photo_ids : Sequence PhotoRow (λ r. r.id)
photo_ids = list_sequence (λ r. r.id)

abbrev row : PostRow
row = record {
  id = 3;
  description = some "sea";
  user_id = 7;
  created_at = 10;
  updated_at = 10;
  is_deleted = false;
  status = public;
}

abbrev blog : Blog
blog = record {
  posts = row ∷ [];
  photos =
      record { id = 5; photo_url = "sea.png"; post_id = 3; created_at = 10; is_deleted = false }
      ∷ [];
}

abbrev parse_url : String → Option ParsedUrl
parse_url url = some (record { protocol = "https:"; pathname = url })

abbrev clock : ℕ → ℕ
clock i = i + 100

abbrev storage_reply : List String → Result ℕ
storage_reply urls = ok 1

abbrev urls_of_files : Result (Option (List String))
urls_of_files = ok (some ("a.png" ∷ []))

extension_example : has_image_extension "/photos/1.JPeG" ≡ true
unfolding has_image_extension
extension_example = refl

extension_refused : has_image_extension "/photos/1.tiff" ≡ false
unfolding has_image_extension
extension_refused = refl

trim_example : trim "  a b " ≡ "a b"
unfolding trim
trim_example = refl

delete_post_hides_example :
    let (a, s') = delete_post posts photos post_ids photo_ids 7 3 storage_reply clock blog in
    (find_post_by_id posts photos 3 s' ≡ none)
    × All (λ x. (is_photo_of 3 x ≡ false) ⊎ (x.is_deleted ≡ true)) s'.photos
    × All
        (λ y.
          ((is_photo_of 3 y ≡ false) × Has y s'.photos)
          ⊎ ((x : PhotoRow) × Has x s'.photos
              × (x.post_id ≡ 3)
              × (x.photo_url ≡ y.photo_url)
              × (x.is_deleted ≡ true)))
        blog.photos
    × ((a ≡ ok (success none))
        ⊎ (a ≡ ok (internal_error "Partial files deletion"))
        ⊎ (a ≡ ok (internal_error "Deletion failed")))
delete_post_hides_example =
    delete_post_hides posts photos post_ids photo_ids 7 3 blog refl storage_reply clock refl

update_post_cases_example :
    let (a, s') = update_post posts photos post_ids photo_ids 7 3 " sun" clock blog in
    let d = trim " sun" in
    ((is_description d (some "sea") ≡ true)
      × (a ≡ ok (bad_request (one "No changes detected" "description")))
      × (s' ≡ blog))
    ⊎ ((is_description d (some "sea") ≡ false)
        × (is_short d ≡ false)
        × (a ≡ ok (bad_request (one "Description exceeds 500 characters limit" "description")))
        × (s' ≡ blog))
    ⊎ ((is_description d (some "sea") ≡ false)
        × (is_short d ≡ true)
        × (a ≡ ok (success none))
        × (s'.posts
            ≡ change
                (has_post_id 3)
                (λ x. record x {
                  description = some d;
                  user_id = 7;
                  updated_at = 101;
                  is_deleted = false;
                  status = public;
                })
                blog.posts)
        × All
            (λ x.
              (is_photo_of 3 x ≡ false)
              ⊎ ((y : PhotoRow) × Has y blog.photos
                  × (x.photo_url ≡ y.photo_url)
                  × (x.is_deleted ≡ y.is_deleted)))
            s'.photos)
update_post_cases_example =
    update_post_cases posts photos post_ids photo_ids 7 3 blog refl " sun" clock refl

abbrev entity : Post
entity = record {
  id = some 3;
  description = some "sea";
  user_id = 7;
  photos = [];
  created_at = 10;
  updated_at = 10;
  status = public;
  is_deleted = false;
}
