-- ===== src/Post.antt =====
-- apps/gateway/src/features/content/post: posts with their photos. This file has the aggregate
-- (domain/post.aggregate.ts and domain/photo.entity.ts); Post/Repository.antt the two tables,
-- Post/Commands.antt the use cases.
pub mod Repository
pub mod Saving
pub mod Commands
pub mod Creation
pub mod Deletion
pub mod Ownership
pub mod Queries
pub mod Api
pub mod Examples
use Prim.Native.String.{String}
use photer_api.Base.{
  ℕ, ◌+◌, ◌≡◌, Bool, true, false, not, ◌&&◌, ◌||◌, Option, none, some, List, [], ◌∷◌, ◌++◌, map,
  ltb, leb, ◌==◌, ◌===◌, codes, js_length, truthy, is_some, Action, Result, ok, throws,
  domain_validation_error, error, pure, throw, if◌then◌else◌,
}

pub data PostStatus : Type 0 where
  public private : PostStatus

-- A photo of a post that has no key yet has none to refer to.
pub record Photo : Type 0 where
  pub id : ℕ
  pub photo_url : String
  pub post_id : Option ℕ
  pub created_at : ℕ
  pub is_deleted : Bool

pub record Post : Type 0 where
  pub id : Option ℕ
  pub description : Option String
  pub user_id : ℕ
  pub photos : List Photo
  pub created_at : ℕ
  pub updated_at : ℕ
  pub status : PostStatus
  pub is_deleted : Bool

-- What `new URL(url)` reads of a text; `none` is its `TypeError`.
pub record ParsedUrl : Type 0 where
  pub protocol : String
  pub pathname : String

abbrev lower : ℕ → ℕ
lower c = if leb b'A' c && leb c b'Z' then c + 32 else c

abbrev same_codes : List ℕ → List ℕ → Bool
same_codes [] [] = true
same_codes [] (d ∷ ds) = false
same_codes (c ∷ cs) [] = false
same_codes (c ∷ cs) (d ∷ ds) = lower c == d && same_codes cs ds

abbrev ends_with : List ℕ → List ℕ → Bool
ends_with [] suffix = same_codes [] suffix
ends_with (c ∷ cs) suffix = same_codes (c ∷ cs) suffix || ends_with cs suffix

-- `/\.(jpg|jpeg|png|gif|webp|bmp|svg)$/i`
unfoldable pub has_image_extension : String → Bool
has_image_extension path =
    let cs = codes path in
    ends_with cs (codes ".jpg")
    || ends_with cs (codes ".jpeg")
    || ends_with cs (codes ".png")
    || ends_with cs (codes ".gif")
    || ends_with cs (codes ".webp")
    || ends_with cs (codes ".bmp")
    || ends_with cs (codes ".svg")

-- The URL parser of the runtime is a parameter.
module _ (parse_url : String → Option ParsedUrl) where
  unfoldable pub is_valid_url : String → Result Bool
  is_valid_url url = elim (parse_url url) [
    | none ↦ throws (error "Invalid URL")
    | some u ↦
        ok ((u.protocol === "http:" || u.protocol === "https:") && has_image_extension u.pathname)
  ]

  unfoldable pub create_photo : String → Option ℕ → ℕ → Result Photo
  create_photo url post_id created_at = elim (is_valid_url url) [
    | throws e ↦ throws e
    | ok false ↦ throws (domain_validation_error "Invalid photo URL" "url")
    | ok true ↦ ok (record {
      id = 0;
      photo_url = url;
      post_id = post_id;
      created_at = created_at;
      is_deleted = false;
    })
  ]

  unfoldable pub add_photo : String → (now : ℕ → ℕ) → Action Post (Unit {0})
  add_photo url now p =
      if p.is_deleted
      then throw (domain_validation_error "Cannot add photo to deleted post" "post") p
      else elim (create_photo url p.id (now 0)) [
        | throws e ↦ throw e p
        | ok photo ↦ pure tt (record p { photos = p.photos ++ (photo ∷ []); updated_at = now 1 })
      ]

-- `validateDescription`
unfoldable pub is_short : String → Bool
is_short description = not (ltb 500 (js_length description))

abbrev too_long : {A : Type 0} → Result A
too_long = throws (domain_validation_error "Description exceeds 500 characters limit" "description")

unfoldable pub create_post_entity : ℕ → Option String → (now : ℕ → ℕ) → Result Post
create_post_entity user_id description now =
    let post : Post = record {
      id = none;
      description = description;
      user_id = user_id;
      photos = [];
      created_at = now 0;
      updated_at = now 1;
      status = public;
      is_deleted = false;
    } in
    elim description [
      | none ↦ ok post
      | some d ↦ if truthy d && not (is_short d) then too_long else ok post
    ]

unfoldable pub update_description : String → (now : ℕ) → Action Post (Unit {0})
update_description description now p =
    if is_short description
    then pure tt (record p { description = some description; updated_at = now })
    else (too_long, p)

abbrev pub mark_photo : Photo → Photo
mark_photo photo = record photo { is_deleted = true }

-- The first photo with the key.
abbrev mark_first : ℕ → List Photo → Option (List Photo)
mark_first photo_id [] = none
mark_first photo_id (x ∷ xs) =
    let rest = mark_first photo_id xs in
    if x.id == photo_id
    then some (mark_photo x ∷ xs)
    else elim rest [ none ↦ none | some ys ↦ some (x ∷ ys) ]

unfoldable pub remove_photo : ℕ → (now : ℕ) → Action Post (Unit {0})
remove_photo photo_id now p = elim (mark_first photo_id p.photos) [
  | none ↦ throw (domain_validation_error "Photo not found" "photoId") p
  | some photos ↦ pure tt (record p { photos = photos; updated_at = now })
]

abbrev pub same_status : PostStatus → PostStatus → Bool
same_status public public = true
same_status private private = true
same_status public private = false
same_status private public = false

unfoldable pub change_status : PostStatus → (now : ℕ) → Post → Post
change_status new_status now p =
    if same_status p.status new_status
    then p
    else record p { status = new_status; updated_at = now }

unfoldable pub mark_as_deleted : (now : ℕ) → Post → Post
mark_as_deleted now p =
    if p.is_deleted
    then p
    else record p { is_deleted = true; updated_at = now; photos = map mark_photo p.photos }
