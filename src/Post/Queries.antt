-- ===== src/Post/Queries.antt =====
-- apps/gateway/src/features/content/post/infrastructure/posts.query-repository.ts. A row stands with
-- the rows that the schema relates to it, of which a query includes a part.
pub mod Paging
mod Examples
use Prim.Native.Nat.{min}
use photer_api.Base.{
  ℕ, String, Bool, true, false, not, ◌&&◌, Option, none, some, List, [], ◌∷◌, map, ◌==◌, ◌===◌,
  select, Delegate, if◌then◌else◌,
}
use photer_api.User.Repository.{UserRow, same_user, has_id}
use photer_api.Profile.{ProfileRow}
use photer_api.Payments.Text.{decimal}
use photer_api.Post.{PostStatus, public, private}
use photer_api.Post.Repository.{PostRow, PhotoRow}
use photer_api.Query.{BaseQueryParams, BasePaginatedOutputDto, calculate_skip, map_to_output}
use photer_api.Query.Pager.{Pager}

pub record PostOwner : Type 0 where
  pub user_id : String
  pub user_name : String
  pub first_name : Option String
  pub last_name : Option String
  pub avatar_url : Option String

pub record PostOutputDto : Type 0 where
  pub id : String
  pub description : Option String
  pub photos : List String
  pub owner : PostOwner
  pub status : Bool
  pub created_at : ℕ
  pub updated_at : ℕ

pub record PostRecord : Type 0 where
  pub post : PostRow
  pub photos : List PhotoRow
  pub user : UserRow
  pub profile : Option ProfileRow

-- The columns of posts that hold a number or a date.
abbrev pub post_column : String → Option (PostRecord → ℕ)
post_column column =
    if column === "createdAt"
    then some (λ r. r.post.created_at)
    else if column === "updatedAt"
    then some (λ r. r.post.updated_at)
    else if column === "id"
    then some (λ r. r.post.id)
    else if column === "userId"
    then some (λ r. r.post.user_id)
    else none

abbrev is_public_status : PostStatus → Bool
is_public_status public = true
is_public_status private = false

-- `{ status: 'public', isDeleted: false }`, with a key and with an owner.
abbrev pub is_shown : PostRecord → Bool
is_shown r = is_public_status r.post.status && not r.post.is_deleted

abbrev pub is_shown_post : ℕ → PostRecord → Bool
is_shown_post id r = r.post.id == id && is_shown r

abbrev pub is_shown_of : ℕ → PostRecord → Bool
is_shown_of user_id r = is_shown r && r.post.user_id == user_id

-- `profile: { where: { isDeleted: false } }`
abbrev pub shown_profile : Option ProfileRow → Option ProfileRow
shown_profile none = none
shown_profile (some p) = if p.is_deleted then none else some p

abbrev owner_of : UserRow → Option ProfileRow → PostOwner
owner_of u none = record {
  user_id = decimal u.id;
  user_name = u.username;
  first_name = none;
  last_name = none;
  avatar_url = none;
}
owner_of u (some p) = record {
  user_id = decimal u.id;
  user_name = u.username;
  first_name = some p.first_name;
  last_name = some p.last_name;
  avatar_url = p.avatar_url;
}

-- `mapToOutput`
unfoldable pub post_output : PostRecord → PostOutputDto
post_output r = record {
  id = decimal r.post.id;
  description = r.post.description;
  photos =
      map (λ (p : PhotoRow). p.photo_url) (select (λ (p : PhotoRow). not p.is_deleted) r.photos);
  owner = owner_of r.user (shown_profile r.profile);
  status = is_public_status r.post.status;
  created_at = r.post.created_at;
  updated_at = r.post.updated_at;
}

-- `findUserPosts` for a request without a user.
abbrev pub anonymous_query : BaseQueryParams → BaseQueryParams
anonymous_query q =
    let page_size = min (if q.page_size == 0 then 10 else q.page_size) 8 in
    record q { page_size = page_size; page_number = min page_size 1 }

abbrev pub query_for : Option ℕ → BaseQueryParams → BaseQueryParams
query_for none q = anonymous_query q
query_for (some current_user_id) q = q

same_record : PostRecord → PostRecord → Bool
same_record r s = r.post.id == s.post.id

module _ (post : Pager PostRecord post_column) where
  abbrev pub page_of :
      (PostRecord → Bool)
      → (total_count : ℕ) → BaseQueryParams
      → List PostRecord
      → BasePaginatedOutputDto PostOutputDto
  page_of shown total_count q t =
      map_to_output
        (map post_output
          (post.find_page shown q.sort_by q.sort_direction (calculate_skip q) q.page_size t))
        q.page_number q.page_size total_count

  unfoldable pub find_all_posts :
      BaseQueryParams → List PostRecord → BasePaginatedOutputDto PostOutputDto
  find_all_posts q t = page_of is_shown (post.count_rows (λ r. true) t) q t

  unfoldable pub find_user_posts :
      Delegate UserRow same_user
      → ℕ
      → BaseQueryParams
      → (current_user_id : Option ℕ) → List UserRow
      → List PostRecord
      → Option (BasePaginatedOutputDto PostOutputDto)
  find_user_posts user user_id q current_user_id users t =
      elim (user.find_first (has_id user_id) users) [
        | none ↦ none
        | some u ↦ some (
            page_of (is_shown_of user_id) (post.count_rows (is_shown_of user_id) t)
              (query_for current_user_id q) t)
      ]

abbrev output_of : Option PostRecord → Option PostOutputDto
output_of none = none
output_of (some r) = some (post_output r)

unfoldable pub find_by_id :
    {same : PostRecord → PostRecord → Bool}
    → Delegate PostRecord same
    → ℕ
    → List PostRecord
    → Option PostOutputDto
find_by_id post id t = output_of (post.find_first (is_shown_post id) t)
