-- ===== src/Post/Queries/Examples.antt =====
-- Pages of three posts, of which one is deleted and one is private.
use photer_api.Base.{
  ℕ, ◌≡◌, ◌≤◌, ◌⊎◌, refl, Bool, true, false, none, some, List, [], ◌∷◌, Delegate, Has, All,
  text_discrete,
}
use photer_api.Base.Prisma.Memory.{list_delegate}
use photer_api.User.Repository.{UserRow, personal, same_user, has_id}
use photer_api.Post.{PostStatus, public, private}
use photer_api.Post.Queries.{
  PostRecord, PostOutputDto, post_column, is_shown_of, post_output, find_all_posts, find_user_posts,
}
use photer_api.Post.Queries.Paging.{find_user_posts_anonymous}
use photer_api.Query.{
  BaseQueryParams, BasePaginatedOutputDto, default_query, calculate_skip, map_to_output,
  is_valid_query,
}
use photer_api.Query.Pager.{Pager, length}
use photer_api.Query.Memory.{list_pager}

abbrev pages : Pager PostRecord post_column
pages = list_pager post_column

abbrev users : Delegate UserRow same_user
users = list_delegate same_user

abbrev alice : UserRow
alice = record {
  id = 1;
  username = "alice";
  password = some "hash";
  email = "a@b.c";
  created_at = 10;
  is_deleted = false;
  updated_at = 10;
  account_type = personal;
  email_confirmation = none;
  password_recovery = none;
}

abbrev post : ℕ → PostStatus → Bool → PostRecord
post id status is_deleted = record {
  post = record {
    id = id;
    description = none;
    user_id = 1;
    created_at = id;
    updated_at = id;
    is_deleted = is_deleted;
    status = status;
  };
  photos =
      record { id = id; photo_url = "p.jpg"; post_id = id; created_at = id; is_deleted = false }
      ∷ [];
  user = alice;
  profile = none;
}

abbrev posts : List PostRecord
posts = post 1 public false ∷ post 2 public true ∷ post 3 private false ∷ post 4 public false ∷ []

abbrev query : BaseQueryParams
query = record default_query { page_size = 1 }

default-valid : is_valid_query default_query ≡ true
default-valid = refl

-- The newest of the two public posts stands on the first page; the third of four pages is empty.
first_page : (find_all_posts pages query posts).items ≡ post_output (post 4 public false) ∷ []
unfolding find_all_posts map_to_output calculate_skip text_discrete
first_page = refl

third_page : (find_all_posts pages (record query { page_number = 3 }) posts).items ≡ []
unfolding find_all_posts map_to_output calculate_skip text_discrete
third_page = refl

find_user_posts_anonymous_example :
    (All (λ r. has_id 1 r ≡ false) (alice ∷ [])
      × (find_user_posts pages users 1 query none (alice ∷ []) posts ≡ none))
    ⊎ ((page : BasePaginatedOutputDto PostOutputDto) × ((n : ℕ)
          → find_user_posts pages users 1 (record query { page_number = n }) none (alice ∷ []) posts
            ≡ some page)
        × (page.page ≡ 1)
        × (length page.items ≤ 8)
        × ((o : PostOutputDto)
            → Has o page.items
            → (r : PostRecord) × Has r posts × (is_shown_of 1 r ≡ true) × (o ≡ post_output r)))
find_user_posts_anonymous_example = find_user_posts_anonymous pages query posts users 1 (alice ∷ [])
