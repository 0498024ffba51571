-- ===== src/Query.antt =====
-- apps/common/dto: the parameters of a query for a page, and the page that answers it.
pub mod Pager
pub mod Pages
pub mod Listing
pub mod Memory
use photer_api.Base.{
  ℕ, ◌+◌, ◌-◌, ◌*◌, ◌/◌, String, Bool, ◌&&◌, Option, none, some, List, leb, if◌then◌else◌,
}

pub data SortDirection : Type 0 where
  asc desc : SortDirection

-- A whole page number and size; class-validator refuses a text that is no number before.
pub record BaseQueryParams : Type 0 where
  pub page_number : ℕ
  pub page_size : ℕ
  pub sort_direction : SortDirection
  pub sort_by : String

-- The defaults of a request that names none of the fields.
abbrev pub default_query : BaseQueryParams
default_query = record {
  page_number = 1;
  page_size = 8;
  sort_direction = desc;
  sort_by = "createdAt";
}

-- `@Min(1)` of both fields, and `@Max(100)` of the size.
abbrev pub is_valid_query : BaseQueryParams → Bool
is_valid_query q = leb 1 q.page_number && leb 1 q.page_size && leb q.page_size 100

unfoldable pub calculate_skip : BaseQueryParams → ℕ
calculate_skip q = (q.page_number - 1) * q.page_size

pub record BasePaginatedOutputDto (A : Type 0) : Type 0 where
  pub items : List A
  pub total_count : ℕ
  pub pages_count : ℕ
  pub page : ℕ
  pub page_size : ℕ

-- `Math.ceil(totalCount / size)` of a size that is not 0.
unfoldable pub pages_count_of : (total_count size : ℕ) → ℕ
pages_count_of total_count size = (total_count + (size - 1)) / size

unfoldable pub map_to_output :
    {A : Type 0} → List A → (page size total_count : ℕ) → BasePaginatedOutputDto A
unfolding pages_count_of
map_to_output items page size total_count = record {
  items = items;
  total_count = total_count;
  pages_count = pages_count_of total_count size;
  page = page;
  page_size = size;
}
