-- ===== src/Query/Pager.antt =====
-- `count` and `findMany` with `orderBy`, `skip` and `take`, and TypeORM's `getManyAndCount`: the
-- database client over the rows of a query, which is no code of the repository. Rows with one key
-- come in an order that the query and the rows decide.
use photer_api.Base.{
  ℕ, zero, suc, ◌≡◌, ◌↔◌, String, Bool, true, Option, some, List, [], ◌∷◌, Has, count, ◌≤◌,
}
use photer_api.Query.{SortDirection, asc, desc}

-- Two neighbours in the order of a key.
abbrev pub InOrder : SortDirection → ℕ → ℕ → Type 0
InOrder asc m n = m ≤ n
InOrder desc m n = n ≤ m

module _ {R : Type 0} where
  abbrev pub length : List R → ℕ
  length [] = 0
  length (x ∷ xs) = suc (length xs)

  abbrev pub take : ℕ → List R → List R
  take zero xs = []
  take (suc n) [] = []
  take (suc n) (x ∷ xs) = x ∷ take n xs

  abbrev pub drop : ℕ → List R → List R
  drop zero xs = xs
  drop (suc n) [] = []
  drop (suc n) (x ∷ xs) = drop n xs

  abbrev pub IsSorted : SortDirection → (R → ℕ) → List R → Type 0
  IsSorted direction key [] = Unit
  IsSorted direction key (x ∷ []) = Unit
  IsSorted direction key (x ∷ y ∷ ys) =
      InOrder direction (key x) (key y) × IsSorted direction key (y ∷ ys)

-- `column` gives the key of a column that holds a number or a date.
pub record Pager (R : Type 0) (column : String → Option (R → ℕ)) : Type 0 where
  -- `skip` and `take` are the last two numbers.
  pub find_page : (R → Bool) → String → SortDirection → ℕ → ℕ → List R → List R
  pub count_rows : (R → Bool) → List R → ℕ
  pub sorted : (R → Bool) → String → SortDirection → List R → List R
  pub sorted-Has :
      (p : R → Bool) (sort_by : String) (direction : SortDirection) (t : List R) (r : R)
      → Has r (sorted p sort_by direction t) ↔ (Has r t × (p r ≡ true))
  pub length-sorted :
      (p : R → Bool) (sort_by : String) (direction : SortDirection) (t : List R)
      → length (sorted p sort_by direction t) ≡ count p t
  pub sorted-IsSorted :
      (p : R → Bool) (sort_by : String) (direction : SortDirection) (t : List R) (key : R → ℕ)
      → column sort_by ≡ some key
      → IsSorted direction key (sorted p sort_by direction t)
  pub find_page_lem :
      (p : R → Bool) (sort_by : String) (direction : SortDirection) (skip size : ℕ) (t : List R)
      → find_page p sort_by direction skip size t
        ≡ take size (drop skip (sorted p sort_by direction t))
  pub count_rows_lem : (p : R → Bool) (t : List R) → count_rows p t ≡ count p t
