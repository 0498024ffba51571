-- ===== src/Query/Listing.antt =====
-- The answers to a query for each of its pages.
use photer_api.Base.{
  ℕ, zero, suc, ◌-◌, ◌*◌, ◌≤◌, ◌≡◌, refl, sym, ap, ◌∙◌, String, Bool, true, Option, List, [], ◌∷◌,
  ◌++◌, map, arith, count,
}
use photer_api.Query.{SortDirection, BasePaginatedOutputDto, map_to_output, pages_count_of}
use photer_api.Query.Pager.{Pager, length, take, drop}
use photer_api.Query.Pages.{pages_to, pages_cover}

map-append : {A B : Type 0} (f : A → B) (xs ys : List A) → map f (xs ++ ys) ≡ map f xs ++ map f ys
map-append f [] ys = refl
map-append f (x ∷ xs) ys = ap (λ zs. f x ∷ zs) (map-append f xs ys)

pub length-map : {A B : Type 0} (f : A → B) (xs : List A) → length (map f xs) ≡ length xs
length-map f [] = refl
length-map f (x ∷ xs) = ap suc (length-map f xs)

pub count-all : {A : Type 0} (xs : List A) → count (λ r. true) xs ≡ length xs
count-all [] = refl
count-all (x ∷ xs) = omega (arith, count-all xs)

pub count-le : {A : Type 0} (p : A → Bool) (xs : List A) → count p xs ≤ count (λ r. true) xs
count-le p [] = omega arith
count-le p (x ∷ xs) = ground (arith, count-le p xs)

-- The items of the answers to the pages 1 to `n`.
abbrev pub items_to : {A : Type 0} → (ℕ → BasePaginatedOutputDto A) → ℕ → List A
items_to answer zero = []
items_to answer (suc n) = items_to answer n ++ (answer (suc n)).items

module _ {R A : Type 0} {column : String → Option (R → ℕ)} (pager : Pager R column) (p : R → Bool)
    (sort_by : String) (direction : SortDirection) (size total : ℕ) (out : R → A) (t : List R) where
  abbrev rows : List R
  rows = pager.sorted p sort_by direction t

  abbrev answer : ℕ → BasePaginatedOutputDto A
  answer n =
      map_to_output (map out (pager.find_page p sort_by direction ((n - 1) * size) size t)) n size
        total

  answer-items : (n : ℕ) → (answer (suc n)).items ≡ map out (take size (drop (n * size) rows))
  unfolding map_to_output
  answer-items n =
      let skip : (suc n - 1) * size ≡ n * size = ap (λ k. k * size) (omega arith) in
      ap (map out) (
        pager.find_page_lem p sort_by direction ((suc n - 1) * size) size t
        ∙ ap (λ k. take size (drop k rows)) skip)

  items_to-pages : (n : ℕ) → items_to answer n ≡ map out (pages_to size n rows)
  items_to-pages zero = refl
  items_to-pages (suc n) =
      rw (items_to-pages n, answer-items n)
        (sym (map-append out (pages_to size n rows) (take size (drop (n * size) rows))))

  -- The answers that a total counts hold every row of the query, in its order.
  pub items_to-all :
      1 ≤ size → count p t ≤ total → items_to answer (pages_count_of total size) ≡ map out rows
  items_to-all h k =
      items_to-pages (pages_count_of total size)
      ∙ ap (map out) (
          pages_cover size total rows h
            (omega (arith, k, pager.length-sorted p sort_by direction t)))
