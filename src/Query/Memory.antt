-- ===== src/Query/Memory.antt =====
-- A client that answers the queries over an in-memory list. It meets the laws, so that what is proved
-- of every client is proved of something.
use photer_api.Base.{
  ℕ, suc, ◌≡◌, refl, ap, ◌∙◌, ◌↔◌, inl, inr, String, Bool, true, false, Option, none, some, List,
  [], ◌∷◌, arith, leb, Has, count, select, Bool-cases, if◌then◌else◌,
}
use photer_api.Base.Prisma.Memory.{select_sound, select_complete}
use photer_api.Query.{SortDirection, asc, desc}
use photer_api.Query.Pager.{Pager, InOrder, IsSorted, length, take, drop}

abbrev is_before : SortDirection → ℕ → ℕ → Bool
is_before asc m n = leb m n
is_before desc m n = leb n m

before-InOrder : (d : SortDirection) (m n : ℕ) → is_before d m n ≡ true → InOrder d m n
before-InOrder asc m n e = ground (arith, e)
before-InOrder desc m n e = ground (arith, e)

after-InOrder : (d : SortDirection) (m n : ℕ) → is_before d m n ≡ false → InOrder d n m
after-InOrder asc m n e = ground (arith, e)
after-InOrder desc m n e = ground (arith, e)

module _ {R : Type 0} where
  abbrev insert : SortDirection → (R → ℕ) → R → List R → List R
  insert d key x [] = x ∷ []
  insert d key x (y ∷ ys) =
      let rest = insert d key x ys in if is_before d (key x) (key y) then x ∷ y ∷ ys else y ∷ rest

  abbrev sort : SortDirection → (R → ℕ) → List R → List R
  sort d key [] = []
  sort d key (x ∷ xs) = insert d key x (sort d key xs)

  abbrev ordered : Option (R → ℕ) → SortDirection → List R → List R
  ordered none d xs = xs
  ordered (some key) d xs = sort d key xs

  length-insert :
      (d : SortDirection) (key : R → ℕ) (x : R) (xs : List R)
      → length (insert d key x xs) ≡ suc (length xs)
  length-insert d key x [] = refl
  length-insert d key x (y ∷ ys) = elim (Bool-cases (is_before d (key x) (key y))) [
    | inl e ↦ rw e refl
    | inr e ↦ rw e (ap suc (length-insert d key x ys))
  ]

  pub length-ordered :
      (c : Option (R → ℕ)) (d : SortDirection) (xs : List R) → length (ordered c d xs) ≡ length xs
  length-ordered none d xs = refl
  length-ordered (some key) d [] = refl
  length-ordered (some key) d (x ∷ xs) =
      length-insert d key x (sort d key xs) ∙ ap suc (length-ordered (some key) d xs)

  Has-insert :
      (d : SortDirection) (key : R → ℕ) (x r : R) (xs : List R)
      → Has r (insert d key x xs) ↔ Has r (x ∷ xs)
  Has-insert d key x r [] = ((λ h. h), λ h. h)
  Has-insert d key x r (y ∷ ys) = elim (Bool-cases (is_before d (key x) (key y))) [
    | inl e ↦ rw e ((λ h. h), λ h. h)
    | inr e ↦
        let ih = Has-insert d key x r ys in
        rw e (
          (λ h. elim h [
            | inl k ↦ inr (inl k)
            | inr k ↦ elim (ih.0 k) [ inl j ↦ inl j | inr j ↦ inr (inr j) ]
          ]),
          λ h. elim h [
            | inl k ↦ inr (ih.1 (inl k))
            | inr (inl k) ↦ inl k
            | inr (inr k) ↦ inr (ih.1 (inr k))
          ],
        )
  ]

  pub Has-ordered :
      (c : Option (R → ℕ)) (d : SortDirection) (r : R) (xs : List R)
      → Has r (ordered c d xs) ↔ Has r xs
  Has-ordered none d r xs = ((λ h. h), λ h. h)
  Has-ordered (some key) d r [] = ((λ h. h), λ h. h)
  Has-ordered (some key) d r (x ∷ xs) =
      let ih = Has-ordered (some key) d r xs in
      let step = Has-insert d key x r (sort d key xs) in
      (
        (λ h. elim (step.0 h) [ inl k ↦ inl k | inr k ↦ inr (ih.0 k) ]),
        λ h. step.1 (elim h [ inl k ↦ inl k | inr k ↦ inr (ih.1 k) ]),
      )

  insert-IsSorted :
      (d : SortDirection) (key : R → ℕ) (x : R) (xs : List R)
      → IsSorted d key xs
      → IsSorted d key (insert d key x xs)
  insert-IsSorted d key x [] s = tt
  insert-IsSorted d key x (y ∷ []) s = elim (Bool-cases (is_before d (key x) (key y))) [
    | inl e ↦ rw e (before-InOrder d (key x) (key y) e, tt)
    | inr e ↦ rw e (after-InOrder d (key x) (key y) e, tt)
  ]
  insert-IsSorted d key x (y ∷ z ∷ zs) s = elim (Bool-cases (is_before d (key x) (key y))) [
    | inl e ↦ rw e (before-InOrder d (key x) (key y) e, s)
    | inr e ↦
        let ih = insert-IsSorted d key x (z ∷ zs) s.1 in
        elim (Bool-cases (is_before d (key x) (key z))) [
          | inl f ↦
              let order = before-InOrder d (key x) (key z) f in
              let rest : IsSorted d key (x ∷ z ∷ zs) = (order, s.1) in
              rw (e, f) (after-InOrder d (key x) (key y) e, rest)
          | inr f ↦ rw (e, f) (s.0, rw f at ih)
        ]
  ]

  sort-IsSorted : (d : SortDirection) (key : R → ℕ) (xs : List R) → IsSorted d key (sort d key xs)
  sort-IsSorted d key [] = tt
  sort-IsSorted d key (x ∷ xs) = insert-IsSorted d key x (sort d key xs) (sort-IsSorted d key xs)

  pub ordered-IsSorted :
      (c : Option (R → ℕ)) (d : SortDirection) (xs : List R) (key : R → ℕ)
      → c ≡ some key
      → IsSorted d key (ordered c d xs)
  ordered-IsSorted c d xs key e = rw e (sort-IsSorted d key xs)

  pub length-select : (p : R → Bool) (xs : List R) → length (select p xs) ≡ count p xs
  length-select p [] = refl
  length-select p (x ∷ xs) = ground (arith, length-select p xs)

  pub Has-select :
      (p : R → Bool) (xs : List R) (r : R) → Has r (select p xs) ↔ (Has r xs × (p r ≡ true))
  Has-select p xs r = ((λ h. select_sound p xs r h), λ (h, e). select_complete p xs r h e)

  abbrev pub list_pager : (column : String → Option (R → ℕ)) → Pager R column
  list_pager column = record {
    find_page = λ p c d skip size t. take size (drop skip (ordered (column c) d (select p t)));
    count_rows = count;
    sorted = λ p c d t. ordered (column c) d (select p t);
    sorted-Has = λ p c d t r.
        let (f, g) = Has-ordered (column c) d r (select p t) in
        let (f', g') = Has-select p t r in ((λ h. f' (f h)), λ h. g (g' h));
    length-sorted = λ p c d t. length-ordered (column c) d (select p t) ∙ length-select p t;
    sorted-IsSorted = λ p c d t key e. ordered-IsSorted (column c) d (select p t) key e;
    find_page_lem = λ p c d skip size t. refl;
    count_rows_lem = λ p t. refl;
  }
