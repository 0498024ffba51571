-- ===== src/Query/Pages.antt =====
-- The pages of a list, one after the other.
use photer_api.Base.{
  ℕ, zero, suc, ◌+◌, ◌-◌, ◌*◌, ◌≤◌, ◌<◌, ◌≡◌, refl, sym, ap, ◌∙◌, List, [], ◌∷◌, ◌++◌, arith, Has,
  inl, inr,
}
use native.Mathlib.Nat.{div-add-mod', mod-lt}
use photer_api.Query.{pages_count_of}
use photer_api.Query.Pager.{length, take, drop}

module _ {R : Type 0} where
  -- The rows of the pages 1 to `n`.
  abbrev pub pages_to : (size n : ℕ) → List R → List R
  pages_to size zero xs = []
  pages_to size (suc n) xs = pages_to size n xs ++ take size (drop (n * size) xs)

  take-add : (m n : ℕ) (xs : List R) → take (m + n) xs ≡ take m xs ++ take n (drop m xs)
  take-add zero n xs = ap (λ k. take k xs) (omega arith)
  take-add (suc m) zero [] = ap (λ k. take k []) (let e : suc m + zero ≡ suc m = omega arith in e)
  take-add (suc m) (suc n) [] =
      ap (λ k. take k []) (let e : suc m + suc n ≡ suc (m + suc n) = omega arith in e)
  take-add (suc m) n (x ∷ xs) =
      ap (λ k. take k (x ∷ xs)) (let e : suc m + n ≡ suc (m + n) = omega arith in e)
      ∙ ap (λ ys. x ∷ ys) (take-add m n xs)

  take-all : (m : ℕ) (xs : List R) → length xs ≤ m → take m xs ≡ xs
  take-all zero [] h = refl
  take-all (suc m) [] h = refl
  take-all zero (x ∷ xs) h = absurd (omega (arith, h))
  take-all (suc m) (x ∷ xs) h = ap (λ ys. x ∷ ys) (take-all m xs (omega (arith, h)))

  pub drop-all : (m : ℕ) (xs : List R) → length xs ≤ m → drop m xs ≡ []
  drop-all zero [] h = refl
  drop-all (suc m) [] h = refl
  drop-all zero (x ∷ xs) h = absurd (omega (arith, h))
  drop-all (suc m) (x ∷ xs) h = drop-all m xs (omega (arith, h))

  pub length-take : (m : ℕ) (xs : List R) → length (take m xs) ≤ m
  length-take zero xs = omega arith
  length-take (suc m) [] = omega arith
  length-take (suc m) (x ∷ xs) = omega (arith, length-take m xs)

  pages_to-take : (size n : ℕ) (xs : List R) → pages_to size n xs ≡ take (n * size) xs
  pages_to-take size zero xs = ap (λ k. take k xs) (let e : 0 ≡ 0 * size = omega arith in e)
  pages_to-take size (suc n) xs = rw (pages_to-take size n xs) (
      sym (take-add (n * size) size xs)
      ∙ ap (λ k. take k xs) (let e : n * size + size ≡ suc n * size = omega arith in e))

pages_count-enough : (total size : ℕ) → 1 ≤ size → total ≤ pages_count_of total size * size
unfolding pages_count_of
pages_count-enough total size h =
    let positive : 0 < size = omega (arith, h) in
    let e = div-add-mod' (total + (size - 1)) size in
    let r = mod-lt (total + (size - 1)) positive in omega (arith, e, r, h)

module _ {R : Type 0} where
  -- The pages that a total counts hold the whole list, in its order, when the total is not too small.
  pub pages_cover :
      (size total : ℕ) (xs : List R)
      → 1 ≤ size
      → length xs ≤ total
      → pages_to size (pages_count_of total size) xs ≡ xs
  pages_cover size total xs h k =
      pages_to-take size (pages_count_of total size) xs
      ∙ take-all (pages_count_of total size * size) xs
          (omega (arith, k, pages_count-enough total size h))

  -- A page of a row that is not there is empty.
  pub page-empty : (size skip : ℕ) (xs : List R) → length xs ≤ skip → take size (drop skip xs) ≡ []
  page-empty zero skip xs h = refl
  page-empty (suc size) skip xs h = rw (drop-all skip xs h) refl

  Has-take : (n : ℕ) (xs : List R) (r : R) → Has r (take n xs) → Has r xs
  Has-take zero xs r h = absurd h
  Has-take (suc n) [] r h = absurd h
  Has-take (suc n) (x ∷ xs) r (inl e) = inl e
  Has-take (suc n) (x ∷ xs) r (inr h) = inr (Has-take n xs r h)

  Has-drop : (n : ℕ) (xs : List R) (r : R) → Has r (drop n xs) → Has r xs
  Has-drop zero xs r h = h
  Has-drop (suc n) [] r h = absurd h
  Has-drop (suc n) (x ∷ xs) r h = inr (Has-drop n xs r h)

  -- A row of a page is a row of the list.
  pub Has-page : (size skip : ℕ) (xs : List R) (r : R) → Has r (take size (drop skip xs)) → Has r xs
  Has-page size skip xs r h = Has-drop skip xs r (Has-take size (drop skip xs) r h)
