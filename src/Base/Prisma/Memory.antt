-- ===== src/Base/Prisma/Memory.antt =====
-- A client over an in-memory list. It meets the laws, so that what is proved of every client is
-- proved of something.
use Prim.Native.Nat.{ℕ, suc, ◌≤◌, max}
use mathlib.Core.Path.{◌≡◌, refl, subst}
use mathlib.Core.Logic.{◌≢◌, inl, inr}
use mathlib.Core.Bool.{Bool, true, false}
use mathlib.Core.Option.{Option, none, some}
use mathlib.Core.List.{List, [], ◌∷◌}
use native.Mathlib.Omega.{arith}
use photer_api.Base.Tests.{if◌then◌else◌, leb, Bool-cases, Option-cases}
use photer_api.Base.Prisma.{
  Delegate, Sequence, All, Has, any, count, change, select, discard, updated, deleted,
}

module _ {R : Type 0} where
  abbrev first : (R → Bool) → List R → Option R
  first p [] = none
  first p (x ∷ xs) = if p x then some x else first p xs

  pub first-some : (p : R → Bool) (t : List R) (r : R) → first p t ≡ some r → Has r t × (p r ≡ true)
  first-some p [] r e = cc
  first-some p (x ∷ xs) r e = elim (Bool-cases (p x)) [
    | inl h ↦ (inl (ground arith), ground arith)
    | inr h ↦ let (k, q) = first-some p xs r (ground arith) in (inr k, q)
  ]

  pub first-none : (p : R → Bool) (t : List R) → first p t ≡ none → All (λ r. p r ≡ false) t
  first-none p [] e = tt
  first-none p (x ∷ xs) e = (ground arith, first-none p xs (ground arith))

  -- The better of a row and the best of the rest.
  abbrev better : (R → ℕ) → R → Option R → Option R
  better key x none = some x
  better key x (some y) = if leb (key y) (key x) then some x else some y

  abbrev latest : (R → ℕ) → (R → Bool) → List R → Option R
  latest key p [] = none
  latest key p (x ∷ xs) = let best = latest key p xs in if p x then better key x best else best

  pub latest-none :
      (key : R → ℕ) (p : R → Bool) (t : List R) → latest key p t ≡ none → All (λ r. p r ≡ false) t
  latest-none key p [] e = tt
  latest-none key p (x ∷ xs) e = (ground arith, latest-none key p xs (ground arith))

  Below-mono :
      (key : R → ℕ) (p : R → Bool) {m n : ℕ} (t : List R)
      → m ≤ n
      → All (λ x. p x ≡ true → key x ≤ m) t
      → All (λ x. p x ≡ true → key x ≤ n) t
  Below-mono key p [] h a = tt
  Below-mono key p (x ∷ xs) h a = ((λ e. omega (arith, a.0 e)), Below-mono key p xs h a.1)

  none-Below :
      (key : R → ℕ) (p : R → Bool) (n : ℕ) (t : List R)
      → All (λ r. p r ≡ false) t
      → All (λ x. p x ≡ true → key x ≤ n) t
  none-Below key p n [] a = tt
  none-Below key p n (x ∷ xs) a = ((λ e. cc), none-Below key p n xs a.1)

  abbrev IsLatest : (R → ℕ) → (R → Bool) → List R → R → Type 0
  IsLatest key p t r = Has r t × (p r ≡ true) × All (λ x. p x ≡ true → key x ≤ key r) t

  pub latest-some :
      (key : R → ℕ) (p : R → Bool) (t : List R) (r : R)
      → latest key p t ≡ some r
      → IsLatest key p t r
  latest-some key p [] r e = cc
  latest-some key p (x ∷ xs) r e = elim (Bool-cases (p x)) [
    | inl h ↦ elim (Option-cases (latest key p xs)) [
      | inl k ↦
          let same : r ≡ x = ground arith in
          let rest = none-Below key p (key r) xs (latest-none key p xs k) in
          (inl same, rw same h, ((λ q. rw same (omega arith)), rest))
      | inr (y, k) ↦
          let (in_rest, holds, above) = latest-some key p xs y k in
          elim (Bool-cases (leb (key y) (key x))) [
            | inl le ↦
                let same : r ≡ x = ground arith in
                let rest = Below-mono key p {m = key y} {n = key r} xs (ground arith) above in
                (inl same, rw same h, ((λ q. rw same (omega arith)), rest))
            | inr gt ↦
                let same : y ≡ r = ground arith in
                subst (λ z. IsLatest key p (x ∷ xs) z) same
                  (inr in_rest, holds, ((λ q. ground arith), above))
          ]
    ]
    | inr h ↦ let (k, q, b) = latest-some key p xs r (ground arith) in (inr k, q, ((λ e'. cc), b))
  ]

  pub select_sound :
      (p : R → Bool) (t : List R) (r : R) → Has r (select p t) → Has r t × (p r ≡ true)
  select_sound p [] r h = absurd h
  select_sound p (x ∷ xs) r h = ground (arith, select_sound p xs r)

  pub select_complete :
      (p : R → Bool) (t : List R) (r : R) → Has r t → p r ≡ true → Has r (select p t)
  select_complete p [] r h e = absurd h
  select_complete p (x ∷ xs) r h e = ground (arith, select_complete p xs r)

  -- A client over the list of rows.
  abbrev pub list_delegate : (unique : R → R → Bool) → Delegate R unique
  list_delegate unique = record {
    find_first = first;
    find_latest = latest;
    find_many = select;
    update = λ p f t. updated f (change p f t) (first p t);
    update_many = λ p f t. (count p t, change p f t);
    create = λ r t. if any (unique r) t then none else some (r ∷ t);
    delete = λ p t. deleted (discard p t) (first p t);
    delete_many = λ p t. (count p t, discard p t);
    find_first-some = first-some;
    find_first-none = first-none;
    find_latest-some = latest-some;
    find_latest-none = latest-none;
    find_many-sound = select_sound;
    find_many-complete = select_complete;
    update_lem = λ p f t. refl;
    update_many_lem = λ p f t. refl;
    create_lem = λ r t. refl;
    delete_lem = λ p t. refl;
    delete_many_lem = λ p t. refl;
  }

  -- The least key above all keys of the table.
  abbrev above : (R → ℕ) → List R → ℕ
  above id [] = 1
  above id (x ∷ xs) = max (suc (id x)) (above id xs)

  pub above-fresh : (id : R → ℕ) (t : List R) (n : ℕ) → above id t ≤ n → All (λ r. id r ≢ n) t
  above-fresh id [] n h = tt
  above-fresh id (x ∷ xs) n h = (omega arith, above-fresh id xs n (omega arith))

  abbrev pub list_sequence : (id : R → ℕ) → Sequence R id
  list_sequence id = record {
    next_id = above id;
    next_id-fresh = λ t. above-fresh id t (above id t) (omega arith);
  }
