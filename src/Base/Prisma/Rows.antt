-- ===== src/Base/Prisma/Rows.antt =====
-- The rows of a table as a list, and what a condition selects of them.
use Prim.Native.Nat.{ℕ, ◌+◌}
use mathlib.Core.Path.{◌≡◌, refl, sym, ap, subst}
use mathlib.Core.Logic.{◌⊎◌, inl, inr}
use mathlib.Core.Bool.{Bool, true, false, ◌||◌}
use mathlib.Core.Option.{Option, none, some}
use mathlib.Core.List.{List, [], ◌∷◌, map}
use native.Mathlib.Omega.{arith}
use photer_api.Base.Tests.{if◌then◌else◌, Bool-cases}

module _ {R : Type 0} where
  abbrev pub All {ℓ} : (R → Type ℓ) → List R → Type ℓ
  All P [] = Unit
  All P (x ∷ xs) = P x × All P xs

  abbrev pub Has : R → List R → Type 0
  Has r [] = ⊥
  Has r (x ∷ xs) = (r ≡ x) ⊎ Has r xs

  abbrev pub any : (R → Bool) → List R → Bool
  any p [] = false
  any p (x ∷ xs) = p x || any p xs

  abbrev pub count : (R → Bool) → List R → ℕ
  count p [] = 0
  count p (x ∷ xs) = (if p x then 1 else 0) + count p xs

  -- The rows that `p` selects, changed by `f`.
  abbrev pub change : (R → Bool) → (R → R) → List R → List R
  change p f [] = []
  change p f (x ∷ xs) = (if p x then f x else x) ∷ change p f xs

  abbrev pub select : (R → Bool) → List R → List R
  select p [] = []
  select p (x ∷ xs) = let rest = select p xs in if p x then x ∷ rest else rest

  abbrev pub discard : (R → Bool) → List R → List R
  discard p [] = []
  discard p (x ∷ xs) = let rest = discard p xs in if p x then rest else x ∷ rest

  -- The outcome of `update` and of `delete`, by the row that the condition finds.
  abbrev pub updated : (R → R) → List R → Option R → Option (R × List R)
  updated f t none = none
  updated f t (some r) = some (f r, t)

  abbrev pub deleted : List R → Option R → Option (List R)
  deleted t none = none
  deleted t (some r) = some t

  pub All-Has {ℓ} : (P : R → Type ℓ) (t : List R) {r : R} → All P t → Has r t → P r
  All-Has P [] a h = absurd h
  All-Has P (x ∷ xs) a (inl e) = subst P (sym e) a.0
  All-Has P (x ∷ xs) a (inr h) = All-Has P xs a.1 h

  pub Has-All {ℓ} : (P : R → Type ℓ) (t : List R) → ((r : R) → Has r t → P r) → All P t
  Has-All P [] h = tt
  Has-All P (x ∷ xs) h = (h x (inl refl), Has-All P xs (λ r k. h r (inr k)))

  pub Has-discard :
      (p : R → Bool) (t : List R) {r : R} → Has r t → p r ≡ false → Has r (discard p t)
  Has-discard p [] h e = h
  Has-discard p (x ∷ xs) {r} h e = elim (Bool-cases (p x)) [
    | inl m ↦
        rw m (elim h [ inl k ↦ let same : p r ≡ p x = ap p k in cc | inr k ↦ Has-discard p xs k e ])
    | inr m ↦ rw m (elim h [ inl k ↦ inl k | inr k ↦ inr (Has-discard p xs k e) ])
  ]

  pub All-map_of {ℓ κ} :
      (P : R → Type ℓ) (Q : R → Type κ) (t : List R) → ((r : R) → P r → Q r) → All P t → All Q t
  All-map_of P Q [] h a = tt
  All-map_of P Q (x ∷ xs) h a = (h x a.0, All-map_of P Q xs h a.1)

  -- A statement about every row after a change, from one about every row before it.
  pub All-change {ℓ κ} :
      (P : R → Type ℓ) (Q : R → Type κ) (p : R → Bool) (f : R → R) (t : List R)
      → ((r : R) → P r → p r ≡ true → Q (f r))
      → ((r : R) → P r → p r ≡ false → Q r)
      → All P t
      → All Q (change p f t)
  All-change P Q p f [] hit miss a = tt
  All-change P Q p f (x ∷ xs) hit miss a = elim (Bool-cases (p x)) [
    | inl e ↦ (rw e (hit x a.0 e), All-change P Q p f xs hit miss a.1)
    | inr e ↦ (rw e (miss x a.0 e), All-change P Q p f xs hit miss a.1)
  ]

  pub All-true : (t : List R) → All (λ r. Unit {0}) t
  All-true [] = tt
  All-true (x ∷ xs) = (tt, All-true xs)

  pub All-discard {ℓ} : (P : R → Type ℓ) (p : R → Bool) (t : List R) → All P t → All P (discard p t)
  All-discard P p [] a = tt
  All-discard P p (x ∷ xs) a = elim (Bool-cases (p x)) [
    | inl e ↦ rw e (All-discard P p xs a.1)
    | inr e ↦ rw e (a.0, All-discard P p xs a.1)
  ]

  pub any-none : (p : R → Bool) (t : List R) → All (λ r. p r ≡ false) t → any p t ≡ false
  any-none p [] a = refl
  any-none p (x ∷ xs) a = rw a.0 (any-none p xs a.1)

  pub discard-none : (p : R → Bool) (t : List R) → All (λ r. p r ≡ false) t → discard p t ≡ t
  discard-none p [] a = refl
  discard-none p (x ∷ xs) a = rw (a.0, discard-none p xs a.1)

  pub change-miss :
      (p : R → Bool) (f : R → R) (t : List R) → All (λ r. p r ≡ false) t → change p f t ≡ t
  change-miss p f [] a = refl
  change-miss p f (x ∷ xs) a = rw (a.0, change-miss p f xs a.1)

  -- A change after which no row is selected, and the rows that it leaves alone.
  pub change-none :
      (p : R → Bool) (f : R → R) (t : List R)
      → ((r : R) → p (f r) ≡ false)
      → All (λ r. p r ≡ false) (change p f t)
  change-none p f t h =
      All-change (λ r. Unit {0}) (λ r. p r ≡ false) p f t (λ r _ _. h r) (λ r _ e. e) (All-true t)

  pub Has-change :
      (p : R → Bool) (f : R → R) (t : List R) {r : R} → Has r t → p r ≡ false → Has r (change p f t)
  Has-change p f [] h e = h
  Has-change p f (x ∷ xs) (inl k) e = inl (ground arith)
  Has-change p f (x ∷ xs) (inr k) e = inr (Has-change p f xs k e)

  pub Has-change_hit :
      (p : R → Bool) (f : R → R) (t : List R) {r : R}
      → Has r t
      → p r ≡ true
      → Has (f r) (change p f t)
  Has-change_hit p f [] h e = absurd h
  Has-change_hit p f (x ∷ xs) (inl k) e = inl (ground arith)
  Has-change_hit p f (x ∷ xs) (inr k) e = inr (Has-change_hit p f xs k e)

  -- A row after a change was there before it, or is the changed version of one that was selected.
  pub Has-change_inv :
      (p : R → Bool) (f : R → R) (t : List R) {r : R}
      → Has r (change p f t)
      → (Has r t × (p r ≡ false)) ⊎ ((x : R) × Has x t × (p x ≡ true) × (r ≡ f x))
  Has-change_inv p f [] h = absurd h
  Has-change_inv p f (x ∷ xs) (inl k) = elim (Bool-cases (p x)) [
    | inl e ↦ inr (x, inl refl, e, ground arith)
    | inr e ↦ inl (inl (ground arith), ground arith)
  ]
  Has-change_inv p f (x ∷ xs) (inr k) = elim (Has-change_inv p f xs k) [
    | inl (a, e) ↦ inl (inr a, e)
    | inr (y, a, e, q) ↦ inr (y, inr a, e, q)
  ]

pub Has-map_inv :
    {R Q : Type 0} (f : R → Q) (t : List R) {o : Q}
    → Has o (map f t)
    → (r : R) × Has r t × (o ≡ f r)
Has-map_inv f [] h = absurd h
Has-map_inv f (x ∷ xs) (inl e) = (x, inl refl, e)
Has-map_inv f (x ∷ xs) (inr h) = let (r, k, e) = Has-map_inv f xs h in (r, inr k, e)

pub Has-map : {R Q : Type 0} (f : R → Q) (t : List R) (r : R) → Has r t → Has (f r) (map f t)
Has-map f [] r h = h
Has-map f (x ∷ xs) r (inl e) = inl (ap f e)
Has-map f (x ∷ xs) r (inr h) = inr (Has-map f xs r h)
