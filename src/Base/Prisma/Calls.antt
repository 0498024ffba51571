-- ===== src/Base/Prisma/Calls.antt =====
-- What a call of the client has done, by how it ended.
use Prim.Native.Nat.{ℕ}
use mathlib.Core.Path.{◌≡◌, refl, ap, ◌∙◌}
use mathlib.Core.Logic.{inl, inr}
use mathlib.Core.Bool.{Bool, true, false}
use mathlib.Core.Option.{none, some}
use mathlib.Core.List.{List, ◌∷◌}
use photer_api.Base.Tests.{Option-cases}
use photer_api.Base.Effect.{ok, throws, rejection}
use photer_api.Base.Prisma.{
  Delegate, All, Has, All-Has, any, count, change, discard, run_update, run_update_many,
  run_delete_many, run_create, run_delete,
}

module _ {R : Type 0} {unique : R → R → Bool} (delegate : Delegate R unique) where
  -- A row that fits is found.
  pub find_first_hit :
      (p : R → Bool) (t : List R) {r : R}
      → Has r t
      → p r ≡ true
      → (x : R) × (delegate.find_first p t ≡ some x) × Has x t × (p x ≡ true)
  find_first_hit p t {r} h e = elim (Option-cases (delegate.find_first p t)) [
    | inl n ↦
        let miss : p r ≡ false = All-Has (λ x. p x ≡ false) t (delegate.find_first-none p t n) h in
        cc
    | inr (x, q) ↦ let (k, d) = delegate.find_first-some p t x q in (x, q, k, d)
  ]

  pub find_first_miss :
      (p : R → Bool) (t : List R) → All (λ r. p r ≡ false) t → delegate.find_first p t ≡ none
  find_first_miss p t a = elim (Option-cases (delegate.find_first p t)) [
    | inl n ↦ n
    | inr (x, q) ↦
        let (k, d) = delegate.find_first-some p t x q in
        let miss : p x ≡ false = All-Has (λ x. p x ≡ false) t a k in cc
  ]

  -- A new row that alone fits is the one that is found.
  pub find_first_only :
      (p : R → Bool) (t : List R) (r : R)
      → p r ≡ true
      → All (λ x. p x ≡ false) t
      → delegate.find_first p (r ∷ t) ≡ some r
  find_first_only p t r e a =
      let (x, q, k, b) = find_first_hit p (r ∷ t) {r = r} (inl refl) e in
      let is_new : x ≡ r = elim k [
        | inl h ↦ h
        | inr h ↦ let other : p x ≡ false = All-Has (λ z. p z ≡ false) t a h in cc
      ] in
      q ∙ ap (λ z. some z) is_new

  pub find_latest_miss :
      (key : R → ℕ) (p : R → Bool) (t : List R)
      → All (λ r. p r ≡ false) t
      → delegate.find_latest key p t ≡ none
  find_latest_miss key p t a = elim (Option-cases (delegate.find_latest key p t)) [
    | inl n ↦ n
    | inr (x, q) ↦
        let (k, d, l) = delegate.find_latest-some key p t x q in
        let miss : p x ≡ false = All-Has (λ x. p x ≡ false) t a k in cc
  ]

  pub run_update_many_lem :
      (p : R → Bool) (f : R → R) (t : List R)
      → run_update_many delegate p f t ≡ (ok (count p t), change p f t)
  run_update_many_lem p f t = rw (delegate.update_many_lem p f t, run_update_many)

  pub run_delete_many_lem :
      (p : R → Bool) (t : List R) → run_delete_many delegate p t ≡ (ok (count p t), discard p t)
  run_delete_many_lem p t = rw (delegate.delete_many_lem p t, run_delete_many)

  pub run_update_hit :
      (p : R → Bool) (f : R → R) (t : List R) {r : R}
      → delegate.find_first p t ≡ some r
      → run_update delegate p f t ≡ (ok (f r), change p f t)
  run_update_hit p f t e = rw (delegate.update_lem p f t, e, run_update)

  pub run_update_miss :
      (p : R → Bool) (f : R → R) (t : List R)
      → delegate.find_first p t ≡ none
      → run_update delegate p f t ≡ (throws (rejection "Record to update not found"), t)
  run_update_miss p f t e = rw (delegate.update_lem p f t, e, run_update)

  pub run_delete_hit :
      (p : R → Bool) (t : List R) {r : R}
      → delegate.find_first p t ≡ some r
      → run_delete delegate p t ≡ (ok tt, discard p t)
  run_delete_hit p t e = rw (delegate.delete_lem p t, e, run_delete)

  pub run_create_fresh :
      (r : R) (t : List R) → any (unique r) t ≡ false → run_create delegate r t ≡ (ok r, r ∷ t)
  run_create_fresh r t e = rw (delegate.create_lem r t, e, run_create)

  pub run_create_clash :
      (r : R) (t : List R)
      → any (unique r) t ≡ true
      → run_create delegate r t ≡ (throws (rejection "Unique constraint failed"), t)
  run_create_clash r t e = rw (delegate.create_lem r t, e, run_create)
