-- ===== src/Base/Prisma.antt =====
-- The database client. Prisma is no code of the repository: a model's delegate (`prisma.device`,
-- `prisma.post`, and TypeORM's `Repository` in the payments service) is a parameter, with its
-- documented behaviour as laws over the rows of one table. A client that loses its connection is
-- outside these laws.
pub mod Rows
pub mod Memory
pub mod Calls
unfoldable pub use Rows.*
use photer_api.Base.Tests.{if◌then◌else◌}
use photer_api.Base.Effect.{Action, Result, ok, throws, rejection}
use Prim.Native.Nat.{ℕ, ◌≤◌}
use mathlib.Core.Path.{◌≡◌}
use mathlib.Core.Logic.{◌≢◌}
use mathlib.Core.Bool.{Bool, true, false}
use mathlib.Core.Option.{Option, none, some}
use mathlib.Core.List.{List, ◌∷◌}

-- `unique` says when two rows break a unique constraint of the schema.
pub record Delegate (R : Type 0) (unique : R → R → Bool) : Type 0 where
  -- `findFirst`, and `findUnique` where the condition names a unique field; `none` is `null`.
  pub find_first : (R → Bool) → List R → Option R
  -- `findFirst` with `orderBy: { key: 'desc' }`.
  pub find_latest : (R → ℕ) → (R → Bool) → List R → Option R
  -- `findMany`, in any order.
  pub find_many : (R → Bool) → List R → List R
  -- `update`, whose condition names a unique field; `none` is the error "record not found".
  pub update : (R → Bool) → (R → R) → List R → Option (R × List R)
  -- `updateMany`, with the number of the rows changed.
  pub update_many : (R → Bool) → (R → R) → List R → ℕ × List R
  -- `create`; `none` is the error of a unique constraint.
  pub create : R → List R → Option (List R)
  -- `delete`; `none` is the error "record not found".
  pub delete : (R → Bool) → List R → Option (List R)
  -- `deleteMany`, with the number of the rows deleted.
  pub delete_many : (R → Bool) → List R → ℕ × List R
  pub find_first-some :
      (p : R → Bool) (t : List R) (r : R) → find_first p t ≡ some r → Has r t × (p r ≡ true)
  pub find_first-none :
      (p : R → Bool) (t : List R) → find_first p t ≡ none → All (λ r. p r ≡ false) t
  pub find_latest-some :
      (key : R → ℕ) (p : R → Bool) (t : List R) (r : R)
      → find_latest key p t ≡ some r
      → Has r t × (p r ≡ true) × All (λ x. p x ≡ true → key x ≤ key r) t
  pub find_latest-none :
      (key : R → ℕ) (p : R → Bool) (t : List R)
      → find_latest key p t ≡ none
      → All (λ r. p r ≡ false) t
  pub find_many-sound :
      (p : R → Bool) (t : List R) (r : R) → Has r (find_many p t) → Has r t × (p r ≡ true)
  pub find_many-complete :
      (p : R → Bool) (t : List R) (r : R) → Has r t → p r ≡ true → Has r (find_many p t)
  pub update_lem :
      (p : R → Bool) (f : R → R) (t : List R)
      → update p f t ≡ updated f (change p f t) (find_first p t)
  pub update_many_lem :
      (p : R → Bool) (f : R → R) (t : List R) → update_many p f t ≡ (count p t, change p f t)
  pub create_lem :
      (r : R) (t : List R) → create r t ≡ (if any (unique r) t then none else some (r ∷ t))
  pub delete_lem : (p : R → Bool) (t : List R) → delete p t ≡ deleted (discard p t) (find_first p t)
  pub delete_many_lem : (p : R → Bool) (t : List R) → delete_many p t ≡ (count p t, discard p t)

-- `@default(autoincrement())`: the next value is no key of the table.
pub record Sequence (R : Type 0) (id : R → ℕ) : Type 0 where
  pub next_id : List R → ℕ
  pub next_id-fresh : (t : List R) → All (λ r. id r ≢ next_id t) t

-- The calls as actions on a table: a failed `update`, `create` or `delete` rejects.
module _ {R : Type 0} {unique : R → R → Bool} (delegate : Delegate R unique) where
  abbrev pub run_update : (R → Bool) → (R → R) → Action (List R) R
  run_update p f t = elim (delegate.update p f t) [
    | none ↦ (throws (rejection "Record to update not found"), t)
    | some (r, t') ↦ (ok r, t')
  ]

  abbrev pub run_update_many : (R → Bool) → (R → R) → Action (List R) ℕ
  run_update_many p f t = let (n, t') = delegate.update_many p f t in (ok n, t')

  abbrev pub run_create : R → Action (List R) R
  run_create r t = elim (delegate.create r t) [
    | none ↦ (throws (rejection "Unique constraint failed"), t)
    | some t' ↦ (ok r, t')
  ]

  abbrev pub run_delete : (R → Bool) → Action (List R) (Unit {0})
  run_delete p t = elim (delegate.delete p t) [
    | none ↦ (throws (rejection "Record to delete does not exist"), t)
    | some t' ↦ (ok tt, t')
  ]

  abbrev pub run_delete_many : (R → Bool) → Action (List R) ℕ
  run_delete_many p t = let (n, t') = delegate.delete_many p t in (ok n, t')
