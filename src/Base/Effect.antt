-- ===== src/Base/Effect.antt =====
-- A handler's run: it reads and writes a state, and returns a value or throws.
use Prim.Native.String.{String}
use mathlib.Core.Path.{◌≡◌, refl}
use mathlib.Core.Logic.{◌⊎◌, inl, inr}

-- What is thrown: an `Error`, a `DomainValidationError` (apps/common/errors), or a rejection of a
-- database or a remote call.
pub data Exception : Type 0 where
  error : (message : String) → Exception
  domain_validation_error : (message field : String) → Exception
  rejection : (message : String) → Exception

-- `error.message`
abbrev pub message : Exception → String
message (error m) = m
message (domain_validation_error m f) = m
message (rejection m) = m

pub data Result {ℓ} (A : Type ℓ) : Type ℓ where
  ok : A → Result A
  throws : Exception → Result A

pub Result-cases :
    {A : Type 0} (r : Result A) → ((a : A) × (r ≡ ok a)) ⊎ ((e : Exception) × (r ≡ throws e))
Result-cases (ok a) = inl (a, refl)
Result-cases (throws e) = inr (e, refl)

-- What was written before a throw stays written.
abbrev pub Action : Type 0 → Type 0 → Type 0
Action S A = S → Result A × S

module _ {S A : Type 0} where
  abbrev pub pure : A → Action S A
  pure a s = (ok a, s)

  abbrev pub throw : Exception → Action S A
  throw e s = (throws e, s)

  -- `try { m } catch (e) { h(e) }`
  abbrev pub catching : Action S A → (Exception → Action S A) → Action S A
  catching m h s = let (r, s') = m s in elim r [ ok a ↦ (ok a, s') | throws e ↦ h e s' ]

  -- `$transaction`: a throw undoes the writes.
  abbrev pub transaction : Action S A → Action S A
  transaction m s = let (r, s') = m s in elim r [ ok a ↦ (ok a, s') | throws e ↦ (throws e, s) ]

  -- A promise of a remote call.
  abbrev pub settle : Result A → Action S A
  settle r s = (r, s)

abbrev pub modify : {S : Type 0} → (S → S) → Action S (Unit {0})
modify f s = (ok tt, f s)

infixl 5 ◌>>=◌ ◌>>◌
abbrev pub ◌>>=◌ : {S A B : Type 0} → Action S A → (A → Action S B) → Action S B
◌>>=◌ m f s = let (r, s') = m s in elim r [ ok a ↦ f a s' | throws e ↦ (throws e, s') ]

abbrev pub ◌>>◌ : {S A B : Type 0} → Action S A → Action S B → Action S B
m >> k = m >>= λ _. k

-- The state after an action whose outcome is only mapped, or whose failure is only answered.
module _ {S A : Type 0} where
  pub answered-state :
      {B : Type 0} (m : Action S A) (k : A → Action S B) (s : S)
      → ((a : A) (u : S) → (k a u).1 ≡ u)
      → ((m >>= k) s).1 ≡ (m s).1
  answered-state m k s h = elim (Result-cases (m s).0) [
    | inl (a, e) ↦ rw (e, ◌>>=◌) (h a (m s).1)
    | inr (x, e) ↦ rw (e, ◌>>=◌) refl
  ]

  pub mapped-state :
      {B : Type 0} (m : Action S A) (k : A → B) (s : S) → ((m >>= λ a. pure (k a)) s).1 ≡ (m s).1
  mapped-state m k s = answered-state m (λ a. pure (k a)) s (λ a u. refl)

  pub caught-state :
      (m : Action S A) (k : Exception → A) (s : S) → (catching m (λ e. pure (k e)) s).1 ≡ (m s).1
  caught-state m k s = elim (Result-cases (m s).0) [
    | inl (a, e) ↦ rw (e, catching) refl
    | inr (x, e) ↦ rw (e, catching) refl
  ]
