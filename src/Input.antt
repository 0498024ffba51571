-- ===== src/Input.antt =====
-- What the `ValidationPipe` of the gateway lets through: the decorators of the DTOs of a body. The
-- checks of class-validator are a parameter; a regular expression is JavaScript's own.
pub mod Accounts
pub mod Profiles
pub mod Pipe
pub mod Rules
mod Examples
use photer_api.Base.{
  ℕ, ◌+◌, ◌≡◌, String, Bool, true, false, ◌&&◌, ◌||◌, Option, none, some, List, [], ◌∷◌, leb, ◌==◌,
  codes, points, every, truthy, trim, if◌then◌else◌,
}

-- `@Length` counts a pair of surrogates as one character.
pub record ClassValidator : Type 0 where
  pub is_length : (min max : ℕ) → String → Bool
  pub is_not_empty : String → Bool
  pub is_email : String → Bool
  pub is_uuid : (version : ℕ) → String → Bool
  -- `@Validate(MinAge, [13])`. `MinAge` is a decorator and not a class of constraints, so that nothing
  -- is relied on here.
  pub is_min_age : String → Bool
  pub is_length_lem :
      (min max : ℕ) (s : String)
      → is_length min max s ≡ (leb min (points (codes s)) && leb (points (codes s)) max)
  pub is_not_empty_lem : (s : String) → is_not_empty s ≡ truthy s

-- A field of a body is a text, or it is absent. `@IsOptional` passes an absent one.
abbrev pub is_given : (String → Bool) → Option String → Bool
is_given p none = false
is_given p (some s) = p s

abbrev pub optional : (String → Bool) → Option String → Bool
optional p none = true
optional p (some s) = p s

-- `@Trim`
abbrev pub trimmed : Option String → Option String
trimmed none = none
trimmed (some s) = some (trim s)

-- The properties that fail, in the order of the class.
abbrev pub failing : String → Bool → List String → List String
failing property passes others = if passes then others else property ∷ others

-- `[a-zA-Z0-9_-]`
abbrev pub is_word_char : ℕ → Bool
is_word_char c =
    (leb b'a' c && leb c b'z')
    || (leb b'A' c && leb c b'Z')
    || (leb b'0' c && leb c b'9')
    || c == b'_'
    || c == b'-'

-- `^[class]+$`
abbrev pub every_one : (ℕ → Bool) → String → Bool
every_one p s = truthy s && every p (codes s)
