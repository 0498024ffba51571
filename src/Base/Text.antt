-- ===== src/Base/Text.antt =====
-- JavaScript strings: strict equality, truthiness, `length` and `trim`.
use Prim.Native.Nat.{ℕ, ◌+◌}
use Prim.Native.Char.{Char, code}
use Prim.Native.String.{String}
use mathlib.Core.Path.{◌≡◌, refl}
use mathlib.Core.Bool.{Bool, true, false, not, ◌&&◌, ◌||◌}
use mathlib.Core.List.{List, [], ◌∷◌}
use photer_api.Base.Tests.{ltb, leb, ◌==◌, if◌then◌else◌}
use mathlib.Core.Logic.{◌≢◌}
use native.Mathlib.Omega.{arith}
use text.Mathlib.Text.{◌==◌ as str_eq}
use text.Mathlib.TextEquality.{eq_iff}

-- Whether two texts are one, with the proof.
text_cases : (s t : String) (b : Bool) → str_eq s t ≡ b → Dec (s ≡ t)
text_cases s t true e = yes ((eq_iff s t).0 e)
text_cases s t false e = no (λ p. cc (e, (eq_iff s t).1 p))

unfoldable pub text_discrete : Discrete String
unfolding text_cases
text_discrete s t = text_cases s t (str_eq s t) refl

-- `s === t`
infix 50 ◌===◌
abbrev pub ◌===◌ : String → String → Bool
s === t = elim (text_discrete s t) [ yes p ↦ true | no p ↦ false ]

-- A string is falsy when it is empty.
abbrev pub truthy : String → Bool
truthy s = not (s === "")

pub ne_of_test : (s t : String) → (s === t) ≡ false → s ≢ t
ne_of_test s t e = ground arith

-- The code points of a text.
abbrev pub codes : String → List ℕ
codes String.[] = []
codes (String.◌∷◌ c s) = code c ∷ codes s

-- The characters of a text, where a pair of surrogates is one.
abbrev pub points : List ℕ → ℕ
points [] = 0
points (c ∷ cs) = 1 + points cs

-- `length`: a code point outside the basic plane is two UTF-16 units.
abbrev pub units : List ℕ → ℕ
units [] = 0
units (c ∷ cs) = (if ltb c 0x10000 then 1 else 2) + units cs

unfoldable pub js_length : String → ℕ
js_length s = units (codes s)

-- A regular expression of the form `^[class]*$`.
abbrev pub every : (ℕ → Bool) → List ℕ → Bool
every p [] = true
every p (c ∷ cs) = p c && every p cs

-- White space and line ends of JavaScript.
abbrev pub is_space : ℕ → Bool
is_space c =
    (leb 9 c && leb c 13)
    || c == 32
    || c == 0xA0
    || c == 0x1680
    || (leb 0x2000 c && leb c 0x200A)
    || c == 0x2028
    || c == 0x2029
    || c == 0x202F
    || c == 0x205F
    || c == 0x3000
    || c == 0xFEFF

abbrev trim_start : String → String
trim_start String.[] = String.[]
trim_start (String.◌∷◌ c s) =
    let rest = trim_start s in if is_space (code c) then rest else String.◌∷◌ c s

abbrev put_char : Char → String → String
put_char c String.[] = if is_space (code c) then String.[] else String.◌∷◌ c String.[]
put_char c (String.◌∷◌ d s) = String.◌∷◌ c (String.◌∷◌ d s)

abbrev trim_end : String → String
trim_end String.[] = String.[]
trim_end (String.◌∷◌ c s) = put_char c (trim_end s)

-- `trim()`
unfoldable pub trim : String → String
trim s = trim_start (trim_end s)
