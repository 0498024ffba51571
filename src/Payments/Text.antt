-- ===== src/Payments/Text.antt =====
-- JavaScript's conversions between numbers and texts, where the payments service uses them.
pub mod Roundtrip
use Prim.Native.String.{String, ◌++◌}
use photer_api.Base.{
  ℕ, suc, zero, ◌+◌, ◌-◌, ◌*◌, ◌/◌, ◌%◌, Bool, ◌&&◌, Option, none, some, List, [], ◌∷◌, leb, ltb,
  ◌==◌, codes, if◌then◌else◌,
}

abbrev pub digit_text : ℕ → String
digit_text n =
    if n == 0
    then "0"
    else if n == 1
    then "1"
    else if n == 2
    then "2"
    else if n == 3
    then "3"
    else if n == 4
    then "4"
    else if n == 5
    then "5"
    else if n == 6
    then "6"
    else if n == 7
    then "7"
    else if n == 8
    then "8"
    else "9"

-- A number below ten is its digit; the fuel is a bound on the number of digits.
abbrev pub digits_text : (fuel n : ℕ) → String
digits_text zero n = ""
digits_text (suc fuel) n =
    let front = digits_text fuel (n / 10) in
    if ltb n 10 then digit_text n else front ++ digit_text (n % 10)

-- `String(n)`
unfoldable pub decimal : ℕ → String
decimal n = digits_text (suc n) n

abbrev pub is_digit : ℕ → Bool
is_digit c = leb b'0' c && leb c b'9'

-- The number that a text starts with, after the digits that are read.
abbrev pub leading : (read : Option ℕ) → List ℕ → Option ℕ
leading read [] = read
leading none (c ∷ cs) = if is_digit c then leading (some (c - b'0')) cs else none
leading (some n) (c ∷ cs) = if is_digit c then leading (some (n * 10 + (c - b'0'))) cs else some n

-- `parseInt(text, 10)` of a text without a sign or a leading space; `none` is `NaN`.
unfoldable pub parse_int : String → Option ℕ
parse_int s = leading none (codes s)
