-- ===== src/Payments/Text/Roundtrip.antt =====
-- A number as a text, and back.
use Prim.Native.Char.{Char, code}
use Prim.Native.String.{String, ◌++◌}
use text.Mathlib.TextLemmas.{cons-append, nil-append, append-nil, append_assoc}
use native.Mathlib.Nat.{div-add-mod', mod-lt}
use photer_api.Base.{
  ℕ, suc, zero, ◌+◌, ◌/◌, ◌%◌, ◌≤◌, ◌<◌, ◌≡◌, sym, ap, ◌∙◌, true, none, some, ◌∷◌, ltb, codes,
  arith, inl, inr, Bool-cases,
}
use photer_api.Payments.Text.{digit_text, digits_text, decimal, is_digit, leading, parse_int}

char-append : (c : Char) (s : String) → codes (String.◌∷◌ c "" ++ s) ≡ code c ∷ codes s
char-append c s = ap codes (cons-append c "" s ∙ ap (λ z. String.◌∷◌ c z) (nil-append s))

codes-digit : (d : ℕ) (s : String) → d < 10 → codes (digit_text d ++ s) ≡ (b'0' + d) ∷ codes s
codes-digit d s h =
    let d0 : codes ("0" ++ s) ≡ 48 ∷ codes s = char-append "0" s in
    let d1 : codes ("1" ++ s) ≡ 49 ∷ codes s = char-append "1" s in
    let d2 : codes ("2" ++ s) ≡ 50 ∷ codes s = char-append "2" s in
    let d3 : codes ("3" ++ s) ≡ 51 ∷ codes s = char-append "3" s in
    let d4 : codes ("4" ++ s) ≡ 52 ∷ codes s = char-append "4" s in
    let d5 : codes ("5" ++ s) ≡ 53 ∷ codes s = char-append "5" s in
    let d6 : codes ("6" ++ s) ≡ 54 ∷ codes s = char-append "6" s in
    let d7 : codes ("7" ++ s) ≡ 55 ∷ codes s = char-append "7" s in
    let d8 : codes ("8" ++ s) ≡ 56 ∷ codes s = char-append "8" s in
    let d9 : codes ("9" ++ s) ≡ 57 ∷ codes s = char-append "9" s in ground arith

-- The digits of a number are read as that number, whatever stands behind them.
leading-digits :
    (fuel n : ℕ) (s : String)
    → n < fuel
    → leading none (codes (digits_text fuel n ++ s)) ≡ leading (some n) (codes s)
leading-digits zero n s h = absurd (omega (arith, h))
leading-digits (suc fuel) n s h = elim (Bool-cases (ltb n 10)) [
  | inl small ↦ rw small (
      let d = codes-digit n s (ground (arith, small)) in
      let here : is_digit (b'0' + n) ≡ true = ground (arith, small) in
      rw (d, here) (ap (λ k. leading (some k) (codes s)) (omega arith)))
  | inr large ↦ rw large (
      let big : 10 ≤ n = ground (arith, large) in
      let low = mod-lt n (let e : 0 < 10 = omega arith in e) in
      let whole = div-add-mod' n 10 in
      let d = codes-digit (n % 10) s low in
      let here : is_digit (b'0' + n % 10) ≡ true = ground (arith, low) in
      let ih = leading-digits fuel (n / 10) (digit_text (n % 10) ++ s) (omega (arith, h, big)) in
      ap (λ z. leading none (codes z))
        (append_assoc (digits_text fuel (n / 10)) (digit_text (n % 10)) s)
      ∙ ih
      ∙ rw (d, here) (ap (λ k. leading (some k) (codes s)) (omega (arith, whole))))
]

-- A number's text is read as the number.
pub parse_int-decimal : (n : ℕ) → parse_int (decimal n) ≡ some n
unfolding parse_int decimal
parse_int-decimal n =
    ap (λ z. leading none (codes z)) (sym (append-nil (digits_text (suc n) n)))
    ∙ leading-digits (suc n) n "" (omega arith)

pub decimal_injective : (m n : ℕ) → decimal m ≡ decimal n → m ≡ n
decimal_injective m n e =
    let same : some m ≡ some n = sym (parse_int-decimal m) ∙ ap parse_int e ∙ parse_int-decimal n in
    ground (arith, same)
