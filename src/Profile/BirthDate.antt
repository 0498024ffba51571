-- ===== src/Profile/BirthDate.antt =====
-- The date of birth of a profile: apps/gateway/base/utils/parse-date-from-DdMmYyyy.ts, and the age of
-- apps/gateway/src/core/decorators/custom/min-age.decorator.ts. A date is the one that its local
-- getters show; a month counts from 1.
pub mod Calendar
mod Examples
use photer_api.Base.{
  ℕ, zero, suc, ◌+◌, ◌-◌, ◌*◌, ◌/◌, ◌%◌, String, Bool, true, false, not, ◌&&◌, ◌||◌, Option, none,
  some, List, [], ◌∷◌, leb, ltb, ◌==◌, codes, if◌then◌else◌,
}

pub record Civil : Type 0 where
  pub year : ℕ
  pub month : ℕ
  pub day : ℕ

abbrev pub is_leap : ℕ → Bool
is_leap y = y % 4 == 0 && not (y % 100 == 0) || y % 400 == 0

abbrev pub days_in_month : ℕ → ℕ → ℕ
days_in_month y m =
    if m == 2
    then (if is_leap y then 29 else 28)
    else if m == 4 || m == 6 || m == 9 || m == 11
    then 30
    else 31

abbrev next_year : ℕ → ℕ → ℕ
next_year y m = if m == 12 then y + 1 else y

abbrev next_month : ℕ → ℕ
next_month m = if m == 12 then 1 else m + 1

-- The day `d` of a month that has fewer days is one of a later month.
unfoldable pub roll : (fuel y m d : ℕ) → Option Civil
roll zero y m d = none
roll (suc fuel) y m d =
    let later = roll fuel (next_year y m) (next_month m) (d - days_in_month y m) in
    if leb d (days_in_month y m) then some (record { year = y; month = m; day = d }) else later

-- Years up to 99 are of the twentieth century.
abbrev pub full_year : ℕ → ℕ
full_year y = if leb y 99 then 1900 + y else y

-- `new Date(year, month - 1, day)`: months over 12 and under 1 run into other years, and the day 0 is
-- the last of the month before.
unfoldable pub new_date : (year month day : ℕ) → Option Civil
unfolding roll
new_date year month day =
    let months = full_year year * 12 + month - 1 in
    let before = months - 1 in
    if day == 0
    then some (record {
      year = before / 12;
      month = before % 12 + 1;
      day = days_in_month (before / 12) (before % 12 + 1);
    })
    else roll (suc day) (months / 12) (months % 12 + 1) day

abbrev pub is_digit : ℕ → Bool
is_digit c = leb b'0' c && leb c b'9'

abbrev pub digit : ℕ → ℕ
digit c = c - b'0'

-- The three numbers of a text that fits `^\d{2}\.\d{2}\.\d{4}$`: the day, the month and the year.
abbrev pub numbers : List ℕ → Option (ℕ × ℕ × ℕ)
numbers (a ∷ b ∷ p ∷ c ∷ d ∷ q ∷ e ∷ f ∷ g ∷ h ∷ []) =
    if is_digit a
      && is_digit b
      && p == b'.'
      && is_digit c
      && is_digit d
      && q == b'.'
      && is_digit e
      && is_digit f
      && is_digit g
      && is_digit h
    then some (
      digit a * 10 + digit b,
      digit c * 10 + digit d,
      digit e * 1000 + digit f * 100 + digit g * 10 + digit h,
    )
    else none
numbers _ = none

-- The date, if it is the one that was asked for.
abbrev pub unmoved : (year month day : ℕ) → Option Civil → Option Civil
unmoved year month day none = none
unmoved year month day (some date) =
    if not (date.year == year) || not (date.month == month) || not (date.day == day)
    then none
    else some date

unfoldable pub parse_date_from_dd_mm_yyyy : String → Option Civil
parse_date_from_dd_mm_yyyy date_str = elim (numbers (codes date_str)) [
  | none ↦ none
  | some (day, month, year) ↦ unmoved year month day (new_date year month day)
]

-- `calculateAge(birthDate, today) >= minAge`; the age is one less before the birthday of the year.
unfoldable pub is_of_age : (min_age : ℕ) → (birth_date today : Civil) → Bool
is_of_age min_age birth_date today =
    let before_birthday =
      ltb today.month birth_date.month
      || (today.month == birth_date.month && ltb today.day birth_date.day) in
    leb (min_age + birth_date.year + (if before_birthday then 1 else 0)) today.year
