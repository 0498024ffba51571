-- ===== src/Profile/BirthDate/Calendar.antt =====
-- The dates that are read are those of the calendar.
use photer_api.Base.{
  ℕ, zero, suc, ◌+◌, ◌-◌, ◌*◌, ◌/◌, ◌%◌, ◌≡◌, ◌≤◌, ◌<◌, inl, inr, refl, ap, ◌∙◌, String, Bool, true,
  false, not, ◌&&◌, ◌||◌, none, some, arith, leb, ltb, ◌==◌, codes, if◌then◌else◌, Bool-cases,
  Option-cases,
}
use photer_api.Profile.BirthDate.{
  Civil, days_in_month, roll, full_year, new_date, numbers, unmoved, parse_date_from_dd_mm_yyyy,
  is_of_age,
}

-- A day of the calendar, of a year from 100 on.
abbrev pub is_calendar_date : (year month day : ℕ) → Bool
is_calendar_date year month day =
    leb 100 year && leb 1 month && leb month 12 && leb 1 day && leb day (days_in_month year month)

-- The count of months that a date starts from, taken apart again.
year_of_months : (y m : ℕ) → 1 ≤ m → m ≤ 12 → (y * 12 + m - 1) / 12 ≡ y
year_of_months y m h k = omega (arith, h, k)

month_of_months : (y m : ℕ) → 1 ≤ m → m ≤ 12 → (y * 12 + m - 1) % 12 + 1 ≡ m
month_of_months y m h k = omega (arith, h, k)

-- A year of the last century is never the one that was asked for.
full_year-old :
    (y m : ℕ)
    → 1 ≤ m
    → (full_year y * 12 + m - 1) / 12 * 12 + ((full_year y * 12 + m - 1) % 12 + 1) ≤ y * 12 + m
    → 100 ≤ y
full_year-old y m h j = elim (Bool-cases (leb y 99)) [
  | inl b ↦ ground (arith, h, j, b)
  | inr b ↦ ground (arith, b)
]

irrefl : {A : Type 0} (n : ℕ) → n < n → A
irrefl n h = absurd (omega (arith, h))

days_in_month-pos : (y m : ℕ) → 28 ≤ days_in_month y m
days_in_month-pos y m = ground arith

-- What the rolled date is: a month of a year that is not earlier.
roll_later :
    (fuel y m d : ℕ) {c : Civil}
    → roll fuel y m d ≡ some c
    → 1 ≤ m
    → m ≤ 12
    → 1 ≤ d
    → (1 ≤ c.month) × (c.month ≤ 12) × (1 ≤ c.day) × (y * 12 + m ≤ c.year * 12 + c.month)
unfolding roll
roll_later zero y m d e h k l = cc
roll_later (suc fuel) y m d {c} e h k l = elim (Bool-cases (leb d (days_in_month y m))) [
  | inl b ↦ ground arith
  | inr b ↦ elim (Bool-cases (m == 12)) [
    | inl last ↦
        let (f, g, i, j) =
          roll_later fuel (y + 1) 1 (d - days_in_month y m) {c = c} (ground (arith, e, b, last))
            (omega arith) (omega arith) (ground (arith, b)) in
        (f, g, i, ground (arith, j, last))
    | inr other ↦
        let (f, g, i, j) =
          roll_later fuel y (m + 1) (d - days_in_month y m) {c = c} (ground (arith, e, b, other))
            (omega arith) (ground (arith, k, other)) (ground (arith, b)) in
        (f, g, i, omega (arith, j))
  ]
]

-- A day that the month does not have is one of a later month.
roll_moves :
    (fuel y m d : ℕ) {c : Civil}
    → roll (suc fuel) y m d ≡ some c
    → leb d (days_in_month y m) ≡ false
    → 1 ≤ m
    → m ≤ 12
    → y * 12 + m < c.year * 12 + c.month
unfolding roll
roll_moves fuel y m d {c} e b h k = elim (Bool-cases (m == 12)) [
  | inl last ↦
      let (_, _, _, j) =
        roll_later fuel (y + 1) 1 (d - days_in_month y m) {c = c} (ground (arith, e, b, last))
          (omega arith) (omega arith) (ground (arith, b)) in
      ground (arith, j, last)
  | inr other ↦
      let (_, _, _, j) =
        roll_later fuel y (m + 1) (d - days_in_month y m) {c = c} (ground (arith, e, b, other))
          (omega arith) (ground (arith, k, other)) (ground (arith, b)) in
      omega (arith, j)
]

roll_total : (fuel y m d : ℕ) → 1 ≤ d → d ≤ fuel * 28 → (c : Civil) × (roll fuel y m d ≡ some c)
unfolding roll
roll_total zero y m d h k = absurd (omega (arith, h, k))
roll_total (suc fuel) y m d h k = elim (Bool-cases (leb d (days_in_month y m))) [
  | inl b ↦ (record { year = y; month = m; day = d }, rw b refl)
  | inr b ↦
      let n = days_in_month-pos y m in
      let (c, e) =
        roll_total fuel (if m == 12 then y + 1 else y) (if m == 12 then 1 else m + 1)
          (d - days_in_month y m) (ground (arith, b)) (omega (arith, n, k)) in
      (c, rw b e)
]

new_date_lem :
    (y m d : ℕ)
    → (c : Civil) × (new_date y m d ≡ some c) × (1 ≤ c.month) × (c.month ≤ 12) × (1 ≤ c.day)
unfolding new_date
new_date_lem y m d = elim (Bool-cases (d == 0)) [
  | inl z ↦
      let before = full_year y * 12 + m - 1 - 1 in
      let c : Civil = record {
        year = before / 12;
        month = before % 12 + 1;
        day = days_in_month (before / 12) (before % 12 + 1);
      } in
      let n = days_in_month-pos (before / 12) (before % 12 + 1) in
      (c, rw z refl, omega arith, omega arith, omega (arith, n))
  | inr s ↦
      let months = full_year y * 12 + m - 1 in
      let (c, e) =
        roll_total (suc d) (months / 12) (months % 12 + 1) d (ground arith) (omega arith) in
      let (f, g, h, _) =
        roll_later (suc d) (months / 12) (months % 12 + 1) d {c = c} e (omega arith) (omega arith)
          (ground arith) in
      (c, rw (s, e) refl, f, g, h)
]

new_date-calendar :
    (y m d : ℕ)
    → is_calendar_date y m d ≡ true
    → new_date y m d ≡ some (record { year = y; month = m; day = d })
unfolding new_date roll
new_date-calendar y m d e =
    let full : full_year y ≡ y = ground arith in
    let positive : (d == 0) ≡ false = ground arith in
    let short : leb d (days_in_month y m) ≡ true = ground arith in
    let low : 1 ≤ m = ground arith in
    let high : m ≤ 12 = ground arith in
    let a = year_of_months y m low high in
    let b = month_of_months y m low high in rw (positive, full, a, b, short) refl

-- A date that is the one that was asked for is a date of the calendar.
new_date-unmoved :
    (y m d : ℕ)
    → new_date y m d ≡ some (record { year = y; month = m; day = d })
    → is_calendar_date y m d ≡ true
unfolding new_date
new_date-unmoved y m d e =
    let (c, q, f, g, h) = new_date_lem y m d in
    let low : 1 ≤ m = ground (arith, q, e, f) in
    let high : m ≤ 12 = ground (arith, q, e, g) in
    let positive : 1 ≤ d = ground (arith, q, e, h) in
    let some_day : (d == 0) ≡ false = ground (arith, positive) in
    let asked : Civil = record { year = y; month = m; day = d } in
    let months = full_year y * 12 + m - 1 in
    let rolled : roll (suc d) (months / 12) (months % 12 + 1) d ≡ some asked = rw some_day at e in
    let (_, _, _, j) =
      roll_later (suc d) (months / 12) (months % 12 + 1) d {c = asked} rolled (omega arith)
        (omega arith) positive in
    let old : 100 ≤ y = full_year-old y m low j in
    elim (Bool-cases (leb d (days_in_month y m))) [
      | inl short ↦ ground (arith, old, low, high, positive, short)
      | inr long ↦
          let full : full_year y ≡ y = ground (arith, old) in
          let here : roll (suc d) y m d ≡ some asked =
            rw (full, year_of_months y m low high, month_of_months y m low high) at rolled in
          let later = roll_moves d y m d {c = asked} here long low high in irrefl (y * 12 + m) later
    ]

unmoved-new_date :
    (y m d : ℕ)
    → unmoved y m d (new_date y m d)
      ≡ (if is_calendar_date y m d then some (record { year = y; month = m; day = d }) else none)
unmoved-new_date y m d = elim (Bool-cases (is_calendar_date y m d)) [
  | inl e ↦ rw (new_date-calendar y m d e, e) (ground arith)
  | inr n ↦
      let (c, q, _, _, _) = new_date_lem y m d in
      elim (Bool-cases (not (c.year == y) || not (c.month == m) || not (c.day == d))) [
        | inl moved ↦ rw (q, n, moved) refl
        | inr kept ↦
            let same : c ≡ record { year = y; month = m; day = d } = ground arith in
            let valid = new_date-unmoved y m d (q ∙ ap (λ z. some z) same) in cc
      ]
]

-- What is read of a text is described by the calendar alone: a text of two, two and four digits with
-- dots between them is a date exactly when the calendar has this day in this month and the year is
-- 100 or later, and it is then that date; every other text is none. The date that the source rolls
-- over, for a day or a month that does not exist, is never taken for it.
pub parse_date_by_calendar :
    (s : String)
    → parse_date_from_dd_mm_yyyy s ≡ elim (numbers (codes s)) [
      | none ↦ none
      | some (day, month, year) ↦
          if is_calendar_date year month day
          then some (record { year = year; month = month; day = day })
          else none
    ]
unfolding parse_date_from_dd_mm_yyyy
parse_date_by_calendar s = elim (Option-cases (numbers (codes s))) [
  | inl n ↦ rw (parse_date_from_dd_mm_yyyy, n) refl
  | inr ((day, month, year), e) ↦
      rw (parse_date_from_dd_mm_yyyy, e) (unmoved-new_date year month day)
]

-- The day of the year has come.
abbrev pub is_reached : (year month day : ℕ) → Civil → Bool
is_reached year month day today =
    ltb year today.year
    || (year == today.year
        && (ltb month today.month || (month == today.month && leb day today.day)))

-- A user is of an age exactly from the day of the month on which the birthday of that age falls.
pub is_of_age-is_reached :
    (min_age : ℕ) (birth_date today : Civil)
    → is_of_age min_age birth_date today
      ≡ is_reached (birth_date.year + min_age) birth_date.month birth_date.day today
unfolding is_of_age
is_of_age-is_reached min_age birth_date today = ground arith
