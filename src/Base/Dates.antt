-- ===== src/Base/Dates.antt =====
-- Dates are milliseconds since the epoch. `add` of date-fns is a parameter.
use Prim.Native.Nat.{ℕ, ◌+◌, ◌*◌, ◌<◌}
use native.Mathlib.Omega.{arith}
use mathlib.Core.Path.{◌≡◌, refl}

pub record DateFns : Type 0 where
  -- `add(date, { hours, minutes })`
  pub add : (date hours minutes : ℕ) → ℕ
  pub add_lem : (d h m : ℕ) → add d h m ≡ d + (h * 60 + m) * 60000

abbrev pub exact_dates : DateFns
exact_dates = record { add = λ d h m. d + (h * 60 + m) * 60000; add_lem = λ d h m. refl }

-- `setDate(getDate() + n)` and `setMonth(getMonth() + n)` of a JavaScript date, in the local time
-- zone: a positive number of days or months gives a later date.
pub record Calendar : Type 0 where
  pub add_days : (date n : ℕ) → ℕ
  pub add_months : (date n : ℕ) → ℕ
  pub add_days_later : (d n : ℕ) → d < add_days d (n + 1)
  pub add_months_later : (d n : ℕ) → d < add_months d (n + 1)

-- Days of 24 hours and months of 30 days.
abbrev pub even_calendar : Calendar
even_calendar = record {
  add_days = λ d n. d + n * 86400000;
  add_months = λ d n. d + n * 2592000000;
  add_days_later = λ d n. omega arith;
  add_months_later = λ d n. omega arith;
}
