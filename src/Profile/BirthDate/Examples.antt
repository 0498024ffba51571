-- ===== src/Profile/BirthDate/Examples.antt =====
-- Dates that there are, and dates that there are not.
use photer_api.Base.{◌≡◌, refl, none, some, false}
use photer_api.Profile.BirthDate.{Civil, roll, new_date, parse_date_from_dd_mm_yyyy, is_of_age}
use photer_api.Profile.BirthDate.Calendar.{parse_date_by_calendar, is_of_age-is_reached}

abbrev leap_day : Civil
leap_day = record { year = 2000; month = 2; day = 29 }

rolled_day : new_date 2001 2 29 ≡ some (record { year = 2001; month = 3; day = 1 })
unfolding new_date roll
rolled_day = refl

rolled_month : new_date 2001 13 0 ≡ some (record { year = 2001; month = 12; day = 31 })
unfolding new_date roll
rolled_month = refl

parse_date_by_calendar_example : parse_date_from_dd_mm_yyyy "29.02.2000" ≡ some leap_day
parse_date_by_calendar_example = parse_date_by_calendar "29.02.2000"

refused_day : parse_date_from_dd_mm_yyyy "29.02.2001" ≡ none
unfolding parse_date_from_dd_mm_yyyy new_date roll
refused_day = refl

is_of_age-is_reached_example :
    is_of_age 13 leap_day (record { year = 2013; month = 2; day = 28 }) ≡ false
is_of_age-is_reached_example =
    is_of_age-is_reached 13 leap_day (record { year = 2013; month = 2; day = 28 })
