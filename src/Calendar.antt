-- ===== src/Calendar.antt =====
-- The dates of Go's package time, in UTC: `AddDate` as internal/modules/billing/service/
-- billing_service.go uses it. A time is its milliseconds since 1970, a date its year, month and day
-- in the Gregorian calendar.
use queuebuzz.Prelude.{ℕ, ◌+◌, ◌-◌, ◌*◌, ◌/◌, ◌%◌, ltb, leb, if◌then◌else◌}

pub record Date : Type 0 where
  pub year : ℕ
  pub month : ℕ
  pub day : ℕ

abbrev pub day_ms : ℕ
day_ms = 24 * 3600 * 1000

-- The days from the first of March of the year 0 to 1970.
abbrev epoch : ℕ
epoch = 719468

-- Years begin in March here, so that the leap day is the last one.
abbrev year_of_era : ℕ → ℕ
year_of_era doe = (doe - doe / 1460 + doe / 36524 - doe / 146096) / 365

abbrev day_of_year : ℕ → ℕ → ℕ
day_of_year doe yoe = doe - (365 * yoe + yoe / 4 - yoe / 100)

abbrev from_march : ℕ → ℕ → ℕ → Date
from_march era yoe doy =
    let mp = (5 * doy + 2) / 153 in
    let month = if ltb mp 10 then mp + 3 else mp - 9 in
    record {
      year = yoe + era * 400 + (if leb month 2 then 1 else 0);
      month = month;
      day = doy - (153 * mp + 2) / 5 + 1;
    }

unfoldable pub date_of : ℕ → Date
date_of days =
    let z = days + epoch in
    let yoe = year_of_era (z % 146097) in from_march (z / 146097) yoe (day_of_year (z % 146097) yoe)

abbrev march_year : Date → ℕ
march_year d = if leb d.month 2 then d.year - 1 else d.year

abbrev march_day : Date → ℕ
march_day d = (153 * (if leb d.month 2 then d.month + 9 else d.month - 3) + 2) / 5 + d.day - 1

-- A day past the end of its month counts into the next one, as `time.Date` normalises it.
unfoldable pub days_of : Date → ℕ
days_of d =
    let yoe = march_year d % 400 in
    march_year d / 400 * 146097 + (yoe * 365 + yoe / 4 - yoe / 100 + march_day d) - epoch

abbrev next_month : Date → Date
next_month d =
    if leb 12 d.month
    then record d { year = d.year + 1; month = 1 }
    else record d { month = d.month + 1 }

abbrev next_year : Date → Date
next_year d = record d { year = d.year + 1 }

-- `AddDate(0, 1, 0)`, `AddDate(1, 0, 0)` and `AddDate(0, 0, days)`
unfoldable pub add_month : ℕ → ℕ
unfolding date_of days_of
add_month t = days_of (next_month (date_of (t / day_ms))) * day_ms + t % day_ms

unfoldable pub add_year : ℕ → ℕ
unfolding date_of days_of
add_year t = days_of (next_year (date_of (t / day_ms))) * day_ms + t % day_ms

abbrev pub add_days : ℕ → ℕ → ℕ
add_days days t = t + days * day_ms
