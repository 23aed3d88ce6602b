-- ===== src/Calendar.antt =====
-- The civil calendar behind Go's time.Time in UTC (Date, Year, Month, Day, Weekday, AddDate), on
-- the instants of Clock. Days count from 0001-01-01, which is day 0; a month's index counts the
-- months from January of year 1, which is 0, so that the carry of time.Date is plain addition.
pub mod Years
pub mod Months
pub mod Instants
use billpiggy.Base.{
  ℕ, ◌+◌, ◌-◌, ◌*◌, ◌/◌, ◌%◌, Bool, true, false, not, ◌&&◌, ◌||◌, ltb, leb, min, ◌==◌, nat_eq,
  if◌then◌else◌,
}
use billpiggy.Clock.{Time, day_length, second}

abbrev pub one_if : Bool → ℕ
one_if true = 1
one_if false = 0

-- Whether the year after the first `y` years is a leap year: the proleptic Gregorian rule.
unfoldable pub leap_after : ℕ → Bool
leap_after y = (y + 1) % 4 == 0 && (not ((y + 1) % 100 == 0) || (y + 1) % 400 == 0)

-- The days of the first `y` years.
unfoldable pub year_start : ℕ → ℕ
year_start y = 365 * y + y / 4 + y / 400 - y / 100

-- The days of a year before its month `m`, from 0 for January.
unfoldable pub days_before_month : Bool → ℕ → ℕ
days_before_month leap m = if ltb m 2 then 31 * m else 59 + one_if leap + (153 * (m - 2) + 2) / 5

-- The days before the month of an index.
unfoldable pub month_start : ℕ → ℕ
month_start i = year_start (i / 12) + days_before_month (leap_after (i / 12)) (i % 12)

unfoldable pub century_of : ℕ → ℕ
century_of d = min 3 (d % 146097 / 36524)

unfoldable pub year_index : ℕ → ℕ
year_index d =
    let r = d % 146097 - 36524 * century_of d in
    400 * (d / 146097) + 100 * century_of d + 4 * (r / 1461) + min 3 (r % 1461 / 365)

unfoldable pub month_of_year_day : Bool → ℕ → ℕ
month_of_year_day leap d =
    if ltb d 31
    then 0
    else if ltb d (59 + one_if leap)
    then 1
    else (5 * (d - (59 + one_if leap)) + 2) / 153 + 2

unfoldable pub month_index : ℕ → ℕ
month_index d =
    12 * year_index d
    + month_of_year_day (leap_after (year_index d)) (d - year_start (year_index d))

-- t.Year(), t.Month(), t.Day(), t.Weekday(), and the days since day 0
unfoldable pub day_number : Time → ℕ
day_number t = t / day_length

unfoldable pub year : Time → ℕ
year t = month_index (day_number t) / 12 + 1

unfoldable pub month : Time → ℕ
month t = month_index (day_number t) % 12 + 1

unfoldable pub day : Time → ℕ
day t = day_number t - month_start (month_index (day_number t)) + 1

unfoldable pub weekday : Time → ℕ
weekday t = (day_number t + 1) % 7

-- time.Date(year, month, day, ...) with the time of the day in nanoseconds. Months above 12 and
-- days above the month's end carry, and day 0 is the day before the month.
unfoldable pub date : ℕ → ℕ → ℕ → ℕ → Time
date y m d of_day = (month_start (12 * (y - 1) + (m - 1)) + d - 1) * day_length + of_day

abbrev pub nanos_of_day : Time → ℕ
nanos_of_day t = t % day_length

-- The hours, minutes and seconds of the day, without the part below a second.
abbrev pub seconds_of_day : Time → ℕ
seconds_of_day t = t % day_length / second * second

-- t.AddDate(years, months, days), and t.AddDate(0, 0, -days)
unfoldable pub add_date : Time → ℕ → ℕ → ℕ → Time
unfolding date
add_date t years months days =
    date (year t + years) (month t + months) (day t + days) (nanos_of_day t)

unfoldable pub sub_days : Time → ℕ → Time
sub_days t days = t - days * day_length
