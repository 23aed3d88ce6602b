-- ===== src/Calendar/Instants.antt =====
-- Year, month and day of an instant that time.Date has made, and instants within their month.
use billpiggy.Base.{ℕ, ◌+◌, ◌-◌, ◌*◌, ◌≤◌, ◌<◌, ◌≡◌, ap, ◌∙◌, arith}
use native.Mathlib.Nat.{add-zero}
use billpiggy.Clock.{Time, day_length}
use billpiggy.Calendar.{
  month_start, month_index, day_number, year, month, day, date, add_date, seconds_of_day,
}
use billpiggy.Calendar.Months.{month_bracket, month_index_unique, month_start-suc}

-- The index of the month that an instant lies in.
abbrev pub month_no : Time → ℕ
month_no t = month_index (day_number t)

pub day_number_bracket :
    (t : Time) → (day_number t * day_length ≤ t) × (t < day_number t * day_length + day_length)
unfolding day_number
day_number_bracket t = omega arith

-- Year and month name the month of the instant.
pub year-month : (t : Time) → 12 * (year t - 1) + (month t - 1) ≡ month_no t
unfolding year month
year-month t = omega arith

pub day_pos : (t : Time) → 1 ≤ day t
unfolding day
day_pos t = omega arith

-- The day of the month does not pass the month's end.
pub day_fits : (t : Time) → month_start (month_no t) + day t ≤ month_start (month_no t + 1)
unfolding day
day_fits t = omega (arith, (month_bracket (day_number t)).0, (month_bracket (day_number t)).1)

pub month_pos : (t : Time) → 1 ≤ month t
unfolding month
month_pos t = omega arith

pub year-month_later : (t : Time) (k : ℕ) → 12 * (year t - 1) + (month t + k - 1) ≡ month_no t + k
unfolding year month
year-month_later t k = omega arith

pub seconds_of_day-date :
    (y m d : ℕ) (t : Time) → seconds_of_day (date y m d (seconds_of_day t)) ≡ seconds_of_day t
unfolding date
seconds_of_day-date y m d t = omega arith

-- The day of a date, when it carries into no other month.
module _ (y m d of_day : ℕ) (i : ℕ) (index : 12 * (y - 1) + (m - 1) ≡ i) (one : 1 ≤ d)
    (fits : month_start i + d ≤ month_start (i + 1)) (part : of_day < day_length) where
  pub day_number-date : day_number (date y m d of_day) ≡ month_start i + d - 1
  unfolding day_number date
  day_number-date = rw index (omega arith)

  pub month_no-date : month_no (date y m d of_day) ≡ i
  month_no-date =
      rw day_number-date (month_index_unique (month_start i + d - 1) i (omega arith) (omega arith))

  pub day-date : day (date y m d of_day) ≡ d
  unfolding day
  day-date = rw (month_no-date, day_number-date) (omega arith)

-- Adding days moves the instant by whole days.
pub add_date_days : (t : Time) (days : ℕ) → add_date t 0 0 days ≡ t + days * day_length
unfolding add_date day day_number
add_date_days t days =
    let (low, high) = month_bracket (day_number t) in
    let i : 12 * (year t + 0 - 1) + (month t + 0 - 1) ≡ month_no t =
      ap (λ (k : ℕ). 12 * (k - 1) + (month t + 0 - 1)) (add-zero (year t))
      ∙ year-month_later t 0
      ∙ add-zero (month_no t) in
    rw i (omega arith)

-- Day 0 of a month is the last day of the month before.
module _ (y m i : ℕ) (index : 12 * (y - 1) + (m - 1) ≡ i + 1) where
  day_number-date_zero : day_number (date y m 0 0) ≡ month_start (i + 1) - 1
  unfolding day_number date
  day_number-date_zero = rw index (omega arith)

  pub day-date_zero : month_start i + day (date y m 0 0) ≡ month_start (i + 1)
  unfolding day
  day-date_zero =
      let wide = month_start-suc i in
      let e : month_no (date y m 0 0) ≡ i =
        rw day_number-date_zero
          (month_index_unique (month_start (i + 1) - 1) i (omega arith) (omega arith)) in
      rw (e, day_number-date_zero) (omega arith)
