-- ===== src/Payments/Recurrence.antt =====
-- Where the due dates of internal/core/domain/scheduled_payment.go fall.
use billpiggy.Base.{
  ℕ, zero, suc, ◌+◌, ◌-◌, ◌*◌, ◌≤◌, ◌<◌, ◌≡◌, refl, ◌∙◌, true, arith, min, ltb, lt→ltb,
  if◌then◌else◌,
}
use billpiggy.Base.Int.{ℤ, pos_part}
use billpiggy.Clock.{Time, day_length}
use billpiggy.Calendar.{month_start, date, day, day_number, year, month, seconds_of_day}
use billpiggy.Calendar.Months.{month_start-suc, month_bracket, month_start_le}
use billpiggy.Calendar.Instants.{
  month_no, year-month, year-month_later, month_no-date, day-date, day_number_bracket, day_pos,
  day_fits, month_pos, seconds_of_day-date, add_date_days, day-date_zero,
}
use billpiggy.Payments.{
  ScheduledPayment, next_due_for, days_in_month, add_months_clamped, next_payment_due,
  PaymentFrequency, valid_payment_frequency, payment_frequency_months, monthly, quarterly, yearly,
  custom, other,
}

-- Day 0 of the next month is the last day of this one.
pub days_in_month_lem :
    (y m i : ℕ)
    → 1 ≤ m
    → 12 * (y - 1) + (m - 1) ≡ i
    → month_start i + days_in_month y m ≡ month_start (i + 1)
unfolding days_in_month
days_in_month_lem y m i hm index = day-date_zero y (m + 1) i (omega arith)

-- The day that an occurrence is asked to fall on.
abbrev pub anchor : Time → ℕ → ℕ
anchor at anchor_day = if ltb anchor_day 1 then day at else anchor_day

module _ (at : Time) (months anchor_day : ℕ) where
  abbrev target : Time
  target = date (year at) (month at + months) 1 0

  abbrev goal_month : ℕ
  goal_month = month_no at + months

  abbrev last_day : ℕ
  last_day = days_in_month (year target) (month target)

  month_no-target : month_no target ≡ goal_month
  month_no-target =
      month_no-date (year at) (month at + months) 1 0 goal_month (year-month_later at months)
        (omega arith) (omega (arith, month_start-suc goal_month)) (omega arith)

  index-target : 12 * (year target - 1) + (month target - 1) ≡ goal_month
  index-target = year-month target ∙ month_no-target

  month_start-last_day : month_start goal_month + last_day ≡ month_start (goal_month + 1)
  month_start-last_day =
      days_in_month_lem (year target) (month target) goal_month (month_pos target) index-target

  abbrev clamped : ℕ
  clamped = if ltb last_day (anchor at anchor_day) then last_day else anchor at anchor_day

  clamped_bounds :
      (1 ≤ clamped) × (clamped ≤ last_day) × (clamped ≡ min (anchor at anchor_day) last_day)
  clamped_bounds = ground (arith, day_pos at, month_start-last_day, month_start-suc goal_month)

  -- The occurrence lies `months` months later, on the wanted day or on the month's last day if
  -- the month is too short, at the same second of the day.
  pub add_months_clamped_lem :
      (month_no (add_months_clamped at months anchor_day) ≡ month_no at + months)
      × (day (add_months_clamped at months anchor_day)
          ≡ min
              (anchor at anchor_day)
              (month_start (month_no at + months + 1) - month_start (month_no at + months)))
      × (seconds_of_day (add_months_clamped at months anchor_day) ≡ seconds_of_day at)
  unfolding add_months_clamped
  add_months_clamped_lem =
      let span = month_start-last_day in
      let (low, high, least) = clamped_bounds in
      let fits : month_start goal_month + clamped ≤ month_start (goal_month + 1) = omega arith in
      let part : seconds_of_day at < day_length = omega arith in
      let y = year target in
      let m = month target in
      (
        month_no-date y m clamped (seconds_of_day at) goal_month index-target low fits part,
        day-date y m clamped (seconds_of_day at) goal_month index-target low fits part
            ∙ omega arith,
        seconds_of_day-date y m clamped at,
      )

add_months_clamped_later :
    (at : Time) (months anchor_day : ℕ) → 1 ≤ months → at < add_months_clamped at months anchor_day
add_months_clamped_later at months anchor_day h =
    let r : Time = add_months_clamped at months anchor_day in
    let (index, _, _) = add_months_clamped_lem at months anchor_day in
    let (low, _) = month_bracket (day_number r) in
    let (_, high) = month_bracket (day_number at) in
    let order = month_start_le (month_no at + 1) (month_no at + months) (omega arith) in
    let start : month_start (month_no at + months) ≤ day_number r = rw (← index) low in
    omega (arith, day_number_bracket at, day_number_bracket r)

-- For each of the four frequencies, and any interval and anchor day, the next due date comes
-- after the current one: the scheduler's cursor always moves on.
pub next_payment_due_later :
    (frequency : PaymentFrequency) (interval : ℤ) (anchor_day : ℕ) (current : Time)
    → valid_payment_frequency frequency ≡ true
    → current < next_payment_due frequency interval anchor_day current
unfolding next_payment_due valid_payment_frequency payment_frequency_months
next_payment_due_later monthly interval anchor_day current v =
    add_months_clamped_later current 1 anchor_day (omega arith)
next_payment_due_later quarterly interval anchor_day current v =
    add_months_clamped_later current 3 anchor_day (omega arith)
next_payment_due_later yearly interval anchor_day current v =
    add_months_clamped_later current 12 anchor_day (omega arith)
next_payment_due_later custom interval anchor_day current v =
    ground (arith, add_date_days current 1, add_date_days current (pos_part interval))
next_payment_due_later (other text) interval anchor_day current v = cc

-- The due date after `k` steps from the start date.
unfoldable pub nth_due : ScheduledPayment → ℕ → Time
nth_due p zero = p.start_date
nth_due p (suc k) = next_due_for p (nth_due p k)

abbrev pub OnAnchor : ScheduledPayment → ℕ → Time → Type 0
OnAnchor p months_later t =
    (month_no t ≡ month_no p.start_date + months_later)
    × (day t
        ≡ min (day p.start_date) (
            month_start (month_no p.start_date + months_later + 1)
            - month_start (month_no p.start_date + months_later)))

-- The `k`-th due date of a monthly, quarterly or yearly payment lies `k` times the frequency's
-- months after the start date's month, on the start date's day of the month, or on the last day
-- where the month is too short. A short month on the way has no effect on the later ones.
pub nth_due-OnAnchor :
    (p : ScheduledPayment) (k : ℕ)
    → 1 ≤ payment_frequency_months p.frequency
    → OnAnchor p (k * payment_frequency_months p.frequency) (nth_due p k)
unfolding nth_due next_due_for next_payment_due
nth_due-OnAnchor p zero h =
    let q : month_no p.start_date + 0 * payment_frequency_months p.frequency
        ≡ month_no p.start_date =
      omega arith in
    rw q (refl, omega (arith, day_fits p.start_date))
nth_due-OnAnchor p (suc k) h =
    let m : ℕ = payment_frequency_months p.frequency in
    let t : Time = nth_due p k in
    let (index, on, _) = add_months_clamped_lem t m (day p.start_date) in
    let e : month_no t + m ≡ month_no p.start_date + suc k * m =
      omega (arith, (nth_due-OnAnchor p k h).0) in
    let step : next_due_for p t ≡ add_months_clamped t m (day p.start_date) =
      rw (lt→ltb 0 m h) refl in
    let own : anchor t (day p.start_date) ≡ day p.start_date =
      ground (arith, day_pos p.start_date) in
    rw step (index ∙ e, on ∙ rw (own, e) refl)
