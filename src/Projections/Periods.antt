-- ===== src/Projections/Periods.antt =====
-- The periods of internal/core/domain/projection.go partition time.
use billpiggy.Base.{ℕ, ◌+◌, ◌-◌, ◌*◌, ◌/◌, ◌%◌, ◌≤◌, ◌<◌, ◌≡◌, refl, ap, ◌∙◌, sym, arith}
use native.Mathlib.Decide.{dec_lt}
use billpiggy.Clock.{Time, day_length}
use billpiggy.Calendar.{
  month_start, month_index, day_number, year, month, day, date, weekday, add_date, sub_days,
}
use billpiggy.Calendar.Months.{month_bracket, month_index_unique, month_start-suc, month_start_le}
use billpiggy.Calendar.Instants.{month_no, day_number_bracket, year-month, add_date_days}
use billpiggy.Projections.{
  AnalyticsPeriod, rollup_period_start, analytics_day, analytics_week, analytics_month,
  analytics_year, budget_window, window_of, BudgetRecord, BudgetPeriod, budget_daily, budget_weekly,
  budget_monthly, budget_yearly, budget_custom, other_period,
}

day_start : (at : Time) → rollup_period_start analytics_day at ≡ day_number at * day_length
unfolding rollup_period_start date day
day_start at = let (low, _) = month_bracket (day_number at) in rw (year-month at) (omega arith)

week_start :
    (at : Time)
    → rollup_period_start analytics_week at ≡ (day_number at - day_number at % 7) * day_length
unfolding rollup_period_start sub_days weekday day_number
week_start at = rw (day_start at) (omega arith)

month_begin :
    (at : Time) → rollup_period_start analytics_month at ≡ month_start (month_no at) * day_length
unfolding rollup_period_start date
month_begin at = rw (year-month at) (omega arith)

year_begin :
    (at : Time)
    → rollup_period_start analytics_year at ≡ month_start (12 * (year at - 1)) * day_length
unfolding rollup_period_start date
year_begin at =
    let q : 12 * (year at - 1) + 0 ≡ 12 * (year at - 1) = omega arith in rw q (omega arith)

-- Midnight of the first day of a month.
module _ (s : Time) (i : ℕ) (first : s ≡ month_start i * day_length) where
  first_number : day_number s ≡ month_start i
  unfolding day_number
  first_number = rw first (omega arith)

  first_month : month_no s ≡ i
  first_month =
      rw first_number
        (month_index_unique (month_start i) i (omega arith) (omega (arith, month_start-suc i)))

  add_date_first :
      (years months : ℕ)
      → add_date s years months 0 ≡ month_start (i + 12 * years + months) * day_length
  unfolding add_date day year month
  add_date_first years months =
      let q : 12 * (month_no s / 12 + 1 + years - 1) + (month_no s % 12 + 1 + months - 1)
          ≡ i + 12 * years + months =
        omega (arith, first_month) in
      let e : month_index (month_start i) ≡ i =
        month_index_unique (month_start i) i (omega arith) (omega (arith, month_start-suc i)) in
      rw (q, first_number, e) (omega (arith, first))

-- The first instant after the period that starts at `s`.
abbrev pub period_end : AnalyticsPeriod → Time → Time
period_end analytics_day s = add_date s 0 0 1
period_end analytics_week s = add_date s 0 0 7
period_end analytics_month s = add_date s 0 1 0
period_end analytics_year s = add_date s 1 0 0

day_end :
    (at : Time)
    → period_end analytics_day (day_number at * day_length)
      ≡ day_number at * day_length + day_length
day_end at = rw (add_date_days (day_number at * day_length) 1) (omega arith)

month_end : (i : ℕ) → add_date (month_start i * day_length) 0 1 0 ≡ month_start (i + 1) * day_length
month_end i =
    let q : i + 12 * 0 + 1 ≡ i + 1 = omega arith in
    add_date_first (month_start i * day_length) i refl 0 1
    ∙ ap (λ (k : ℕ). month_start k * day_length) q

year_end : (i : ℕ) → add_date (month_start i * day_length) 1 0 0 ≡ month_start (i + 12) * day_length
year_end i =
    let q : i + 12 * 1 + 0 ≡ i + 12 = omega arith in
    add_date_first (month_start i * day_length) i refl 1 0
    ∙ ap (λ (k : ℕ). month_start k * day_length) q

-- Where each period starts and ends.
abbrev first_day : AnalyticsPeriod → Time → ℕ
first_day analytics_day at = day_number at
first_day analytics_week at = day_number at - day_number at % 7
first_day analytics_month at = month_start (month_no at)
first_day analytics_year at = month_start (12 * (year at - 1))

abbrev day_after : AnalyticsPeriod → Time → ℕ
day_after analytics_day at = day_number at + 1
day_after analytics_week at = day_number at - day_number at % 7 + 7
day_after analytics_month at = month_start (month_no at + 1)
day_after analytics_year at = month_start (12 * (year at - 1) + 12)

start_at :
    (p : AnalyticsPeriod) (at : Time) → rollup_period_start p at ≡ first_day p at * day_length
start_at analytics_day at = day_start at
start_at analytics_week at = week_start at
start_at analytics_month at = month_begin at
start_at analytics_year at = year_begin at

end_at :
    (p : AnalyticsPeriod) (at : Time)
    → period_end p (rollup_period_start p at) ≡ day_after p at * day_length
end_at analytics_day at = rw (start_at analytics_day at, day_end at) (omega arith)
end_at analytics_week at =
    rw
      (
        start_at analytics_week at,
        add_date_days ((day_number at - day_number at % 7) * day_length) 7,
      )
      (omega arith)
end_at analytics_month at = rw (start_at analytics_month at) (month_end (month_no at))
end_at analytics_year at = rw (start_at analytics_year at) (year_end (12 * (year at - 1)))

days_around :
    (p : AnalyticsPeriod) (at : Time)
    → (first_day p at ≤ day_number at) × (day_number at < day_after p at)
unfolding year
days_around analytics_day at = omega arith
days_around analytics_week at = omega arith
days_around analytics_month at = month_bracket (day_number at)
days_around analytics_year at =
    let (low, high) = month_bracket (day_number at) in
    let from = month_start_le (12 * (year at - 1)) (month_no at) (omega arith) in
    let to = month_start_le (month_no at + 1) (12 * (year at - 1) + 12) (omega arith) in omega arith

-- A day between them has the same first day.
first_day_same :
    (p : AnalyticsPeriod) (at t : Time)
    → first_day p at ≤ day_number t
    → day_number t < day_after p at
    → first_day p t ≡ first_day p at
unfolding year
first_day_same analytics_day at t low high = omega arith
first_day_same analytics_week at t low high = omega arith
first_day_same analytics_month at t low high =
    ap month_start (month_index_unique (day_number t) (month_no at) low high)
first_day_same analytics_year at t low high =
    let (from, below) = month_bracket (day_number t) in
    let first = 12 * (year at - 1) in
    let over : first ≤ month_no t = elim (dec_lt (month_no t) first) [
      | yes h ↦ absurd (omega (arith, month_start_le (month_no t + 1) first (omega arith)))
      | no n ↦ omega arith
    ] in
    let under : month_no t < first + 12 = elim (dec_lt (month_no t) (first + 12)) [
      | yes h ↦ h
      | no n ↦ absurd (omega (arith, month_start_le (first + 12) (month_no t) (omega arith)))
    ] in
    ap (λ (k : ℕ). month_start (12 * k)) (omega arith)

-- The periods of one granularity cover time: each instant lies at or after the start of its period
-- and before its end.
pub rollup_period-covers :
    (p : AnalyticsPeriod) (at : Time)
    → (rollup_period_start p at ≤ at) × (at < period_end p (rollup_period_start p at))
rollup_period-covers p at =
    let (low, high) = days_around p at in
    let (down, up) = day_number_bracket at in omega (arith, start_at p at, end_at p at)

-- They do not overlap: an instant between the start and the end of the period of `at` has the same
-- period start as `at`, so all of a period's spending lands in one bucket.
pub rollup_period-same :
    (p : AnalyticsPeriod) (at t : Time)
    → rollup_period_start p at ≤ t
    → t < period_end p (rollup_period_start p at)
    → rollup_period_start p t ≡ rollup_period_start p at
rollup_period-same p at t low high =
    let (down, up) = day_number_bracket t in
    let e = first_day_same p at t (omega (arith, start_at p at)) (omega (arith, end_at p at)) in
    start_at p t ∙ ap (λ (d : ℕ). d * day_length) e ∙ sym (start_at p at)

-- The granularity of a calendar budget.
abbrev granularity : BudgetPeriod → AnalyticsPeriod
granularity budget_daily = analytics_day
granularity budget_weekly = analytics_week
granularity budget_monthly = analytics_month
granularity budget_yearly = analytics_year
granularity budget_custom = analytics_month
granularity (other_period text) = analytics_month

abbrev pub IsCalendar : BudgetPeriod → Type 0
IsCalendar budget_custom = ⊥
IsCalendar p = Unit

calendar_window :
    (p : BudgetPeriod) (b : BudgetRecord) (at : Time)
    → IsCalendar p
    → window_of p b at ≡ (
      rollup_period_start (granularity p) at,
      period_end (granularity p) (rollup_period_start (granularity p) at),
    )
calendar_window budget_daily b at h = refl
calendar_window budget_weekly b at h = refl
calendar_window budget_monthly b at h = refl
calendar_window budget_yearly b at h = refl
calendar_window budget_custom b at h = absurd h
calendar_window (other_period text) b at h = refl

-- The window of a budget that is not a custom one contains the instant it is computed for.
pub budget_window-covers :
    (b : BudgetRecord) (at : Time)
    → IsCalendar b.period
    → ((budget_window b at).0 ≤ at) × (at < (budget_window b at).1)
unfolding budget_window
budget_window-covers b at h =
    rw (calendar_window b.period b at h) (rollup_period-covers (granularity b.period) at)

-- Every instant in the window of such a budget has that same window, so one usage row counts all
-- of the period's spending and no other.
pub budget_window-same :
    (b : BudgetRecord) (at t : Time)
    → IsCalendar b.period
    → (budget_window b at).0 ≤ t
    → t < (budget_window b at).1
    → budget_window b t ≡ budget_window b at
unfolding budget_window
budget_window-same b at t h low high =
    let e = calendar_window b.period b at h in
    let same =
      rollup_period-same (granularity b.period) at t (rw (sym (ap (λ w. w.0) e)) low)
        (rw (sym (ap (λ w. w.1) e)) high) in
    rw (calendar_window b.period b t h, e, same) refl
