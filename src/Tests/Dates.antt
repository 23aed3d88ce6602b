-- ===== src/Tests/Dates.antt =====
-- Recurrences and periods from 2024-01-31T09:00:00Z, whose next month is the short one of a leap year.
use billpiggy.Base.{◌+◌, ◌-◌, ◌*◌, ◌≤◌, ◌<◌, ◌≡◌, refl, min, true, false, none, [], arith}
use billpiggy.Base.Int.{pos}
use billpiggy.Clock.{Time, day_length}
use billpiggy.Calendar.{
  date, year, month, add_date, day_number, month_index, year_start, days_before_month, leap_after,
  century_of, year_index, month_of_year_day, day, month_start, seconds_of_day,
}
use billpiggy.Calendar.Instants.{month_no}
use billpiggy.Payments.{
  ScheduledPayment, monthly, payment_frequency_months, valid_payment_frequency, add_months_clamped,
  next_payment_due,
}
use billpiggy.Payments.Recurrence.{
  add_months_clamped_lem, next_payment_due_later, nth_due-OnAnchor, nth_due, OnAnchor,
}
use billpiggy.Projections.{BudgetRecord, budget_monthly, budget_window, rollup_period_start}
use billpiggy.Projections.Periods.{budget_window-covers, budget_window-same}

abbrev january : Time
january = 738915 * 86400000000000 + 32400000000000

add_months_clamped_lem_example :
    (month_no (add_months_clamped january 1 31) ≡ month_no january + 1)
    × (day (add_months_clamped january 1 31)
        ≡ min 31 (month_start (month_no january + 1 + 1) - month_start (month_no january + 1)))
    × (seconds_of_day (add_months_clamped january 1 31) ≡ seconds_of_day january)
add_months_clamped_lem_example = add_months_clamped_lem january 1 31

every_month : valid_payment_frequency monthly ≡ true
unfolding valid_payment_frequency
every_month = refl

next_payment_due_later_example : january < next_payment_due monthly (pos 0) 31 january
next_payment_due_later_example = next_payment_due_later monthly (pos 0) 31 january every_month

abbrev rent : ScheduledPayment
rent = record {
  id = "p1";
  owner_id = "u1";
  title = "rent";
  amount_minor = pos 90000;
  currency = "EUR";
  category_id = "";
  category_name = "";
  tag_ids = [];
  shared_group_id = "";
  frequency = monthly;
  custom_interval_days = pos 0;
  start_date = january;
  end_date = none;
  next_due_at = january;
  last_posted_at = none;
  auto_post = true;
  reminder_days_before = pos 3;
  paused = false;
  created_at = january;
  updated_at = january;
  deleted_at = none;
}

one_month : 1 ≤ payment_frequency_months rent.frequency
unfolding payment_frequency_months
one_month = omega arith

nth_due-OnAnchor_example : OnAnchor rent (14 * payment_frequency_months monthly) (nth_due rent 14)
nth_due-OnAnchor_example = nth_due-OnAnchor rent 14 one_month

abbrev groceries : BudgetRecord
groceries = record {
  id = "b1";
  owner_id = "u1";
  category_id = "c1";
  name = "groceries";
  currency = "EUR";
  shared_group_id = "";
  amount_limit_minor = pos 40000;
  threshold_percent = pos 80;
  period = budget_monthly;
  due_at = none;
  created_at = january;
  updated_at = january;
  deleted_at = none;
}

budget_window-covers_example :
    ((budget_window groceries january).0 ≤ january)
    × (january < (budget_window groceries january).1)
budget_window-covers_example = budget_window-covers groceries january tt

january_window : budget_window groceries january ≡ (738885 * day_length, 738916 * day_length)
unfolding budget_window rollup_period_start date year month day add_date day_number month_start
    month_index year_start days_before_month leap_after century_of year_index month_of_year_day
january_window = refl

budget_window-same_example : budget_window groceries (january + 1) ≡ budget_window groceries january
budget_window-same_example =
    budget_window-same groceries january (january + 1) tt (rw january_window (omega arith))
      (rw january_window (omega arith))
