-- ===== src/Payments.antt =====
-- internal/core/domain/scheduled_payment.go: recurring payments and their due dates. A day of the
-- month to anchor at is 0 or more, as the code's only callers pass StartDate.Day() or 0.
pub mod Recurrence
use billpiggy.Base.{
  ℕ, ◌+◌, ◌-◌, Bool, true, false, not, ◌&&◌, String, List, Option, none, some, ltb, leb,
  if◌then◌else◌,
}
use billpiggy.Base.Int.{ℤ, pos, pos_part, ltb_ℤ, leb_ℤ}
use billpiggy.Clock.{Time, after}
use billpiggy.Calendar.{date, day, month, year, add_date, sub_days, seconds_of_day}

-- `other` is any text that is none of the four constants.
pub data PaymentFrequency : Type 0 where
  monthly quarterly yearly custom : PaymentFrequency
  other : String → PaymentFrequency

pub data PostingKind : Type 0 where
  reminder due : PostingKind

pub record ScheduledPayment : Type 0 where
  pub id : String
  pub owner_id : String
  pub title : String
  pub amount_minor : ℤ
  pub currency : String
  pub category_id : String
  pub category_name : String
  pub tag_ids : List String
  pub shared_group_id : String
  pub frequency : PaymentFrequency
  pub custom_interval_days : ℤ
  pub start_date : Time
  pub end_date : Option Time
  pub next_due_at : Time
  pub last_posted_at : Option Time
  pub auto_post : Bool
  pub reminder_days_before : ℤ
  pub paused : Bool
  pub created_at : Time
  pub updated_at : Time
  pub deleted_at : Option Time

pub record ScheduledPaymentPosting : Type 0 where
  pub scheduled_payment_id : String
  pub due_at : Time
  pub kind : PostingKind
  pub expense_id : String
  pub posted_at : Time

unfoldable pub valid_payment_frequency : PaymentFrequency → Bool
valid_payment_frequency monthly = true
valid_payment_frequency quarterly = true
valid_payment_frequency yearly = true
valid_payment_frequency custom = true
valid_payment_frequency (other text) = false

unfoldable pub payment_frequency_months : PaymentFrequency → ℕ
payment_frequency_months monthly = 1
payment_frequency_months quarterly = 3
payment_frequency_months yearly = 12
payment_frequency_months custom = 0
payment_frequency_months (other text) = 0

-- daysInMonth: day 0 of the following month
unfoldable pub days_in_month : ℕ → ℕ → ℕ
days_in_month y m = day (date y (m + 1) 0 0)

-- AddMonthsClamped
unfoldable pub add_months_clamped : Time → ℕ → ℕ → Time
add_months_clamped at months anchor_day =
    let target = date (year at) (month at + months) 1 0 in
    let wanted = if ltb anchor_day 1 then day at else anchor_day in
    let last = days_in_month (year target) (month target) in
    date (year target) (month target) (if ltb last wanted then last else wanted) (seconds_of_day at)

abbrev pub is_custom : PaymentFrequency → Bool
is_custom custom = true
is_custom _ = false

-- NextPaymentDue
unfoldable pub next_payment_due : PaymentFrequency → ℤ → ℕ → Time → Time
next_payment_due frequency custom_interval_days anchor_day current =
    if ltb 0 (payment_frequency_months frequency)
    then add_months_clamped current (payment_frequency_months frequency) anchor_day
    else if is_custom frequency
    then add_date current 0 0
        (if ltb_ℤ custom_interval_days (pos 1) then 1 else pos_part custom_interval_days)
    else current

-- NextDueFor
unfoldable pub next_due_for : ScheduledPayment → Time → Time
next_due_for p current =
    next_payment_due p.frequency p.custom_interval_days (day p.start_date) current

-- ScheduledPaymentFinished
unfoldable pub scheduled_payment_finished : ScheduledPayment → Time → Bool
scheduled_payment_finished p due_at = elim p.end_date [ none ↦ false | some end ↦ after due_at end ]

-- ReminderDueAt: `none` stands for a false second result.
unfoldable pub reminder_due_at : ScheduledPayment → Time → Option Time
reminder_due_at p due_at =
    if leb_ℤ p.reminder_days_before (pos 0)
    then none
    else some (sub_days due_at (pos_part p.reminder_days_before))
