-- ===== src/Projections.antt =====
-- internal/core/domain/projection.go but for the budget alerts, with the records of expense_record.go, budget_record.go and
-- analytics.go that it uses: what an event contributes, and the periods that spending falls in.
-- json.Unmarshal is a parameter: it takes a payload to an envelope, or to `none` for its error.
pub mod Periods
pub mod Thresholds
pub mod Alerts
use billpiggy.Base.{
  ℕ, ◌+◌, ◌-◌, ◌*◌, ◌/◌, ◌%◌, Bool, true, false, not, ◌&&◌, ◌||◌, String, List, [], ◌∷◌, Option,
  none, some, ltb, leb, ◌==◌, string_eq, nat_eq, if◌then◌else◌,
}
use billpiggy.Base.Int.{ℤ, pos}
use billpiggy.Clock.{Time, is_zero}
use billpiggy.Outbox.{Bytes}
use billpiggy.Calendar.{date, day, month, year, weekday, add_date, sub_days}

pub record ExpenseItem : Type 0 where
  pub title : String
  pub quantity : String
  pub amount_minor : ℤ

-- Latitude and longitude are the bit patterns of their float64.
pub record ExpenseRecord : Type 0 where
  pub id : String
  pub owner_id : String
  pub title : String
  pub amount_minor : ℤ
  pub currency : String
  pub occurred_at : Time
  pub category_id : String
  pub category_name : String
  pub tag_ids : List String
  pub status : String
  pub shared_group_id : String
  pub items : List ExpenseItem
  pub latitude : Option ℕ
  pub longitude : Option ℕ
  pub address : String
  pub receipt_object_key : String
  pub created_at : Time
  pub updated_at : Time
  pub deleted_at : Option Time

pub record ExpenseContribution : Type 0 where
  pub expense_id : String
  pub owner_id : String
  pub category_id : String
  pub currency : String
  pub tag_ids : List String
  pub amount_minor : ℤ
  pub occurred_at : Time
  pub active : Bool

-- expenseEnvelope
pub record ExpenseEnvelope : Type 0 where
  pub expense : ExpenseRecord
  pub expense_id : String
  pub owner_id : String

-- The results (value, true, nil), (_, false, nil) and (_, false, err).
pub data Decoded {ℓ} (A : Type ℓ) : Type ℓ where
  decoded : A → Decoded A
  skipped : Decoded A
  undecodable : Decoded A

abbrev pub is_none : Option Time → Bool
is_none none = true
is_none (some t) = false

-- The contribution of an expense that was removed; only its id is read from it.
abbrev pub removal : String → String → ExpenseContribution
removal id owner = record {
  expense_id = id;
  owner_id = owner;
  category_id = "";
  currency = "";
  tag_ids = [];
  amount_minor = pos 0;
  occurred_at = 0;
  active = false;
}

abbrev pub contribution_of : ExpenseRecord → ExpenseContribution
contribution_of e = record {
  expense_id = e.id;
  owner_id = e.owner_id;
  category_id = e.category_id;
  currency = e.currency;
  tag_ids = e.tag_ids;
  amount_minor = e.amount_minor;
  occurred_at = e.occurred_at;
  active = is_none e.deleted_at;
}

-- DecodeExpenseContribution, once the payload is unmarshalled.
unfoldable pub contribution_of_envelope : String → ExpenseEnvelope → Decoded ExpenseContribution
contribution_of_envelope event_type envelope =
    let id = if envelope.expense_id == "" then envelope.expense.id else envelope.expense_id in
    if event_type == "expense_removed"
    then (if id == "" then undecodable else decoded (removal id envelope.owner_id))
    else if envelope.expense.id == ""
    then undecodable
    else decoded (contribution_of envelope.expense)

-- DecodeExpenseContribution
unfoldable pub decode_expense_contribution :
    (Bytes → Option ExpenseEnvelope) → String → Bytes → Decoded ExpenseContribution
unfolding contribution_of_envelope
decode_expense_contribution unmarshal event_type payload =
    if event_type == "expense_added"
      || (event_type == "expense_updated" || event_type == "expense_removed")
    then elim (unmarshal payload) [
      | none ↦ undecodable
      | some envelope ↦ contribution_of_envelope event_type envelope
    ]
    else skipped

pub data AnalyticsPeriod : Type 0 where
  analytics_day analytics_week analytics_month analytics_year : AnalyticsPeriod

-- RollupPeriods
unfoldable pub rollup_periods : List AnalyticsPeriod
rollup_periods = analytics_day ∷ analytics_week ∷ analytics_month ∷ analytics_year ∷ []

-- RollupPeriodStart
unfoldable pub rollup_period_start : AnalyticsPeriod → Time → Time
rollup_period_start analytics_day at = date (year at) (month at) (day at) 0
rollup_period_start analytics_week at =
    let start = date (year at) (month at) (day at) 0 in sub_days start ((weekday start + 6) % 7)
rollup_period_start analytics_month at = date (year at) (month at) 1 0
rollup_period_start analytics_year at = date (year at) 1 1 0

-- `other_period` is any text that is none of the five constants.
pub data BudgetPeriod : Type 0 where
  budget_daily budget_weekly budget_monthly budget_yearly budget_custom : BudgetPeriod
  other_period : String → BudgetPeriod

pub record BudgetRecord : Type 0 where
  pub id : String
  pub owner_id : String
  pub category_id : String
  pub name : String
  pub currency : String
  pub shared_group_id : String
  pub amount_limit_minor : ℤ
  pub threshold_percent : ℤ
  pub period : BudgetPeriod
  pub due_at : Option Time
  pub created_at : Time
  pub updated_at : Time
  pub deleted_at : Option Time

abbrev pub custom_end : Time → Option Time → Time
custom_end start none = add_date start 100 0 0
custom_end start (some due) = due

abbrev pub window_of : BudgetPeriod → BudgetRecord → Time → Time × Time
window_of budget_daily b at =
    let start = rollup_period_start analytics_day at in (start, add_date start 0 0 1)
window_of budget_weekly b at =
    let start = rollup_period_start analytics_week at in (start, add_date start 0 0 7)
window_of budget_yearly b at =
    let start = rollup_period_start analytics_year at in (start, add_date start 1 0 0)
window_of budget_custom b at =
    let start = rollup_period_start analytics_day b.created_at in (start, custom_end start b.due_at)
window_of budget_monthly b at =
    let start = rollup_period_start analytics_month at in (start, add_date start 0 1 0)
window_of (other_period text) b at =
    let start = rollup_period_start analytics_month at in (start, add_date start 0 1 0)

-- BudgetWindow
unfoldable pub budget_window : BudgetRecord → Time → Time × Time
budget_window b at = window_of b.period b at
