-- ===== src/Projections/Thresholds.antt =====
-- internal/core/domain/projection.go, the budget alerts: BudgetUsage, BudgetAlert,
-- BudgetThresholdCrossing and AlertedPercentFor. Amounts are int64, and so is int.
use billpiggy.Base.{Bool, ◌||◌, ◌&&◌, String, Option, none, some, if◌then◌else◌}
use billpiggy.Base.Int.{ℤ, pos, leb_ℤ, mul64, div64}
use billpiggy.Clock.{Time}
use billpiggy.Projections.{BudgetRecord}

pub record BudgetUsage : Type 0 where
  pub budget_id : String
  pub period_start : Time
  pub spent_minor : ℤ
  pub alerted_percent : ℤ
  pub updated_at : Time

pub record BudgetAlert : Type 0 where
  pub budget_id : String
  pub owner_id : String
  pub category_id : String
  pub currency : String
  pub budget_name : String
  pub spent_minor : ℤ
  pub limit_minor : ℤ
  pub percent_used : ℤ
  pub exceeded : Bool
  pub period_start : Time

-- int(spentMinor * 100 / budget.AmountLimitMinor)
unfoldable pub percent_of : BudgetRecord → ℤ → ℤ
percent_of b spent = div64 (mul64 spent (pos 100)) b.amount_limit_minor

-- The rung of a percentage, 0 for none.
unfoldable pub rung_of : BudgetRecord → ℤ → ℤ
rung_of b percent =
    if leb_ℤ (pos 100) percent
    then pos 100
    else if leb_ℤ b.threshold_percent percent
    then b.threshold_percent
    else pos 0

abbrev pub is_zero_ℤ : ℤ → Bool
is_zero_ℤ a = leb_ℤ a (pos 0) && leb_ℤ (pos 0) a

-- BudgetThresholdCrossing
unfoldable pub budget_threshold_crossing : BudgetRecord → BudgetUsage → ℤ → Option BudgetAlert
budget_threshold_crossing b usage spent =
    if leb_ℤ b.amount_limit_minor (pos 0)
    then none
    else let percent = percent_of b spent in
      let rung = rung_of b percent in
      if is_zero_ℤ rung || leb_ℤ rung usage.alerted_percent
      then none
      else some record {
        budget_id = b.id;
        owner_id = b.owner_id;
        category_id = b.category_id;
        currency = b.currency;
        budget_name = b.name;
        spent_minor = spent;
        limit_minor = b.amount_limit_minor;
        percent_used = percent;
        exceeded = leb_ℤ (pos 100) percent;
        period_start = usage.period_start;
      }

abbrev max_ℤ : ℤ → ℤ → ℤ
max_ℤ a b = if leb_ℤ a b then b else a

-- AlertedPercentFor
unfoldable pub alerted_percent_for : BudgetRecord → BudgetUsage → ℤ → ℤ
alerted_percent_for b usage spent =
    if leb_ℤ b.amount_limit_minor (pos 0)
    then pos 0
    else let percent = percent_of b spent in
      if leb_ℤ (pos 100) percent
      then pos 100
      else if leb_ℤ b.threshold_percent percent
      then max_ℤ usage.alerted_percent b.threshold_percent
      else pos 0

-- The usage row that `recompute` of internal/core/service/budget_usage_projection.go stores for the
-- total `spent` of a window, and the alert that it queues, which is none while messages are replayed.
unfoldable pub record_spend :
    BudgetRecord → BudgetUsage → Time → ℤ → Bool → Time → Option BudgetAlert × BudgetUsage
record_spend b loaded start spent replay now =
    let stored = record loaded { period_start = start } in
    let alert = budget_threshold_crossing b stored spent in
    (
      (if replay then none else alert),
      record stored {
        spent_minor = spent;
        alerted_percent = alerted_percent_for b stored spent;
        updated_at = now;
      },
    )
