-- ===== src/Budgets/Usage.antt =====
-- internal/core/service/budget_usage_projection.go and
-- internal/adapter/outbound/memory/budget_usage_repository.go: what every budget has spent in each of
-- its periods. A period is identified by its budget and its start, as the usage rows are.
pub mod Recompute
pub mod Windows
pub mod Coverage
pub mod Affected
pub mod Projection
pub mod Spent
use billpiggy.Base.{
  ◌≡◌, ◌↔◌, Bool, true, false, not, ◌&&◌, ◌||◌, ℕ, suc, String, List, [], ◌∷◌, ◌++◌, Option, none,
  some, ◌==◌, string_eq, Comparable, string_beq_iff, arith, if◌then◌else◌,
}
use billpiggy.Base.Int.{ℤ, pos, add64, same_ℤ, same_ℤ_iff}
use billpiggy.Base.Act.{
  Failure, invalid, Outcome, ok, err, Act, Done, pure, fail, modify, ◌>>=◌, ◌>>◌,
}
use billpiggy.Base.Assoc.{lookup, insert}
use billpiggy.Clock.{Time, zero_time, is_zero, before, unix_nano}
use billpiggy.Outbox.{Bytes, Message}
use billpiggy.Notifications.{
  Deliveries, NotificationDelivery, notification_budget_alert, notification_pending,
  stored_delivery,
}
use billpiggy.Projections.{
  ExpenseContribution, ExpenseEnvelope, BudgetRecord, Decoded, decoded, skipped, undecodable,
  decode_expense_contribution, budget_window, is_none,
}
use billpiggy.Projections.Thresholds.{BudgetUsage, BudgetAlert, record_spend}
use billpiggy.Budgets.{BudgetRepository, BudgetEnvelope, list_budgets, decode_budget}

-- usageKey
pub record UsageKey : Type 0 where
  pub budget_id : String
  pub period_start : ℤ

abbrev same_key : UsageKey → UsageKey → Bool
same_key j k = j.budget_id == k.budget_id && same_ℤ j.period_start k.period_start

pub same_key_iff : (j k : UsageKey) → (same_key j k ≡ true) ↔ (j ≡ k)
same_key_iff j k =
    ground (arith, string_beq_iff j.budget_id k.budget_id, same_ℤ_iff j.period_start k.period_start)

instance abbrev pub usage_key_eq : Comparable UsageKey
usage_key_eq = record {
  equals = same_key;
  sound = λ j k. (same_key_iff j k).0;
  complete = λ j k. (same_key_iff j k).1;
}

-- BudgetUsageRepository with its BudgetRepository, and the queue of notifications.
pub record BudgetUsageState : Type 0 where
  pub budgets : BudgetRepository
  pub contributions : List (String × ExpenseContribution)
  pub usage : List (UsageKey × BudgetUsage)
  pub notifications : Deliveries

-- What SumContributions adds up.
abbrev pub counted : String → String → Time → Time → ExpenseContribution → Bool
counted owner_id category_id from until contribution =
    contribution.active
    && contribution.owner_id == owner_id
    && contribution.category_id == category_id
    && not (before contribution.occurred_at from)
    && before contribution.occurred_at until

-- SumContributions. An int64 sum wraps around, so that the order does not matter.
unfoldable pub sum_contributions :
    String → String → Time → Time → List (String × ExpenseContribution) → ℤ
sum_contributions owner_id category_id from until [] = pos 0
sum_contributions owner_id category_id from until ((_, contribution) ∷ rest) =
    let later = sum_contributions owner_id category_id from until rest in
    if counted owner_id category_id from until contribution
    then add64 later contribution.amount_minor
    else later

-- LoadUsage
abbrev pub usage_key : String → Time → UsageKey
usage_key budget_id start = record { budget_id = budget_id; period_start = unix_nano start }

abbrev pub new_usage : String → Time → BudgetUsage
new_usage budget_id start = record {
  budget_id = budget_id;
  period_start = start;
  spent_minor = pos 0;
  alerted_percent = pos 0;
  updated_at = zero_time;
}

abbrev pub usage_or : BudgetUsage → Option BudgetUsage → BudgetUsage
usage_or fresh none = fresh
usage_or fresh (some usage) = usage

abbrev pub load_usage : String → Time → List (UsageKey × BudgetUsage) → BudgetUsage
load_usage budget_id start rows =
    usage_or (new_usage budget_id start) (lookup (usage_key budget_id start) rows)

-- SaveUsage
abbrev pub save_usage : BudgetUsage → List (UsageKey × BudgetUsage) → List (UsageKey × BudgetUsage)
save_usage usage rows = insert (usage_key usage.budget_id usage.period_start) usage rows

-- DeleteUsage
unfoldable pub delete_usage : String → List (UsageKey × BudgetUsage) → List (UsageKey × BudgetUsage)
delete_usage budget_id [] = []
delete_usage budget_id ((key, usage) ∷ rest) =
    let later = delete_usage budget_id rest in
    if key.budget_id == budget_id then later else (key, usage) ∷ later

-- ListBudgetsForCategory
unfoldable pub in_category : String → String → List BudgetRecord → List BudgetRecord
in_category owner_id category_id [] = []
in_category owner_id category_id (budget ∷ budgets) =
    let later = in_category owner_id category_id budgets in
    if budget.category_id == category_id && budget.owner_id == owner_id
    then budget ∷ later
    else later

abbrev pub list_budgets_for_category : String → String → BudgetRepository → List BudgetRecord
list_budgets_for_category owner_id category_id rows =
    if owner_id == "" || category_id == ""
    then []
    else in_category owner_id category_id (list_budgets owner_id [] rows)

-- GetBudget of the usage repository
abbrev live_budget : Option BudgetRecord → Option BudgetRecord
live_budget none = none
live_budget (some budget) = if is_none budget.deleted_at then some budget else none

abbrev pub get_live_budget : String → BudgetRepository → Option BudgetRecord
get_live_budget id rows = live_budget (lookup id rows)
