-- ===== src/Budgets/Usage/Projection.antt =====
-- internal/core/service/budget_usage_projection.go: the budget usage projection. A period is identified
-- by its budget and its start, as the usage rows are.
use billpiggy.Base.{
  Bool, false, not, ◌&&◌, ◌||◌, ℕ, suc, String, List, [], ◌∷◌, ◌++◌, Option, none, some, ◌==◌,
  string_eq, if◌then◌else◌,
}
use billpiggy.Base.Int.{ℤ}
use billpiggy.Base.Act.{invalid, Outcome, ok, err, Act, Done, pure}
use billpiggy.Base.Assoc.{lookup, insert}
use billpiggy.Clock.{Time, is_zero}
use billpiggy.Outbox.{Bytes, Message}
use billpiggy.Notifications.{
  Deliveries, NotificationDelivery, notification_budget_alert, notification_pending,
  stored_delivery,
}
use billpiggy.Projections.{
  ExpenseContribution, ExpenseEnvelope, BudgetRecord, Decoded, decoded, skipped, undecodable,
  decode_expense_contribution, budget_window, is_none,
}
use billpiggy.Projections.Thresholds.{BudgetAlert, record_spend}
use billpiggy.Budgets.{BudgetRepository, BudgetEnvelope, decode_budget}
use billpiggy.Budgets.Usage.{
  BudgetUsageState, UsageKey, usage_key_eq, sum_contributions, usage_key, load_usage, save_usage,
  delete_usage, list_budgets_for_category, get_live_budget,
}

-- budgetWindow
pub record Window : Type 0 where
  pub budget : BudgetRecord
  pub start : Time
  pub end : Time

abbrev pub window_key : Window → UsageKey
window_key w = usage_key w.budget.id w.start

abbrev pub window_at : BudgetRecord → Time → Window
window_at budget at =
    let window = budget_window budget at in
    record { budget = budget; start = window.0; end = window.1 }

-- Adding a window whose period is not there yet.
unfoldable pub has_window : UsageKey → List Window → Bool
has_window key [] = false
has_window key (w ∷ ws) = window_key w == key || has_window key ws

abbrev pub add_window : Window → List Window → List Window
add_window w ws = if has_window (window_key w) ws then ws else ws ++ w ∷ []

unfoldable pub add_times : BudgetRecord → List Time → List Window → List Window
add_times budget [] ws = ws
add_times budget (at ∷ times) ws = add_times budget times (add_window (window_at budget at) ws)

unfoldable pub add_budgets : List BudgetRecord → List Time → List Window → List Window
add_budgets [] times ws = ws
add_budgets (budget ∷ budgets) times ws = add_budgets budgets times (add_times budget times ws)

-- The scopes of affectedWindows: an owner with a category, and the times at which they are touched.
pub record Scope : Type 0 where
  pub owner_id : String
  pub category_id : String
  pub times : List Time

abbrev pub scoped : ExpenseContribution → Bool
scoped c = not (c.owner_id == "" || c.category_id == "" || is_zero c.occurred_at)

abbrev pub add_scope : ExpenseContribution → List Scope → List Scope
add_scope c [] =
    record { owner_id = c.owner_id; category_id = c.category_id; times = c.occurred_at ∷ [] } ∷ []
add_scope c (scope ∷ scopes) =
    let later = add_scope c scopes in
    if scope.owner_id == c.owner_id && scope.category_id == c.category_id
    then record scope { times = scope.times ++ c.occurred_at ∷ [] } ∷ scopes
    else scope ∷ later

abbrev pub scopes_with : ExpenseContribution → List Scope → List Scope
scopes_with c scopes = if scoped c then add_scope c scopes else scopes

abbrev pub scopes_of : Option ExpenseContribution → ExpenseContribution → List Scope
scopes_of none next = scopes_with next []
scopes_of (some previous) next = scopes_with next (scopes_with previous [])

unfoldable pub windows_of : BudgetRepository → List Scope → List Window → List Window
windows_of budgets [] ws = ws
windows_of budgets (scope ∷ scopes) ws = windows_of budgets scopes (
    add_budgets (list_budgets_for_category scope.owner_id scope.category_id budgets) scope.times ws)

-- affectedWindows
abbrev pub affected_windows :
    Option ExpenseContribution → ExpenseContribution → BudgetRepository → List Window
affected_windows previous next budgets = windows_of budgets (scopes_of previous next) []

-- What handleExpense stores in the mirror for a decoded contribution: nothing for the removal of an
-- expense that it has not seen, and the previous contribution, no longer active, for one that it has.
abbrev pub kept_contribution :
    ExpenseContribution → Option ExpenseContribution → Option ExpenseContribution
kept_contribution next none = if next.active then some next else none
kept_contribution next (some previous) =
    if next.active then some next else some (record previous { active = false })

-- strconv.FormatInt, strconv.FormatBool and time.Format, the clock, and the ids of the alerts that a
-- message queues, counted from 0.
pub record UsagePorts : Type 0 where
  pub format_int : ℤ → String
  pub format_bool : Bool → String
  pub format_rfc3339 : Time → String
  pub unmarshal_expense : Bytes → Option ExpenseEnvelope
  pub unmarshal_budget : Bytes → Option BudgetEnvelope

module _ (ports : UsagePorts) (ids : ℕ → String) (now : Time) where
  -- queueAlert
  abbrev alert_delivery : String → BudgetAlert → NotificationDelivery
  alert_delivery id alert = record {
    id = id;
    user_id = alert.owner_id;
    recipient_email = "";
    kind = notification_budget_alert;
    payload =
        ("budget_id", alert.budget_id)
        ∷ ("budget_name", alert.budget_name)
        ∷ ("currency", alert.currency)
        ∷ ("spent_minor", ports.format_int alert.spent_minor)
        ∷ ("limit_minor", ports.format_int alert.limit_minor)
        ∷ ("percent_used", ports.format_int alert.percent_used)
        ∷ ("exceeded", ports.format_bool alert.exceeded)
        ∷ ("period_start", ports.format_rfc3339 alert.period_start)
        ∷ [];
    created_at = now;
    status = notification_pending;
    attempts = 0;
  }

  abbrev queue_alert : String → Option BudgetAlert → Deliveries → Deliveries
  queue_alert id none deliveries = deliveries
  queue_alert id (some alert) deliveries =
      insert id (stored_delivery (alert_delivery id alert)) deliveries

  -- What the loop of recompute sums up, and one turn of it
  abbrev pub spent_in : Window → BudgetUsageState → ℤ
  spent_in w s =
      sum_contributions w.budget.owner_id w.budget.category_id w.start w.end s.contributions

  abbrev pub recompute_window : ℕ → Bool → Window → BudgetUsageState → BudgetUsageState
  recompute_window k replay w s =
      let stored =
        record_spend w.budget (load_usage w.budget.id w.start s.usage) w.start (spent_in w s) replay
          now in
      record s {
        usage = save_usage stored.1 s.usage;
        notifications = queue_alert (ids k) stored.0 s.notifications;
      }

  -- recompute
  unfoldable pub recompute : ℕ → Bool → List Window → BudgetUsageState → BudgetUsageState
  recompute k replay [] s = s
  recompute k replay (w ∷ ws) s = recompute (suc k) replay ws (recompute_window k replay w s)

  -- handleExpense, once the payload is decoded
  abbrev pub mirrored :
      Bool → ExpenseContribution → Option ExpenseContribution → BudgetUsageState → BudgetUsageState
  mirrored replay next previous s =
      recompute 0 replay (affected_windows previous next s.budgets)
        (record s { contributions = insert next.expense_id next s.contributions })

  abbrev pub applied :
      Bool
      → Option ExpenseContribution
      → Option ExpenseContribution
      → BudgetUsageState
      → BudgetUsageState
  applied replay none previous s = s
  applied replay (some next) previous s = mirrored replay next previous s

  abbrev pub apply_contribution :
      Bool → ExpenseContribution → Option ExpenseContribution → BudgetUsageState → BudgetUsageState
  apply_contribution replay next previous s =
      applied replay (kept_contribution next previous) previous s

  abbrev pub on_contribution :
      Bool → Decoded ExpenseContribution → BudgetUsageState → Outcome Done × BudgetUsageState
  on_contribution replay undecodable s = (err (invalid "decode payload"), s)
  on_contribution replay skipped s = (ok tt, s)
  on_contribution replay (decoded next) s =
      (ok tt, apply_contribution replay next (lookup next.expense_id s.contributions) s)

  unfoldable pub handle_expense : Message → Act BudgetUsageState Done
  handle_expense message s =
      on_contribution message.replay
        (decode_expense_contribution ports.unmarshal_expense message.event_type message.payload) s

  -- handleBudget
  abbrev refreshed : Bool → BudgetRecord → Option BudgetRecord → BudgetUsageState → BudgetUsageState
  refreshed replay budget none s = record s { usage = delete_usage budget.id s.usage }
  refreshed replay budget (some current) s = recompute 0 replay (window_at current now ∷ []) s

  abbrev on_budget :
      Message → Decoded BudgetRecord → BudgetUsageState → Outcome Done × BudgetUsageState
  on_budget message undecodable s = (err (invalid "decode payload"), s)
  on_budget message skipped s = (ok tt, s)
  on_budget message (decoded budget) s =
      let updated = refreshed message.replay budget (get_live_budget budget.id s.budgets) s in
      if message.event_type == "budget_removed" || not (is_none budget.deleted_at)
      then (ok tt, record s { usage = delete_usage budget.id s.usage })
      else (ok tt, updated)

  unfoldable pub handle_budget : Message → Act BudgetUsageState Done
  handle_budget message s =
      on_budget message
        (decode_budget ports.unmarshal_budget now message.event_type message.payload) s

  -- Handle
  unfoldable pub handle : Message → Act BudgetUsageState Done
  handle message =
      if message.aggregate_type == "expense"
      then handle_expense message
      else if message.aggregate_type == "budget"
      then handle_budget message
      else pure tt
