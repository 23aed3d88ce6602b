-- ===== src/Budgets/Service.antt =====
-- internal/core/service/budgets.go: the commands of BudgetService, each an event and a change of the
-- projection in one unit of work, and its queries.
use billpiggy.Base.{
  Bool, true, false, not, ◌||◌, ℕ, ◌-◌, ◌/◌, String, List, [], Option, none, some, ◌==◌, nat_eq,
  string_eq, contains, if◌then◌else◌,
}
use Prim.Native.String.{len}
use billpiggy.Base.Int.{pos, leb_ℤ, ltb_ℤ}
use billpiggy.Base.Act.{
  forbidden, not_found, invalid, other, Outcome, ok, err, Act, Done, pure, read, guard, require,
  atomic, ◌>>=◌, ◌>>◌,
}
use billpiggy.Clock.{Time}
use billpiggy.Identity.{AppUser}
use billpiggy.Outbox.{Bytes}
use billpiggy.EventStore.{EventStore, DomainEvent, append}
use billpiggy.Groups.{GroupRepository, visible_group_ids}
use billpiggy.Projections.{
  BudgetRecord, BudgetPeriod, budget_daily, budget_weekly, budget_monthly, budget_yearly,
  budget_custom, other_period,
}
use billpiggy.Budgets.{
  BudgetRepository, store_budget, list_budgets, get_visible_budget, remove_budget,
}

pub record BudgetState : Type 0 where
  pub budgets : BudgetRepository
  pub store : EventStore
  pub groups : GroupRepository

-- What BudgetService is built from: strings.TrimSpace and ToUpper, and json.Marshal on its payloads.
pub record BudgetService : Type 0 where
  pub trim_space : String → String
  pub to_upper : String → String
  pub marshal_budget : BudgetRecord → Option Bytes
  pub marshal_removed : String → String → Time → Option Bytes

abbrev known_period : BudgetPeriod → Bool
known_period budget_daily = true
known_period budget_weekly = true
known_period budget_monthly = true
known_period budget_yearly = true
known_period budget_custom = true
known_period (other_period _) = false

-- validateBudget
abbrev within_bounds : BudgetRecord → Bool
within_bounds b = not (
    b.owner_id == ""
    || b.name == ""
    || b.category_id == ""
    || leb_ℤ b.amount_limit_minor (pos 0)
    || not (len b.currency == 3)
    || ltb_ℤ b.threshold_percent (pos 1)
    || ltb_ℤ (pos 100) b.threshold_percent)

abbrev pub validate_budget : BudgetRecord → Act BudgetState Done
validate_budget b = do
  guard (within_bounds b) (invalid "invalid budget")
  guard (known_period b.period) (invalid "invalid budget period")

unfoldable pub on_budgets : {A : Type 0} → Act BudgetRepository A → Act BudgetState A
on_budgets m s = let r = m s.budgets in (r.0, record s { budgets = r.1 })

abbrev appended : BudgetState → Option EventStore → Outcome Done × BudgetState
appended s none = (err (other "marshal event payload"), s)
appended s (some store) = (ok tt, record s { store = store })

unfoldable pub append_event : DomainEvent → Act BudgetState Done
append_event event s = appended s (append event s.store)

-- validateSharedGroup
abbrev pub may_share : AppUser → String → BudgetState → Bool
may_share owner group_id s = group_id == "" || contains group_id (visible_group_ids owner s.groups)

abbrev owned_by : String → Option BudgetRecord → Option BudgetRecord
owned_by owner_id none = none
owned_by owner_id (some budget) = if budget.owner_id == owner_id then some budget else none

-- The budget that an owner may change.
abbrev pub owned_budget : AppUser → String → BudgetState → Option BudgetRecord
owned_budget owner id s = owned_by owner.id (get_visible_budget owner.id id [] s.budgets)

-- UnixMilli, for an instant since 1970
abbrev to_unix_milli : Time → ℕ
to_unix_milli t = (t - 62135596800000000000) / 1000000

module _ (service : BudgetService) where
  abbrev budget_event : String → String → String → String → Option Bytes → Time → DomainEvent
  budget_event event_id event_type budget_id actor_id payload at = record {
    id = event_id;
    aggregate_type = "budget";
    aggregate_id = budget_id;
    event_type = event_type;
    payload = payload;
    occurred_at = to_unix_milli at;
    actor_id = actor_id;
  }

  -- CreateBudget
  abbrev pub drafted : String → Time → AppUser → BudgetRecord → BudgetRecord
  drafted id now owner budget = record budget {
    id = id;
    owner_id = owner.id;
    name = service.trim_space budget.name;
    currency = service.to_upper budget.currency;
    created_at = now;
    updated_at = now;
  }

  unfoldable pub create_budget :
      String → String → Time → AppUser → BudgetRecord → Act BudgetState BudgetRecord
  create_budget id event_id now owner command = do
    let budget = drafted id now owner command
    validate_budget budget
    require (may_share owner budget.shared_group_id) forbidden
    atomic (do
      append_event
          (budget_event event_id "budget_created" id owner.id (service.marshal_budget budget) now)
      on_budgets (store_budget budget))
    pure budget

  -- ListBudgets and GetBudget
  unfoldable pub list_visible_budgets : AppUser → Act BudgetState (List BudgetRecord)
  list_visible_budgets viewer s =
      pure (list_budgets viewer.id (visible_group_ids viewer s.groups) s.budgets) s

  unfoldable pub get_budget : AppUser → String → Act BudgetState BudgetRecord
  get_budget viewer id =
      read not_found
        (λ s. get_visible_budget viewer.id id (visible_group_ids viewer s.groups) s.budgets)

  -- UpdateBudget
  abbrev pub edited : Time → BudgetRecord → BudgetRecord → BudgetRecord
  edited now update budget = record budget {
    name = service.trim_space update.name;
    category_id = update.category_id;
    amount_limit_minor = update.amount_limit_minor;
    currency = service.to_upper (service.trim_space update.currency);
    threshold_percent = update.threshold_percent;
    period = update.period;
    due_at = update.due_at;
    shared_group_id = update.shared_group_id;
    updated_at = now;
  }

  unfoldable pub update_budget :
      String → Time → AppUser → String → BudgetRecord → Act BudgetState BudgetRecord
  update_budget event_id now owner budget_id update = do
    previous ← read not_found (owned_budget owner budget_id)
    let budget = edited now update previous
    validate_budget budget
    require (may_share owner budget.shared_group_id) forbidden
    atomic (do
      append_event (
          budget_event event_id "budget_updated" budget.id owner.id (service.marshal_budget budget)
            now)
      on_budgets (store_budget budget))
    pure budget

  -- DeleteBudget
  unfoldable pub delete_budget : String → Time → AppUser → String → Act BudgetState Done
  delete_budget event_id now owner budget_id = do
    budget ← read not_found (owned_budget owner budget_id)
    atomic (do
      append_event (
          budget_event event_id "budget_removed" budget.id owner.id
            (service.marshal_removed budget.id owner.id now) now)
      on_budgets (remove_budget owner.id budget_id))
