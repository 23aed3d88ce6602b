-- ===== src/Budgets.antt =====
-- internal/adapter/outbound/memory/budget_repository.go and internal/core/domain/projection.go: budgets,
-- and the events that carry them.
pub mod Usage
pub mod Service
use billpiggy.Base.{
  Bool, true, false, not, ◌&&◌, ◌||◌, String, List, [], ◌∷◌, Option, none, some, ◌==◌, string_eq,
  contains, if◌then◌else◌,
}
use billpiggy.Base.Int.{ℤ, pos}
use billpiggy.Base.Act.{Failure, other, Act, Done, read, modify, ◌>>=◌}
use billpiggy.Base.Assoc.{lookup, insert}
use billpiggy.Clock.{Time, is_zero}
use billpiggy.Outbox.{Bytes}
use billpiggy.Projections.{
  BudgetRecord, BudgetPeriod, other_period, Decoded, decoded, skipped, undecodable, is_none,
}

abbrev pub BudgetRepository : Type 0
BudgetRepository = List (String × BudgetRecord)

-- CreateBudget and UpdateBudget of the repository
unfoldable pub store_budget : BudgetRecord → Act BudgetRepository Done
store_budget value = modify (insert value.id value)

abbrev pub visible_budget : String → List String → BudgetRecord → Bool
visible_budget owner_id group_ids value =
    (value.owner_id == owner_id || contains value.shared_group_id group_ids)
    && is_none value.deleted_at

-- ListBudgets
unfoldable pub list_budgets : String → List String → BudgetRepository → List BudgetRecord
list_budgets owner_id group_ids [] = []
list_budgets owner_id group_ids ((_, value) ∷ rest) =
    let later = list_budgets owner_id group_ids rest in
    if visible_budget owner_id group_ids value then value ∷ later else later

abbrev if_visible : String → List String → Option BudgetRecord → Option BudgetRecord
if_visible owner_id group_ids none = none
if_visible owner_id group_ids (some value) =
    if visible_budget owner_id group_ids value then some value else none

-- GetBudget of the repository
unfoldable pub get_visible_budget :
    String → String → List String → BudgetRepository → Option BudgetRecord
get_visible_budget owner_id id group_ids rows = if_visible owner_id group_ids (lookup id rows)

abbrev if_owned : String → Option BudgetRecord → Option BudgetRecord
if_owned owner_id none = none
if_owned owner_id (some value) = if value.owner_id == owner_id then some value else none

-- DeleteBudget of the repository
unfoldable pub remove_budget : String → String → Act BudgetRepository Done
remove_budget owner_id id = do
  value ← read (other "not found") (λ rows. if_owned owner_id (lookup id rows))
  modify (insert id (record value { deleted_at = some value.updated_at }))

-- budgetEnvelope
pub record BudgetEnvelope : Type 0 where
  pub budget : BudgetRecord
  pub budget_id : String
  pub owner_id : String
  pub legacy_id : String
  pub legacy_owner : String
  pub legacy_remove : Time

-- A budget of which only the id, the owner and the date of its removal are known.
abbrev pub removed_budget : String → String → Time → BudgetRecord
removed_budget id owner_id at = record {
  id = id;
  owner_id = owner_id;
  category_id = "";
  name = "";
  currency = "";
  shared_group_id = "";
  amount_limit_minor = pos 0;
  threshold_percent = pos 0;
  period = other_period "";
  due_at = none;
  created_at = 0;
  updated_at = 0;
  deleted_at = some at;
}

-- The id and the owner of a removal: the tagged spelling, the untagged one, or the budget itself.
abbrev removed_id : BudgetEnvelope → String × String
removed_id envelope =
    if not (envelope.budget_id == "")
    then (envelope.budget_id, envelope.owner_id)
    else if not (envelope.legacy_id == "")
    then (envelope.legacy_id, envelope.legacy_owner)
    else (envelope.budget.id, envelope.budget.owner_id)

-- DecodeBudget, once the payload is unmarshalled; `now` dates a removal without a date.
unfoldable pub budget_of_envelope : Time → String → BudgetEnvelope → Decoded BudgetRecord
budget_of_envelope now event_type envelope =
    let named = removed_id envelope in
    let at = if is_zero envelope.legacy_remove then now else envelope.legacy_remove in
    if event_type == "budget_removed"
    then (if named.0 == "" then undecodable else decoded (removed_budget named.0 named.1 at))
    else if envelope.budget.id == ""
    then undecodable
    else decoded envelope.budget

-- DecodeBudget
unfoldable pub decode_budget :
    (Bytes → Option BudgetEnvelope) → Time → String → Bytes → Decoded BudgetRecord
decode_budget unmarshal now event_type payload =
    if event_type == "budget_created"
      || (event_type == "budget_updated" || event_type == "budget_removed")
    then elim (unmarshal payload) [
      | none ↦ undecodable
      | some envelope ↦ budget_of_envelope now event_type envelope
    ]
    else skipped
