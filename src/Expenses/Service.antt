-- ===== src/Expenses/Service.antt =====
-- internal/core/service/expenses.go: the commands of ExpenseService, each an event and a change of the
-- projection in one unit of work. A call runs at one instant and takes the ids that it
-- draws as arguments; every Time is in UTC.
use billpiggy.Expenses.Validation.{invalid_expense, valid_expense}
use billpiggy.Base.{
  Bool, true, not, ◌&&◌, ◌||◌, ℕ, nat_eq, ◌-◌, ◌/◌, String, List, [], ◌∷◌, Option, none, some, ◌==◌,
  string_eq, if◌then◌else◌,
}
use billpiggy.Base.Int.{ℤ}
use billpiggy.Base.Act.{
  forbidden, not_found, other, Outcome, ok, err, Act, Done, pure, read, guard, require, when,
  atomic, ◌>>=◌, ◌>>◌,
}
use billpiggy.Clock.{Time}
use billpiggy.Outbox.{Bytes}
use billpiggy.EventStore.{EventStore, DomainEvent, append}
use billpiggy.Projections.{ExpenseItem, ExpenseRecord}
use billpiggy.Objects.{References, ObjectReference, object_active, track_object, orphan_objects_for}
use billpiggy.Groups.{GroupRepository}
use billpiggy.Taxonomy.{TaxonomyRepository, Label, list_categories, list_tags, has_label}
use billpiggy.Expenses.{
  ExpenseRepository, store_expense, replace_expense, get_owned_expense, remove_expense, Strings,
}

-- CreateExpenseCommand
pub record ExpenseCommand : Type 0 where
  pub title : String
  pub currency : String
  pub category_id : String
  pub category_name : String
  pub shared_group_id : String
  pub address : String
  pub receipt_object_key : String
  pub amount_minor : ℤ
  pub occurred_at : Time
  pub tag_ids : List String
  pub status : String
  pub items : List ExpenseItem
  pub latitude : Option ℕ
  pub longitude : Option ℕ

-- The event store, and the participants of the unit of work that expenses touch. Groups and taxonomy are
-- read only.
pub record ExpenseState : Type 0 where
  pub expenses : ExpenseRepository
  pub store : EventStore
  pub references : References
  pub groups : GroupRepository
  pub taxonomy : TaxonomyRepository

-- ExpenseService: which of WithObjectReferences, WithGroups and WithTaxonomy were called; what encodes
-- its payloads; and sort.Slice, which may order equal elements in any way.
pub record ExpenseService : Type 0 where
  pub with_object_references : Bool
  pub with_groups : Bool
  pub with_taxonomy : Bool
  pub strings : Strings
  pub marshal_expense : ExpenseRecord → Option Bytes
  pub marshal_removed : String → String → Time → Option Bytes
  pub sort_slice : (ExpenseRecord → ExpenseRecord → Bool) → List ExpenseRecord → List ExpenseRecord

unfoldable pub on_expenses : {A : Type 0} → Act ExpenseRepository A → Act ExpenseState A
on_expenses m s = let r = m s.expenses in (r.0, record s { expenses = r.1 })

unfoldable pub on_references : {A : Type 0} → Act References A → Act ExpenseState A
on_references m s = let r = m s.references in (r.0, record s { references = r.1 })

abbrev pub appended : ExpenseState → Option EventStore → Outcome Done × ExpenseState
appended s none = (err (other "marshal event payload"), s)
appended s (some store) = (ok tt, record s { store = store })

-- events.Append
unfoldable pub append_event : DomainEvent → Act ExpenseState Done
append_event event s = appended s (append event s.store)

-- t.UnixMilli(), for an instant since 1970
abbrev to_unix_milli : Time → ℕ
to_unix_milli t = (t - 62135596800000000000) / 1000000

-- newExpenseEvent
abbrev pub new_expense_event : String → String → String → String → Option Bytes → Time → DomainEvent
new_expense_event id event_type aggregate_id actor_id payload occurred_at = record {
  id = id;
  aggregate_type = "expense";
  aggregate_id = aggregate_id;
  event_type = event_type;
  payload = payload;
  occurred_at = to_unix_milli occurred_at;
  actor_id = actor_id;
}

abbrev or_confirmed : String → String
or_confirmed status = if status == "" then "confirmed" else status

-- ObjectResourceExpenseReceipt
abbrev pub object_resource_expense_receipt : String
object_resource_expense_receipt = "expense_receipt"

module _ (service : ExpenseService) where
  unfoldable pub all_labelled : List String → List Label → Bool
  all_labelled [] labels = true
  all_labelled (id ∷ ids) labels = has_label id labels && all_labelled ids labels

  -- validateOwnership
  abbrev pub owned_labels : String → String → List String → ExpenseState → Bool
  owned_labels owner_id category_id tag_ids s =
      not service.with_taxonomy
      || (category_id == "" || has_label category_id (list_categories owner_id s.taxonomy))
        && all_labelled tag_ids (list_tags owner_id s.taxonomy)

  abbrev pub drafted : String → String → Time → ExpenseCommand → ExpenseRecord
  drafted id owner_id now command = record {
    id = id;
    owner_id = owner_id;
    title = service.strings.trim_space command.title;
    amount_minor = command.amount_minor;
    currency = service.strings.to_upper (service.strings.trim_space command.currency);
    occurred_at = command.occurred_at;
    category_id = command.category_id;
    category_name = service.strings.trim_space command.category_name;
    tag_ids = command.tag_ids;
    status = or_confirmed command.status;
    shared_group_id = command.shared_group_id;
    items = command.items;
    latitude = command.latitude;
    longitude = command.longitude;
    address = service.strings.trim_space command.address;
    receipt_object_key = command.receipt_object_key;
    created_at = now;
    updated_at = now;
    deleted_at = none;
  }

  abbrev pub expense_event : String → String → String → ExpenseRecord → Time → DomainEvent
  expense_event event_id event_type owner_id expense now =
      new_expense_event event_id event_type expense.id owner_id (service.marshal_expense expense)
        now

  -- CreateExpense
  unfoldable pub create_expense :
      String → String → Time → String → ExpenseCommand → Act ExpenseState ExpenseRecord
  create_expense id event_id now owner_id command = do
    let expense = drafted id owner_id now command
    guard (valid_expense expense) invalid_expense
    require (owned_labels owner_id expense.category_id expense.tag_ids) forbidden
    atomic (do
      append_event (expense_event event_id "expense_added" owner_id expense now)
      on_expenses (store_expense expense))
    pure expense

  -- UpdateExpense: the receipt, the id, the owner and the dates of creation and deletion stay.
  abbrev pub edited : Time → ExpenseCommand → ExpenseRecord → ExpenseRecord
  edited now command expense = record expense {
    title = service.strings.trim_space command.title;
    amount_minor = command.amount_minor;
    currency = service.strings.to_upper (service.strings.trim_space command.currency);
    occurred_at = command.occurred_at;
    category_id = command.category_id;
    category_name = service.strings.trim_space command.category_name;
    tag_ids = command.tag_ids;
    status = or_confirmed command.status;
    shared_group_id = command.shared_group_id;
    items = command.items;
    latitude = command.latitude;
    longitude = command.longitude;
    address = service.strings.trim_space command.address;
    updated_at = now;
  }

  unfoldable pub update_expense :
      String → Time → String → String → ExpenseCommand → Act ExpenseState ExpenseRecord
  update_expense event_id now owner_id expense_id command = do
    previous ← read not_found (λ s. get_owned_expense owner_id expense_id s.expenses)
    let expense = edited now command previous
    guard (valid_expense expense) invalid_expense
    require (owned_labels owner_id expense.category_id expense.tag_ids) forbidden
    atomic (do
      append_event (expense_event event_id "expense_updated" owner_id expense now)
      on_expenses (replace_expense expense))
    pure expense

  -- DeleteExpense
  abbrev pub removal_event : String → String → String → Time → DomainEvent
  removal_event event_id owner_id expense_id now =
      new_expense_event event_id "expense_removed" expense_id owner_id
        (service.marshal_removed expense_id owner_id now) now

  unfoldable pub delete_expense : String → Time → String → String → Act ExpenseState Done
  delete_expense event_id now owner_id expense_id = do
    _ ← read not_found (λ s. get_owned_expense owner_id expense_id s.expenses)
    atomic (do
      append_event (removal_event event_id owner_id expense_id now)
      on_expenses (remove_expense owner_id expense_id)
      when service.with_object_references
          (on_references (orphan_objects_for object_resource_expense_receipt expense_id "")))

  -- AttachReceipt
  abbrev receipt_reference : String → String → String → ObjectReference
  receipt_reference owner_id expense_id object_key = record {
    object_key = object_key;
    owner_id = owner_id;
    resource_type = object_resource_expense_receipt;
    resource_id = expense_id;
    state = object_active;
    updated_at = 0;
  }

  unfoldable pub track_receipt : String → String → String → String → Act ExpenseState Done
  track_receipt owner_id expense_id previous_key object_key = do
    on_references (track_object (receipt_reference owner_id expense_id object_key))
    when (not (previous_key == "") && not (previous_key == object_key))
        (on_references (orphan_objects_for object_resource_expense_receipt expense_id object_key))

  unfoldable pub attach_receipt :
      String → Time → String → String → String → Act ExpenseState ExpenseRecord
  attach_receipt event_id now owner_id expense_id object_key = do
    previous ← read not_found (λ s. get_owned_expense owner_id expense_id s.expenses)
    guard (not (service.strings.trim_space object_key == "")) invalid_expense
    let expense = record previous { receipt_object_key = object_key; updated_at = now }
    atomic (do
      append_event (expense_event event_id "expense_updated" owner_id expense now)
      on_expenses (replace_expense expense)
      when service.with_object_references
          (track_receipt owner_id expense_id previous.receipt_object_key object_key))
    pure expense
