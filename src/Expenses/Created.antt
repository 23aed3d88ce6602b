-- ===== src/Expenses/Created.antt =====
-- internal/core/service/expenses.go: reading an expense that CreateExpense stored.
use billpiggy.Base.{
  ◌≡◌, refl, ap, ◌∙◌, true, ◌&&◌, String, none, some, string_eq, equals_self, if◌then◌else◌, ◌==◌,
}
use billpiggy.Base.Act.{ok, from_option, read, modify, ◌>>◌}
use billpiggy.Base.Returns.{
  Returns, Returns-bind, Returns-guard, Returns-require, Returns-pure, Returns-atomic,
}
use billpiggy.Base.Assoc.{lookup, lookup-insert_self}
use billpiggy.Clock.{Time}
use billpiggy.Projections.{ExpenseRecord}
use billpiggy.Expenses.{store_expense, get_owned_expense, owned_live, when_true}
use billpiggy.Expenses.Service.{
  ExpenseService, ExpenseState, ExpenseCommand, on_expenses, append_event, expense_event, drafted,
  create_expense,
}
use billpiggy.Expenses.Queries.{get_expense}

-- The owner finds the expense in the projection.
abbrev Found : String → ExpenseRecord → ExpenseState → Type 0
Found owner_id expense s = get_owned_expense owner_id expense.id s.expenses ≡ some expense

stored-Found :
    (owner_id : String) (expense : ExpenseRecord) {s : ExpenseState}
    → owned_live owner_id expense ≡ true
    → Returns (Found owner_id expense) (on_expenses (store_expense expense)) s
unfolding on_expenses store_expense modify ◌>>◌ get_owned_expense
stored-Found owner_id expense {s} own =
    let stored : Returns
        (λ rows. when_true (owned_live owner_id) (lookup expense.id rows) ≡ some expense)
        (store_expense expense) s.expenses =
      Returns-require _ _ _ λ _. record {
        result = λ _ _.
            ap (when_true (owned_live owner_id)) (lookup-insert_self expense.id expense s.expenses)
            ∙ ap (λ b. if b then some expense else none) own;
      } in
    record { result = stored.result }

module _ (service : ExpenseService) where
  created-Found :
      (id event_id : String) (now : Time) (owner_id : String) (command : ExpenseCommand)
      {s : ExpenseState}
      → Returns
          (Found owner_id (drafted service id owner_id now command))
          (create_expense service id event_id now owner_id command)
          s
  unfolding create_expense ◌>>◌
  created-Found id event_id now owner_id command =
      let expense = drafted service id owner_id now command in
      Returns-guard _ _ _ λ _. Returns-require _ _ _ λ _. Returns-pure _ _ (
        Returns-atomic (
          Returns-bind
            (append_event (expense_event service event_id "expense_added" owner_id expense now)) _
            λ _ _. stored-Found owner_id expense (ap (λ b. b && true) (equals_self owner_id))))

  -- After a CreateExpense that succeeds, GetExpense of the owner returns the expense with each field
  -- of the command, texts trimmed and the currency in capitals, confirmed where no status is given,
  -- created and updated now, and not deleted.
  pub get_expense-create_expense :
      (id event_id : String) (now : Time) (owner_id : String) (command : ExpenseCommand)
      (s : ExpenseState) (created : ExpenseRecord)
      → (create_expense service id event_id now owner_id command s).0 ≡ ok created
      → (get_expense service owner_id id
          (create_expense service id event_id now owner_id command s).1).0
        ≡ ok (record {
          id = id;
          owner_id = owner_id;
          title = service.strings.trim_space command.title;
          amount_minor = command.amount_minor;
          currency = service.strings.to_upper (service.strings.trim_space command.currency);
          occurred_at = command.occurred_at;
          category_id = command.category_id;
          category_name = service.strings.trim_space command.category_name;
          tag_ids = command.tag_ids;
          status = if command.status == "" then "confirmed" else command.status;
          shared_group_id = command.shared_group_id;
          items = command.items;
          latitude = command.latitude;
          longitude = command.longitude;
          address = service.strings.trim_space command.address;
          receipt_object_key = command.receipt_object_key;
          created_at = now;
          updated_at = now;
          deleted_at = none;
        })
  unfolding get_expense read from_option
  get_expense-create_expense id event_id now owner_id command s created h =
      let found = (created-Found id event_id now owner_id command).result created h in rw found refl
