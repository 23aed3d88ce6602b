-- ===== src/Expenses/Effects/Commands.antt =====
-- internal/core/service/expenses.go: the event log and the projection after each command.
use billpiggy.Expenses.Effects.Agreement.{
  Agreed, on_objects, on_rows, owned_row, removed_row, replaced_row, same_rows, stored_row, tracked,
}
use billpiggy.Base.{
  ◌≡◌, refl, sym, ap, ◌∙◌, subst, true, false, ◌||◌, String, Option, some, string_eq, ◌==◌,
}
use billpiggy.Base.Act.{ok, Done, ◌>>◌}
use billpiggy.Base.After.{After, After-pure, After-bind, After-guard, After-require, After-read}
use billpiggy.Base.Returns.{Returns-bind, Returns-when, After-atomic}
use billpiggy.Base.Assoc.{lookup, insert}
use billpiggy.Clock.{Time}
use billpiggy.Outbox.{Bytes}
use billpiggy.EventStore.{EventStore, append}
use billpiggy.Projections.{ExpenseRecord, ExpenseEnvelope}
use billpiggy.Expenses.{store_expense, replace_expense, remove_expense}
use billpiggy.Expenses.Service.{
  ExpenseService, ExpenseState, ExpenseCommand, on_expenses, append_event, appended, expense_event,
  removal_event, drafted, edited, create_expense, update_expense, delete_expense, attach_receipt,
}
use billpiggy.Expenses.Log.{Agrees, RoundTrip}
use billpiggy.Expenses.Effects.{on_log, saved, removed}

module _ (service : ExpenseService) (unmarshal : Bytes → Option ExpenseEnvelope)
    (codec : RoundTrip service unmarshal) where
  -- The state agrees once the row is written.
  abbrev RowAgrees : String → ExpenseRecord → ExpenseState → Type 0
  RowAgrees id row s = Agrees unmarshal (insert id row s.expenses) s.store.events

  -- The rows are those of before once an event is appended.
  kept_rows :
      (s : ExpenseState) (o : Option EventStore)
      → Agreed unmarshal s
      → Agrees unmarshal (appended s o).1.expenses s.store.events
  kept_rows s o h = subst (λ rows. Agrees unmarshal rows s.store.events) (sym (same_rows s o)) h

  -- An event of the whole expense, then its row, in one unit of work.
  logged_row :
      (event_id event_type owner_id : String) (expense : ExpenseRecord) (now : Time)
      (s : ExpenseState) (done : Done)
      → (event_type == "expense_added"
          || (event_type == "expense_updated" || event_type == "expense_removed"))
        ≡ true
      → (event_type == "expense_removed") ≡ false
      → (expense.id == "") ≡ false
      → Agreed unmarshal s
      → (append_event (expense_event service event_id event_type owner_id expense now) s).0
        ≡ ok done
      → RowAgrees expense.id expense
          (append_event (expense_event service event_id event_type owner_id expense now) s).1
  unfolding append_event
  logged_row event_id event_type owner_id expense now s done kind other_kind named h returned =
      let event = expense_event service event_id event_type owner_id expense now in
      saved service unmarshal codec event_id event_type owner_id expense now
        (appended s (append event s.store)).1.expenses s.store.events
        (appended s (append event s.store)).1.store.events kind other_kind named
        (on_log event s (append event s.store) refl done returned)
        (kept_rows s (append event s.store) h)

  pub create_expense-Agreed :
      (id event_id : String) (now : Time) (owner_id : String) (command : ExpenseCommand)
      {s : ExpenseState}
      → Agreed unmarshal s
      → (id == "") ≡ false
      → After (Agreed unmarshal) (create_expense service id event_id now owner_id command) s
  unfolding create_expense ◌>>◌
  create_expense-Agreed id event_id now owner_id command {s} h named =
      let expense = drafted service id owner_id now command in
      After-guard _ _ _ h λ _. After-require _ _ _ h λ _.
        After-bind
          (After-atomic h (
            Returns-bind
              (append_event (expense_event service event_id "expense_added" owner_id expense now)) _
              λ done returned. on_rows unmarshal (store_expense expense) (
                stored_row expense (
                  logged_row event_id "expense_added" owner_id expense now s done refl refl named h
                    returned))))
          λ _ _ more. After-pure _ more

  row_named :
      (expense_id : String) (s : ExpenseState) (row : ExpenseRecord)
      → Agreed unmarshal s
      → lookup expense_id s.expenses ≡ some row
      → (row.id == "") ≡ false
  row_named expense_id s row h found =
      let filed = h.filed.row expense_id row found in ap (λ id. id == "") filed.0 ∙ filed.1

  pub update_expense-Agreed :
      (event_id : String) (now : Time) (owner_id expense_id : String) (command : ExpenseCommand)
      {s : ExpenseState}
      → Agreed unmarshal s
      → After (Agreed unmarshal) (update_expense service event_id now owner_id expense_id command) s
  unfolding update_expense ◌>>◌
  update_expense-Agreed event_id now owner_id expense_id command {s} h =
      After-read _ _ _ h λ previous found. After-guard _ _ _ h λ _. After-require _ _ _ h λ _.
        let expense = edited service now command previous in
        let named =
          row_named expense_id s previous h
            (owned_row owner_id expense_id s.expenses previous found) in
        After-bind
          (After-atomic h (
            Returns-bind
              (append_event (expense_event service event_id "expense_updated" owner_id expense now))
              _
              λ done returned. on_rows unmarshal (replace_expense expense) (
                replaced_row expense (
                  logged_row event_id "expense_updated" owner_id expense now s done refl refl named
                    h returned))))
          λ _ _ more. After-pure _ more

  pub attach_receipt-Agreed :
      (event_id : String) (now : Time) (owner_id expense_id object_key : String) {s : ExpenseState}
      → Agreed unmarshal s
      → After
          (Agreed unmarshal)
          (attach_receipt service event_id now owner_id expense_id object_key)
          s
  unfolding attach_receipt ◌>>◌
  attach_receipt-Agreed event_id now owner_id expense_id object_key {s} h =
      After-read _ _ _ h λ previous found. After-guard _ _ _ h λ _.
        let expense = record previous { receipt_object_key = object_key; updated_at = now } in
        let named =
          row_named expense_id s previous h
            (owned_row owner_id expense_id s.expenses previous found) in
        After-bind
          (After-atomic h (
            Returns-bind
              (append_event (expense_event service event_id "expense_updated" owner_id expense now))
              _
              λ done returned.
                Returns-bind (on_expenses (replace_expense expense)) _ λ wrote ok_rows.
                  let more =
                    (on_rows unmarshal (replace_expense expense) (
                        replaced_row expense (
                          logged_row event_id "expense_updated" owner_id expense now s done refl
                            refl named h returned))).result
                      wrote ok_rows in
                  Returns-when _ more (
                    tracked unmarshal service owner_id expense_id previous.receipt_object_key
                      object_key more)))
          λ _ _ more. After-pure _ more

  logged_removal :
      (event_id owner_id expense_id : String) (now : Time) (s : ExpenseState) (done : Done)
      (row : ExpenseRecord)
      → Agreed unmarshal s
      → (append_event (removal_event service event_id owner_id expense_id now) s).0 ≡ ok done
      → lookup expense_id
          (append_event (removal_event service event_id owner_id expense_id now) s).1.expenses
        ≡ some row
      → RowAgrees expense_id
          (record row { deleted_at = some row.updated_at })
          (append_event (removal_event service event_id owner_id expense_id now) s).1
  unfolding append_event
  logged_removal event_id owner_id expense_id now s done row h returned found =
      let event = removal_event service event_id owner_id expense_id now in
      let kept = kept_rows s (append event s.store) h in
      removed service unmarshal codec event_id expense_id owner_id row now
        (appended s (append event s.store)).1.expenses s.store.events
        (appended s (append event s.store)).1.store.events (kept.filed.row expense_id row found)
        (on_log event s (append event s.store) refl done returned) kept

  pub delete_expense-Agreed :
      (event_id : String) (now : Time) (owner_id expense_id : String) {s : ExpenseState}
      → Agreed unmarshal s
      → After (Agreed unmarshal) (delete_expense service event_id now owner_id expense_id) s
  unfolding delete_expense ◌>>◌
  delete_expense-Agreed event_id now owner_id expense_id {s} h = After-read _ _ _ h λ _ _.
      After-atomic h (
        Returns-bind (append_event (removal_event service event_id owner_id expense_id now)) _
          λ done returned.
            Returns-bind (on_expenses (remove_expense owner_id expense_id)) _ λ wrote ok_rows.
              let more =
                (on_rows unmarshal
                    {s = (append_event (removal_event service event_id owner_id expense_id now)
                      s).1}
                    (remove_expense owner_id expense_id)
                    (removed_row owner_id expense_id λ row found.
                      logged_removal event_id owner_id expense_id now s done row h returned
                        found)).result
                  wrote ok_rows in
              Returns-when _ more (on_objects unmarshal _ more))
