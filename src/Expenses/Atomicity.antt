-- ===== src/Expenses/Atomicity.antt =====
-- internal/core/service/expenses.go and internal/adapter/outbound/memory/unit_of_work.go: commands that
-- fail.
use billpiggy.Base.{◌≡◌, refl, String, some}
use billpiggy.Base.Act.{Failure, Outcome, ok, err, Act, ◌>>◌}
use billpiggy.Base.Fails.{Fails, Fails-atomic, Fails-pure, Fails-read, Fails-guard, Fails-require}
use billpiggy.Clock.{Time}
use billpiggy.Expenses.Service.{
  ExpenseService, ExpenseState, ExpenseCommand, create_expense, update_expense, delete_expense,
  attach_receipt,
}
use billpiggy.Expenses.Commands.{
  Command, create_command, update_command, delete_command, attach_command, after_command,
  failure_in, failure_of,
}

module _ (service : ExpenseService) {s : ExpenseState} where
  create-Fails :
      (id event_id : String) (now : Time) (owner_id : String) (command : ExpenseCommand)
      → Fails (create_expense service id event_id now owner_id command) s
  unfolding create_expense ◌>>◌
  create-Fails id event_id now owner_id command =
      Fails-guard _ _ _ λ _. Fails-require _ _ _ λ _. Fails-pure _ _ (Fails-atomic _)

  update-Fails :
      (event_id : String) (now : Time) (owner_id expense_id : String) (command : ExpenseCommand)
      → Fails (update_expense service event_id now owner_id expense_id command) s
  unfolding update_expense ◌>>◌
  update-Fails event_id now owner_id expense_id command =
      Fails-read _ _ _
        λ _ _. Fails-guard _ _ _ λ _. Fails-require _ _ _ λ _. Fails-pure _ _ (Fails-atomic _)

  delete-Fails :
      (event_id : String) (now : Time) (owner_id expense_id : String)
      → Fails (delete_expense service event_id now owner_id expense_id) s
  unfolding delete_expense ◌>>◌
  delete-Fails event_id now owner_id expense_id = Fails-read _ _ _ λ _ _. Fails-atomic _

  attach-Fails :
      (event_id : String) (now : Time) (owner_id expense_id object_key : String)
      → Fails (attach_receipt service event_id now owner_id expense_id object_key) s
  unfolding attach_receipt ◌>>◌
  attach-Fails event_id now owner_id expense_id object_key =
      Fails-read _ _ _ λ _ _. Fails-guard _ _ _ λ _. Fails-pure _ _ (Fails-atomic _)

failed_state :
    {A : Type 0} (m : Act ExpenseState A) (s : ExpenseState) (o : Outcome A) (e : Failure)
    → Fails m s
    → (m s).0 ≡ o
    → failure_in o ≡ some e
    → (m s).1 ≡ s
failed_state m s (ok a) e h same f = cc
failed_state m s (err g) e h same f = h.unchanged g same

-- A create, update, delete or receipt command that fails leaves the expenses, the event log with
-- its deliveries, and the tracked objects as they were, also where it fails after some of its
-- writes.
pub failed_command_unchanged :
    (service : ExpenseService) (command : Command) (s : ExpenseState) (e : Failure)
    → failure_of service command s ≡ some e
    → after_command service command s ≡ s
failed_command_unchanged service (create_command id event_id now owner command) s e h =
    failed_state (create_expense service id event_id now owner command) s _ e
      (create-Fails service id event_id now owner command) refl h
failed_command_unchanged service (update_command event_id now owner id command) s e h =
    failed_state (update_expense service event_id now owner id command) s _ e
      (update-Fails service event_id now owner id command) refl h
failed_command_unchanged service (delete_command event_id now owner id) s e h =
    failed_state (delete_expense service event_id now owner id) s _ e
      (delete-Fails service event_id now owner id) refl h
failed_command_unchanged service (attach_command event_id now owner id object_key) s e h =
    failed_state (attach_receipt service event_id now owner id object_key) s _ e
      (attach-Fails service event_id now owner id object_key) refl h
