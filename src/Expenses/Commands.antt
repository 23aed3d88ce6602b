-- ===== src/Expenses/Commands.antt =====
-- internal/core/service/expenses.go: any sequence of commands, and what its event log says.
use billpiggy.Base.{◌≡◌, false, String, List, [], ◌∷◌, Option, none, some, ◌==◌, string_eq}
use mathlib.Core.Option
use billpiggy.Base.Act.{Failure, Outcome, ok, err}
use billpiggy.Base.Assoc.{lookup}
use billpiggy.Clock.{Time}
use billpiggy.Outbox.{Bytes}
use billpiggy.Projections.{ExpenseEnvelope, contribution_of}
use billpiggy.Expenses.Service.{
  ExpenseService, ExpenseState, ExpenseCommand, create_expense, update_expense, delete_expense,
  attach_receipt,
}
use billpiggy.Expenses.Log.{RoundTrip, Agrees, active_only, mirror}
use billpiggy.Expenses.Effects.Commands.{
  create_expense-Agreed, update_expense-Agreed, delete_expense-Agreed, attach_receipt-Agreed,
}
use billpiggy.Expenses.Effects.Agreement.{Agreed}

-- A command, with the ids that it draws and the instant at which it runs.
pub data Command : Type 0 where
  create_command : String → String → Time → String → ExpenseCommand → Command
  update_command : String → Time → String → String → ExpenseCommand → Command
  delete_command : String → Time → String → String → Command
  attach_command : String → Time → String → String → String → Command

abbrev pub failure_in : {A : Type 0} → Outcome A → Option Failure
failure_in (ok a) = none
failure_in (err e) = some e

module _ (service : ExpenseService) where
  abbrev pub after_command : Command → ExpenseState → ExpenseState
  after_command (create_command id event_id now owner command) s =
      (create_expense service id event_id now owner command s).1
  after_command (update_command event_id now owner id command) s =
      (update_expense service event_id now owner id command s).1
  after_command (delete_command event_id now owner id) s =
      (delete_expense service event_id now owner id s).1
  after_command (attach_command event_id now owner id object_key) s =
      (attach_receipt service event_id now owner id object_key s).1

  -- The error that the command returns.
  abbrev pub failure_of : Command → ExpenseState → Option Failure
  failure_of (create_command id event_id now owner command) s =
      failure_in (create_expense service id event_id now owner command s).0
  failure_of (update_command event_id now owner id command) s =
      failure_in (update_expense service event_id now owner id command s).0
  failure_of (delete_command event_id now owner id) s =
      failure_in (delete_expense service event_id now owner id s).0
  failure_of (attach_command event_id now owner id object_key) s =
      failure_in (attach_receipt service event_id now owner id object_key s).0

  unfoldable pub after_commands : List Command → ExpenseState → ExpenseState
  after_commands [] s = s
  after_commands (command ∷ commands) s = after_commands commands (after_command command s)

-- The ids that are drawn are not empty.
abbrev pub NamesExpenses : List Command → Type 0
NamesExpenses [] = Unit {0}
NamesExpenses (create_command id _ _ _ _ ∷ commands) = ((id == "") ≡ false) × NamesExpenses commands
NamesExpenses (_ ∷ commands) = NamesExpenses commands

module _ (service : ExpenseService) (unmarshal : Bytes → Option ExpenseEnvelope)
    (codec : RoundTrip service unmarshal) where
  pub after_commands-Agreed :
      (commands : List Command) (s : ExpenseState)
      → Agreed unmarshal s
      → NamesExpenses commands
      → Agreed unmarshal (after_commands service commands s)
  unfolding after_commands
  after_commands-Agreed [] s h names = h
  after_commands-Agreed (create_command id event_id now owner command ∷ commands) s h names =
      after_commands-Agreed commands (create_expense service id event_id now owner command s).1
        (create_expense-Agreed service unmarshal codec id event_id now owner command h
          names.0).holds
        names.1
  after_commands-Agreed (update_command event_id now owner id command ∷ commands) s h names =
      after_commands-Agreed commands (update_expense service event_id now owner id command s).1
        (update_expense-Agreed service unmarshal codec event_id now owner id command h).holds names
  after_commands-Agreed (delete_command event_id now owner id ∷ commands) s h names =
      after_commands-Agreed commands (delete_expense service event_id now owner id s).1
        (delete_expense-Agreed service unmarshal codec event_id now owner id h).holds names
  after_commands-Agreed (attach_command event_id now owner id object_key ∷ commands) s h names =
      after_commands-Agreed commands (attach_receipt service event_id now owner id object_key s).1
        (attach_receipt-Agreed service unmarshal codec event_id now owner id object_key h).holds
        names

-- After any create, update, delete and receipt commands, whether they fail or not, the last
-- contribution that the event log has of an expense is the contribution of its row, where one
-- that is reversed or deleted counts as none. It is assumed that decoding gives back what was
-- encoded, that rows and log agree at the start and rows are filed under their own ids, and that
-- created ids are not empty.
pub projection_matches_log :
    (service : ExpenseService) (unmarshal : Bytes → Option ExpenseEnvelope)
    (commands : List Command) (s : ExpenseState) (id : String)
    → RoundTrip service unmarshal
    → Agrees unmarshal s.expenses s.store.events
    → NamesExpenses commands
    → active_only (mirror unmarshal id none (after_commands service commands s).store.events)
      ≡ active_only
          (Option.map contribution_of (lookup id (after_commands service commands s).expenses))
projection_matches_log service unmarshal commands s id codec h names =
    (after_commands-Agreed service unmarshal codec commands s h names).same id
