-- ===== src/Expenses/Effects/Agreement.antt =====
-- internal/core/service/expenses.go: what the steps of a command leave of the rows and of the log.
use billpiggy.Base.{◌≡◌, refl, Bool, String, Option, none, some, string_eq, arith}
use billpiggy.Base.Act.{Act, modify, ◌>>◌}
use billpiggy.Base.After.{After, After-bind, After-when}
use billpiggy.Base.Returns.{Returns, Returns-require, Returns-read}
use billpiggy.Base.Assoc.{lookup, insert}
use billpiggy.Outbox.{Bytes}
use billpiggy.EventStore.{EventStore}
use billpiggy.Projections.{ExpenseRecord, ExpenseEnvelope}
use billpiggy.Objects.{References}
use billpiggy.Expenses.{
  ExpenseRepository, store_expense, replace_expense, remove_expense, get_owned_expense, owned_live,
  when_true,
}
use billpiggy.Expenses.Service.{
  ExpenseService, ExpenseState, on_expenses, on_references, appended, track_receipt,
}
use billpiggy.Expenses.Log.{Agrees}

pub same_rows : (s : ExpenseState) (o : Option EventStore) → (appended s o).1.expenses ≡ s.expenses
same_rows s none = refl
same_rows s (some store) = refl

pub stored_row :
    {P : ExpenseRepository → Type 0} {rows : ExpenseRepository} (expense : ExpenseRecord)
    → P (insert expense.id expense rows)
    → Returns P (store_expense expense) rows
unfolding store_expense ◌>>◌ modify
stored_row expense h = Returns-require _ _ _ λ _. record { result = λ _ _. h }

pub replaced_row :
    {P : ExpenseRepository → Type 0} {rows : ExpenseRepository} (expense : ExpenseRecord)
    → P (insert expense.id expense rows)
    → Returns P (replace_expense expense) rows
unfolding replace_expense ◌>>◌ modify
replaced_row expense h = Returns-require _ _ _ λ _. record { result = λ _ _. h }

there :
    (test : ExpenseRecord → Bool) (o : Option ExpenseRecord) (row : ExpenseRecord)
    → when_true test o ≡ some row
    → o ≡ some row
there test none row h = h
there test (some e) row h = grind (arith, h)

-- A row that its owner finds is there.
pub owned_row :
    (owner_id expense_id : String) (rows : ExpenseRepository) (row : ExpenseRecord)
    → get_owned_expense owner_id expense_id rows ≡ some row
    → lookup expense_id rows ≡ some row
unfolding get_owned_expense
owned_row owner_id expense_id rows row h =
    there (owned_live owner_id) (lookup expense_id rows) row h

pub removed_row :
    {P : ExpenseRepository → Type 0} {rows : ExpenseRepository} (owner_id expense_id : String)
    → ((row : ExpenseRecord)
        → lookup expense_id rows ≡ some row
        → P (insert expense_id (record row { deleted_at = some row.updated_at }) rows))
    → Returns P (remove_expense owner_id expense_id) rows
unfolding remove_expense modify
removed_row {P} {rows} owner_id expense_id h =
    Returns-read _ _ _
      λ row found. record { result = λ _ _. h row (owned_row owner_id expense_id rows row found) }

module _ (unmarshal : Bytes → Option ExpenseEnvelope) where
  abbrev pub Agreed : ExpenseState → Type 0
  Agreed s = Agrees unmarshal s.expenses s.store.events

  pub on_rows :
      {A : Type 0} {s : ExpenseState} (m : Act ExpenseRepository A)
      → Returns (λ rows. Agrees unmarshal rows s.store.events) m s.expenses
      → Returns Agreed (on_expenses m) s
  unfolding on_expenses
  on_rows m h = record { result = h.result }

  pub on_objects :
      {A : Type 0} {s : ExpenseState} (m : Act References A)
      → Agreed s
      → After Agreed (on_references m) s
  unfolding on_references
  on_objects m h = record { holds = h }

  pub tracked :
      (service : ExpenseService) (owner_id expense_id previous_key object_key : String)
      {s : ExpenseState}
      → Agreed s
      → After Agreed (track_receipt service owner_id expense_id previous_key object_key) s
  unfolding track_receipt ◌>>◌
  tracked service owner_id expense_id previous_key object_key h =
      After-bind (on_objects _ h) λ _ _ more. After-when _ more λ _. on_objects _ more
