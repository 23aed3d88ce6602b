-- ===== src/Expenses/Queries.antt =====
-- internal/core/service/expenses.go: the queries of ExpenseService.
use billpiggy.Base.{
  Bool, not, ◌||◌, ℕ, zero, suc, nat_eq, String, List, [], ◌∷◌, ◌==◌, string_eq, ltb, if◌then◌else◌,
}
use billpiggy.Base.Int.{ltb_ℤ}
use billpiggy.Base.Act.{forbidden, not_found, Act, pure, read, guard, ◌>>◌}
use billpiggy.Clock.{after}
use billpiggy.Identity.{AppUser}
use billpiggy.Projections.{ExpenseRecord}
use billpiggy.Groups.{visible_group_ids}
use billpiggy.Expenses.{
  get_owned_expense, get_expense_visible, ExpenseListFilter, ExpenseSortField, sort_occurred_at,
  sort_amount, select,
}
use billpiggy.Expenses.Service.{ExpenseService, ExpenseState}

module _ (service : ExpenseService) where
  -- visibleGroupIDs
  abbrev pub groups_seen : AppUser → ExpenseState → List String
  groups_seen viewer s = if service.with_groups then visible_group_ids viewer s.groups else []

  -- GetExpense and GetExpenseForViewer
  unfoldable pub get_expense : String → String → Act ExpenseState ExpenseRecord
  get_expense owner_id expense_id =
      read not_found (λ s. get_owned_expense owner_id expense_id s.expenses)

  unfoldable pub get_expense_for_viewer : AppUser → String → Act ExpenseState ExpenseRecord
  get_expense_for_viewer viewer expense_id =
      read not_found
        (λ s. get_expense_visible viewer.id expense_id (groups_seen viewer s) s.expenses)

  -- ListExpenses
  abbrev pub first_before : ExpenseSortField → ExpenseRecord → ExpenseRecord → Bool
  first_before sort_amount a b = ltb_ℤ b.amount_minor a.amount_minor
  first_before sort_occurred_at a b = after a.occurred_at b.occurred_at

  unfoldable pub page : ℕ → ℕ → List ExpenseRecord → List ExpenseRecord
  page offset limit [] = []
  page (suc offset) limit (x ∷ xs) = page offset limit xs
  page zero zero (x ∷ xs) = []
  page zero (suc limit) (x ∷ xs) = x ∷ page zero limit xs

  abbrev pub page_limit : ℕ → ℕ
  page_limit limit = if limit == 0 || ltb 100 limit then 25 else limit

  unfoldable pub list_expenses : ExpenseListFilter → Act ExpenseState (List ExpenseRecord)
  list_expenses filter = do
    guard (not (filter.owner_id == "")) forbidden
    λ s.
        pure
          (page filter.offset (page_limit filter.limit) (
            service.sort_slice (first_before filter.sort_by)
              (select service.strings filter s.expenses)))
          s

  -- ListExpensesForViewer
  unfoldable pub list_expenses_for_viewer :
      AppUser → ExpenseListFilter → Act ExpenseState (List ExpenseRecord)
  list_expenses_for_viewer viewer filter s =
      list_expenses
        (record filter { owner_id = viewer.id; shared_group_ids = groups_seen viewer s }) s
