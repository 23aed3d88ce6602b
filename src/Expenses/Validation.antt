-- ===== src/Expenses/Validation.antt =====
-- internal/core/service/expenses.go: validateExpense.
use billpiggy.Base.{
  Bool, true, false, not, ◌&&◌, ◌||◌, ℕ, nat_eq, String, List, [], ◌∷◌, Option, none, some, ◌==◌,
  string_eq, ltb, length,
}
use Prim.Native.String.{len}
use billpiggy.Base.Int.{ℤ, pos, ltb_ℤ}
use billpiggy.Base.Act.{Failure, invalid}
use billpiggy.Clock.{is_zero}
use billpiggy.Projections.{ExpenseItem, ExpenseRecord}

-- ErrInvalidExpense
abbrev pub invalid_expense : Failure
invalid_expense = invalid "invalid expense"

abbrev max_amount_minor : ℤ
max_amount_minor = pos 100000000000

abbrev item_allowed : ExpenseItem → Bool
item_allowed item = not (
    ltb 200 (len item.title)
    || ltb_ℤ item.amount_minor (pos 0)
    || ltb_ℤ max_amount_minor item.amount_minor)

unfoldable pub items_allowed : List ExpenseItem → Bool
items_allowed [] = true
items_allowed (item ∷ items) = item_allowed item && items_allowed items

abbrev known_status : String → Bool
known_status status =
    status == "draft" || status == "confirmed" || status == "shared" || status == "reimbursed"

abbrev both_or_neither : Option ℕ → Option ℕ → Bool
both_or_neither none none = true
both_or_neither (some _) (some _) = true
both_or_neither none (some _) = false
both_or_neither (some _) none = false

-- validateExpense
unfoldable pub valid_expense : ExpenseRecord → Bool
valid_expense expense =
    not (
      expense.owner_id == ""
      || expense.title == ""
      || ltb_ℤ expense.amount_minor (pos 0)
      || not (len expense.currency == 3)
      || is_zero expense.occurred_at)
    && not (
        ltb 200 (len expense.title)
        || ltb 100 (len expense.category_name)
        || ltb 300 (len expense.address))
    && not (ltb_ℤ max_amount_minor expense.amount_minor)
    && not (ltb 100 (length expense.items))
    && items_allowed expense.items
    && known_status expense.status
    && both_or_neither expense.latitude expense.longitude
