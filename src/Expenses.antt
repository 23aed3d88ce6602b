-- ===== src/Expenses.antt =====
-- internal/core/domain/expense_record.go and internal/adapter/outbound/memory/expense_repository.go:
-- the expense projection. Slices are values here, so that cloneExpense is the identity.
pub mod Service
pub mod Effects
pub mod Log
pub mod Commands
pub mod Visibility
pub mod Created
pub mod Atomicity
pub mod Validation
pub mod Queries
use billpiggy.Base.{
  Bool, true, false, not, ◌&&◌, ◌||◌, ℕ, ◌+◌, min, String, List, [], ◌∷◌, Option, none, some, ◌==◌,
  string_eq, contains, if◌then◌else◌,
}
use billpiggy.Base.Int.{ℤ, ltb_ℤ}
use billpiggy.Base.Act.{Failure, other, Act, Done, read, guard, require, modify, ◌>>=◌, ◌>>◌}
use billpiggy.Base.Assoc.{lookup, insert}
use billpiggy.Clock.{Time, is_zero, before, after}
use billpiggy.Identity.Values.{missing}
use billpiggy.Projections.{ExpenseRecord, is_none}

abbrev pub ExpenseRepository : Type 0
ExpenseRepository = List (String × ExpenseRecord)

abbrev pub no_expense : Failure
no_expense = other "not found"

-- CreateExpense of the repository
unfoldable pub store_expense : ExpenseRecord → Act ExpenseRepository Done
store_expense expense = do
  require (missing expense.id) no_expense
  modify (insert expense.id expense)

-- UpdateExpense of the repository
unfoldable pub replace_expense : ExpenseRecord → Act ExpenseRepository Done
replace_expense expense = do
  require (λ rows. not (missing expense.id rows)) no_expense
  modify (insert expense.id expense)

abbrev pub when_true : {A : Type 0} → (A → Bool) → Option A → Option A
when_true test none = none
when_true test (some a) = if test a then some a else none

-- GetExpense of the repository, errNotFound being `none`
abbrev pub owned_live : String → ExpenseRecord → Bool
owned_live owner_id expense = expense.owner_id == owner_id && is_none expense.deleted_at

unfoldable pub get_owned_expense : String → String → ExpenseRepository → Option ExpenseRecord
get_owned_expense owner_id expense_id rows =
    when_true (owned_live owner_id) (lookup expense_id rows)

-- GetExpenseVisible
abbrev pub visible_expense : String → List String → ExpenseRecord → Bool
visible_expense viewer_id group_ids expense =
    is_none expense.deleted_at
    && (expense.owner_id == viewer_id || contains expense.shared_group_id group_ids)

unfoldable pub get_expense_visible :
    String → String → List String → ExpenseRepository → Option ExpenseRecord
get_expense_visible viewer_id expense_id group_ids rows =
    when_true (visible_expense viewer_id group_ids) (lookup expense_id rows)

-- DeleteExpense of the repository
unfoldable pub remove_expense : String → String → Act ExpenseRepository Done
remove_expense owner_id expense_id = do
  expense ← read no_expense (get_owned_expense owner_id expense_id)
  modify (insert expense_id (record expense { deleted_at = some expense.updated_at }))

pub data ExpenseSortField : Type 0 where
  sort_occurred_at sort_amount : ExpenseSortField

pub record ExpenseListFilter : Type 0 where
  pub owner_id : String
  pub query : String
  pub category_id : String
  pub tag_ids : List String
  pub shared_group_ids : List String
  pub from : Time
  pub until : Time
  pub sort_by : ExpenseSortField
  pub limit : ℕ
  pub offset : ℕ

-- strings.TrimSpace, ToLower, ToUpper and Contains
pub record Strings : Type 0 where
  pub trim_space : String → String
  pub to_lower : String → String
  pub to_upper : String → String
  pub has_substring : String → String → Bool

abbrev carries_all : List String → List String → Bool
carries_all tags [] = true
carries_all tags (wanted ∷ rest) = contains wanted tags && carries_all tags rest

module _ (strings : Strings) where
  abbrev found_in : String → ExpenseRecord → Bool
  found_in query expense =
      query == ""
      || strings.has_substring (strings.to_lower expense.title) query
      || strings.has_substring (strings.to_lower expense.category_name) query

  -- matchesExpense
  abbrev pub matches_expense : ExpenseRecord → ExpenseListFilter → Bool
  matches_expense expense filter =
      found_in (strings.to_lower (strings.trim_space filter.query)) expense
      && (filter.category_id == "" || expense.category_id == filter.category_id)
      && (is_zero filter.from || not (before expense.occurred_at filter.from))
      && (is_zero filter.until || before expense.occurred_at filter.until)
      && carries_all expense.tag_ids filter.tag_ids

  -- The rows that ListExpenses keeps.
  abbrev pub listed : ExpenseListFilter → ExpenseRecord → Bool
  listed filter expense =
      (expense.owner_id == filter.owner_id
        || not (expense.shared_group_id == "")
          && contains expense.shared_group_id filter.shared_group_ids)
      && is_none expense.deleted_at
      && matches_expense expense filter

  unfoldable pub select : ExpenseListFilter → ExpenseRepository → List ExpenseRecord
  select filter [] = []
  select filter ((_, expense) ∷ rest) =
      let later = select filter rest in if listed filter expense then expense ∷ later else later
