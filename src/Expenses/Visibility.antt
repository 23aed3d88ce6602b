-- ===== src/Expenses/Visibility.antt =====
-- internal/core/service/expenses.go: which expenses a viewer gets to see.
use billpiggy.Base.{
  ◌≡◌, refl, sym, ap, ◌∙◌, subst, Bool, true, false, not, ◌⊎◌, inl, inr, ℕ, zero, suc, List, [],
  ◌∷◌, string_eq, ◌==◌, arith, if◌then◌else◌,
}
use billpiggy.Base.Act.{forbidden, Outcome, ok, pure, guard, continue, ◌>>=◌, ◌>>◌}
use billpiggy.Identity.{AppUser}
use billpiggy.Projections.{ExpenseRecord}
use billpiggy.Expenses.{
  ExpenseRepository, ExpenseListFilter, Strings, listed, select, visible_expense,
}
use billpiggy.Expenses.Service.{ExpenseService, ExpenseState}
use billpiggy.Expenses.Queries.{
  groups_seen, first_before, page, page_limit, list_expenses, list_expenses_for_viewer,
}

abbrev pub Among : ExpenseRecord → List ExpenseRecord → Type 0
Among expense [] = ⊥
Among expense (x ∷ xs) = (x ≡ expense) ⊎ Among expense xs

-- sort.Slice puts the elements in another order.
pub record Permutes
    (sort_slice : (ExpenseRecord → ExpenseRecord → Bool) → List ExpenseRecord → List ExpenseRecord)
    : Type 0 where
  pub from_input :
      (first : ExpenseRecord → ExpenseRecord → Bool) (xs : List ExpenseRecord) (x : ExpenseRecord)
      → Among x (sort_slice first xs)
      → Among x xs

page-Among :
    (service : ExpenseService) (offset limit : ℕ) (xs : List ExpenseRecord) (x : ExpenseRecord)
    → Among x (page service offset limit xs)
    → Among x xs
unfolding page
page-Among service offset limit [] x h = h
page-Among service (suc offset) limit (y ∷ ys) x h = inr (page-Among service offset limit ys x h)
page-Among service zero zero (y ∷ ys) x h = absurd h
page-Among service zero (suc limit) (y ∷ ys) x (inl e) = inl e
page-Among service zero (suc limit) (y ∷ ys) x (inr h) = inr (page-Among service zero limit ys x h)

kept-Among :
    (b : Bool) (y x : ExpenseRecord) (later : List ExpenseRecord)
    → Among x (if b then y ∷ later else later)
    → ((b ≡ true) × (y ≡ x)) ⊎ Among x later
kept-Among true y x later (inl e) = inl (refl, e)
kept-Among true y x later (inr h) = inr h
kept-Among false y x later h = inr h

select-listed :
    (strings : Strings) (filter : ExpenseListFilter) (rows : ExpenseRepository) (x : ExpenseRecord)
    → Among x (select strings filter rows)
    → listed strings filter x ≡ true
unfolding select
select-listed strings filter [] x h = absurd h
select-listed strings filter ((_, y) ∷ rest) x h =
    elim (kept-Among (listed strings filter y) y x (select strings filter rest) h) [
      | inl e ↦ ap (listed strings filter) (sym e.1) ∙ e.0
      | inr later ↦ select-listed strings filter rest x later
    ]

same_result : {A : Type 0} {a b : A} → Path (Outcome A) (ok a) (ok b) → a ≡ b
same_result h = grind (arith, h)

-- What ListExpenses returns are rows that its filter keeps.
listed_rows :
    (service : ExpenseService) (filter : ExpenseListFilter) (s : ExpenseState)
    (found : List ExpenseRecord) (x : ExpenseRecord) (allowed : Bool)
    → Permutes service.sort_slice
    → (continue (guard allowed forbidden s) (λ _ t.
        pure
          (page service filter.offset (page_limit service filter.limit) (
            service.sort_slice
              (first_before service filter.sort_by)
              (select service.strings filter t.expenses)))
          t)).0
      ≡ ok found
    → Among x found
    → listed service.strings filter x ≡ true
unfolding guard pure
listed_rows service filter s found x false sorts h among = cc
listed_rows service filter s found x true sorts h among =
    let rows = select service.strings filter s.expenses in
    let sorted = service.sort_slice (first_before service filter.sort_by) rows in
    let shown = page service filter.offset (page_limit service filter.limit) sorted in
    let same = same_result {A = List ExpenseRecord} {a = shown} {b = found} h in
    select-listed service.strings filter s.expenses x (
      sorts.from_input (first_before service filter.sort_by) rows x (
        page-Among service filter.offset (page_limit service filter.limit) sorted x
          (subst (Among x) (sym same) among)))

-- Every expense that ListExpensesForViewer returns is not deleted, and is owned by the viewer or
-- shared with a group that the viewer sees, whatever owner and groups the filter names. The sort
-- is assumed to return the entries that it is given.
pub list_expenses_for_viewer-visible_expense :
    (service : ExpenseService) (viewer : AppUser) (filter : ExpenseListFilter) (s : ExpenseState)
    (found : List ExpenseRecord) (expense : ExpenseRecord)
    → Permutes service.sort_slice
    → (list_expenses_for_viewer service viewer filter s).0 ≡ ok found
    → Among expense found
    → visible_expense viewer.id (groups_seen service viewer s) expense ≡ true
unfolding list_expenses_for_viewer list_expenses ◌>>◌ ◌>>=◌
list_expenses_for_viewer-visible_expense service viewer filter s found expense sorts h among =
    let narrowed = record filter {
      owner_id = viewer.id;
      shared_group_ids = groups_seen service viewer s;
    } in
    let kept = listed_rows service narrowed s found expense (not (viewer.id == "")) sorts h among in
    ground (arith, kept)
