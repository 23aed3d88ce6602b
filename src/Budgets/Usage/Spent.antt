-- ===== src/Budgets/Usage/Spent.antt =====
-- internal/core/service/budget_usage_projection.go: the sum of a period, and the windows of a list.
use billpiggy.Base.{
  ◌≡◌, refl, sym, ap, ◌∙◌, true, ◌⊎◌, inl, inr, String, List, [], ◌∷◌, string_eq, ◌==◌, arith,
  if◌then◌else◌, ◌&&◌, leb, ltb, nat_eq, equals_iff, Bool-cases,
}
use billpiggy.Base.Int.{ℤ, pos, add64}
use billpiggy.Clock.{Time}
use billpiggy.Projections.{ExpenseContribution, BudgetRecord}
use billpiggy.Budgets.Usage.{UsageKey, usage_key_eq, sum_contributions}
use billpiggy.Budgets.Usage.Projection.{Window, window_key, has_window, window_at}
use billpiggy.Budgets.{BudgetRepository}
use billpiggy.Budgets.Usage.Affected.{Made}
use billpiggy.Budgets.Usage.Coverage.{Listed}

abbrev pub Touched : Window → List Window → Type 0
Touched w [] = ⊥
Touched w (v ∷ vs) = (v ≡ w) ⊎ Touched w vs

-- The sum of the amounts of the active contributions of the budget's owner and category from `from`
-- on and before `until`, as int64.
unfoldable pub spent_between : BudgetRecord → Time → Time → List (String × ExpenseContribution) → ℤ
spent_between b from until [] = pos 0
spent_between b from until ((_, c) ∷ rest) =
    let later = spent_between b from until rest in
    if c.active
      && ((c.owner_id == b.owner_id && c.category_id == b.category_id)
          && (leb from c.occurred_at && ltb c.occurred_at until))
    then add64 later c.amount_minor
    else later

pub sum_contributions_between :
    (b : BudgetRecord) (from until : Time) (rows : List (String × ExpenseContribution))
    → sum_contributions b.owner_id b.category_id from until rows ≡ spent_between b from until rows
unfolding sum_contributions spent_between
sum_contributions_between b from until [] = refl
sum_contributions_between b from until ((k, c) ∷ rest) =
    ground (arith, sum_contributions_between b from until rest)

pub touched :
    (key : UsageKey) (budgets : BudgetRepository) (ws : List Window)
    → Made budgets ws
    → has_window key ws ≡ true
    → (d : BudgetRecord) × (t : Time) × Listed d budgets
      × Touched (window_at d t) ws
      × (window_key (window_at d t) ≡ key)
unfolding has_window
touched key budgets [] m h = cc
touched key budgets (w ∷ ws) m h = elim (Bool-cases (window_key w == key)) [
  | inl hit ↦
      let (d, t, l, e) = m.0 in
      (d, t, l, inl e, ap window_key (sym e) ∙ (equals_iff (window_key w) key).0 hit)
  | inr miss ↦
      let (d, t, l, there, k) = touched key budgets ws m.1 (ground (arith, h, miss)) in
      (d, t, l, inr there, k)
]
