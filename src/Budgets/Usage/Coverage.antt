-- ===== src/Budgets/Usage/Coverage.antt =====
-- internal/core/service/budget_usage_projection.go: the periods that affectedWindows finds.
use billpiggy.Base.{
  ◌≡◌, refl, Bool, true, false, ◌&&◌, ◌||◌, ◌⊎◌, inl, inr, String, List, [], ◌∷◌, ◌++◌, string_eq,
  nat_eq, ◌==◌, equals_self, equals_iff, arith, Bool-cases,
}
use billpiggy.Clock.{Time}
use billpiggy.Projections.{BudgetRecord, ExpenseContribution}
use billpiggy.Budgets.{BudgetRepository}
use billpiggy.Budgets.Usage.{UsageKey, usage_key_eq, list_budgets_for_category}
use billpiggy.Budgets.Usage.Projection.{
  Window, window_key, window_at, has_window, add_window, add_times, add_budgets, Scope, add_scope,
  windows_of,
}
use billpiggy.Budgets.Usage.Windows.{has_window-append}

-- The budget is a row of the repository.
abbrev pub Listed : BudgetRecord → BudgetRepository → Type 0
Listed b [] = ⊥
Listed b ((_, d) ∷ rest) = (d ≡ b) ⊎ Listed b rest

abbrev pub Chosen : BudgetRecord → List BudgetRecord → Type 0
Chosen b [] = ⊥
Chosen b (d ∷ ds) = (d ≡ b) ⊎ Chosen b ds

has_time : Time → List Time → Bool
has_time at [] = false
has_time at (t ∷ ts) = t == at || has_time at ts

-- Some scope of the owner and the category has the time.
pub in_scopes : String → String → Time → List Scope → Bool
in_scopes owner category at [] = false
in_scopes owner category at (s ∷ ss) =
    s.owner_id == owner && s.category_id == category && has_time at s.times
    || in_scopes owner category at ss

has_time-append :
    (at t : Time) (ts : List Time) → has_time at (ts ++ t ∷ []) ≡ (has_time at ts || t == at)
unfolding has_time
has_time-append at t [] = ground arith
has_time-append at t (u ∷ ts) = ground (arith, has_time-append at t ts)

pub add_scope_self :
    (c : ExpenseContribution) (ss : List Scope)
    → in_scopes c.owner_id c.category_id c.occurred_at (add_scope c ss) ≡ true
unfolding in_scopes has_time
add_scope_self c [] =
    ground (arith, equals_self c.owner_id, equals_self c.category_id, equals_self c.occurred_at)
add_scope_self c (s ∷ ss) = ground (
  arith,
  add_scope_self c ss,
  has_time-append c.occurred_at c.occurred_at s.times,
  equals_self c.occurred_at,
)

pub add_scope-keeps :
    (c : ExpenseContribution) (owner category : String) (at : Time) (ss : List Scope)
    → in_scopes owner category at ss ≡ true
    → in_scopes owner category at (add_scope c ss) ≡ true
unfolding in_scopes has_time
add_scope-keeps c owner category at [] h = cc
add_scope-keeps c owner category at (s ∷ ss) h =
    ground (arith, add_scope-keeps c owner category at ss, has_time-append at c.occurred_at s.times)

add_window-keeps :
    (key : UsageKey) (w : Window) (ws : List Window)
    → has_window key ws ≡ true
    → has_window key (add_window w ws) ≡ true
add_window-keeps key w ws h = elim (Bool-cases (has_window (window_key w) ws)) [
  | inl e ↦ rw e h
  | inr e ↦ rw (e, has_window-append key ws w, h) refl
]

add_window_self :
    (w : Window) (ws : List Window) → has_window (window_key w) (add_window w ws) ≡ true
add_window_self w ws = elim (Bool-cases (has_window (window_key w) ws)) [
  | inl e ↦ rw e e
  | inr e ↦ rw (e, has_window-append (window_key w) ws w, e) (equals_self (window_key w))
]

add_times-keeps :
    (key : UsageKey) (b : BudgetRecord) (ts : List Time) (ws : List Window)
    → has_window key ws ≡ true
    → has_window key (add_times b ts ws) ≡ true
unfolding add_times
add_times-keeps key b [] ws h = h
add_times-keeps key b (t ∷ ts) ws h =
    add_times-keeps key b ts (add_window (window_at b t) ws)
      (add_window-keeps key (window_at b t) ws h)

add_times-has :
    (b : BudgetRecord) (at : Time) (ts : List Time) (ws : List Window)
    → has_time at ts ≡ true
    → has_window (window_key (window_at b at)) (add_times b ts ws) ≡ true
unfolding add_times has_time
add_times-has b at [] ws h = cc
add_times-has b at (t ∷ ts) ws h = elim (Bool-cases (t == at)) [
  | inl hit ↦
      let e : t ≡ at = (equals_iff t at).0 hit in
      rw e (
        add_times-keeps (window_key (window_at b at)) b ts (add_window (window_at b at) ws)
          (add_window_self (window_at b at) ws))
  | inr miss ↦ add_times-has b at ts (add_window (window_at b t) ws) (ground (arith, h, miss))
]

add_budgets-keeps :
    (key : UsageKey) (bs : List BudgetRecord) (ts : List Time) (ws : List Window)
    → has_window key ws ≡ true
    → has_window key (add_budgets bs ts ws) ≡ true
unfolding add_budgets
add_budgets-keeps key [] ts ws h = h
add_budgets-keeps key (b ∷ bs) ts ws h =
    add_budgets-keeps key bs ts (add_times b ts ws) (add_times-keeps key b ts ws h)

add_budgets-has :
    (b : BudgetRecord) (at : Time) (bs : List BudgetRecord) (ts : List Time) (ws : List Window)
    → Chosen b bs
    → has_time at ts ≡ true
    → has_window (window_key (window_at b at)) (add_budgets bs ts ws) ≡ true
unfolding add_budgets
add_budgets-has b at [] ts ws c h = absurd c
add_budgets-has b at (d ∷ bs) ts ws (inl e) h = rw e (
    add_budgets-keeps (window_key (window_at b at)) bs ts (add_times b ts ws)
      (add_times-has b at ts ws h))
add_budgets-has b at (d ∷ bs) ts ws (inr c) h = add_budgets-has b at bs ts (add_times d ts ws) c h

windows_of-keeps :
    (key : UsageKey) (budgets : BudgetRepository) (ss : List Scope) (ws : List Window)
    → has_window key ws ≡ true
    → has_window key (windows_of budgets ss ws) ≡ true
unfolding windows_of
windows_of-keeps key budgets [] ws h = h
windows_of-keeps key budgets (s ∷ ss) ws h = windows_of-keeps key budgets ss _ (
    add_budgets-keeps key (list_budgets_for_category s.owner_id s.category_id budgets) s.times ws h)

pub windows_of-has :
    (b : BudgetRecord) (owner category : String) (at : Time) (budgets : BudgetRepository)
    (ss : List Scope) (ws : List Window)
    → Chosen b (list_budgets_for_category owner category budgets)
    → in_scopes owner category at ss ≡ true
    → has_window (window_key (window_at b at)) (windows_of budgets ss ws) ≡ true
unfolding windows_of in_scopes
windows_of-has b owner category at budgets [] ws c h = cc
windows_of-has b owner category at budgets (s ∷ ss) ws c h =
    let chosen = list_budgets_for_category s.owner_id s.category_id budgets in
    elim (Bool-cases (s.owner_id == owner && s.category_id == category && has_time at s.times)) [
      | inl hit ↦
          let own : s.owner_id ≡ owner = (equals_iff s.owner_id owner).0 (ground (arith, hit)) in
          let cat : s.category_id ≡ category =
            (equals_iff s.category_id category).0 (ground (arith, hit)) in
          windows_of-keeps (window_key (window_at b at)) budgets ss (add_budgets chosen s.times ws)
            (add_budgets-has b at chosen s.times ws (rw (own, cat) c) (ground (arith, hit)))
      | inr miss ↦
          windows_of-has b owner category at budgets ss (add_budgets chosen s.times ws) c
            (ground (arith, h, miss))
    ]
