-- ===== src/Budgets/Usage/Affected.antt =====
-- internal/core/service/budget_usage_projection.go: the windows of affectedWindows, from both sides.
use billpiggy.Base.{
  ◌≡◌, refl, true, false, ◌&&◌, ◌||◌, ◌⊎◌, inl, inr, String, List, [], ◌∷◌, ◌++◌, Option, none,
  some, string_eq, nat_eq, ◌==◌, equals_self, Bool-cases,
}
use billpiggy.Clock.{Time, is_zero}
use billpiggy.Projections.{BudgetRecord, ExpenseContribution, is_none}
use billpiggy.Budgets.{BudgetRepository, list_budgets, visible_budget}
use billpiggy.Budgets.Usage.{usage_key_eq, in_category, list_budgets_for_category}
use billpiggy.Budgets.Usage.Projection.{
  Window, window_key, window_at, has_window, add_window, add_times, add_budgets, Scope, scoped,
  scopes_with, scopes_of, windows_of, affected_windows, kept_contribution,
}
use billpiggy.Budgets.Usage.Coverage.{
  Listed, Chosen, in_scopes, add_scope_self, add_scope-keeps, windows_of-has,
}

-- The budget is live, and the expense is its owner's and of its category; neither is left out.
pub record Concerns (b : BudgetRecord) (q : ExpenseContribution) : Type 0 where
  pub live : is_none b.deleted_at ≡ true
  pub own : b.owner_id ≡ q.owner_id
  pub of_category : b.category_id ≡ q.category_id
  pub owned : (q.owner_id == "") ≡ false
  pub categorized : (q.category_id == "") ≡ false
  pub dated : is_zero q.occurred_at ≡ false

Listed-list_budgets :
    (b : BudgetRecord) (budgets : BudgetRepository)
    → Listed b budgets
    → is_none b.deleted_at ≡ true
    → Chosen b (list_budgets b.owner_id [] budgets)
unfolding list_budgets
Listed-list_budgets b [] l h = absurd l
Listed-list_budgets b ((k, d) ∷ rest) (inl e) h = rw (e, equals_self b.owner_id, h) (inl refl)
Listed-list_budgets b ((k, d) ∷ rest) (inr l) h =
    elim (Bool-cases (visible_budget b.owner_id [] d)) [
      | inl seen ↦ rw seen (inr (Listed-list_budgets b rest l h))
      | inr unseen ↦ rw unseen (Listed-list_budgets b rest l h)
    ]

Chosen-in_category :
    (b : BudgetRecord) (bs : List BudgetRecord)
    → Chosen b bs
    → Chosen b (in_category b.owner_id b.category_id bs)
unfolding in_category
Chosen-in_category b [] c = absurd c
Chosen-in_category b (d ∷ bs) (inl e) =
    rw (e, equals_self b.category_id, equals_self b.owner_id) (inl refl)
Chosen-in_category b (d ∷ bs) (inr c) =
    elim (Bool-cases (d.category_id == b.category_id && d.owner_id == b.owner_id)) [
      | inl here ↦ rw here (inr (Chosen-in_category b bs c))
      | inr other ↦ rw other (Chosen-in_category b bs c)
    ]

Concerns-Chosen :
    (b : BudgetRecord) (q : ExpenseContribution) (budgets : BudgetRepository)
    → Listed b budgets
    → Concerns b q
    → Chosen b (list_budgets_for_category q.owner_id q.category_id budgets)
Concerns-Chosen b q budgets l h =
    rw (h.owned, h.categorized, ← h.own, ← h.of_category)
      (Chosen-in_category b (list_budgets b.owner_id [] budgets)
        (Listed-list_budgets b budgets l h.live))

scopes_with_self :
    (b : BudgetRecord) (q : ExpenseContribution) (ss : List Scope)
    → Concerns b q
    → in_scopes q.owner_id q.category_id q.occurred_at (scopes_with q ss) ≡ true
scopes_with_self b q ss h = rw (h.owned, h.categorized, h.dated) (add_scope_self q ss)

scopes_with-keeps :
    (c : ExpenseContribution) (owner category : String) (at : Time) (ss : List Scope)
    → in_scopes owner category at ss ≡ true
    → in_scopes owner category at (scopes_with c ss) ≡ true
scopes_with-keeps c owner category at ss h = elim (Bool-cases (scoped c)) [
  | inl e ↦ rw e (add_scope-keeps c owner category at ss h)
  | inr e ↦ rw e h
]

-- The periods that the new state of an expense lies in, and those that the previous one lay in.
pub affected_next :
    (b : BudgetRecord) (previous : Option ExpenseContribution) (q : ExpenseContribution)
    (budgets : BudgetRepository)
    → Listed b budgets
    → Concerns b q
    → has_window (window_key (window_at b q.occurred_at)) (affected_windows previous q budgets)
      ≡ true
affected_next b none q budgets l h =
    windows_of-has b q.owner_id q.category_id q.occurred_at budgets (scopes_of none q) []
      (Concerns-Chosen b q budgets l h) (scopes_with_self b q [] h)
affected_next b (some previous) q budgets l h =
    windows_of-has b q.owner_id q.category_id q.occurred_at budgets (scopes_of (some previous) q) []
      (Concerns-Chosen b q budgets l h) (scopes_with_self b q (scopes_with previous []) h)

pub affected_previous :
    (b : BudgetRecord) (q next : ExpenseContribution) (budgets : BudgetRepository)
    → Listed b budgets
    → Concerns b q
    → has_window (window_key (window_at b q.occurred_at)) (affected_windows (some q) next budgets)
      ≡ true
affected_previous b q next budgets l h =
    windows_of-has b q.owner_id q.category_id q.occurred_at budgets (scopes_of (some q) next) []
      (Concerns-Chosen b q budgets l h)
      (scopes_with-keeps next q.owner_id q.category_id q.occurred_at (scopes_with q [])
        (scopes_with_self b q [] h))

-- Each window is that of a listed budget at some time.
abbrev pub Made : BudgetRepository → List Window → Type 0
Made budgets [] = Unit {0}
Made budgets (w ∷ ws) =
    ((d : BudgetRecord) × (t : Time) × Listed d budgets × (w ≡ window_at d t)) × Made budgets ws

abbrev AllListed : BudgetRepository → List BudgetRecord → Type 0
AllListed budgets [] = Unit {0}
AllListed budgets (d ∷ ds) = Listed d budgets × AllListed budgets ds

Made-append :
    (budgets : BudgetRepository) (d : BudgetRecord) (t : Time) (ws : List Window)
    → Listed d budgets
    → Made budgets ws
    → Made budgets (ws ++ window_at d t ∷ [])
Made-append budgets d t [] l m = ((d, t, l, refl), tt)
Made-append budgets d t (w ∷ ws) l m = (m.0, Made-append budgets d t ws l m.1)

add_times-Made :
    (budgets : BudgetRepository) (d : BudgetRecord) (ts : List Time) (ws : List Window)
    → Listed d budgets
    → Made budgets ws
    → Made budgets (add_times d ts ws)
unfolding add_times
add_times-Made budgets d [] ws l m = m
add_times-Made budgets d (t ∷ ts) ws l m =
    add_times-Made budgets d ts (add_window (window_at d t) ws) l
      (elim (Bool-cases (has_window (window_key (window_at d t)) ws)) [
        | inl e ↦ rw e m
        | inr e ↦ rw e (Made-append budgets d t ws l m)
      ])

add_budgets-Made :
    (budgets : BudgetRepository) (ds : List BudgetRecord) (ts : List Time) (ws : List Window)
    → AllListed budgets ds
    → Made budgets ws
    → Made budgets (add_budgets ds ts ws)
unfolding add_budgets
add_budgets-Made budgets [] ts ws l m = m
add_budgets-Made budgets (d ∷ ds) ts ws l m =
    add_budgets-Made budgets ds ts (add_times d ts ws) l.1 (add_times-Made budgets d ts ws l.0 m)

AllListed-in_category :
    (budgets : BudgetRepository) (owner category : String) (ds : List BudgetRecord)
    → AllListed budgets ds
    → AllListed budgets (in_category owner category ds)
unfolding in_category
AllListed-in_category budgets owner category [] l = tt
AllListed-in_category budgets owner category (d ∷ ds) l =
    let rest = AllListed-in_category budgets owner category ds l.1 in
    elim (Bool-cases (d.category_id == category && d.owner_id == owner)) [
      | inl e ↦ rw e (l.0, rest)
      | inr e ↦ rw e rest
    ]

AllListed-more :
    (row : String × BudgetRecord) (budgets : BudgetRepository) (ds : List BudgetRecord)
    → AllListed budgets ds
    → AllListed (row ∷ budgets) ds
AllListed-more row budgets [] l = tt
AllListed-more row budgets (d ∷ ds) l = (inr l.0, AllListed-more row budgets ds l.1)

AllListed-list_budgets :
    (owner : String) (budgets : BudgetRepository)
    → AllListed budgets (list_budgets owner [] budgets)
unfolding list_budgets
AllListed-list_budgets owner [] = tt
AllListed-list_budgets owner ((k, d) ∷ rest) =
    let later = AllListed-more (k, d) rest _ (AllListed-list_budgets owner rest) in
    elim (Bool-cases (visible_budget owner [] d)) [
      | inl e ↦ rw e (inl refl, later)
      | inr e ↦ rw e later
    ]

AllListed-for_category :
    (owner category : String) (budgets : BudgetRepository)
    → AllListed budgets (list_budgets_for_category owner category budgets)
AllListed-for_category owner category budgets = elim (Bool-cases (owner == "" || category == "")) [
  | inl e ↦ rw e tt
  | inr e ↦ rw e (
      AllListed-in_category budgets owner category (list_budgets owner [] budgets)
        (AllListed-list_budgets owner budgets))
]

pub windows_of-Made :
    (budgets : BudgetRepository) (ss : List Scope) (ws : List Window)
    → Made budgets ws
    → Made budgets (windows_of budgets ss ws)
unfolding windows_of
windows_of-Made budgets [] ws m = m
windows_of-Made budgets (s ∷ ss) ws m = windows_of-Made budgets ss _ (
    add_budgets-Made budgets (list_budgets_for_category s.owner_id s.category_id budgets) s.times ws
      (AllListed-for_category s.owner_id s.category_id budgets) m)

-- What the event leaves of the expense, and that the window of a period that it concerns is there.
pub concerned_window :
    (b : BudgetRecord) (next q : ExpenseContribution) (previous : Option ExpenseContribution)
    (budgets : BudgetRepository)
    → (◌≡◌ {A = Option ExpenseContribution} previous (some q) ⊎ ((next.active ≡ true) × (next ≡ q)))
    → Listed b budgets
    → Concerns b q
    → (c : ExpenseContribution) × (kept_contribution next previous ≡ some c)
      × (has_window (window_key (window_at b q.occurred_at)) (affected_windows previous c budgets)
          ≡ true)
concerned_window b next q none budgets (inl e) l h = cc
concerned_window b next q none budgets (inr (active, e)) l h =
    (next, rw active refl, rw e (affected_next b none q budgets l h))
concerned_window b next q (some previous) budgets (inr (active, e)) l h =
    (next, rw active refl, rw e (affected_next b (some previous) q budgets l h))
concerned_window b next q (some previous) budgets (inl e) l h =
    let same : previous ≡ q = cc in
    elim (Bool-cases next.active) [
      | inl active ↦ (next, rw active refl, rw same (affected_previous b q next budgets l h))
      | inr gone ↦ (
        record previous { active = false },
        rw gone refl,
        rw same (affected_previous b q (record q { active = false }) budgets l h),
      )
    ]
