-- ===== src/Budgets/Usage/Windows.antt =====
-- internal/core/service/budget_usage_projection.go: the periods that affectedWindows names.
use billpiggy.Base.{
  ◌≡◌, refl, Bool, true, false, ◌||◌, List, [], ◌∷◌, ◌++◌, ◌==◌, equals_iff, arith, if◌then◌else◌,
}
use billpiggy.Clock.{Time}
use billpiggy.Projections.{BudgetRecord}
use billpiggy.Budgets.{BudgetRepository}
use billpiggy.Budgets.Usage.{UsageKey, usage_key_eq, list_budgets_for_category}
use billpiggy.Budgets.Usage.Projection.{
  Window, window_key, window_at, has_window, add_window, add_times, add_budgets, Scope, windows_of,
}

-- No two windows are of the same period.
abbrev pub Distinct : List Window → Type 0
Distinct [] = Unit {0}
Distinct (w ∷ ws) = (has_window (window_key w) ws ≡ false) × Distinct ws

pub has_window-append :
    (key : UsageKey) (ws : List Window) (w : Window)
    → has_window key (ws ++ w ∷ []) ≡ (has_window key ws || window_key w == key)
unfolding has_window
has_window-append key [] w = ground arith
has_window-append key (v ∷ vs) w = ground (arith, has_window-append key vs w)

append-Distinct :
    (ws : List Window) (w : Window)
    → Distinct ws
    → has_window (window_key w) ws ≡ false
    → Distinct (ws ++ w ∷ [])
unfolding has_window
append-Distinct [] w h new = (refl, tt)
append-Distinct (v ∷ vs) w h new = (
  ground (
    arith,
    has_window-append (window_key v) vs w,
    equals_iff (window_key w) (window_key v),
    equals_iff (window_key v) (window_key w),
    h.0,
    new,
  ),
  append-Distinct vs w h.1 (ground (arith, new)),
)

added_if :
    (there : Bool) (w : Window) (ws : List Window)
    → has_window (window_key w) ws ≡ there
    → Distinct ws
    → Distinct (if there then ws else ws ++ w ∷ [])
added_if true w ws e h = h
added_if false w ws e h = append-Distinct ws w h e

add_times-Distinct :
    (budget : BudgetRecord) (times : List Time) (ws : List Window)
    → Distinct ws
    → Distinct (add_times budget times ws)
unfolding add_times
add_times-Distinct budget [] ws h = h
add_times-Distinct budget (at ∷ times) ws h =
    let w = window_at budget at in
    add_times-Distinct budget times (add_window w ws)
      (added_if (has_window (window_key w) ws) w ws refl h)

add_budgets-Distinct :
    (budgets : List BudgetRecord) (times : List Time) (ws : List Window)
    → Distinct ws
    → Distinct (add_budgets budgets times ws)
unfolding add_budgets
add_budgets-Distinct [] times ws h = h
add_budgets-Distinct (budget ∷ budgets) times ws h =
    add_budgets-Distinct budgets times (add_times budget times ws)
      (add_times-Distinct budget times ws h)

pub windows_of-Distinct :
    (budgets : BudgetRepository) (scopes : List Scope) (ws : List Window)
    → Distinct ws
    → Distinct (windows_of budgets scopes ws)
unfolding windows_of
windows_of-Distinct budgets [] ws h = h
windows_of-Distinct budgets (scope ∷ scopes) ws h =
    windows_of-Distinct budgets scopes
      (add_budgets (list_budgets_for_category scope.owner_id scope.category_id budgets) scope.times
        ws)
      (add_budgets-Distinct (list_budgets_for_category scope.owner_id scope.category_id budgets)
        scope.times ws h)
