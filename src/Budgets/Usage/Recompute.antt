-- ===== src/Budgets/Usage/Recompute.antt =====
-- internal/core/service/budget_usage_projection.go: recompute, and what an expense event leaves in the
-- periods that it touches.
use billpiggy.Budgets.Usage.Spent.{Touched, spent_between, sum_contributions_between, touched}
use billpiggy.Base.{
  ◌≡◌, refl, sym, ap, ◌∙◌, subst, Bool, true, false, ◌||◌, ◌⊎◌, inl, inr, ℕ, suc, String, List, [],
  ◌∷◌, Option, none, some, string_eq, ◌==◌, equals_self, arith, if◌then◌else◌, nat_eq,
}
use billpiggy.Base.Int.{ℤ}
use billpiggy.Base.Assoc.{lookup, insert, lookup-insert}
use billpiggy.Base.Rows.{Rows, insert-Rows}
use billpiggy.Clock.{Time, unix_nano}
use billpiggy.Outbox.{Message}
use billpiggy.Projections.{
  ExpenseContribution, decoded, decode_expense_contribution, BudgetRecord, budget_window,
}
use billpiggy.Projections.Thresholds.{BudgetUsage, record_spend}
use billpiggy.Budgets.Usage.{
  BudgetUsageState, UsageKey, usage_key_eq, usage_key, load_usage, usage_or, new_usage,
}
use billpiggy.Budgets.Usage.Projection.{
  Window, window_key, has_window, affected_windows, scopes_of, UsagePorts, spent_in,
  recompute_window, recompute, applied, kept_contribution, on_contribution, handle_expense,
  window_at,
}
use billpiggy.Budgets.Usage.Windows.{Distinct, windows_of-Distinct}
use billpiggy.Budgets.Usage.Affected.{Concerns, windows_of-Made, concerned_window}
use billpiggy.Budgets.Usage.Coverage.{Listed}

-- A usage row is filed under its own budget.
abbrev pub OfBudget : UsageKey → BudgetUsage → Type 0
OfBudget key usage = usage.budget_id ≡ key.budget_id

-- The spend that is stored for the window's period.
abbrev pub stored_spend : Window → BudgetUsageState → ℤ
stored_spend w s = (load_usage w.budget.id w.start s.usage).spent_minor

own_budget :
    (id : String) (start : Time) (o : Option BudgetUsage) (rows : List (UsageKey × BudgetUsage))
    → Rows OfBudget rows
    → lookup (usage_key id start) rows ≡ o
    → (usage_or (new_usage id start) o).budget_id ≡ id
own_budget id start none rows h e = refl
own_budget id start (some usage) rows h e = h.row (usage_key id start) usage e

not_this : (a b : Bool) → (a || b) ≡ false → a ≡ false
not_this false b h = refl
not_this true b h = h

module _ (ports : UsagePorts) (ids : ℕ → String) (now : Time) (replay : Bool) where
  abbrev saved : Window → BudgetUsageState → BudgetUsage
  saved w s =
      (record_spend w.budget (load_usage w.budget.id w.start s.usage) w.start
        (spent_in ports ids now w s) replay now).1

  -- The row that one turn stores is filed under the window's period.
  saved_key :
      (w : Window) (s : BudgetUsageState)
      → Rows OfBudget s.usage
      → usage_key (saved w s).budget_id (saved w s).period_start ≡ window_key w
  unfolding record_spend
  saved_key w s h =
      ap (λ id. usage_key id w.start)
        (own_budget w.budget.id w.start (lookup (usage_key w.budget.id w.start) s.usage) s.usage h
          refl)

  turn :
      (k : ℕ) (w : Window) (s : BudgetUsageState) (key : UsageKey)
      → Rows OfBudget s.usage
      → lookup key (recompute_window ports ids now k replay w s).usage
        ≡ (if window_key w == key then some (saved w s) else lookup key s.usage)
  turn k w s key h =
      lookup-insert (usage_key (saved w s).budget_id (saved w s).period_start) key (saved w s)
        s.usage
      ∙ ap (λ own. if own == key then some (saved w s) else lookup key s.usage) (saved_key w s h)

  turn-Rows :
      (k : ℕ) (w : Window) (s : BudgetUsageState)
      → Rows OfBudget s.usage
      → Rows OfBudget (recompute_window ports ids now k replay w s).usage
  turn-Rows k w s h = insert-Rows OfBudget _ (saved w s) refl h

  -- A period that none of the windows is of keeps its row.
  untouched :
      (k : ℕ) (ws : List Window) (s : BudgetUsageState) (key : UsageKey)
      → Rows OfBudget s.usage
      → has_window key ws ≡ false
      → lookup key (recompute ports ids now k replay ws s).usage ≡ lookup key s.usage
  unfolding recompute has_window
  untouched k [] s key h away = refl
  untouched k (w ∷ ws) s key h away =
      untouched (suc k) ws (recompute_window ports ids now k replay w s) key (turn-Rows k w s h)
        (ground (arith, away))
      ∙ turn k w s key h
      ∙ ap (λ b. if b then some (saved w s) else lookup key s.usage)
          (not_this (window_key w == key) (has_window key ws) away)

  saved_spend :
      (w : Window) (s : BudgetUsageState) → (saved w s).spent_minor ≡ spent_in ports ids now w s
  unfolding record_spend
  saved_spend w s = refl

  -- After recompute, each of its windows stores the sum of the contributions.
  pub recompute_spends :
      (k : ℕ) (ws : List Window) (s : BudgetUsageState) (w : Window)
      → Rows OfBudget s.usage
      → Distinct ws
      → Touched w ws
      → stored_spend w (recompute ports ids now k replay ws s) ≡ spent_in ports ids now w s
  unfolding recompute
  recompute_spends k [] s w h d there = absurd there
  recompute_spends k (v ∷ vs) s w h d (inr later) =
      recompute_spends (suc k) vs (recompute_window ports ids now k replay v s) w
        (turn-Rows k v s h) d.1 later
  recompute_spends k (v ∷ vs) s w h d (inl same) =
      subst
        (λ u.
          stored_spend u (recompute ports ids now k replay (v ∷ vs) s) ≡ spent_in ports ids now u s)
        same
        (ap (λ o. (usage_or (new_usage v.budget.id v.start) o).spent_minor)
            (untouched (suc k) vs (recompute_window ports ids now k replay v s) (window_key v)
                (turn-Rows k v s h) d.0
              ∙ turn k v s (window_key v) h
              ∙ ap (λ b. if b then some (saved v s) else lookup (window_key v) s.usage)
                  (equals_self (window_key v)))
          ∙ saved_spend v s)

  same_contributions :
      (k : ℕ) (ws : List Window) (s : BudgetUsageState)
      → (recompute ports ids now k replay ws s).contributions ≡ s.contributions
  unfolding recompute
  same_contributions k [] s = refl
  same_contributions k (w ∷ ws) s =
      same_contributions (suc k) ws (recompute_window ports ids now k replay w s)

  applied_spends :
      (next c : ExpenseContribution) (kept previous : Option ExpenseContribution)
      (s : BudgetUsageState) (w : Window)
      → Rows OfBudget s.usage
      → kept ≡ some c
      → Touched w (affected_windows previous c s.budgets)
      → stored_spend w (applied ports ids now replay kept previous s)
        ≡ spent_in ports ids now w (applied ports ids now replay kept previous s)
  applied_spends next c none previous s w h e there = cc
  applied_spends next c (some stored) previous s w h e there =
      let windows = affected_windows previous stored s.budgets in
      let mirror = record s { contributions = insert stored.expense_id stored s.contributions } in
      recompute_spends 0 windows mirror w h
        (windows_of-Distinct s.budgets (scopes_of previous stored) [] tt)
        (subst (λ v. Touched w (affected_windows previous v s.budgets)) (sym (same_row e)) there)
      ∙ ap (λ rows. spent_in ports ids now w (record s { contributions = rows }))
          (sym (same_contributions 0 windows mirror))
    where
      same_row : Path (Option ExpenseContribution) (some stored) (some c) → stored ≡ c
      same_row e = grind (arith, e)

-- The spend of the usage row of the budget's period at the instant.
abbrev pub usage_spend : BudgetRecord → Time → BudgetUsageState → ℤ
usage_spend b t s = (load_usage b.id (budget_window b t).0 s.usage).spent_minor

-- After an expense event that was decoded to `next`, take any state `q` of the expense that counts:
-- the one stored before, or `next` itself if it is not a removal. Then each live budget of its owner
-- and category has, for its period that `q` lies in, a usage row with exactly the sum of the active
-- contributions of that owner and category in the period. The instant `t` stands for the period: it
-- starts at the same nanosecond, by which usage rows are told apart. Usage rows are filed under their
-- own budget, and no other budget has the budget's id.
pub handle_expense_recomputes :
    (ports : UsagePorts) (ids : ℕ → String) (now : Time) (message : Message) (s : BudgetUsageState)
    (next q : ExpenseContribution) (b : BudgetRecord)
    → Rows OfBudget s.usage
    → ((d : BudgetRecord) → Listed d s.budgets → d.id ≡ b.id → d ≡ b)
    → decode_expense_contribution ports.unmarshal_expense message.event_type message.payload
      ≡ decoded next
    → (◌≡◌ {A = Option ExpenseContribution} (lookup next.expense_id s.contributions) (some q)
        ⊎ ((next.active ≡ true) × (next ≡ q)))
    → Listed b s.budgets
    → Concerns b q
    → (t : Time) × (unix_nano (budget_window b t).0 ≡ unix_nano (budget_window b q.occurred_at).0)
      × (usage_spend b t (handle_expense ports ids now message s).1
          ≡ spent_between b
              (budget_window b t).0
              (budget_window b t).1
              (handle_expense ports ids now message s).1.contributions)
unfolding handle_expense
handle_expense_recomputes ports ids now message s next q b h only read counts listed concerns =
    let previous = lookup next.expense_id s.contributions in
    let (c, kept, has) = concerned_window b next q previous s.budgets counts listed concerns in
    let (d, t, l, there, key) =
      touched (window_key (window_at b q.occurred_at)) s.budgets
        (affected_windows previous c s.budgets)
        (windows_of-Made s.budgets (scopes_of previous c) [] tt) has in
    let same : d ≡ b = only d l (ap (λ (k : UsageKey). k.budget_id) key) in
    let done =
      applied_spends ports ids now message.replay next c (kept_contribution next previous) previous
        s (window_at d t) h kept there in
    let after = (on_contribution ports ids now message.replay (decoded next) s).1 in
    subst
      (λ x.
        (u : Time) × (unix_nano (budget_window b u).0 ≡ unix_nano (budget_window b q.occurred_at).0)
        × (usage_spend b u (on_contribution ports ids now message.replay x s).1
            ≡ spent_between b (budget_window b u).0 (budget_window b u).1
                (on_contribution ports ids now message.replay x s).1.contributions))
      (sym read)
      (
        t,
        subst
            (λ (e : BudgetRecord).
              unix_nano (budget_window e t).0 ≡ unix_nano (budget_window b q.occurred_at).0)
            same (ap (λ (k : UsageKey). k.period_start) key),
        subst
            (λ (e : BudgetRecord).
              usage_spend e t after
              ≡ spent_between e (budget_window e t).0 (budget_window e t).1 after.contributions)
            same
            (done
              ∙ sum_contributions_between d (budget_window d t).0 (budget_window d t).1
                  after.contributions),
      )
