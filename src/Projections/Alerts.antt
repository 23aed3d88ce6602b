-- ===== src/Projections/Alerts.antt =====
-- When a budget alerts, against a description that neither divides nor wraps, and how often.
use billpiggy.Base.{
  ℕ, ◌+◌, ◌*◌, ◌/◌, ◌≤◌, ◌<◌, ◌≡◌, refl, ◌↔◌, Bool, true, false, Option, none, some, List, [], ◌∷◌,
  arith, leb, ltb, if◌then◌else◌,
}
use native.Mathlib.Nat.{le-div_iff_mul-le}
use billpiggy.Base.Int.{pos, mul64, div64, ◌*ℤ◌, wrap64, wrap64_id, half_word}
use billpiggy.Clock.{Time}
use billpiggy.Projections.{BudgetRecord}
use billpiggy.Projections.Thresholds.{
  BudgetUsage, BudgetAlert, record_spend, percent_of, rung_of, budget_threshold_crossing,
  alerted_percent_for,
}

-- A budget as validateBudget admits it, with its limit and threshold as numbers.
abbrev pub Admits : BudgetRecord → ℕ → ℕ → Type 0
Admits b limit threshold =
    (b.amount_limit_minor ≡ pos limit)
    × (b.threshold_percent ≡ pos threshold)
    × (1 ≤ limit)
    × (1 ≤ threshold)
    × (threshold ≤ 100)

-- The level that a spend reaches, with no division: 100, the threshold or 0.
abbrev pub level : ℕ → ℕ → ℕ → ℕ
level limit threshold spent =
    if leb limit spent then 100 else if leb (threshold * limit) (100 * spent) then threshold else 0

abbrev pub is_some : Option BudgetAlert → Bool
is_some none = false
is_some (some a) = true

module _ (b : BudgetRecord) (limit threshold : ℕ) (admits : Admits b limit threshold) (spent : ℕ)
    (fits : spent * 100 < half_word) where
  percent_lem : percent_of b (pos spent) ≡ pos (spent * 100 / limit)
  unfolding percent_of mul64 div64 ◌*ℤ◌
  percent_lem =
      let e : wrap64 (pos (spent * 100)) ≡ pos (spent * 100) =
        wrap64_id (pos (spent * 100)) (fits, omega arith) in
      rw (admits.0, e) refl

  quotient_iff : (k : ℕ) → (k ≤ spent * 100 / limit) ↔ (k * limit ≤ 100 * spent)
  quotient_iff k =
      let (over, back) = le-div_iff_mul-le {x = k} {y = spent * 100} (admits.2) in
      (λ h. omega (arith, over h), λ h. back (omega arith))

  -- Read with the two tests as they stand in the code.
  rung_lem : rung_of b (percent_of b (pos spent)) ≡ pos (level limit threshold spent)
  unfolding rung_of
  rung_lem =
      let (over, back) = quotient_iff 100 in
      let (past, short) = quotient_iff threshold in
      rw (percent_lem, admits.1) (ground (arith, over, back, past, short))

-- A budget alerts exactly if its spend reaches a level above the one it has alerted at: 100 once the
-- limit is spent, else its threshold once that share is, and nothing below. The level is stated by
-- multiplication, and the spend is one whose hundredfold fits in an int64.
pub budget_alert_iff :
    (b : BudgetRecord) (usage : BudgetUsage) (limit threshold spent alerted : ℕ)
    → Admits b limit threshold
    → spent * 100 < half_word
    → usage.alerted_percent ≡ pos alerted
    → is_some (budget_threshold_crossing b usage (pos spent))
      ≡ ltb alerted (level limit threshold spent)
unfolding budget_threshold_crossing
budget_alert_iff b usage limit threshold spent alerted admits fits e =
    let rung = rung_lem b limit threshold admits spent fits in rw (rung, admits.0, e) (ground arith)

-- A spend at or over the limit stores 100, one between threshold and limit
-- keeps what was stored if that is higher, and one below the threshold forgets it.
stored_level :
    (b : BudgetRecord) (usage : BudgetUsage) (limit threshold spent alerted : ℕ)
    → Admits b limit threshold
    → spent * 100 < half_word
    → usage.alerted_percent ≡ pos alerted
    → alerted ≤ level limit threshold spent
    → alerted_percent_for b usage (pos spent) ≡ pos (level limit threshold spent)
unfolding alerted_percent_for
stored_level b usage limit threshold spent alerted admits fits e low =
    let (over, back) = quotient_iff b limit threshold admits spent fits 100 in
    let (past, short) = quotient_iff b limit threshold admits spent fits threshold in
    rw (percent_lem b limit threshold admits spent fits, admits.0, admits.1, e)
      (ground (arith, over, back, past, short))

-- The alerts that one window's row queues over a run of totals, live and not replayed.
abbrev pub alerts_of : BudgetRecord → BudgetUsage → Time → List ℕ → ℕ
alerts_of b usage now [] = 0
alerts_of b usage now (spent ∷ later) =
    let (alert, stored) = record_spend b usage usage.period_start (pos spent) false now in
    (if is_some alert then 1 else 0) + alerts_of b stored now later

-- Totals that do not fall, from one on, each with a hundredfold that fits in an int64.
abbrev pub Rising : ℕ → List ℕ → Type 0
Rising from [] = Unit
Rising from (spent ∷ later) = (from ≤ spent) × (spent * 100 < half_word) × Rising spent later

-- The levels that are still above the one alerted at.
abbrev left : ℕ → ℕ → ℕ
left threshold alerted = if leb 100 alerted then 0 else if leb threshold alerted then 1 else 2

alerted_higher :
    (limit threshold from spent alerted : ℕ)
    → threshold ≤ 100
    → from ≤ spent
    → alerted ≤ level limit threshold from
    → alerted ≤ level limit threshold spent
alerted_higher limit threshold from spent alerted capped rises low = ground arith

count_left :
    (limit threshold spent alerted count : ℕ)
    → 1 ≤ threshold
    → threshold ≤ 100
    → alerted ≤ level limit threshold spent
    → count ≤ left threshold (level limit threshold spent)
    → (if ltb alerted (level limit threshold spent) then 1 else 0) + count ≤ left threshold alerted
count_left limit threshold spent alerted count one capped higher rest = ground arith

left_le : (threshold : ℕ) → left threshold 0 ≤ 2
left_le threshold = ground arith

alerts_left :
    (b : BudgetRecord) (usage : BudgetUsage) (now : Time) (limit threshold from alerted : ℕ)
    (totals : List ℕ)
    → Admits b limit threshold
    → usage.alerted_percent ≡ pos alerted
    → alerted ≤ level limit threshold from
    → Rising from totals
    → alerts_of b usage now totals ≤ left threshold alerted
unfolding record_spend
alerts_left b usage now limit threshold from alerted [] admits e low rising = omega arith
alerts_left b usage now limit threshold from alerted (spent ∷ later) admits e low rising =
    let here = record usage { period_start = usage.period_start } in
    let higher = alerted_higher limit threshold from spent alerted (admits.4) (rising.0) low in
    let alert = budget_alert_iff b here limit threshold spent alerted admits (rising.1) e in
    let stored = stored_level b here limit threshold spent alerted admits (rising.1) e higher in
    let rest =
      alerts_left b (record_spend b usage usage.period_start (pos spent) false now).1 now limit
        threshold spent (level limit threshold spent) later admits stored (omega arith)
        (rising.2) in
    rw alert (
      count_left limit threshold spent alerted
        (alerts_of b (record_spend b usage usage.period_start (pos spent) false now).1 now later)
        (admits.3) (admits.4) higher rest)

-- While a window's spending does not fall, at most two alerts are queued for it, however often its
-- total is computed: one at the threshold and one at the limit. The budget is an admitted one, no
-- level has been alerted at before, and the totals fit.
pub alerts-at_most_two :
    (b : BudgetRecord) (usage : BudgetUsage) (now : Time) (limit threshold : ℕ) (totals : List ℕ)
    → Admits b limit threshold
    → usage.alerted_percent ≡ pos 0
    → Rising 0 totals
    → alerts_of b usage now totals ≤ 2
alerts-at_most_two b usage now limit threshold totals admits e rising = omega (
  arith,
  alerts_left b usage now limit threshold 0 0 totals admits e (omega arith) rising,
  left_le threshold,
)
