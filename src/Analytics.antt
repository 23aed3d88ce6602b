-- ===== src/Analytics.antt =====
-- internal/core/service/analytics_projection.go: expense rollups, kept by reversing what an expense
-- had contributed and applying what it contributes now.
pub mod Buckets
pub mod Shares
pub mod Reconcile
use billpiggy.Base.{
  ◌≡◌, Bool, true, false, not, ◌&&◌, String, List, [], ◌∷◌, Option, none, some, ◌==◌, string_eq,
  if◌then◌else◌,
}
use billpiggy.Base.Int.{ℤ, pos, negsuc, mul64}
use billpiggy.Clock.{is_zero}
use billpiggy.Outbox.{Bytes}
use billpiggy.Projections.{
  ExpenseContribution, ExpenseEnvelope, Decoded, decoded, skipped, undecodable,
  decode_expense_contribution, AnalyticsPeriod, rollup_periods, rollup_period_start,
}
use billpiggy.Rollups.{
  RollupDelta, AnalyticsRepository, add_rollup_delta, load_contribution, save_contribution,
}

abbrev pub delta_of : ExpenseContribution → ℤ → AnalyticsPeriod → RollupDelta
delta_of c direction period = record {
  owner_id = c.owner_id;
  category_id = c.category_id;
  tag_id = "";
  currency = c.currency;
  period = period;
  period_start = rollup_period_start period c.occurred_at;
  amount_minor = mul64 c.amount_minor direction;
  expense_count = direction;
}

-- The inner and the outer loop of `adjust`. The repository returns no error.
unfoldable pub adjust_tags : RollupDelta → List String → AnalyticsRepository → AnalyticsRepository
adjust_tags delta [] r = r
adjust_tags delta (tag ∷ tags) r =
    adjust_tags delta tags (add_rollup_delta (record delta { category_id = ""; tag_id = tag }) r)

unfoldable pub adjust_periods :
    ExpenseContribution → ℤ → List AnalyticsPeriod → AnalyticsRepository → AnalyticsRepository
adjust_periods c direction [] r = r
adjust_periods c direction (period ∷ periods) r =
    let delta = delta_of c direction period in
    adjust_periods c direction periods (adjust_tags delta c.tag_ids (add_rollup_delta delta r))

unfoldable pub adjust : ExpenseContribution → ℤ → AnalyticsRepository → AnalyticsRepository
adjust c direction r = adjust_periods c direction rollup_periods r

-- validateContribution, `true` for no error
unfoldable pub validate_contribution : ExpenseContribution → Bool
validate_contribution c =
    not (c.owner_id == "")
    && (not (c.category_id == "") && (not (c.currency == "") && not (is_zero c.occurred_at)))

abbrev pub reverse_previous : Option ExpenseContribution → AnalyticsRepository → AnalyticsRepository
reverse_previous none r = r
reverse_previous (some c) r = if c.active then adjust c (negsuc 0) r else r

-- The part of Handle that follows the reversal, `none` for an error. An error leaves no state here,
-- since the engine handles a message inside a unit of work, which then restores the repository.
abbrev pub settle_removal : Option ExpenseContribution → AnalyticsRepository → AnalyticsRepository
settle_removal none r = r
settle_removal (some previous) r = save_contribution (record previous { active = false }) r

unfoldable pub apply_next :
    ExpenseContribution
    → Option ExpenseContribution
    → AnalyticsRepository
    → Option AnalyticsRepository
apply_next next previous r =
    if not next.active
    then some (settle_removal previous r)
    else if not (validate_contribution next)
    then none
    else some (save_contribution next (adjust next (pos 1) r))

-- Handle, once the payload is decoded
unfoldable pub handle_contribution :
    ExpenseContribution → AnalyticsRepository → Option AnalyticsRepository
handle_contribution next r =
    let previous = load_contribution next.expense_id r in
    apply_next next previous (reverse_previous previous r)

-- Handle
unfoldable pub handle :
    (Bytes → Option ExpenseEnvelope)
    → String
    → Bytes
    → AnalyticsRepository
    → Option AnalyticsRepository
handle unmarshal event_type payload r =
    elim (decode_expense_contribution unmarshal event_type payload) [
      | undecodable ↦ none
      | skipped ↦ some r
      | decoded next ↦ handle_contribution next r
    ]

-- Messages that the engine hands over one after another, each in its unit of work.
unfoldable pub handle_all :
    (Bytes → Option ExpenseEnvelope)
    → List (String × Bytes)
    → AnalyticsRepository
    → AnalyticsRepository
handle_all unmarshal [] r = r
handle_all unmarshal ((event_type, payload) ∷ messages) r =
    handle_all unmarshal messages
      (elim (handle unmarshal event_type payload r) [ none ↦ r | some s ↦ s ])
