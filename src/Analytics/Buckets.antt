-- ===== src/Analytics/Buckets.antt =====
-- What the loops of `adjust` of internal/core/service/analytics_projection.go add to each bucket.
use billpiggy.Base.{
  equals_iff, ℕ, ◌+◌, ◌%◌, ◌<◌, ◌≡◌, refl, ap, ◌∙◌, Bool, true, false, String, List, [], ◌∷◌,
  Option, none, some, Comparable, ◌==◌, string_eq, if◌then◌else◌, arith,
}
use billpiggy.Base.Int.{ℤ, pos, word, to_word, add64, to_word-add64, to_word_bound}
use billpiggy.Base.Assoc.{lookup, insert, lookup-insert}
use billpiggy.Projections.{ExpenseContribution, AnalyticsPeriod}
use billpiggy.Rollups.{
  RollupDelta, RollupKey, ExpenseRollup, AnalyticsRepository, key_eq, key_of, add_rollup_delta,
  rollup_or, empty_rollup,
}
use billpiggy.Analytics.{delta_of, adjust_tags, adjust_periods}

-- The bit pattern of the amount of a bucket.
abbrev pub word_of : Option ExpenseRollup → ℕ
word_of none = 0
word_of (some value) = to_word value.amount_minor

abbrev pub amount_at : RollupKey → AnalyticsRepository → ℕ
amount_at k r = word_of (lookup k r.rollups)

-- What a delta adds to a bucket.
abbrev pub hit : RollupKey → RollupDelta → ℕ
hit k delta = if key_of delta == k then to_word delta.amount_minor else 0

pub word_of_bound : (o : Option ExpenseRollup) → word_of o < word
word_of_bound none = omega arith
word_of_bound (some value) = to_word_bound value.amount_minor

word_of-rollup_or :
    (empty : ExpenseRollup) (o : Option ExpenseRollup)
    → empty.amount_minor ≡ pos 0
    → to_word (rollup_or empty o).amount_minor ≡ word_of o
unfolding to_word
word_of-rollup_or empty none e = rw e refl
word_of-rollup_or empty (some value) e = refl

-- Adding to the bucket `j` of a table, over any keys.
module _ {ℓ} {K : Type ℓ} ⦃comparable : Comparable K⦄ (j k : K) (m : List (K × ExpenseRollup))
    (empty : ExpenseRollup) (amount count : ℤ) where
  abbrev grown : ExpenseRollup → ExpenseRollup
  grown value = record value {
    amount_minor = add64 value.amount_minor amount;
    expense_count = add64 value.expense_count count;
  }

  chosen :
      (b : Bool) (value : ExpenseRollup) (o : Option ExpenseRollup)
      → (b ≡ true → to_word value.amount_minor ≡ word_of o)
      → word_of (if b then some (grown value) else o)
        ≡ (word_of o + (if b then to_word amount else 0)) % word
  chosen true value o h = rw (to_word-add64 value.amount_minor amount, h refl) refl
  chosen false value o h = omega (arith, word_of_bound o)

  amount-insert :
      empty.amount_minor ≡ pos 0
      → word_of (lookup k (insert j (grown (rollup_or empty (lookup j m))) m))
        ≡ (word_of (lookup k m) + (if j == k then to_word amount else 0)) % word
  amount-insert zero_amount =
      let same : j == k ≡ true
          → to_word (rollup_or empty (lookup j m)).amount_minor ≡ word_of (lookup k m) =
        λ h.
          word_of-rollup_or empty (lookup j m) zero_amount
          ∙ ap (λ i. word_of (lookup i m)) ((equals_iff j k).0 h) in
      rw (lookup-insert j k (grown (rollup_or empty (lookup j m))) m)
        (chosen (j == k) (rollup_or empty (lookup j m)) (lookup k m) same)

amount-delta :
    (k : RollupKey) (delta : RollupDelta) (r : AnalyticsRepository)
    → amount_at k (add_rollup_delta delta r) ≡ (amount_at k r + hit k delta) % word
unfolding add_rollup_delta
amount-delta k delta r =
    amount-insert (key_of delta) k r.rollups (empty_rollup delta) delta.amount_minor
      delta.expense_count refl

-- What the loops of `adjust` add to a bucket.
abbrev pub tag_hits : RollupKey → RollupDelta → List String → ℕ
tag_hits k delta [] = 0
tag_hits k delta (tag ∷ tags) =
    hit k (record delta { category_id = ""; tag_id = tag }) + tag_hits k delta tags

abbrev pub period_hits : RollupKey → ExpenseContribution → ℤ → List AnalyticsPeriod → ℕ
period_hits k c direction [] = 0
period_hits k c direction (period ∷ periods) =
    let delta = delta_of c direction period in
    hit k delta + tag_hits k delta c.tag_ids + period_hits k c direction periods

amount-tags :
    (k : RollupKey) (delta : RollupDelta) (tags : List String) (r : AnalyticsRepository)
    → amount_at k (adjust_tags delta tags r) % word ≡ (amount_at k r + tag_hits k delta tags) % word
unfolding adjust_tags
amount-tags k delta [] r = omega arith
amount-tags k delta (tag ∷ tags) r =
    let tagged = record delta { category_id = ""; tag_id = tag } in
    omega (arith, amount-tags k delta tags (add_rollup_delta tagged r), amount-delta k tagged r)

pub amount-periods :
    (k : RollupKey) (c : ExpenseContribution) (direction : ℤ) (periods : List AnalyticsPeriod)
    (r : AnalyticsRepository)
    → amount_at k (adjust_periods c direction periods r) % word
      ≡ (amount_at k r + period_hits k c direction periods) % word
unfolding adjust_periods
amount-periods k c direction [] r = omega arith
amount-periods k c direction (period ∷ periods) r =
    let delta = delta_of c direction period in
    let once = add_rollup_delta delta r in
    omega (
      arith,
      amount-periods k c direction periods (adjust_tags delta c.tag_ids once),
      amount-tags k delta c.tag_ids once,
      amount-delta k delta r,
    )

tags_keep :
    (delta : RollupDelta) (tags : List String) (r : AnalyticsRepository)
    → (adjust_tags delta tags r).contributions ≡ r.contributions
unfolding adjust_tags add_rollup_delta
tags_keep delta [] r = refl
tags_keep delta (tag ∷ tags) r =
    tags_keep delta tags (add_rollup_delta (record delta { category_id = ""; tag_id = tag }) r)

-- Adjusting buckets leaves the applied contributions alone.
pub periods_keep :
    (c : ExpenseContribution) (direction : ℤ) (periods : List AnalyticsPeriod)
    (r : AnalyticsRepository)
    → (adjust_periods c direction periods r).contributions ≡ r.contributions
unfolding adjust_periods add_rollup_delta
periods_keep c direction [] r = refl
periods_keep c direction (period ∷ periods) r =
    let delta = delta_of c direction period in
    let once = add_rollup_delta delta r in
    periods_keep c direction periods (adjust_tags delta c.tag_ids once)
    ∙ tags_keep delta c.tag_ids once
