-- ===== src/Analytics/Shares.antt =====
-- The buckets that an expense counts in, described apart from the code, and the deltas of `adjust` in
-- internal/core/service/analytics_projection.go against them.
use billpiggy.Base.{
  ℕ, ◌+◌, ◌%◌, ◌≡◌, refl, Bool, true, false, not, String, List, [], ◌∷◌, ◌==◌, string_eq,
  string_beq_iff, if◌then◌else◌, arith,
}
use billpiggy.Base.Int.{
  ℤ, pos, negsuc, word, to_word, mul64, to_word-mul64_one, to_word-mul64_minus,
}
use billpiggy.Clock.{unix_nano}
use billpiggy.Projections.{
  ExpenseContribution, AnalyticsPeriod, rollup_periods, rollup_period_start,
}
use billpiggy.Rollups.{RollupKey, key_eq, key_of}
use billpiggy.Analytics.{delta_of}
use billpiggy.Analytics.Buckets.{hit, tag_hits, period_hits}

-- The buckets that an expense counts in: its category's and each of its tags', for every period. A
-- tag with no name counts in the bucket of no category.
abbrev pub category_bucket : ExpenseContribution → AnalyticsPeriod → RollupKey
category_bucket c period = record {
  owner_id = c.owner_id;
  period_start = unix_nano (rollup_period_start period c.occurred_at);
  period = period;
  dimension_id = c.category_id;
  currency = c.currency;
  tag = false;
}

abbrev pub tag_bucket : ExpenseContribution → AnalyticsPeriod → String → RollupKey
tag_bucket c period name = record (category_bucket c period) {
  dimension_id = name;
  tag = not (name == "");
}

-- The amount as a bit pattern, once for each time the bucket is one of them.
abbrev pub share : RollupKey → RollupKey → ExpenseContribution → ℕ
share k bucket c = if bucket == k then to_word c.amount_minor else 0

abbrev pub tag_shares : RollupKey → ExpenseContribution → AnalyticsPeriod → List String → ℕ
tag_shares k c period [] = 0
tag_shares k c period (name ∷ names) =
    share k (tag_bucket c period name) c + tag_shares k c period names

abbrev pub shares : RollupKey → ExpenseContribution → List AnalyticsPeriod → ℕ
shares k c [] = 0
shares k c (period ∷ periods) =
    share k (category_bucket c period) c + tag_shares k c period c.tag_ids + shares k c periods

abbrev pub contributed : RollupKey → ExpenseContribution → ℕ
contributed k c = if c.active then shares k c rollup_periods else 0

-- The sum over the expenses that are recorded as applied.
abbrev pub total : RollupKey → List (String × ExpenseContribution) → ℕ
total k [] = 0
total k ((id, c) ∷ m) = contributed k c + total k m

dimension_lem : (name : String) → (if not (name == "") then name else "") ≡ name
dimension_lem name = ground (arith, string_beq_iff name "")

tag_key :
    (c : ExpenseContribution) (direction : ℤ) (period : AnalyticsPeriod) (name : String)
    → key_of (record (delta_of c direction period) { category_id = ""; tag_id = name })
      ≡ tag_bucket c period name
unfolding key_of
tag_key c direction period name = rw (dimension_lem name) refl

category_key :
    (c : ExpenseContribution) (direction : ℤ) (period : AnalyticsPeriod)
    → key_of (delta_of c direction period) ≡ category_bucket c period
unfolding key_of
category_key c direction period = refl

-- One delta against one share, whichever bucket it is.
plus_if :
    (b : Bool) (a : ℤ) → (if b then to_word (mul64 a (pos 1)) else 0) ≡ (if b then to_word a else 0)
plus_if b a = rw (to_word-mul64_one a) refl

minus_if :
    (b : Bool) (a : ℤ)
    → ((if b then to_word (mul64 a (negsuc 0)) else 0) + (if b then to_word a else 0)) % word ≡ 0
minus_if true a = to_word-mul64_minus a
minus_if false a = omega arith

module _ (k : RollupKey) (c : ExpenseContribution) where
  hit_plus :
      (period : AnalyticsPeriod)
      → hit k (delta_of c (pos 1) period) ≡ share k (category_bucket c period) c
  hit_plus period =
      rw (category_key c (pos 1) period) (plus_if (category_bucket c period == k) c.amount_minor)

  tags_plus :
      (period : AnalyticsPeriod) (names : List String)
      → tag_hits k (delta_of c (pos 1) period) names ≡ tag_shares k c period names
  tags_plus period [] = refl
  tags_plus period (name ∷ names) =
      rw
        (
          tag_key c (pos 1) period name,
          plus_if (tag_bucket c period name == k) c.amount_minor,
          tags_plus period names,
        )
        refl

  pub periods_plus :
      (periods : List AnalyticsPeriod) → period_hits k c (pos 1) periods ≡ shares k c periods
  periods_plus [] = refl
  periods_plus (period ∷ periods) =
      rw (hit_plus period, tags_plus period c.tag_ids, periods_plus periods) refl

  hit_minus :
      (period : AnalyticsPeriod)
      → (hit k (delta_of c (negsuc 0) period) + share k (category_bucket c period) c) % word ≡ 0
  hit_minus period =
      rw (category_key c (negsuc 0) period)
        (minus_if (category_bucket c period == k) c.amount_minor)

  tags_minus :
      (period : AnalyticsPeriod) (names : List String)
      → (tag_hits k (delta_of c (negsuc 0) period) names + tag_shares k c period names) % word ≡ 0
  tags_minus period [] = omega arith
  tags_minus period (name ∷ names) = rw (tag_key c (negsuc 0) period name) (
      omega
        (arith, minus_if (tag_bucket c period name == k) c.amount_minor, tags_minus period names))

  pub periods_minus :
      (periods : List AnalyticsPeriod)
      → (period_hits k c (negsuc 0) periods + shares k c periods) % word ≡ 0
  periods_minus [] = omega arith
  periods_minus (period ∷ periods) =
      omega (arith, hit_minus period, tags_minus period c.tag_ids, periods_minus periods)
