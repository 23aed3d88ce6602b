-- ===== src/Rollups.antt =====
-- internal/adapter/outbound/memory/analytics_repository.go, its writes, with RollupDelta and
-- ExpenseRollup of the domain: the rollup buckets and the contribution applied for each expense.
use billpiggy.Base.{
  ℕ, ◌≡◌, refl, sym, Bool, true, false, not, ◌&&◌, ◌↔◌, String, List, [], Option, none, some,
  Comparable, ◌==◌, string_eq, nat_eq, string_beq_iff, if◌then◌else◌, arith,
}
use billpiggy.Base.Int.{ℤ, pos, same_ℤ, same_ℤ_iff, add64}
use billpiggy.Base.Assoc.{lookup, insert}
use billpiggy.Clock.{Time, unix_nano}
use billpiggy.Projections.{
  ExpenseContribution, AnalyticsPeriod, analytics_day, analytics_week, analytics_month,
  analytics_year,
}

pub record RollupDelta : Type 0 where
  pub owner_id : String
  pub category_id : String
  pub tag_id : String
  pub currency : String
  pub period : AnalyticsPeriod
  pub period_start : Time
  pub amount_minor : ℤ
  pub expense_count : ℤ

pub record ExpenseRollup : Type 0 where
  pub owner_id : String
  pub category_id : String
  pub tag_id : String
  pub period_start : Time
  pub period : AnalyticsPeriod
  pub amount_minor : ℤ
  pub expense_count : ℤ
  pub currency : String

-- rollupKey
pub record RollupKey : Type 0 where
  pub owner_id : String
  pub period_start : ℤ
  pub period : AnalyticsPeriod
  pub dimension_id : String
  pub currency : String
  pub tag : Bool

abbrev period_code : AnalyticsPeriod → ℕ
period_code analytics_day = 0
period_code analytics_week = 1
period_code analytics_month = 2
period_code analytics_year = 3

abbrev same_period : AnalyticsPeriod → AnalyticsPeriod → Bool
same_period p q = period_code p == period_code q

abbrev same_flag : Bool → Bool → Bool
same_flag true b = b
same_flag false b = not b

abbrev same_key : RollupKey → RollupKey → Bool
same_key j k =
    j.owner_id == k.owner_id
    && (same_ℤ j.period_start k.period_start
        && (same_period j.period k.period
            && (j.dimension_id == k.dimension_id
                && (j.currency == k.currency && same_flag j.tag k.tag))))

same_period_iff : (p q : AnalyticsPeriod) → (same_period p q ≡ true) ↔ (p ≡ q)
same_period_iff p q = (same_period_sound p q, λ h. rw h (nat_refl (period_code q)))
  where
    nat_refl : (n : ℕ) → (n == n) ≡ true
    nat_refl n = ground arith

    same_period_sound : (p q : AnalyticsPeriod) → same_period p q ≡ true → p ≡ q
    same_period_sound analytics_day analytics_day h = refl
    same_period_sound analytics_week analytics_week h = refl
    same_period_sound analytics_month analytics_month h = refl
    same_period_sound analytics_year analytics_year h = refl
    same_period_sound p q h = ground arith

same_flag_iff : (a b : Bool) → (same_flag a b ≡ true) ↔ (a ≡ b)
same_flag_iff true b = (λ h. sym h, λ h. sym h)
same_flag_iff false true = ground arith
same_flag_iff false false = ground arith

pub same_key_iff : (j k : RollupKey) → (same_key j k ≡ true) ↔ (j ≡ k)
same_key_iff j k = ground (
  arith,
  string_beq_iff j.owner_id k.owner_id,
  same_ℤ_iff j.period_start k.period_start,
  same_period_iff j.period k.period,
  string_beq_iff j.dimension_id k.dimension_id,
  string_beq_iff j.currency k.currency,
  same_flag_iff j.tag k.tag,
)

instance abbrev pub key_eq : Comparable RollupKey
key_eq = record {
  equals = same_key;
  sound = λ j k. (same_key_iff j k).0;
  complete = λ j k. (same_key_iff j k).1;
}

pub record AnalyticsRepository : Type 0 where
  pub rollups : List (RollupKey × ExpenseRollup)
  pub contributions : List (String × ExpenseContribution)

unfoldable pub new_analytics_repository : AnalyticsRepository
new_analytics_repository = record { rollups = []; contributions = [] }

-- LoadContribution and SaveContribution
unfoldable pub load_contribution : String → AnalyticsRepository → Option ExpenseContribution
load_contribution id r = lookup id r.contributions

unfoldable pub save_contribution : ExpenseContribution → AnalyticsRepository → AnalyticsRepository
save_contribution c r = record r { contributions = insert c.expense_id c r.contributions }

abbrev pub is_tag : RollupDelta → Bool
is_tag delta = not (delta.tag_id == "")

abbrev pub dimension : RollupDelta → String
dimension delta = if is_tag delta then delta.tag_id else delta.category_id

unfoldable pub key_of : RollupDelta → RollupKey
key_of delta = record {
  owner_id = delta.owner_id;
  period_start = unix_nano delta.period_start;
  period = delta.period;
  dimension_id = dimension delta;
  currency = delta.currency;
  tag = is_tag delta;
}

abbrev pub empty_rollup : RollupDelta → ExpenseRollup
empty_rollup delta = record {
  owner_id = delta.owner_id;
  category_id = if is_tag delta then "" else dimension delta;
  tag_id = if is_tag delta then dimension delta else "";
  period_start = delta.period_start;
  period = delta.period;
  amount_minor = pos 0;
  expense_count = pos 0;
  currency = delta.currency;
}

abbrev pub rollup_or : ExpenseRollup → Option ExpenseRollup → ExpenseRollup
rollup_or empty none = empty
rollup_or empty (some value) = value

-- AddRollupDelta
unfoldable pub add_rollup_delta : RollupDelta → AnalyticsRepository → AnalyticsRepository
add_rollup_delta delta r =
    let value = rollup_or (empty_rollup delta) (lookup (key_of delta) r.rollups) in
    record r {
      rollups =
          insert (key_of delta)
            (record value {
              amount_minor = add64 value.amount_minor delta.amount_minor;
              expense_count = add64 value.expense_count delta.expense_count;
            })
            r.rollups;
    }
