-- ===== src/Calendar/Months.antt =====
-- Every day lies in its month, and months follow one another.
use billpiggy.Base.{
  ℕ, zero, suc, ◌+◌, ◌-◌, ◌*◌, ◌/◌, ◌%◌, ◌≤◌, ◌<◌, ◌≡◌, refl, ap, ◌∙◌, Bool, true, false, arith,
  inl, inr, ◌⊎◌,
}
use native.Mathlib.Nat.{add_assoc}
use native.Mathlib.Decide.{dec_lt}
use billpiggy.Calendar.{
  leap_after, year_start, year_index, one_if, days_before_month, month_start, month_of_year_day,
  month_index,
}
use billpiggy.Calendar.Years.{year_start-suc, year_bracket}

month_of_year_day_bracket :
    (leap : Bool) (d : ℕ)
    → d < 365 + one_if leap
    → (month_of_year_day leap d < 12)
      × (days_before_month leap (month_of_year_day leap d) ≤ d)
      × (d < days_before_month leap (month_of_year_day leap d + 1))
unfolding month_of_year_day days_before_month
month_of_year_day_bracket true d h = ground arith
month_of_year_day_bracket false d h = ground arith

days_before_month-suc :
    (leap : Bool) (m : ℕ)
    → m < 12
    → (days_before_month leap m + 28 ≤ days_before_month leap (m + 1))
      × (days_before_month leap (m + 1) ≤ days_before_month leap m + 31)
unfolding days_before_month
days_before_month-suc true m h = ground arith
days_before_month-suc false m h = ground arith

year_days : (leap : Bool) → days_before_month leap 12 ≡ 365 + one_if leap
unfolding days_before_month
year_days true = refl
year_days false = refl

no_days : (leap : Bool) → days_before_month leap 0 ≡ 0
unfolding days_before_month
no_days leap = refl

month_start_inside :
    (y m : ℕ)
    → m < 12
    → month_start (12 * y + m) ≡ year_start y + days_before_month (leap_after y) m
unfolding month_start
month_start_inside y m h =
    let q : (12 * y + m) / 12 ≡ y = omega arith in
    let r : (12 * y + m) % 12 ≡ m = omega arith in rw (q, r) refl

-- The months of a year by its number, the first month of the next year included.
pub month_start_at :
    (y m : ℕ)
    → m ≤ 12
    → month_start (12 * y + m) ≡ year_start y + days_before_month (leap_after y) m
month_start_at y m h = elim (dec_lt m 12) [
  | yes small ↦ month_start_inside y m small
  | no large ↦
      let last : m ≡ 12 = omega arith in
      let next : 12 * y + 12 ≡ 12 * (y + 1) + 0 = omega arith in
      rw (last, next, month_start_inside (y + 1) 0 (omega arith), no_days (leap_after (y + 1)))
        (omega (arith, year_start-suc y, year_days (leap_after y)))
]

index_parts : (i : ℕ) → i ≡ 12 * (i / 12) + i % 12
index_parts i = omega arith

-- A month has 28 to 31 days.
pub month_start-suc :
    (i : ℕ)
    → (month_start i + 28 ≤ month_start (i + 1)) × (month_start (i + 1) ≤ month_start i + 31)
month_start-suc i =
    let y : ℕ = i / 12 in
    let m : ℕ = i % 12 in
    let here = month_start_at y m (omega arith) in
    let next = month_start_at y (m + 1) (omega arith) in
    let i≡ : i ≡ 12 * y + m = omega arith in
    let i+1≡ : i + 1 ≡ 12 * y + (m + 1) = omega arith in
    let step = days_before_month-suc (leap_after y) m (omega arith) in
    let here' : month_start i ≡ year_start y + days_before_month (leap_after y) m =
      ap month_start i≡ ∙ here in
    let next' : month_start (i + 1) ≡ year_start y + days_before_month (leap_after y) (m + 1) =
      ap month_start i+1≡ ∙ next in
    (omega arith, omega arith)

pub month_start_mono : (i k : ℕ) → month_start i + 28 * k ≤ month_start (i + k)
month_start_mono i zero = let q : i + 0 ≡ i = omega arith in omega (arith, ap month_start q)
month_start_mono i (suc k) =
    let q : i + suc k ≡ i + k + 1 = omega arith in
    omega (arith, ap month_start q, month_start-suc (i + k), month_start_mono i k)

pub month_start_le : (i j : ℕ) → i ≤ j → month_start i ≤ month_start j
month_start_le i j h =
    let q : i + (j - i) ≡ j = omega arith in
    omega (arith, month_start_mono i (j - i), ap month_start q)

lt_or_ge : (a b : ℕ) → (a < b) ⊎ (b ≤ a)
lt_or_ge a b = ground arith

-- The month of a day is the one that the day lies in.
pub month_bracket :
    (d : ℕ) → (month_start (month_index d) ≤ d) × (d < month_start (month_index d + 1))
unfolding month_index
month_bracket d =
    let y : ℕ = year_index d in
    let leap : Bool = leap_after y in
    let (from, below) = year_bracket d in
    let m : ℕ = month_of_year_day leap (d - year_start y) in
    let (small, low, high) =
      month_of_year_day_bracket leap (d - year_start y) (omega (arith, year_start-suc y)) in
    let here = month_start_at y m (omega arith) in
    let next : month_start (12 * y + m + 1) ≡ year_start y + days_before_month leap (m + 1) =
      ap month_start (add_assoc (12 * y) m 1) ∙ month_start_at y (m + 1) (omega arith) in
    (omega arith, omega arith)

-- A day lies in one month only.
pub month_index_unique : (d i : ℕ) → month_start i ≤ d → d < month_start (i + 1) → month_index d ≡ i
month_index_unique d i low high =
    let (from, below) = month_bracket d in
    elim (lt_or_ge (month_index d) i) [
      | inl less ↦ absurd (omega (arith, month_start_le (month_index d + 1) i (omega arith)))
      | inr more ↦ elim (lt_or_ge i (month_index d)) [
        | inl less ↦ absurd (omega (arith, month_start_le (i + 1) (month_index d) (omega arith)))
        | inr same ↦ omega arith
      ]
    ]
