-- ===== src/Calendar/Years.antt =====
-- Every day lies in its year.
use billpiggy.Base.{ℕ, ◌+◌, ◌-◌, ◌*◌, ◌/◌, ◌%◌, ◌≤◌, ◌<◌, ◌≡◌, arith, min, ◌⊎◌}
use native.Mathlib.Decide.{dec_lt}
use billpiggy.Calendar.{leap_after, year_start, year_index, century_of, one_if}

-- A year has 365 days, and one more if it is a leap year.
pub year_start-suc : (y : ℕ) → year_start (y + 1) ≡ year_start y + 365 + one_if (leap_after y)
unfolding year_start leap_after
year_start-suc y = ground arith

pub year_start_split :
    (a c e f : ℕ)
    → c ≤ 3
    → e ≤ 24
    → f ≤ 3
    → year_start (400 * a + 100 * c + 4 * e + f) ≡ 146097 * a + 36524 * c + 1461 * e + 365 * f
unfolding year_start
year_start_split a c e f hc he hf = omega arith

year_end :
    (a c e f x : ℕ)
    → c ≤ 3
    → e ≤ 24
    → f ≤ 3
    → x < 365 * f + 365
    → 146097 * a + 36524 * c + 1461 * e + x < year_start (400 * a + 100 * c + 4 * e + f + 1)
unfolding year_start
year_end a c e f x hc he hf hx = omega arith

-- The last day of a leap year.
leap_year_end :
    (a c e f : ℕ)
    → c ≤ 3
    → e ≤ 24
    → f ≡ 3
    → (e < 24) ⊎ (c ≡ 3)
    → 146097 * a + 36524 * c + 1461 * e + 1460 < year_start (400 * a + 100 * c + 4 * e + f + 1)
unfolding year_start
leap_year_end a c e f hc he hf last = omega arith

pub century_bounds :
    (d : ℕ)
    → (century_of d ≤ 3)
      × (36524 * century_of d ≤ d % 146097)
      × ((d % 146097 < 36524 * century_of d + 36524)
          ⊎ ((century_of d ≡ 3) × (d % 146097 ≡ 36524 * century_of d + 36524)))
unfolding century_of
century_bounds d = omega arith

pub year_bracket : (d : ℕ) → (year_start (year_index d) ≤ d) × (d < year_start (year_index d + 1))
unfolding year_index
year_bracket d =
    let a : ℕ = d / 146097 in
    let c : ℕ = century_of d in
    let r : ℕ = d % 146097 - 36524 * c in
    let e : ℕ = r / 1461 in
    let x : ℕ = r % 1461 in
    let f : ℕ = min 3 (x / 365) in
    let (hc, low, high) = century_bounds d in
    let start = year_start_split a c e f hc (omega arith) (omega arith) in
    let he : e ≤ 24 = omega arith in
    (
      omega (arith, start),
      elim (dec_lt x 1460) [
        | yes inside ↦ omega (arith, year_end a c e f x hc he (omega arith) (omega arith))
        | no last ↦
            let full : x ≡ 1460 = omega arith in
            let whole : (e < 24) ⊎ (c ≡ 3) = ground arith in
            omega (arith, leap_year_end a c e f hc he (omega arith) whole)
      ],
    )
