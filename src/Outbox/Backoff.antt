-- ===== src/Outbox/Backoff.antt =====
-- The closed form of the exponential backoff of pkg/outbox/outbox.go.
use native.Mathlib.Nat.{pow-suc}
use billpiggy.Base.{
  ℕ, zero, suc, ◌+◌, ◌*◌, ◌^◌, ◌≤◌, ◌<◌, ◌≡◌, min, arith, ltb, Bool-cases, inl, inr,
}
use billpiggy.Base.Int.{pos, add64, wrap64_id, ◌+ℤ◌, int_laws}
use billpiggy.Outbox.{Policy, double_delay, cap_delay, retry_delay}

-- 2 ^ 62 nanoseconds, about 146 years: below it a delay can double without wrapping.
abbrev pub safe_delay : ℕ
safe_delay = 4611686018427387904

add64_double : (b : ℕ) → b < safe_delay → add64 (pos b) (pos b) ≡ pos (b + b)
unfolding add64
add64_double b h =
    let e : pos b +ℤ pos b ≡ pos (b + b) = omega int_laws in
    rw e (wrap64_id (pos (b + b)) (omega arith))

pow_pos : (n : ℕ) → 0 < 2 ^ n
pow_pos zero = omega arith
pow_pos (suc n) = omega (arith, pow_pos n, pow-suc 2 n)

pub grown : (b n : ℕ) → b ≤ b * 2 ^ n
grown b n = grind (arith, pow_pos n)

doubled : (b n : ℕ) → (b + b) * 2 ^ n ≡ b * 2 ^ suc n
doubled b n = grind (arith, pow-suc 2 n)

cap-double_delay :
    (n m b : ℕ)
    → m ≤ safe_delay
    → cap_delay (pos m) (double_delay n (pos m) (pos b)) ≡ pos (min m (b * 2 ^ n))
unfolding double_delay
cap-double_delay zero m b h = ground (arith, grown b 0)
cap-double_delay (suc n) m b h = elim (Bool-cases (ltb b m)) [
  | inl small ↦ ground (arith, add64_double b, cap-double_delay n m (b + b) h, doubled b n)
  | inr large ↦ ground (arith, grown b (suc n))
]

-- After `n + 1` failures the delay is the base doubled `n` times, capped at the maximum, and never
-- wraps: for a base and a maximum above zero, the maximum at most 2 ^ 62 nanoseconds.
pub retry_delay_closed_form :
    (p : Policy) (n b m : ℕ)
    → p.base_backoff ≡ pos b
    → p.max_backoff ≡ pos m
    → 0 < b
    → 0 < m
    → m ≤ safe_delay
    → retry_delay p (suc n) ≡ pos (min m (b * 2 ^ n))
unfolding retry_delay
retry_delay_closed_form p n b m eb em hb hm h =
    rw (eb, em) (ground (arith, cap-double_delay n m b h))
