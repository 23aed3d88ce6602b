-- ===== src/Notifications/Backoff.antt =====
-- internal/core/service/notifications.go: the delays of notificationRetryDelay in closed form.
use billpiggy.Base.{◌≡◌, ap, inl, inr, ℕ, zero, suc, ◌*◌, ◌^◌, min, ltb, arith, Bool-cases}
use native.Mathlib.Nat.{pow-suc}
use billpiggy.Base.Int.{pos}
use billpiggy.Outbox.Backoff.{grown}
use billpiggy.Notifications.Service.{hour, doubled, capped, less_one, notification_retry_delay}
use billpiggy.Clock.{minute}

twice : (d t : ℕ) → d * 2 * 2 ^ t ≡ d * 2 ^ suc t
twice d t = grind (arith, pow-suc 2 t)

capped-doubled : (t d : ℕ) → capped (doubled t d) ≡ min hour (d * 2 ^ t)
unfolding doubled
capped-doubled zero d = ground (arith, grown d 0)
capped-doubled (suc t) d = elim (Bool-cases (ltb d hour)) [
  | inl small ↦ ground (arith, capped-doubled t (d * 2), twice d t)
  | inr large ↦ ground (arith, grown d (suc t))
]

-- The delay before a retry is one minute, doubled once for each attempt after the first, and one
-- hour at most.
pub retry_delay_doubles :
    (attempts : ℕ)
    → notification_retry_delay attempts ≡ pos (min hour (minute * 2 ^ less_one attempts))
unfolding notification_retry_delay
retry_delay_doubles attempts = ap pos (capped-doubled (less_one attempts) minute)
