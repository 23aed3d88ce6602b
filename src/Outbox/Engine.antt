-- ===== src/Outbox/Engine.antt =====
-- pkg/outbox/engine.go: an engine polls a store for one handler. The store is a parameter, as it
-- is in Go (the interface outbox.Store, with the handler already given to it); it also stands for
-- the clock. The logger's lines are left out, and the context is taken as not cancelled.
use billpiggy.Base.{
  ℕ, zero, suc, ◌+◌, ◌%◌, Bool, true, false, not, ◌&&◌, String, Option, none, some, ◌==◌, nat_eq,
  if◌then◌else◌,
}
use billpiggy.Base.Int.{ℤ, pos, word, ltb_ℤ, ◌-ℤ◌, pos_part}
use billpiggy.Clock.{Time, is_zero, zero_time}
use billpiggy.Outbox.{Result, idle, processed, retried, dead_lettered, or_default}

-- What ProcessNext returns: an error of the store itself, or a result.
pub data Polled : Type 0 where
  store_error : String → Polled
  polled : Result → Polled

pub record Store {ℓ} (S : Type ℓ) : Type ℓ where
  pub process_next : S → Polled × S
  pub lag : S → Option ℕ
  pub clock : S → Time

pub record Engine : Type 0 where
  pub processed_count : ℕ
  pub retried_count : ℕ
  pub dead_lettered_count : ℕ
  pub lag : ℕ
  pub last_success_at : Time
  pub last_failure_at : Time
  pub last_error : String

-- The counters of a new engine, and its MaxDrain option, a Go int.
abbrev pub new_engine : Engine
new_engine = record {
  processed_count = 0;
  retried_count = 0;
  dead_lettered_count = 0;
  lag = 0;
  last_success_at = zero_time;
  last_failure_at = zero_time;
  last_error = "";
}

unfoldable pub max_drain_of : ℤ → ℕ
max_drain_of max_drain = pos_part (or_default max_drain (pos 100))

-- atomic.Uint64.Add(1)
abbrev pub count_up : ℕ → ℕ
count_up n = (n + 1) % word

-- recordFailure
unfoldable pub record_failure : Time → String → Engine → Engine
record_failure now message e = record e { last_failure_at = now; last_error = message }

-- record
unfoldable pub record_result : Time → Result → Engine → Engine
unfolding record_failure
record_result now idle e = e
record_result now (processed m) e = record e {
  processed_count = count_up e.processed_count;
  last_success_at = now;
}
record_result now (retried m message) e =
    record_failure now message (record e { retried_count = count_up e.retried_count })
record_result now (dead_lettered m message) e =
    record_failure now message (record e { dead_lettered_count = count_up e.dead_lettered_count })

unfoldable pub record_polled : Time → Polled → Engine → Engine
unfolding record_failure record_result
record_polled now (store_error message) e = record_failure now message e
record_polled now (polled r) e = record_result now r e

-- The poll ends the drain loop: nothing was there, or the store failed.
abbrev pub ends_drain : Polled → Bool
ends_drain (store_error message) = true
ends_drain (polled idle) = true
ends_drain (polled (processed m)) = false
ends_drain (polled (retried m message)) = false
ends_drain (polled (dead_lettered m message)) = false

pub data Readiness : Type 0 where
  ready lag_unreadable stale : Readiness

module _ {ℓ} {S : Type ℓ} (store : Store S) where
  -- Step
  unfoldable pub engine_step : Engine × S → Polled × Engine × S
  unfolding record_polled
  engine_step (e, s) =
      let (p, s') = store.process_next s in (p, record_polled (store.clock s') p e, s')

  -- The inner loop of Run, with `left` of MaxDrain still to go; it also gives the number of
  -- messages drained.
  unfoldable pub drain : ℕ → ℕ → Engine × S → ℕ × Engine × S
  drain zero drained (e, s) = (drained, e, s)
  drain (suc left) drained (e, s) =
      let (p, e', s') = engine_step (e, s) in
      let rest = drain left (drained + 1) (e', s') in
      if ends_drain p then (drained, e', s') else rest

  -- refreshLag
  unfoldable pub refresh_lag : Engine × S → Engine × S
  refresh_lag (e, s) = elim (store.lag s) [ none ↦ (e, s) | some n ↦ (record e { lag = n }, s) ]

  -- One round of Run, up to its sleep.
  unfoldable pub run_round : ℤ → Engine × S → Engine × S
  unfolding refresh_lag
  run_round max_drain (e, s) =
      let (_, e', s') = drain (max_drain_of max_drain) 0 (e, s) in refresh_lag (e', s')

  -- Health
  unfoldable pub health : ℤ → Engine × S → Readiness × Engine
  health staleness (e, s) = elim (store.lag s) [
    | none ↦ (lag_unreadable, e)
    | some n ↦
        let e' : Engine = record e { lag = n } in
        let last = if is_zero e.last_success_at then e.last_failure_at else e.last_success_at in
        if n == 0
        then (ready, e')
        else if not (is_zero last) && ltb_ℤ staleness (pos (store.clock s) -ℤ pos last)
        then (stale, e')
        else (ready, e')
  ]
