-- ===== src/Outbox/Draining.antt =====
-- What a drain loop of pkg/outbox/engine.go counts, and that it stops.
use billpiggy.Base.{
  ℕ, zero, suc, ◌+◌, ◌%◌, ◌≤◌, ◌≡◌, List, [], ◌∷◌, length, arith, if◌then◌else◌, inl, inr,
  Option-cases,
}
use billpiggy.Base.Int.{ℤ, word}
use billpiggy.Clock.{Time}
use billpiggy.Outbox.{Result, idle, processed, retried, dead_lettered}
use billpiggy.Outbox.Engine.{
  Store, Engine, Polled, store_error, polled, record_polled, record_result, record_failure,
  engine_step, drain, run_round, max_drain_of, ends_drain, refresh_lag,
}

-- What a poll gives, before the messages that follow it, none where it finds nothing or fails.
abbrev pub with_polled : Polled → List Result → List Result
with_polled (store_error message) rest = []
with_polled (polled idle) rest = []
with_polled (polled (processed m)) rest = processed m ∷ rest
with_polled (polled (retried m message)) rest = retried m message ∷ rest
with_polled (polled (dead_lettered m message)) rest = dead_lettered m message ∷ rest

-- The messages among what the next polls of the store give, until one finds nothing or fails.
unfoldable pub messages_taken {ℓ} : {S : Type ℓ} → Store S → ℕ → S → List Result
messages_taken store zero s = []
messages_taken store (suc left) s =
    with_polled (store.process_next s).0 (messages_taken store left (store.process_next s).1)

unfoldable pub processed_in : List Result → ℕ
processed_in [] = 0
processed_in (processed m ∷ rs) = suc (processed_in rs)
processed_in (_ ∷ rs) = processed_in rs

unfoldable pub retried_in : List Result → ℕ
retried_in [] = 0
retried_in (retried m message ∷ rs) = suc (retried_in rs)
retried_in (_ ∷ rs) = retried_in rs

unfoldable pub dead_lettered_in : List Result → ℕ
dead_lettered_in [] = 0
dead_lettered_in (dead_lettered m message ∷ rs) = suc (dead_lettered_in rs)
dead_lettered_in (_ ∷ rs) = dead_lettered_in rs

-- The counters of `e'` are those of `e` and the results of the messages, up to the wrap-around of
-- uint64.
abbrev pub Counted : Engine → Engine → List Result → Type 0
Counted e e' rs =
    (e'.processed_count % word ≡ (e.processed_count + processed_in rs) % word)
    × (e'.retried_count % word ≡ (e.retried_count + retried_in rs) % word)
    × (e'.dead_lettered_count % word ≡ (e.dead_lettered_count + dead_lettered_in rs) % word)

Counted-polled {ℓ} :
    {S : Type ℓ} (p : Polled) (now : Time) (e : Engine) (k : ℕ) (s : S) (more : ℕ × Engine × S)
    (rs : List Result)
    → Counted (record_polled now p e) more.1 rs
    → Counted e (if ends_drain p then (k, record_polled now p e, s) else more).1 (with_polled p rs)
unfolding record_polled record_result record_failure processed_in retried_in dead_lettered_in
Counted-polled (store_error message) now e k s more rs h = (omega arith, omega arith, omega arith)
Counted-polled (polled idle) now e k s more rs h = (omega arith, omega arith, omega arith)
Counted-polled (polled (processed m)) now e k s more rs h =
    (omega (arith, h.0), omega (arith, h.1), omega (arith, h.2))
Counted-polled (polled (retried m message)) now e k s more rs h =
    (omega (arith, h.0), omega (arith, h.1), omega (arith, h.2))
Counted-polled (polled (dead_lettered m message)) now e k s more rs h =
    (omega (arith, h.0), omega (arith, h.1), omega (arith, h.2))

length-with_polled :
    (p : Polled) (left : ℕ) (rs : List Result)
    → length rs ≤ left
    → length (with_polled p rs) ≤ suc left
length-with_polled (store_error message) left rs h = omega arith
length-with_polled (polled idle) left rs h = omega arith
length-with_polled (polled (processed m)) left rs h = omega arith
length-with_polled (polled (retried m message)) left rs h = omega arith
length-with_polled (polled (dead_lettered m message)) left rs h = omega arith

module _ {ℓ} {S : Type ℓ} (store : Store S) where
  drain-Counted :
      (left k : ℕ) (e : Engine) (s : S)
      → Counted e (drain store left k (e, s)).1 (messages_taken store left s)
  unfolding drain engine_step messages_taken processed_in retried_in dead_lettered_in
  drain-Counted zero k e s = (omega arith, omega arith, omega arith)
  drain-Counted (suc left) k e s =
      let (p, s') = store.process_next s in
      let e' = record_polled (store.clock s') p e in
      Counted-polled p (store.clock s') e k s' (drain store left (k + 1) (e', s'))
        (messages_taken store left s') (drain-Counted left (k + 1) e' s')

  length-messages_taken : (left : ℕ) (s : S) → length (messages_taken store left s) ≤ left
  unfolding messages_taken
  length-messages_taken zero s = omega arith
  length-messages_taken (suc left) s =
      length-with_polled (store.process_next s).0 left _
        (length-messages_taken left (store.process_next s).1)

  refresh_lag-Counted :
      (e e' : Engine) (s : S) (rs : List Result)
      → Counted e e' rs
      → Counted e (refresh_lag store (e', s)).0 rs
  unfolding refresh_lag
  refresh_lag-Counted e e' s rs h = elim (Option-cases (store.lag s)) [
    | inl n ↦ rw (n, refresh_lag) h
    | inr (k, n) ↦ rw (n, refresh_lag) h
  ]

  -- One round of Run takes MaxDrain messages at most (100 for a MaxDrain of 0 or less), and each of
  -- the counters of processed, retried and dead-lettered messages grows by the number of messages
  -- that the store's polls gave with that result, up to the wrap-around of uint64.
  pub run_round-total :
      (max_drain : ℤ) (e : Engine) (s : S)
      → (length (messages_taken store (max_drain_of max_drain) s) ≤ max_drain_of max_drain)
        × Counted e
            (run_round store max_drain (e, s)).0
            (messages_taken store (max_drain_of max_drain) s)
  unfolding run_round
  run_round-total max_drain e s = (
    length-messages_taken (max_drain_of max_drain) s,
    refresh_lag-Counted e _ _ _ (drain-Counted (max_drain_of max_drain) 0 e s),
  )
