-- ===== src/EventStore/Progress.antt =====
-- Lag counts only what processing can drain (internal/adapter/outbound/memory/event_store.go).
use billpiggy.Base.{
  ℕ, zero, suc, ◌+◌, ◌<◌, ◌≡◌, refl, ◌∙◌, ◌≢◌, ◌⊎◌, inl, inr, Bool, true, false, String, List, [],
  ◌∷◌, none, some, arith, get_elem?, string_eq, string_beq_iff,
}
use native.Mathlib.Nat.{add-zero}
use billpiggy.Base.Int.{pos}
use billpiggy.Clock.{Time, minute}
use billpiggy.Outbox.{Policy, or_default}
use billpiggy.EventStore.{Delivery, EventStore, pending, dead}
use billpiggy.EventStore.Queue.{blocked, blocks, claim}
use billpiggy.EventStore.Admin.{dead_blocked, dead_blocks, count_at, lag}
use billpiggy.EventStore.Scan.{any_at-false, any_at-true}
use billpiggy.EventStore.Order.{SameStream, SameStream-same_stream, same_stream-SameStream, IsReady}
use billpiggy.EventStore.Claims.{claim-none-blocked}

-- An earlier dead letter of the stream blocks for good.
dead_letter_blocks :
    (ds : List Delivery) (i j : ℕ) (d e : Delivery)
    → get_elem? ds i ≡ some d
    → get_elem? ds j ≡ some e
    → SameStream e d
    → e.event.global_seq < d.event.global_seq
    → e.status ≡ dead
    → dead_blocked ds i d ≡ true
unfolding dead_blocked
dead_letter_blocks ds i j d e at_i at_j same lt is =
    ground (arith, any_at-false (dead_blocks i d) 0 ds j j e, SameStream-same_stream e d same)

-- What blocks a delivery is an earlier one of its stream, pending or dead.
blocker :
    (ds : List Delivery) (i : ℕ) (d : Delivery)
    → blocked ds i d ≡ true
    → (j : ℕ) × (e : Delivery) × (get_elem? ds j ≡ some e)
      × SameStream e d
      × (e.event.global_seq < d.event.global_seq)
      × ((e.status ≡ pending) ⊎ (e.status ≡ dead))
unfolding blocked
blocker ds i d h =
    let (j, e, at_j, t) = any_at-true (blocks i d) 0 ds h in
    let same : SameStream e d = same_stream-SameStream e d (ground arith) in
    (j, e, at_j, same, ground arith, ground arith)

dead_blocker :
    (ds : List Delivery) (i : ℕ) (d : Delivery)
    → dead_blocked ds i d ≡ true
    → (j : ℕ) × (e : Delivery) × (get_elem? ds j ≡ some e)
      × SameStream e d
      × (e.event.global_seq < d.event.global_seq)
      × (e.status ≡ dead)
unfolding dead_blocked
dead_blocker ds i d h =
    let (j, e, at_j, t) = any_at-true (dead_blocks i d) 0 ds h in
    let same : SameStream e d = same_stream-SameStream e d (ground arith) in
    (j, e, at_j, same, ground arith, ground arith)

SameStream-trans : (x e d : Delivery) → SameStream x e → SameStream e d → SameStream x d
SameStream-trans x e d s t = (s.0 ∙ t.0, s.1 ∙ t.1, s.2 ∙ t.2)

count_at_zero :
    (p : ℕ → Delivery → Bool) (k : ℕ) (ds : List Delivery)
    → ((j : ℕ) (d : Delivery) → get_elem? ds j ≡ some d → p (k + j) d ≡ false)
    → count_at p k ds ≡ 0
unfolding count_at
count_at_zero p k [] h = refl
count_at_zero p k (d ∷ ds) h =
    let here : p k d ≡ false = rw (← add-zero k) (h 0 d refl) in
    let rest =
      count_at_zero p (suc k) ds
        (λ j x e. let q : suc k + j ≡ k + suc j = omega arith in rw q (h (suc j) x e)) in
    ground arith

module _ (subscription : String) (types : List String) (policy : Policy) (lease : ℕ) (now : Time)
    (s : EventStore) (effective : or_default policy.lease_ttl (pos minute) ≡ pos lease)
    (ready : (j : ℕ) (d : Delivery)
      → get_elem? s.deliveries j ≡ some d
      → d.subscription ≡ subscription
      → d.status ≡ pending
      → IsReady subscription types lease now d) where
  stuck_behind_dead :
      claim subscription types policy now s ≡ none
      → (n i : ℕ) (d : Delivery) → d.event.global_seq < n
      → get_elem? s.deliveries i ≡ some d
      → d.subscription ≡ subscription
      → d.status ≡ pending
      → dead_blocked s.deliveries i d ≡ true
  stuck_behind_dead nothing zero i d lt at_i sub is = absurd (omega arith)
  stuck_behind_dead nothing (suc n) i d lt at_i sub is =
      let stuck =
        claim-none-blocked subscription types policy now s lease i d nothing effective at_i
          (ready i d at_i sub is) in
      let (j, e, at_j, same, before, why) = blocker s.deliveries i d stuck in
      elim why [
        | inl waits ↦
            let (k, x, at_k, same', before', is_dead') =
              dead_blocker s.deliveries j e
                (stuck_behind_dead nothing n j e (omega arith) at_j (same.0 ∙ sub) waits) in
            dead_letter_blocks s.deliveries i k d x at_i at_k (SameStream-trans x e d same' same)
              (omega arith) is_dead'
        | inr is_dead' ↦ dead_letter_blocks s.deliveries i j d e at_i at_j same before is_dead'
      ]

  lag_none : claim subscription types policy now s ≡ none → lag subscription s ≡ 0
  unfolding lag
  lag_none nothing = count_at_zero _ 0 s.deliveries (λ j d at_j.
      let q : 0 + j ≡ j = omega arith in
      rw q (
        ground (
          arith,
          string_beq_iff d.subscription subscription,
          stuck_behind_dead nothing (suc d.event.global_seq) j d (omega arith) at_j,
        )))

  -- Where every pending delivery of the subscription may be handed out now (none is put off or
  -- locked, and all are of a wanted type), a lag above 0 means that the next claim succeeds.
  pub lag_progress : lag subscription s ≢ 0 → claim subscription types policy now s ≢ none
  lag_progress some_lag nothing = some_lag (lag_none nothing)
