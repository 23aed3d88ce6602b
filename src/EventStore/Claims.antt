-- ===== src/EventStore/Claims.antt =====
-- What `claim` hands out (internal/adapter/outbound/memory/event_store.go): in order within each
-- aggregate, oldest first, and nothing only where nothing can be delivered.
use billpiggy.Base.{
  ℕ, ◌<◌, ◌≡◌, refl, inl, inr, true, String, List, Option, none, some, get_elem?, Option-cases,
  string_eq, nat_eq,
}
use billpiggy.Base.Int.{pos}
use billpiggy.Clock.{Time, minute}
use billpiggy.Outbox.{Policy, or_default}
use billpiggy.EventStore.{EventStore, Delivery, done}
use billpiggy.EventStore.Queue.{
  blocked, next_delivery, claim, message_of, lock_delivery, Claimed, claimed_at, update_at,
}
use billpiggy.EventStore.Order.{
  next_sound, next_none, SameStream, unblocked_past, IsReady, IsReady-deliverable,
}

module _ (subscription : String) (types : List String) (policy : Policy) (now : Time)
    (s : EventStore) where
  -- What `claim` hands out was the next delivery of the queue, and only its lock and count change.
  pub claim_inversion :
      (c : Claimed)
      → claim subscription types policy now s ≡ some c
      → (d : Delivery) × (next_delivery subscription types
            (or_default policy.lease_ttl (pos minute))
            now
            s.deliveries
          ≡ some (c.position, d))
        × (c.message ≡ message_of (lock_delivery now d))
        × (c.store
            ≡ record s { deliveries = update_at c.position (lock_delivery now) s.deliveries })
  unfolding claim
  claim_inversion c h =
      elim (Option-cases (
        next_delivery subscription types (or_default policy.lease_ttl (pos minute)) now
          s.deliveries)) [
            | inl e ↦ let k : ◌≡◌ {A = Option Claimed} none (some c) = rw e at h in cc
            | inr (p, e) ↦
                let k : some (claimed_at now s p) ≡ some c = rw e at h in
                let q : claimed_at now s p ≡ c = cc in rw (← q) (p.1, e, refl, refl)
          ]

  module _ (c : Claimed) (d : Delivery) (claimed : claim subscription types policy now s ≡ some c)
      (at_c : get_elem? s.deliveries c.position ≡ some d) where
    claimed_next :
        next_delivery subscription types (or_default policy.lease_ttl (pos minute)) now s.deliveries
        ≡ some (c.position, d)
    claimed_next =
        let (x, e, _, _) = claim_inversion c claimed in
        let (at_x, _, _) = next_sound subscription types _ now s.deliveries c.position x e in
        let same : x ≡ d = cc in rw (← same) e

    -- Where a claim hands out the delivery `d`, each delivery of an earlier event of the same
    -- aggregate to the same subscription has been processed.
    pub claim_in_order :
        (j : ℕ) (e : Delivery)
        → get_elem? s.deliveries j ≡ some e
        → SameStream e d
        → e.event.global_seq < d.event.global_seq
        → e.status ≡ done
    claim_in_order j e at_j same lt =
        let (at_i, _, free) =
          next_sound subscription types _ now s.deliveries c.position d claimed_next in
        unblocked_past s.deliveries c.position j d e free at_c at_j same lt

  -- Where a claim hands out nothing, each delivery of the subscription that is ready is blocked by
  -- an earlier one of its aggregate.
  pub claim-none-blocked :
      (lease j : ℕ) (e : Delivery)
      → claim subscription types policy now s ≡ none
      → or_default policy.lease_ttl (pos minute) ≡ pos lease
      → get_elem? s.deliveries j ≡ some e
      → IsReady subscription types lease now e
      → blocked s.deliveries j e ≡ true
  unfolding claim
  claim-none-blocked lease j e none_claimed ttl at_j ready =
      elim (Option-cases (
        next_delivery subscription types (or_default policy.lease_ttl (pos minute)) now
          s.deliveries)) [
            | inl n ↦
                next_none subscription types _ now s.deliveries j e (rw ttl at n) at_j
                  (IsReady-deliverable subscription types lease now e ready)
            | inr (p, n) ↦
                let k : ◌≡◌ {A = Option Claimed} (some (claimed_at now s p)) none =
                  rw n at none_claimed in
                cc
          ]
