-- ===== src/EventStore/Attempts.antt =====
-- One ProcessNext, and the budget of attempts (internal/adapter/outbound/memory/event_store.go).
use billpiggy.Base.{
  ℕ, zero, suc, ◌≡◌, refl, ◌∙◌, ◌≢◌, inl, inr, Bool, String, List, [], ◌∷◌, Option, none, some,
  arith, get_elem?, leb, if◌then◌else◌, Option-cases,
}
use billpiggy.Base.Int.{pos}
use billpiggy.Clock.{Time, add_duration}
use billpiggy.Outbox.{Policy, Result, processed, retry_delay}
use billpiggy.EventStore.{Delivery, EventStore, pending, done, dead}
use billpiggy.EventStore.Queue.{
  claim, Claimed, Handler, process_next, settled, outcome, within, update_at, lock_delivery,
}
use billpiggy.EventStore.Order.{next_sound, deliverable_status}
use billpiggy.EventStore.Claims.{claim_inversion}

get_elem?-update_at_ne :
    (i j : ℕ) (f : Delivery → Delivery) (ds : List Delivery)
    → i ≢ j
    → get_elem? (update_at i f ds) j ≡ get_elem? ds j
get_elem?-update_at_ne i j f [] h = refl
get_elem?-update_at_ne zero zero f (d ∷ ds) h = absurd (h refl)
get_elem?-update_at_ne zero (suc j) f (d ∷ ds) h = refl
get_elem?-update_at_ne (suc i) zero f (d ∷ ds) h = refl
get_elem?-update_at_ne (suc i) (suc j) f (d ∷ ds) h = get_elem?-update_at_ne i j f ds (omega arith)

get_elem?-update_at_self :
    (i : ℕ) (f : Delivery → Delivery) (ds : List Delivery) (d : Delivery)
    → get_elem? ds i ≡ some d
    → get_elem? (update_at i f ds) i ≡ some (f d)
get_elem?-update_at_self i f [] d h = cc
get_elem?-update_at_self zero f (x ∷ ds) d h = cc
get_elem?-update_at_self (suc i) f (x ∷ ds) d h = get_elem?-update_at_self i f ds d h

within_failure {ℓ} :
    {W : Type ℓ} (unit : Bool) (w : W) (r : Option String × W) → (within unit w r).0 ≡ r.0
within_failure unit w (none, w') = refl
within_failure unit w (some e, w') = refl

same_place :
    (ds : List Delivery) (i : ℕ) (d e : Delivery)
    → get_elem? ds i ≡ some d
    → get_elem? ds i ≡ some e
    → d.status ≡ pending
    → e.status ≡ pending
same_place ds i d e p q h = let same : d ≡ e = cc in rw (← same) h

module _ {ℓ} {W : Type ℓ} (unit : Bool) (subscription : String) (types : List String)
    (policy : Policy) (now now' : Time) (apply : Handler W) (s : EventStore) (w : W) where
  abbrev next : Result × EventStore × W
  next = process_next unit subscription types policy now now' apply (s, w)

  -- A delivery that is processed or dead is left exactly as it was: no event that a handler has
  -- committed is handed to it again.
  pub process_next_finished :
      (j : ℕ) (e : Delivery)
      → get_elem? s.deliveries j ≡ some e
      → e.status ≢ pending
      → get_elem? next.1.deliveries j ≡ some e
  unfolding process_next
  process_next_finished j e at_j over =
      elim (Option-cases (claim subscription types policy now s)) [
        | inl q ↦ rw q at_j
        | inr (c, q) ↦
            let (d, n, _, same) = claim_inversion subscription types policy now s c q in
            let (at_c, t, _) = next_sound subscription types _ now s.deliveries c.position d n in
            let apart : c.position ≢ j = λ i. over (
              same_place s.deliveries c.position d e at_c (rw (← i) at at_j)
                (deliverable_status subscription types _ now d t).1) in
            rw (q, same)
              (get_elem?-update_at_ne c.position j _ _ apart
                ∙ get_elem?-update_at_ne c.position j _ s.deliveries apart
                ∙ at_j)
      ]

  module _ (c : Claimed) (d : Delivery) (claimed : claim subscription types policy now s ≡ some c)
      (at_c : get_elem? s.deliveries c.position ≡ some d) where
    waits : d.status ≡ pending
    waits =
        let (x, n, _, _) = claim_inversion subscription types policy now s c claimed in
        let (at_x, t, _) = next_sound subscription types _ now s.deliveries c.position x n in
        same_place s.deliveries c.position x d at_x at_c
          (deliverable_status subscription types _ now x t).1

    written :
        get_elem? next.1.deliveries c.position
        ≡ some (settled policy now' (apply c.message w).0 (lock_delivery now d))
    unfolding process_next
    written =
        let (_, _, _, same) = claim_inversion subscription types policy now s c claimed in
        rw (claimed, same, within_failure unit w (apply c.message w))
          (get_elem?-update_at_self c.position _ _ (lock_delivery now d)
            (get_elem?-update_at_self c.position _ s.deliveries d at_c))

    -- A handler that succeeds: the delivery is processed and unlocked, the attempt is counted,
    -- and what the handler wrote stays.
    pub process_next_success :
        (w' : W)
        → apply c.message w ≡ (none, w')
        → (next.0 ≡ processed c.message)
          × (get_elem? next.1.deliveries c.position
              ≡ some (record d {
                status = done;
                attempts = suc d.attempts;
                locked_at = 0;
                last_error = "";
              }))
          × (next.2 ≡ w')
    unfolding process_next settled outcome
    process_next_success w' worked =
        (rw (claimed, worked), rw worked at written, rw (claimed, worked))

    -- A handler that fails: the attempt and the error are recorded, the delivery is unlocked and
    -- put off by the policy's backoff, it is dead once the attempts reach the maximum and pending
    -- below it, and a unit of work discards what the handler wrote.
    pub process_next_failure :
        (e : String) (w' : W) (max : ℕ)
        → apply c.message w ≡ (some e, w')
        → policy.max_attempts ≡ pos max
        → (x : Delivery) × (get_elem? next.1.deliveries c.position ≡ some x)
          × (x.status ≡ (if leb max (suc d.attempts) then dead else pending))
          × (x.attempts ≡ suc d.attempts)
          × (x.available_at ≡ add_duration now' (retry_delay policy (suc d.attempts)))
          × (x.locked_at ≡ 0)
          × (x.last_error ≡ e)
          × (next.2 ≡ (if unit then w else w'))
    unfolding process_next settled
    process_next_failure e w' max failed budget = (
      settled policy now' (some e) (lock_delivery now d),
      rw failed at written,
      ground (arith, waits),
      ground arith,
      ground arith,
      ground arith,
      ground arith,
      rw (claimed, failed),
    )
