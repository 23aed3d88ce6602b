-- ===== src/EventStore/Registration.antt =====
-- internal/adapter/outbound/memory/event_store.go: the subscriptions after calls that register none.
use billpiggy.Base.{
  ◌≡◌, refl, inl, inr, ◌∙◌, true, String, List, [], ◌∷◌, arith, string_eq, contains, Option-cases,
}
use billpiggy.Clock.{Time}
use billpiggy.Outbox.{Policy}
use billpiggy.EventStore.{DomainEvent, EventStore, append, append_marshalled, ensure_subscription}
use billpiggy.EventStore.Queue.{claim, settle}
use billpiggy.EventStore.Admin.{requeue_dead_letter}
use billpiggy.EventStore.Claims.{claim_inversion}
use billpiggy.EventStore.History.{
  Call, appends, subscribes, claims, settles, requeues, step, run, claimed_store, or_same,
  registers_none,
}

append_subscriptions :
    (event : DomainEvent) (s : EventStore)
    → (or_same s (append event s)).subscriptions ≡ s.subscriptions
unfolding append append_marshalled
append_subscriptions event s = elim (Option-cases event.payload) [
  | inl n ↦ rw (n, append) refl
  | inr (payload, n) ↦ rw (n, append) refl
]

known_subscription :
    (name : String) (s : EventStore)
    → contains name s.subscriptions ≡ true
    → (ensure_subscription name s).subscriptions ≡ s.subscriptions
unfolding ensure_subscription
known_subscription name s h = rw h refl

claim_subscriptions :
    (subscription : String) (types : List String) (policy : Policy) (now : Time) (s : EventStore)
    → (claimed_store s (claim subscription types policy now s)).subscriptions ≡ s.subscriptions
claim_subscriptions subscription types policy now s =
    elim (Option-cases (claim subscription types policy now s)) [
      | inl n ↦ rw n refl
      | inr (c, n) ↦
          let (_, _, _, same) = claim_inversion subscription types policy now s c n in
          rw (n, same) refl
    ]

-- What a roll-back restores goes with the subscriptions of the snapshot.
pub run-subscriptions :
    (cs : List Call) (s : EventStore) (names : List String)
    → s.subscriptions ≡ names
    → registers_none names cs ≡ true
    → (run cs s).subscriptions ≡ names
unfolding run registers_none step requeue_dead_letter
run-subscriptions [] s names e h = e
run-subscriptions (appends event ∷ cs) s names e h =
    run-subscriptions cs (or_same s (append event s)) names (append_subscriptions event s ∙ e) h
run-subscriptions (subscribes name ∷ cs) s names e h =
    run-subscriptions cs (ensure_subscription name s) names
      (known_subscription name s (rw e (ground (arith, h))) ∙ e) (ground (arith, h))
run-subscriptions (claims subscription types policy now ∷ cs) s names e h =
    run-subscriptions cs (claimed_store s (claim subscription types policy now s)) names
      (claim_subscriptions subscription types policy now s ∙ e) h
run-subscriptions (settles policy now failure i ∷ cs) s names e h =
    run-subscriptions cs (settle policy now failure i s) names e h
run-subscriptions (requeues id ∷ cs) s names e h =
    run-subscriptions cs (requeue_dead_letter id s).1 names e h
