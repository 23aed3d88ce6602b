-- ===== src/EventStore/Inventory.antt =====
-- Each event is queued once for each subscription, whatever happens to the deliveries
-- (internal/adapter/outbound/memory/event_store.go).
use billpiggy.EventStore.Registration.{run-subscriptions}
use billpiggy.Base.{
  ℕ, zero, suc, ◌≡◌, refl, inl, inr, ◌∙◌, true, false, String, List, [], ◌∷◌, ◌++◌, map, arith,
  ◌==◌, string_eq, string_beq_iff, contains, Bool-cases, Option-cases, if◌then◌else◌,
}
use mathlib.Core.List.{append-nil, map-append}
use billpiggy.Clock.{Time}
use billpiggy.Outbox.{Policy, Bytes}
use billpiggy.EventStore.{
  DomainEvent, Delivery, EventStore, append, append_marshalled, ensure_subscription, queue_event,
  new_event_store,
}
use billpiggy.EventStore.Queue.{claim, lock_delivery}
use billpiggy.EventStore.Admin.{requeue_dead_letter}
use billpiggy.EventStore.Queues.{
  seq_of, queued, Distinct, queued-append, queued-update_at, settled-Keeps, queued-requeue_first,
  queued-replay_self, queued-replay_other, queued-live_none, queued-live_once,
}
use billpiggy.EventStore.Claims.{claim_inversion}
use billpiggy.EventStore.History.{
  Call, appends, subscribes, claims, settles, requeues, step, claimed_store, restore, Work, calls,
  rolled_back, work_step, work_run, registers_apart, all_register_apart,
}

-- 1, 2, ..., n.
abbrev pub upto : ℕ → List ℕ
upto zero = []
upto (suc n) = upto n ++ suc n ∷ []

-- The log is numbered from 1 without a gap, no subscription is registered twice, and every
-- registered subscription has each event of the log queued exactly once, in the log's order; an
-- unregistered one has none.
pub record IsComplete (s : EventStore) : Type 0 where
  pub numbered : map seq_of s.events ≡ upto s.sequence
  pub registered_once : Distinct s.subscriptions
  pub queues :
      (name : String)
      → queued name s.deliveries
        ≡ (if contains name s.subscriptions then map seq_of s.events else [])

module _ {s : EventStore} (v : IsComplete s) (name : String) where
  queued_all : contains name s.subscriptions ≡ true → queued name s.deliveries ≡ map seq_of s.events
  queued_all h = v.queues name ∙ rw h refl

  queued_none : contains name s.subscriptions ≡ false → queued name s.deliveries ≡ []
  queued_none h = v.queues name ∙ rw h refl

new_event_store-IsComplete : IsComplete new_event_store
unfolding new_event_store queued contains
new_event_store-IsComplete = record { numbered = refl; registered_once = tt; queues = λ name. refl }

append_marshalled-IsComplete :
    (event : DomainEvent) (payload : Bytes) (s : EventStore)
    → IsComplete s
    → IsComplete (append_marshalled event payload s)
unfolding append_marshalled
append_marshalled-IsComplete event payload s v = record {
  numbered = simp (map-append, v.numbered);
  registered_once = v.registered_once;
  queues = λ name. elim (Bool-cases (contains name s.subscriptions)) [
    | inl h ↦ simp (
      h,
      queued-append,
      map-append,
      queued_all v name h,
      queued-live_once name _ s.subscriptions v.registered_once h,
    )
    | inr h ↦
        simp (h, queued-append, queued_none v name h, queued-live_none name _ s.subscriptions h)
  ];
}

contains-append :
    (name x : String) (xs : List String)
    → contains name (xs ++ x ∷ []) ≡ (if contains name xs then true else x == name)
unfolding contains
contains-append name x [] = ground arith
contains-append name x (y ∷ ys) = ground (arith, contains-append name x ys)

Distinct-append :
    (x : String) (xs : List String) → Distinct xs → contains x xs ≡ false → Distinct (xs ++ x ∷ [])
unfolding contains
Distinct-append x [] d h = (refl, tt)
Distinct-append x (y ∷ ys) d h = ground (
  arith,
  Distinct-append x ys d.1,
  contains-append y x ys,
  string_beq_iff x y,
  string_beq_iff y x,
)

-- The queues once `name` is registered too.
module _ (name n : String) (s : EventStore) (v : IsComplete s) where
  abbrev replays : List Delivery
  replays = map (λ stored. queue_event stored true name) s.events

  queued-subscribed_all :
      contains name s.subscriptions ≡ false
      → contains n (s.subscriptions ++ name ∷ []) ≡ true
      → queued n (s.deliveries ++ replays) ≡ map seq_of s.events
  queued-subscribed_all new h = elim (Bool-cases (name == n)) [
    | inl same ↦
        let e : name ≡ n = (string_beq_iff name n).0 same in
        let fresh : contains n s.subscriptions ≡ false = rw e at new in
        rw (queued-append n s.deliveries replays, queued_none v n fresh, e)
          (queued-replay_self n s.events)
    | inr other ↦
        let old : contains n s.subscriptions ≡ true =
          ground (arith, contains-append n name s.subscriptions) in
        rw
          (
            queued-append n s.deliveries replays,
            queued_all v n old,
            queued-replay_other n name s.events other,
          )
          (append-nil _)
  ]

  queued-subscribed_none :
      contains n (s.subscriptions ++ name ∷ []) ≡ false → queued n (s.deliveries ++ replays) ≡ []
  queued-subscribed_none h =
      let old : contains n s.subscriptions ≡ false =
        ground (arith, contains-append n name s.subscriptions) in
      let other : (name == n) ≡ false = ground (arith, contains-append n name s.subscriptions) in
      rw (
        queued-append n s.deliveries replays,
        queued_none v n old,
        queued-replay_other n name s.events other,
      )

ensure_subscription-IsComplete :
    (name : String) (s : EventStore) → IsComplete s → IsComplete (ensure_subscription name s)
unfolding ensure_subscription
ensure_subscription-IsComplete name s v = elim (Bool-cases (contains name s.subscriptions)) [
  | inl old ↦ rw old v
  | inr new ↦ rw new (record {
    numbered = v.numbered;
    registered_once = Distinct-append name s.subscriptions v.registered_once new;
    queues = λ n. elim (Bool-cases (contains n (s.subscriptions ++ name ∷ []))) [
      | inl h ↦ rw h (queued-subscribed_all name n s v new h)
      | inr h ↦ rw h (queued-subscribed_none name n s v h)
    ];
  })
]

-- A change of deliveries that keeps every queue keeps the inventory.
same_queues-IsComplete :
    (s : EventStore) (ds : List Delivery)
    → ((name : String) → queued name ds ≡ queued name s.deliveries)
    → IsComplete s
    → IsComplete (record s { deliveries = ds })
same_queues-IsComplete s ds same v = record {
  numbered = v.numbered;
  registered_once = v.registered_once;
  queues = λ name. same name ∙ v.queues name;
}

claim-IsComplete :
    (subscription : String) (types : List String) (policy : Policy) (now : Time) (s : EventStore)
    → IsComplete s
    → IsComplete (claimed_store s (claim subscription types policy now s))
claim-IsComplete subscription types policy now s v =
    elim (Option-cases (claim subscription types policy now s)) [
      | inl e ↦ rw e v
      | inr (c, e) ↦
          let (_, _, _, same) = claim_inversion subscription types policy now s c e in
          rw (e, same)
            (same_queues-IsComplete s _
              (λ name.
                queued-update_at name (lock_delivery now) c.position s.deliveries
                  (λ d. (refl, refl)))
              v)
    ]

pub step-IsComplete : (c : Call) (s : EventStore) → IsComplete s → IsComplete (step c s)
unfolding step append requeue_dead_letter
step-IsComplete (appends event) s v = elim (Option-cases event.payload) [
  | inl e ↦ rw (e, append) v
  | inr (payload, e) ↦ rw (e, append) (append_marshalled-IsComplete event payload s v)
]
step-IsComplete (subscribes name) s v = ensure_subscription-IsComplete name s v
step-IsComplete (claims subscription types policy now) s v =
    claim-IsComplete subscription types policy now s v
step-IsComplete (settles policy now failure i) s v =
    same_queues-IsComplete s _
      (λ name. queued-update_at name _ i s.deliveries (settled-Keeps policy now failure)) v
step-IsComplete (requeues id) s v =
    same_queues-IsComplete s _ (λ name. queued-requeue_first name id s.deliveries) v

work_step-IsComplete :
    (w : Work) (s : EventStore)
    → registers_apart w s ≡ true
    → IsComplete s
    → IsComplete (work_step w s)
unfolding work_step restore
work_step-IsComplete (calls c) s h v = step-IsComplete c s v
work_step-IsComplete (rolled_back cs) s h v =
    rw (run-subscriptions cs s s.subscriptions refl h)
      (record { numbered = v.numbered; registered_once = v.registered_once; queues = v.queues })

work_run-IsComplete :
    (ws : List Work) (s : EventStore)
    → all_register_apart ws s ≡ true
    → IsComplete s
    → IsComplete (work_run ws s)
unfolding work_run all_register_apart
work_run-IsComplete [] s h v = v
work_run-IsComplete (w ∷ ws) s h v =
    work_run-IsComplete ws (work_step w s) (ground (arith, h))
      (work_step-IsComplete w s (ground (arith, h)) v)

-- After any calls of Append, EnsureSubscription, RequeueDeadLetter and the two halves of ProcessNext
-- on a new store, in any order, and any units of work that are rolled back with such calls in
-- them, where no subscription is registered for the first time between a snapshot and its
-- roll-back: the log is numbered 1, 2, 3, ..., and each registered subscription has every event of the
-- log queued exactly once, in the log's order, while no other name has any.
pub run-new-IsComplete :
    (ws : List Work)
    → all_register_apart ws new_event_store ≡ true
    → IsComplete (work_run ws new_event_store)
run-new-IsComplete ws h = work_run-IsComplete ws new_event_store h new_event_store-IsComplete
