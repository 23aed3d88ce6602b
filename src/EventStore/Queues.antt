-- ===== src/EventStore/Queues.antt =====
-- The event numbers queued for a subscription (internal/adapter/outbound/memory/event_store.go),
-- under each write to the deliveries.
use billpiggy.Base.{
  ℕ, zero, suc, ◌≡◌, refl, inl, inr, true, false, String, List, [], ◌∷◌, ◌++◌, map, Option, none,
  some, arith, ◌==◌, string_eq, string_beq_iff, contains, Bool-cases, if◌then◌else◌,
}
use billpiggy.Clock.{Time}
use billpiggy.Outbox.{Policy}
use billpiggy.EventStore.{StoredEvent, Delivery, queue_event}
use billpiggy.EventStore.Queue.{settled, update_at}
use billpiggy.EventStore.Admin.{requeue_first}

abbrev pub seq_of : StoredEvent → ℕ
seq_of e = e.global_seq

-- The event numbers queued for a subscription, in queue order.
unfoldable pub queued : String → List Delivery → List ℕ
queued name [] = []
queued name (d ∷ ds) =
    let rest = queued name ds in if d.subscription == name then seq_of d.event ∷ rest else rest

pub queued-append :
    (name : String) (xs ys : List Delivery)
    → queued name (xs ++ ys) ≡ queued name xs ++ queued name ys
unfolding queued
queued-append name [] ys = refl
queued-append name (x ∷ xs) ys = ground (arith, queued-append name xs ys)

-- A write that leaves subscription and event alone leaves the queues alone.
abbrev pub Keeps : (Delivery → Delivery) → Type 0
Keeps f = (d : Delivery) → ((f d).subscription ≡ d.subscription) × ((f d).event ≡ d.event)

pub queued-update_at :
    (name : String) (f : Delivery → Delivery) (i : ℕ) (ds : List Delivery)
    → Keeps f
    → queued name (update_at i f ds) ≡ queued name ds
unfolding queued
queued-update_at name f i [] keep = refl
queued-update_at name f zero (d ∷ ds) keep = rw ((keep d).0, (keep d).1)
queued-update_at name f (suc i) (d ∷ ds) keep = ground (arith, queued-update_at name f i ds keep)

pub settled-Keeps :
    (policy : Policy) (now : Time) (failure : Option String) → Keeps (settled policy now failure)
unfolding settled
settled-Keeps policy now none d = (refl, refl)
settled-Keeps policy now (some e) d = ground arith

pub queued-requeue_first :
    (name : String) (id : String × ℕ) (ds : List Delivery)
    → queued name (requeue_first id ds).1 ≡ queued name ds
unfolding queued requeue_first
queued-requeue_first name id [] = refl
queued-requeue_first name id (d ∷ ds) = ground (arith, queued-requeue_first name id ds)

-- Replaying the log to a new subscription queues it whole, and to no other subscription.
pub queued-replay_self :
    (name : String) (es : List StoredEvent)
    → queued name (map (λ stored. queue_event stored true name) es) ≡ map seq_of es
unfolding queued
queued-replay_self name [] = refl
queued-replay_self name (e ∷ es) =
    ground (arith, string_beq_iff name name, queued-replay_self name es)

pub queued-replay_other :
    (name other : String) (es : List StoredEvent)
    → (other == name) ≡ false
    → queued name (map (λ stored. queue_event stored true other) es) ≡ []
unfolding queued
queued-replay_other name other [] h = refl
queued-replay_other name other (e ∷ es) h = ground (arith, queued-replay_other name other es h)

-- No name is listed twice.
abbrev pub Distinct : List String → Type 0
Distinct [] = Unit {0}
Distinct (x ∷ xs) = (contains x xs ≡ false) × Distinct xs

pub queued-live_none :
    (name : String) (e : StoredEvent) (subs : List String)
    → contains name subs ≡ false
    → queued name (map (queue_event e false) subs) ≡ []
unfolding queued contains
queued-live_none name e [] h = refl
queued-live_none name e (x ∷ xs) h = ground (arith, queued-live_none name e xs)

pub queued-live_once :
    (name : String) (e : StoredEvent) (subs : List String)
    → Distinct subs
    → contains name subs ≡ true
    → queued name (map (queue_event e false) subs) ≡ seq_of e ∷ []
unfolding queued contains
queued-live_once name e [] d h = cc
queued-live_once name e (x ∷ xs) d h = elim (Bool-cases (x == name)) [
  | inl t ↦
      let same : x ≡ name = (string_beq_iff x name).0 t in
      ground (arith, queued-live_none name e xs (rw same at (d.0)))
  | inr t ↦ ground (arith, queued-live_once name e xs d.1)
]
