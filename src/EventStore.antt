-- ===== src/EventStore.antt =====
-- internal/adapter/outbound/memory/event_store.go: the event log with its outbox deliveries. The
-- mutex makes each method one step on the record. A pointer to a delivery is its position in
-- `deliveries`, which no method removes from. Go's random order over the subscriptions map is
-- the order of registration here; it only interleaves the queues of different subscriptions.
pub mod Queue
pub mod Admin
pub mod Scan
pub mod Order
pub mod Claims
pub mod History
pub mod Queues
pub mod Inventory
pub mod Progress
pub mod Attempts
pub mod Registration
use billpiggy.Base.{
  ℕ, zero, suc, ◌+◌, Bool, true, false, not, ◌&&◌, ◌||◌, String, List, [], ◌∷◌, ◌++◌, map, Option,
  none, some, ltb, leb, ◌==◌, nat_eq, string_eq, contains, if◌then◌else◌, get_elem?, set,
}
use Prim.Native.String.{◌++◌ as ◌concat◌}
use billpiggy.Base.Int.{ℤ, pos, ◌-ℤ◌, ltb_ℤ, leb_ℤ}
use billpiggy.Base.Assoc.{lookup, insert}
use billpiggy.Clock.{Time, zero_time, is_zero, after, add_duration, minute, unix_milli}
use billpiggy.Outbox.{
  Bytes, Message, Policy, Result, idle, processed, retried, dead_lettered, retry_delay,
}

pub data DeliveryStatus : Type 0 where
  pending done dead : DeliveryStatus

abbrev pub is_pending : DeliveryStatus → Bool
is_pending pending = true
is_pending _ = false

abbrev pub is_dead : DeliveryStatus → Bool
is_dead dead = true
is_dead _ = false

-- outbound.DomainEvent. The payload is its JSON text, `none` where json.Marshal refuses the value.
pub record DomainEvent : Type 0 where
  pub id : String
  pub aggregate_type : String
  pub aggregate_id : String
  pub event_type : String
  pub payload : Option Bytes
  pub occurred_at : ℕ
  pub actor_id : String

-- The metadata is kept as the map that json.Marshal is given.
pub record StoredEvent : Type 0 where
  pub event : DomainEvent
  pub global_seq : ℕ
  pub version : ℕ
  pub payload : Bytes
  pub metadata : List (String × String)

pub record Delivery : Type 0 where
  pub subscription : String
  pub event : StoredEvent
  pub status : DeliveryStatus
  pub attempts : ℕ
  pub available_at : Time
  pub locked_at : Time
  pub dead_lettered_at : Time
  pub replay : Bool
  pub last_error : String

pub record EventStore : Type 0 where
  pub events : List StoredEvent
  pub deliveries : List Delivery
  pub subscriptions : List String
  pub versions : List (String × ℕ)
  pub sequence : ℕ

-- NewEventStore
unfoldable pub new_event_store : EventStore
new_event_store = record {
  events = [];
  deliveries = [];
  subscriptions = [];
  versions = [];
  sequence = 0;
}

-- A missing key of the map reads as 0.
abbrev pub count_or_zero : Option ℕ → ℕ
count_or_zero none = 0
count_or_zero (some n) = n

unfoldable pub stream_key : DomainEvent → String
stream_key e = e.aggregate_type concat (":" concat e.aggregate_id)

abbrev pub queue_event : StoredEvent → Bool → String → Delivery
queue_event stored replay subscription = record {
  subscription = subscription;
  event = stored;
  status = pending;
  attempts = 0;
  available_at = zero_time;
  locked_at = zero_time;
  dead_lettered_at = zero_time;
  replay = replay;
  last_error = "";
}

-- Append, once the payload is marshalled.
unfoldable pub append_marshalled : DomainEvent → Bytes → EventStore → EventStore
unfolding stream_key
append_marshalled event payload s = record s {
  sequence = suc s.sequence;
  versions = insert (stream_key event) version s.versions;
  events = s.events ++ stored ∷ [];
  deliveries = s.deliveries ++ map (queue_event stored false) s.subscriptions;
}
  where
    version : ℕ
    version = suc (count_or_zero (lookup (stream_key event) s.versions))

    stored : StoredEvent
    stored = record {
      event = event;
      global_seq = suc s.sequence;
      version = version;
      payload = payload;
      metadata = ("actor_id", event.actor_id) ∷ [];
    }

-- Append: the new store, or `none` for the error, which leaves the store as it was.
unfoldable pub append : DomainEvent → EventStore → Option EventStore
unfolding append_marshalled
append event s = elim event.payload [
  | none ↦ none
  | some payload ↦ some (append_marshalled event payload s)
]

-- EnsureSubscription
unfoldable pub ensure_subscription : String → EventStore → EventStore
ensure_subscription name s = if contains name s.subscriptions then s else record s {
  subscriptions = s.subscriptions ++ name ∷ [];
  deliveries = s.deliveries ++ map (λ stored. queue_event stored true name) s.events;
}
