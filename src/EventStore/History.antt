-- ===== src/EventStore/History.antt =====
-- Histories of the event store of internal/adapter/outbound/memory/event_store.go: the methods that
-- change it, with ProcessNext in its two locked halves, so that other calls may come between a claim
-- and its settlement, and units of work that are rolled back to the Snapshot that they began with.
use billpiggy.Base.{Bool, true, ◌&&◌, contains, String, ℕ, Option, none, some, List, [], ◌∷◌}
use billpiggy.Clock.{Time}
use billpiggy.Outbox.{Policy}
use billpiggy.EventStore.{DomainEvent, EventStore, append, ensure_subscription}
use billpiggy.EventStore.Queue.{Claimed, claim, settle}
use billpiggy.EventStore.Admin.{requeue_dead_letter}

pub data Call : Type 0 where
  appends : DomainEvent → Call
  subscribes : String → Call
  claims : String → List String → Policy → Time → Call
  settles : Policy → Time → Option String → ℕ → Call
  requeues : String × ℕ → Call

abbrev pub or_same : EventStore → Option EventStore → EventStore
or_same s none = s
or_same s (some t) = t

abbrev pub claimed_store : EventStore → Option Claimed → EventStore
claimed_store s none = s
claimed_store s (some c) = c.store

unfoldable pub step : Call → EventStore → EventStore
step (appends event) s = or_same s (append event s)
step (subscribes name) s = ensure_subscription name s
step (claims subscription types policy now) s =
    claimed_store s (claim subscription types policy now s)
step (settles policy now failure i) s = settle policy now failure i s
step (requeues outbox_id) s = (requeue_dead_letter outbox_id s).1

-- The calls from first to last.
unfoldable pub run : List Call → EventStore → EventStore
run [] s = s
run (c ∷ cs) s = run cs (step c s)

-- The function that Snapshot returns, for a snapshot taken of `saved`. The subscriptions are not part
-- of a snapshot.
unfoldable pub restore : EventStore → EventStore → EventStore
restore saved s = record s {
  events = saved.events;
  deliveries = saved.deliveries;
  versions = saved.versions;
  sequence = saved.sequence;
}

-- One call, or a unit of work that fails, with the calls between its snapshot and its roll-back.
pub data Work : Type 0 where
  calls : Call → Work
  rolled_back : List Call → Work

unfoldable pub work_step : Work → EventStore → EventStore
work_step (calls c) s = step c s
work_step (rolled_back cs) s = restore s (run cs s)

unfoldable pub work_run : List Work → EventStore → EventStore
work_run [] s = s
work_run (w ∷ ws) s = work_run ws (work_step w s)

-- No call registers a subscription other than those named.
unfoldable pub registers_none : List String → List Call → Bool
registers_none names [] = true
registers_none names (subscribes name ∷ cs) = contains name names && registers_none names cs
registers_none names (appends event ∷ cs) = registers_none names cs
registers_none names (claims subscription types policy now ∷ cs) = registers_none names cs
registers_none names (settles policy now failure i ∷ cs) = registers_none names cs
registers_none names (requeues id ∷ cs) = registers_none names cs

-- Nothing new is registered between a snapshot and its roll-back.
abbrev pub registers_apart : Work → EventStore → Bool
registers_apart (calls c) s = true
registers_apart (rolled_back cs) s = registers_none s.subscriptions cs

unfoldable pub all_register_apart : List Work → EventStore → Bool
all_register_apart [] s = true
all_register_apart (w ∷ ws) s = registers_apart w s && all_register_apart ws (work_step w s)
