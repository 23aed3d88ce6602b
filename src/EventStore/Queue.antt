-- ===== src/EventStore/Queue.antt =====
-- internal/adapter/outbound/memory/event_store.go: claiming a delivery and recording its outcome.
use billpiggy.Base.{
  ℕ, zero, suc, Bool, true, false, not, ◌&&◌, ◌||◌, String, List, [], ◌∷◌, Option, none, some, ltb,
  leb, ◌==◌, nat_eq, string_eq, if◌then◌else◌, contains,
}
use mathlib.Core.Option
use billpiggy.Base.Int.{ℤ, pos, ◌-ℤ◌, ltb_ℤ, leb_ℤ}
use billpiggy.Clock.{Time, zero_time, is_zero, after, add_duration, minute, unix_milli}
use billpiggy.Outbox.{
  Message, Policy, Result, idle, processed, retried, dead_lettered, retry_delay, or_default,
}
use billpiggy.EventStore.{DeliveryStatus, done, dead, is_pending, is_dead, Delivery, EventStore}

-- Some delivery of the list passes the test, which is also given its position.
unfoldable pub any_at : (ℕ → Delivery → Bool) → ℕ → List Delivery → Bool
any_at test k [] = false
any_at test k (d ∷ ds) = test k d || any_at test (suc k) ds

abbrev pub same_stream : Delivery → Delivery → Bool
same_stream other candidate =
    (other.subscription == candidate.subscription)
    && (other.event.event.aggregate_type == candidate.event.event.aggregate_type)
    && (other.event.event.aggregate_id == candidate.event.event.aggregate_id)

abbrev pub outstanding : DeliveryStatus → Bool
outstanding status = is_pending status || is_dead status

abbrev pub blocks : ℕ → Delivery → ℕ → Delivery → Bool
blocks i candidate j other =
    not (j == i)
    && same_stream other candidate
    && ltb other.event.global_seq candidate.event.global_seq
    && outstanding other.status

-- blockedLocked
unfoldable pub blocked : List Delivery → ℕ → Delivery → Bool
blocked ds i candidate = any_at (blocks i candidate) 0 ds

-- matchesAggregateType
unfoldable pub matches_aggregate_type : String → List String → Bool
matches_aggregate_type aggregate_type [] = true
matches_aggregate_type aggregate_type (x ∷ xs) = contains aggregate_type (x ∷ xs)

-- The tests that the loop of `claim` makes before it appends to `candidates`.
unfoldable pub deliverable : String → List String → ℤ → Time → Delivery → Bool
deliverable subscription types lease now d =
    (d.subscription == subscription)
    && is_pending d.status
    && not (after d.available_at now)
    && not (not (is_zero d.locked_at) && ltb_ℤ (pos now -ℤ lease) (pos d.locked_at))
    && matches_aggregate_type d.event.event.aggregate_type types

unfoldable pub candidates : (Delivery → Bool) → ℕ → List Delivery → List (ℕ × Delivery)
candidates test k [] = []
candidates test k (d ∷ ds) =
    let rest = candidates test (suc k) ds in if test d then (k, d) ∷ rest else rest

-- sort.Slice by globalSeq. Deliveries of one subscription have different numbers, so that every
-- correct sort gives this list.
unfoldable pub insert_by_seq : ℕ × Delivery → List (ℕ × Delivery) → List (ℕ × Delivery)
insert_by_seq x [] = x ∷ []
insert_by_seq x (y ∷ ys) =
    if leb x.1.event.global_seq y.1.event.global_seq then x ∷ y ∷ ys else y ∷ insert_by_seq x ys

unfoldable pub sort_by_seq : List (ℕ × Delivery) → List (ℕ × Delivery)
sort_by_seq [] = []
sort_by_seq (x ∷ xs) = insert_by_seq x (sort_by_seq xs)

unfoldable pub first_unblocked : List Delivery → List (ℕ × Delivery) → Option (ℕ × Delivery)
first_unblocked ds [] = none
first_unblocked ds ((i, d) ∷ cs) =
    let rest = first_unblocked ds cs in if blocked ds i d then rest else some (i, d)

unfoldable pub next_delivery :
    String → List String → ℤ → Time → List Delivery → Option (ℕ × Delivery)
next_delivery subscription types lease now ds =
    first_unblocked ds (sort_by_seq (candidates (deliverable subscription types lease now) 0 ds))

-- messageLocked. The OutboxID "%s:%d" is kept as its two parts: a decimal holds no colon, so that
-- two ids are the same text exactly when both parts are the same.
unfoldable pub message_of : Delivery → Message
message_of d = record {
  outbox_id = (d.subscription, d.event.global_seq);
  event_id = d.event.event.id;
  global_seq = d.event.global_seq;
  aggregate_type = d.event.event.aggregate_type;
  aggregate_id = d.event.event.aggregate_id;
  aggregate_version = d.event.version;
  event_type = d.event.event.event_type;
  payload = d.event.payload;
  metadata = d.event.metadata;
  occurred_at = unix_milli d.event.event.occurred_at;
  attempts = d.attempts;
  replay = d.replay;
}

-- A write through the pointer to the delivery at position `i`.
abbrev pub update_at : ℕ → (Delivery → Delivery) → List Delivery → List Delivery
update_at i f [] = []
update_at zero f (d ∷ ds) = f d ∷ ds
update_at (suc i) f (d ∷ ds) = d ∷ update_at i f ds

abbrev pub lock_delivery : Time → Delivery → Delivery
lock_delivery now d = record d { attempts = suc d.attempts; locked_at = now }

pub record Claimed : Type 0 where
  pub position : ℕ
  pub message : Message
  pub store : EventStore

abbrev pub claimed_at : Time → EventStore → ℕ × Delivery → Claimed
claimed_at now s (i, d) = record {
  position = i;
  message = message_of (lock_delivery now d);
  store = record s { deliveries = update_at i (lock_delivery now) s.deliveries };
}

-- claim
unfoldable pub claim : String → List String → Policy → Time → EventStore → Option Claimed
claim subscription types policy now s =
    Option.map (claimed_at now s)
      (next_delivery subscription types (or_default policy.lease_ttl (pos minute)) now s.deliveries)

-- What ProcessNext writes to the claimed delivery when the handler has returned at `now`.
unfoldable pub settled : Policy → Time → Option String → Delivery → Delivery
settled policy now none d = record d { status = done; locked_at = zero_time; last_error = "" }
settled policy now (some e) d =
    let failed : Delivery = record d {
      locked_at = zero_time;
      last_error = e;
      available_at = add_duration now (retry_delay policy d.attempts);
    } in
    if leb_ℤ policy.max_attempts (pos d.attempts)
    then record failed { status = dead; dead_lettered_at = now }
    else failed

unfoldable pub outcome : Policy → Option String → Message → ℕ → Result
outcome policy none m attempts = processed m
outcome policy (some e) m attempts =
    if leb_ℤ policy.max_attempts (pos attempts) then dead_lettered m e else retried m e

abbrev pub settle : Policy → Time → Option String → ℕ → EventStore → EventStore
settle policy now failure i s = record s {
  deliveries = update_at i (settled policy now failure) s.deliveries;
}

-- A handler applies a message to a read model, of type `W`, and may fail.
abbrev pub Handler {ℓ} : Type ℓ → Type ℓ
Handler W = Message → W → Option String × W

-- A unit of work discards what a failing handler wrote; without one the writes stay.
abbrev pub within {ℓ} : {W : Type ℓ} → Bool → W → Option String × W → Option String × W
within unit w (none, w') = (none, w')
within unit w (some e, w') = (some e, if unit then w else w')

module _ {ℓ} {W : Type ℓ} where
  -- ProcessNext, once `claim` has returned.
  unfoldable pub handle_claimed :
      Bool → Policy → Time → Handler W → EventStore × W → Option Claimed → Result × EventStore × W
  handle_claimed unit policy now' apply (s, w) none = (idle, s, w)
  handle_claimed unit policy now' apply (s, w) (some c) =
      let (failure, w') = within unit w (apply c.message w) in
      (
        outcome policy failure c.message c.message.attempts,
        settle policy now' failure c.position c.store,
        w',
      )

  -- ProcessNext, at the two times that it reads the clock. The handler runs with the store
  -- unlocked; here nobody else uses the store meanwhile.
  unfoldable pub process_next :
      Bool
      → String
      → List String
      → Policy
      → Time
      → Time
      → Handler W
      → EventStore × W
      → Result × EventStore × W
  unfolding handle_claimed
  process_next unit subscription types policy now now' apply (s, w) =
      handle_claimed unit policy now' apply (s, w) (claim subscription types policy now s)
