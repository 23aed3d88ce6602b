-- ===== src/EventStore/Admin.antt =====
-- internal/adapter/outbound/memory/event_store.go: lag, dead letters and their requeueing.
use billpiggy.Base.{
  ℕ, suc, ◌+◌, Bool, true, false, not, ◌&&◌, ◌||◌, String, List, [], ◌∷◌, ltb, ◌==◌, nat_eq,
  string_eq, if◌then◌else◌, take,
}
use billpiggy.Clock.{Time, zero_time, after, unix_milli}
use billpiggy.Base.Int.{ℤ, pos, leb_ℤ, ltb_ℤ, pos_part}
use billpiggy.EventStore.{pending, is_pending, is_dead, Delivery, EventStore}
use billpiggy.EventStore.Queue.{any_at, same_stream}

abbrev pub dead_blocks : ℕ → Delivery → ℕ → Delivery → Bool
dead_blocks i candidate j other =
    not (j == i)
    && same_stream other candidate
    && ltb other.event.global_seq candidate.event.global_seq
    && is_dead other.status

-- deadBlockedLocked
unfoldable pub dead_blocked : List Delivery → ℕ → Delivery → Bool
dead_blocked ds i candidate = any_at (dead_blocks i candidate) 0 ds

abbrev pub one_if : Bool → ℕ
one_if true = 1
one_if false = 0

-- The deliveries of the list, which starts at position `k`, that pass the test.
unfoldable pub count_at : (ℕ → Delivery → Bool) → ℕ → List Delivery → ℕ
count_at test k [] = 0
count_at test k (d ∷ ds) = one_if (test k d) + count_at test (suc k) ds

abbrev pub lags : String → List Delivery → ℕ → Delivery → Bool
lags subscription ds i d =
    (d.subscription == subscription) && is_pending d.status && not (dead_blocked ds i d)

-- Lag
unfoldable pub lag : String → EventStore → ℕ
lag subscription s = count_at (lags subscription s.deliveries) 0 s.deliveries

abbrev pub waits_behind : ℕ → Delivery → ℕ → Delivery → Bool
waits_behind i candidate j other =
    not (j == i)
    && same_stream other candidate
    && ltb candidate.event.global_seq other.event.global_seq
    && is_pending other.status

-- blockedCountLocked
unfoldable pub blocked_count : List Delivery → ℕ → Delivery → ℕ
blocked_count ds i candidate = count_at (waits_behind i candidate) 0 ds

-- domain.DeadLetter
pub record DeadLetter : Type 0 where
  pub outbox_id : String × ℕ
  pub subscription : String
  pub event_id : String
  pub event_type : String
  pub aggregate_type : String
  pub aggregate_id : String
  pub attempts : ℕ
  pub last_error : String
  pub occurred_at : Time
  pub dead_lettered_at : Time
  pub blocked_count : ℕ

abbrev pub dead_letter : List Delivery → ℕ → Delivery → DeadLetter
dead_letter ds i d = record {
  outbox_id = (d.subscription, d.event.global_seq);
  subscription = d.subscription;
  event_id = d.event.event.id;
  event_type = d.event.event.event_type;
  aggregate_type = d.event.event.aggregate_type;
  aggregate_id = d.event.event.aggregate_id;
  attempts = d.attempts;
  last_error = d.last_error;
  occurred_at = unix_milli d.event.event.occurred_at;
  dead_lettered_at = d.dead_lettered_at;
  blocked_count = blocked_count ds i d;
}

abbrev pub listed : String → Delivery → Bool
listed subscription d = is_dead d.status && (subscription == "" || d.subscription == subscription)

unfoldable pub letters_from : String → List Delivery → ℕ → List Delivery → List DeadLetter
letters_from subscription all k [] = []
letters_from subscription all k (d ∷ ds) =
    let rest = letters_from subscription all (suc k) ds in
    if listed subscription d then dead_letter all k d ∷ rest else rest

-- sort.Slice, newest first; letters of one instant may come in either order.
unfoldable pub insert_newest : DeadLetter → List DeadLetter → List DeadLetter
insert_newest x [] = x ∷ []
insert_newest x (y ∷ ys) =
    if after y.dead_lettered_at x.dead_lettered_at then y ∷ insert_newest x ys else x ∷ y ∷ ys

unfoldable pub sort_newest : List DeadLetter → List DeadLetter
sort_newest [] = []
sort_newest (x ∷ xs) = insert_newest x (sort_newest xs)

abbrev pub page_limit : ℤ → ℕ
page_limit limit = if leb_ℤ limit (pos 0) || ltb_ℤ (pos 200) limit then 50 else pos_part limit

-- ListDeadLetters
unfoldable pub list_dead_letters : String → ℤ → EventStore → List DeadLetter
list_dead_letters subscription limit s =
    take (page_limit limit) (sort_newest (letters_from subscription s.deliveries 0 s.deliveries))

abbrev pub requeued : Delivery → Delivery
requeued d = record d {
  status = pending;
  attempts = 0;
  last_error = "";
  available_at = zero_time;
  locked_at = zero_time;
  dead_lettered_at = zero_time;
}

abbrev pub has_id : String × ℕ → Delivery → Bool
has_id (subscription, seq) d = d.subscription == subscription && d.event.global_seq == seq

-- The loop of RequeueDeadLetter, which stops at the first match.
unfoldable pub requeue_first : String × ℕ → List Delivery → Bool × List Delivery
requeue_first outbox_id [] = (false, [])
requeue_first outbox_id (d ∷ ds) =
    let rest = requeue_first outbox_id ds in
    if is_dead d.status && has_id outbox_id d then (true, requeued d ∷ ds) else (rest.0, d ∷ rest.1)

-- RequeueDeadLetter
unfoldable pub requeue_dead_letter : String × ℕ → EventStore → Bool × EventStore
requeue_dead_letter outbox_id s =
    let found = requeue_first outbox_id s.deliveries in (found.0, record s { deliveries = found.1 })
