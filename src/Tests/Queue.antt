-- ===== src/Tests/Queue.antt =====
-- The event store of internal/adapter/outbound/memory/event_store.go on two events of one expense.
use billpiggy.Base.{
  ℕ, zero, suc, ◌≡◌, refl, ◌≢◌, inl, true, false, String, List, [], ◌∷◌, Option, none, some, arith,
  get_elem?, contains,
}
use billpiggy.Base.Int.{pos, ◌-ℤ◌}
use billpiggy.Clock.{minute, add_duration}
use billpiggy.Outbox.{or_default, default_policy, processed, retry_delay}
use billpiggy.EventStore.{
  DomainEvent, StoredEvent, Delivery, EventStore, pending, done, dead, queue_event, new_event_store,
  append, append_marshalled, ensure_subscription,
}
use billpiggy.EventStore.Queue.{
  Claimed, claim, claimed_at, blocked, any_at, candidates, deliverable, sort_by_seq, insert_by_seq,
  first_unblocked, next_delivery, matches_aggregate_type, Handler, process_next,
}
use billpiggy.EventStore.Admin.{lag, count_at, dead_blocked}
use billpiggy.EventStore.Order.{IsReady}
use billpiggy.EventStore.Claims.{claim_in_order, claim-none-blocked}
use billpiggy.EventStore.History.{
  appends, subscribes, claims, settles, requeues, step, Work, calls, rolled_back, work_step,
  work_run, registers_none, all_register_apart,
}
use billpiggy.EventStore.Inventory.{IsComplete, run-new-IsComplete}
use billpiggy.EventStore.Progress.{lag_progress}
use billpiggy.EventStore.Attempts.{
  process_next_finished, process_next_success, process_next_failure,
}

abbrev event_of : String → DomainEvent
event_of id = record {
  id = id;
  aggregate_type = "expense";
  aggregate_id = "e1";
  event_type = "expense_added";
  payload = some [];
  occurred_at = 5;
  actor_id = "u1";
}

abbrev stored_of : String → ℕ → StoredEvent
stored_of id n = record {
  event = event_of id;
  global_seq = n;
  version = n;
  payload = [];
  metadata = ("actor_id", "u1") ∷ [];
}

abbrev first : Delivery
first = record (queue_event (stored_of "a" 1) false "audit_trail") { status = done; attempts = 1 }

abbrev second : Delivery
second = queue_event (stored_of "b" 2) false "audit_trail"

abbrev dead_first : Delivery
dead_first = record first { status = dead }

abbrev store_of : List Delivery → EventStore
store_of ds = record {
  events = stored_of "a" 1 ∷ stored_of "b" 2 ∷ [];
  deliveries = ds;
  subscriptions = "audit_trail" ∷ [];
  versions = ("expense:e1", 2) ∷ [];
  sequence = 2;
}

abbrev half_done : EventStore
half_done = store_of (first ∷ second ∷ [])

abbrev half_dead : EventStore
half_dead = store_of (dead_first ∷ second ∷ [])

abbrev taken : Claimed
taken = claimed_at 10 half_done (1, second)

second_claimed : claim "audit_trail" [] default_policy 10 half_done ≡ some taken
unfolding claim next_delivery first_unblocked blocked any_at candidates deliverable sort_by_seq
    insert_by_seq matches_aggregate_type contains default_policy ◌-ℤ◌
second_claimed = refl

nothing_claimed : ◌≡◌ {A = Option Claimed} (claim "audit_trail" [] default_policy 10 half_dead) none
unfolding claim next_delivery first_unblocked blocked any_at candidates deliverable sort_by_seq
    insert_by_seq matches_aggregate_type contains default_policy ◌-ℤ◌
nothing_claimed = refl

minute_lease : or_default default_policy.lease_ttl (pos minute) ≡ pos minute
unfolding default_policy
minute_lease = refl

second-IsReady : IsReady "audit_trail" [] minute 10 second
second-IsReady = record {
  wanted = refl;
  waiting = refl;
  due = omega arith;
  unlocked = inl refl;
  kind = inl refl;
}

claim_in_order_example : first.status ≡ done
claim_in_order_example =
    claim_in_order "audit_trail" [] default_policy 10 half_done taken second second_claimed refl 0
      first refl (refl, refl, refl) (omega arith)

claim-none-blocked_example : blocked half_dead.deliveries 1 second ≡ true
claim-none-blocked_example =
    claim-none-blocked "audit_trail" [] default_policy 10 half_dead minute 1 second nothing_claimed
      minute_lease refl second-IsReady

abbrev works : List Work
works =
    calls (appends (event_of "a"))
    ∷ calls (subscribes "audit_trail")
    ∷ rolled_back (
        appends (event_of "lost")
        ∷ subscribes "audit_trail"
        ∷ claims "audit_trail" [] default_policy 9
        ∷ [])
    ∷ calls (appends (event_of "b"))
    ∷ calls (claims "audit_trail" [] default_policy 10)
    ∷ calls (settles default_policy 11 (some "down") 0)
    ∷ calls (requeues ("audit_trail", 1))
    ∷ []

works_apart : all_register_apart works new_event_store ≡ true
unfolding all_register_apart registers_none work_step step append append_marshalled
    ensure_subscription new_event_store contains
works_apart = refl

run-new-IsComplete_example : IsComplete (work_run works new_event_store)
run-new-IsComplete_example = run-new-IsComplete works works_apart

all-IsReady :
    (j : ℕ) (d : Delivery)
    → get_elem? half_done.deliveries j ≡ some d
    → d.subscription ≡ "audit_trail"
    → d.status ≡ pending
    → IsReady "audit_trail" [] minute 10 d
all-IsReady zero d h own waits = cc
all-IsReady (suc zero) d h own waits = let q : second ≡ d = cc in rw (← q) second-IsReady
all-IsReady (suc (suc j)) d h own waits = cc

lag_one : lag "audit_trail" half_done ≡ 1
unfolding lag count_at dead_blocked any_at
lag_one = refl

some_lag : lag "audit_trail" half_done ≢ 0
some_lag h = omega (arith, lag_one)

first_over : first.status ≢ pending
first_over h = cc

lag_progress_example : claim "audit_trail" [] default_policy 10 half_done ≢ none
lag_progress_example =
    lag_progress "audit_trail" [] default_policy minute 10 half_done minute_lease all-IsReady
      some_lag

-- A handler that counts, and one that fails after it has counted.
abbrev count : Handler ℕ
count m n = (none, suc n)

abbrev fail : Handler ℕ
fail m n = (some "down", suc n)

process_next_finished_example :
    get_elem?
      (process_next true "audit_trail" [] default_policy 10 11 count (half_done, 7)).1.deliveries
      0
    ≡ some first
process_next_finished_example =
    process_next_finished true "audit_trail" [] default_policy 10 11 count half_done 7 0 first refl
      first_over

process_next_success_example :
    ((process_next true "audit_trail" [] default_policy 10 11 count (half_done, 7)).0
      ≡ processed taken.message)
    × (get_elem?
          (process_next true "audit_trail" [] default_policy 10 11 count
            (half_done, 7)).1.deliveries
          1
        ≡ some (record second { status = done; attempts = 1; locked_at = 0; last_error = "" }))
    × ((process_next true "audit_trail" [] default_policy 10 11 count (half_done, 7)).2 ≡ 8)
process_next_success_example =
    process_next_success true "audit_trail" [] default_policy 10 11 count half_done 7 taken second
      second_claimed refl 8 refl

eight_attempts : default_policy.max_attempts ≡ pos 8
unfolding default_policy
eight_attempts = refl

process_next_failure_example :
    (x : Delivery) × (get_elem?
        (process_next true "audit_trail" [] default_policy 10 11 fail (half_done, 7)).1.deliveries
        1
      ≡ some x)
    × (x.status ≡ pending)
    × (x.attempts ≡ 1)
    × (x.available_at ≡ add_duration 11 (retry_delay default_policy 1))
    × (x.locked_at ≡ 0)
    × (x.last_error ≡ "down")
    × ((process_next true "audit_trail" [] default_policy 10 11 fail (half_done, 7)).2 ≡ 7)
process_next_failure_example =
    process_next_failure true "audit_trail" [] default_policy 10 11 fail half_done 7 taken second
      second_claimed refl "down" 8 8 refl eight_attempts
