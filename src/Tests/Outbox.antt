-- ===== src/Tests/Outbox.antt =====
-- pkg/outbox at concrete policies, and an engine over a store that always has a message.
use billpiggy.Base.{
  ℕ, suc, ◌*◌, ◌^◌, ◌≤◌, ◌≡◌, refl, min, false, some, [], arith, length, ◌==◌, nat_eq,
  if◌then◌else◌,
}
use billpiggy.Base.Int.{pos}
use billpiggy.Outbox.{Policy, retry_delay, Message, processed, retried}
use billpiggy.Outbox.Backoff.{retry_delay_closed_form}
use billpiggy.Outbox.Engine.{
  Store, Polled, store_error, polled, new_engine, run_round, max_drain_of,
}
use billpiggy.Outbox.Draining.{messages_taken, Counted, run_round-total}

abbrev quick : Policy
quick = record {
  max_attempts = pos 8;
  base_backoff = pos 3;
  max_backoff = pos 20;
  lease_ttl = pos 60;
}

retry_delay_closed_form_example : retry_delay quick 4 ≡ pos (min 20 (3 * 2 ^ 3))
retry_delay_closed_form_example =
    retry_delay_closed_form quick 3 3 20 refl refl (omega arith) (omega arith) (omega arith)

abbrev message : Message
message = record {
  outbox_id = ("audit_trail", 1);
  event_id = "a";
  global_seq = 1;
  aggregate_type = "expense";
  aggregate_id = "e1";
  aggregate_version = 1;
  event_type = "expense_added";
  payload = [];
  metadata = [];
  occurred_at = 5;
  attempts = 1;
  replay = false;
}

-- The third message is retried, and the fourth poll fails.
abbrev poll : ℕ → Polled
poll n =
    if n == 2
    then polled (retried message "down")
    else if n == 3
    then store_error "gone"
    else polled (processed message)

abbrev busy : Store ℕ
busy = record { process_next = λ n. (poll n, suc n); lag = λ n. some 1; clock = λ n. n }

run_round-total_example :
    (length (messages_taken busy (max_drain_of (pos 9)) 0) ≤ max_drain_of (pos 9))
    × Counted new_engine
        (run_round busy (pos 9) (new_engine, 0)).0
        (messages_taken busy (max_drain_of (pos 9)) 0)
run_round-total_example = run_round-total busy (pos 9) new_engine 0

three_taken : length (messages_taken busy 9 0) ≡ 3
unfolding messages_taken
three_taken = refl
