-- ===== src/Tests/Schedule.antt =====
-- One payment of internal/core/service/scheduled_payments.go that posts expenses: with a notification
-- repository that is up, and with one that is down at first.
use billpiggy.Base.{
  ℕ, suc, ◌+◌, ◌≤◌, ◌≡◌, refl, ◌==◌, nat_eq, string_eq, if◌then◌else◌, true, false, List, [], ◌∷◌,
  none, some, arith,
}
use billpiggy.Base.Int.{pos, wrap64}
use billpiggy.Base.Assoc.{lookup, insert}
use billpiggy.Clock.{Time, unix_nano}
use billpiggy.Payments.{
  ScheduledPayment, monthly, scheduled_payment_finished, reminder_due_at, next_due_for,
}
use billpiggy.Ledger.{posting_eq, PaymentRepository, claim_posting, advance_schedule}
use billpiggy.Scheduler.{Ports, failed, run_occurrence, claim_and_notify, after_claim, move_on}
use billpiggy.Scheduler.Claiming.{due_key, held}
use billpiggy.Scheduler.Posts.{Recorded, recording, times, after_runs, posted-at_most_once}
use billpiggy.Scheduler.Failures.{reruns, all_from, failed_run-is_final}

-- The number counts the notifications asked for; the first one fails.
abbrev flaky : Ports ℕ
flaky = record {
  posts_expenses = true;
  new_id = λ n. ("id", n);
  queue_notification = λ p kind auto_posted now n. (if n == 0 then some "down" else none, suc n);
  post = λ p e due_at now n. (none, n);
}

abbrev rent : ScheduledPayment
rent = record {
  id = "p1";
  owner_id = "u1";
  title = "rent";
  amount_minor = pos 90000;
  currency = "EUR";
  category_id = "";
  category_name = "";
  tag_ids = [];
  shared_group_id = "";
  frequency = monthly;
  custom_interval_days = pos 0;
  start_date = 100;
  end_date = none;
  next_due_at = 100;
  last_posted_at = none;
  auto_post = true;
  reminder_days_before = pos 0;
  paused = false;
  created_at = 1;
  updated_at = 1;
  deleted_at = none;
}

abbrev with_rent : PaymentRepository
with_rent = record { payments = ("p1", rent) ∷ []; postings = [] }

abbrev none_yet : ℕ → Recorded ℕ
none_yet n = record { posted = []; world = n }

first_run : (run_occurrence (recording flaky) rent 100 (with_rent, none_yet 0)).0 ≡ failed "down"
unfolding run_occurrence claim_and_notify claim_posting after_claim lookup insert
    scheduled_payment_finished reminder_due_at
first_run = refl

unfinished : scheduled_payment_finished rent 100 ≡ false
unfolding scheduled_payment_finished
unfinished = refl

failed_run-is_final_example :
    let (_, r', v') = run_occurrence (recording flaky) rent 100 (with_rent, none_yet 0) in
    (r'.payments ≡ with_rent.payments)
    × ((reruns (recording flaky) rent (160 ∷ 220 ∷ []) (r', v')).0 ≡ r')
    × ((reruns (recording flaky) rent (160 ∷ 220 ∷ []) (r', v')).1.posted ≡ v'.posted)
unfolding all_from
failed_run-is_final_example =
    failed_run-is_final flaky rent 100 (160 ∷ 220 ∷ []) with_rent (none_yet 0) "down" (omega arith)
      unfinished first_run refl

abbrev three_runs : List (ScheduledPayment × Time)
three_runs = (rent, 99) ∷ (rent, 100) ∷ (rent, 101) ∷ []

posted-at_most_once_example :
    times (due_key rent) (after_runs flaky three_runs (with_rent, none_yet 5)).1.posted
      + (if held (due_key rent) with_rent then 1 else 0)
    ≤ 1
posted-at_most_once_example = posted-at_most_once flaky (due_key rent) three_runs with_rent 5

-- The second run posts.
posted_once :
    times (due_key rent) (after_runs flaky three_runs (with_rent, none_yet 5)).1.posted ≡ 1
unfolding times after_runs run_occurrence claim_and_notify claim_posting after_claim lookup insert
    scheduled_payment_finished reminder_due_at move_on advance_schedule next_due_for unix_nano
    wrap64
posted_once = refl
