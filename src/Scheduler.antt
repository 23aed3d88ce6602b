-- ===== src/Scheduler.antt =====
-- internal/core/service/scheduled_payments.go: what PostDue does for one payment. The notification
-- repository, and the event store and expense repository that postExpense writes to, are parameters:
-- operations on a state `W` that may fail, with `post` what the unit of work of postExpense does.
-- Texts of errors do not wrap one another here.
pub mod Claiming
pub mod Runs
pub mod Posts
pub mod Failures
use billpiggy.Base.{
  ℕ, zero, suc, Bool, true, false, not, ◌&&◌, ◌||◌, String, List, [], ◌∷◌, Option, none, some, ◌==◌,
  string_eq, if◌then◌else◌,
}
use billpiggy.Base.Int.{ℤ, pos}
use billpiggy.Clock.{Time, before, after}
use billpiggy.Payments.{
  ScheduledPayment, ScheduledPaymentPosting, PostingKind, reminder, due, reminder_due_at,
  scheduled_payment_finished, next_due_for,
}
use billpiggy.Projections.{ExpenseRecord}
use billpiggy.Ledger.{PaymentRepository, claim_posting, advance_schedule, is_set}

pub record Ports {ℓ} (W : Type ℓ) : Type ℓ where
  pub posts_expenses : Bool
  pub new_id : W → String × W
  pub queue_notification : ScheduledPayment → PostingKind → Bool → Time → W → Option String × W
  pub post : ScheduledPayment → ExpenseRecord → Time → Time → W → Option String × W

-- The expense that postExpense writes.
unfoldable pub posted_expense : ScheduledPayment → String → Time → Time → ExpenseRecord
posted_expense p id due_at now = record {
  id = id;
  owner_id = p.owner_id;
  title = p.title;
  amount_minor = p.amount_minor;
  currency = p.currency;
  occurred_at = due_at;
  category_id = p.category_id;
  category_name = p.category_name;
  tag_ids = p.tag_ids;
  status = if p.shared_group_id == "" then "confirmed" else "shared";
  shared_group_id = p.shared_group_id;
  items = [];
  latitude = none;
  longitude = none;
  address = "";
  receipt_object_key = "";
  created_at = now;
  updated_at = now;
  deleted_at = none;
}

pub data ClaimError : Type 0 where
  posting_exists : ClaimError
  other_error : String → ClaimError

abbrev pub occurrence : ScheduledPayment → PostingKind → String → Time → ScheduledPaymentPosting
occurrence p kind expense_id now = record {
  scheduled_payment_id = p.id;
  due_at = p.next_due_at;
  kind = kind;
  expense_id = expense_id;
  posted_at = now;
}

-- The counts and errors that runOccurrence returns: (0, nil), (1, nil) and (0, err).
pub data Ran : Type 0 where
  nothing_posted posted_one : Ran
  failed : String → Ran

module _ {ℓ} {W : Type ℓ} (ports : Ports W) where
  abbrev pub notified :
      PaymentRepository → Option String × W → Option ClaimError × PaymentRepository × W
  notified r (none, w) = (none, r, w)
  notified r (some e, w) = (some (other_error e), r, w)

  abbrev pub notify_claimed :
      ScheduledPayment
      → PostingKind
      → String
      → Time
      → PaymentRepository × W
      → Option PaymentRepository
      → Option ClaimError × PaymentRepository × W
  notify_claimed p kind expense_id now (r, w) none = (some posting_exists, r, w)
  notify_claimed p kind expense_id now (r, w) (some r') =
      notified r' (ports.queue_notification p kind (not (expense_id == "")) now w)

  -- claimAndNotify, `none` for no error
  unfoldable pub claim_and_notify :
      ScheduledPayment
      → PostingKind
      → String
      → Time
      → PaymentRepository × W
      → Option ClaimError × PaymentRepository × W
  claim_and_notify p kind expense_id now (r, w) =
      notify_claimed p kind expense_id now (r, w)
        (claim_posting (occurrence p kind expense_id now) r)

  abbrev pub advanced :
      Ran → PaymentRepository × W → Option PaymentRepository → Ran × PaymentRepository × W
  advanced ran (r, w) none = (failed "not found", r, w)
  advanced ran (r, w) (some r') = (ran, r', w)

  abbrev pub reminded : Option ClaimError × PaymentRepository × W → Ran × PaymentRepository × W
  reminded (none, r, w) = (nothing_posted, r, w)
  reminded (some posting_exists, r, w) = (nothing_posted, r, w)
  reminded (some (other_error e), r, w) = (failed e, r, w)

  -- The part of runOccurrence after postExpense.
  unfoldable pub move_on : ScheduledPayment → PaymentRepository × W → Ran × PaymentRepository × W
  move_on p (r, w) =
      let next = next_due_for p p.next_due_at in
      advanced posted_one (r, w)
        (advance_schedule p.id next p.next_due_at (scheduled_payment_finished p next) r)

  abbrev pub expensed :
      ScheduledPayment → PaymentRepository → Option String × W → Ran × PaymentRepository × W
  expensed p r (none, w) = move_on p (r, w)
  expensed p r (some e, w) = (failed e, r, w)

  -- The part of it after claimAndNotify.
  unfoldable pub after_claim :
      ScheduledPayment
      → String
      → Time
      → Option ClaimError × PaymentRepository × W
      → Ran × PaymentRepository × W
  after_claim p expense_id now (some posting_exists, r, w) = (nothing_posted, r, w)
  after_claim p expense_id now (some (other_error e), r, w) = (failed e, r, w)
  after_claim p expense_id now (none, r, w) =
      if expense_id == ""
      then move_on p (r, w)
      else expensed p r
          (ports.post p (posted_expense p expense_id p.next_due_at now) p.next_due_at now w)

  abbrev pub fresh_id : ScheduledPayment → W → String × W
  fresh_id p w = if p.auto_post && ports.posts_expenses then ports.new_id w else ("", w)

  abbrev pub run_due :
      ScheduledPayment → Time → PaymentRepository → String × W → Ran × PaymentRepository × W
  run_due p now r (expense_id, w) =
      after_claim p expense_id now (claim_and_notify p due expense_id now (r, w))

  abbrev pub reminder_open : Option Time → ScheduledPayment → Time → Bool
  reminder_open none p now = false
  reminder_open (some at) p now = not (before now at) && before now p.next_due_at

  -- runOccurrence
  unfoldable pub run_occurrence :
      ScheduledPayment → Time → PaymentRepository × W → Ran × PaymentRepository × W
  run_occurrence p now (r, w) =
      if p.paused || is_set p.deleted_at
      then (nothing_posted, r, w)
      else if reminder_open (reminder_due_at p p.next_due_at) p now
      then reminded (claim_and_notify p reminder "" now (r, w))
      else if before now p.next_due_at
      then (nothing_posted, r, w)
      else if scheduled_payment_finished p p.next_due_at
      then advanced nothing_posted (r, w) (advance_schedule p.id p.next_due_at p.next_due_at true r)
      else run_due p now r (fresh_id p w)

-- The loop of rescheduleFrom, with `left` of its 1000 steps to go.
unfoldable pub walk_past : ℕ → ScheduledPayment → Time → Time → Time
walk_past zero p last next = next
walk_past (suc left) p last next =
    let later = walk_past left p last (next_due_for p next) in
    if after next last then next else later

-- rescheduleFrom
unfoldable pub reschedule_from : ScheduledPayment → Time
reschedule_from p = elim p.last_posted_at [
  | none ↦ p.start_date
  | some last ↦ walk_past 1000 p last p.start_date
]

-- The loop of PostDue, over the payments that are due: how many occurrences were posted, and the
-- errors, in the order of the payments.
abbrev counted : Ran → ℕ × List String → ℕ × List String
counted nothing_posted (n, errors) = (n, errors)
counted posted_one (n, errors) = (suc n, errors)
counted (failed e) (n, errors) = (n, e ∷ errors)

module _ {ℓ} {W : Type ℓ} (ports : Ports W) where
  unfoldable pub post_all :
      List ScheduledPayment
      → Time
      → PaymentRepository × W
      → (ℕ × List String) × PaymentRepository × W
  post_all [] now (r, w) = ((0, []), r, w)
  post_all (p ∷ payments) now (r, w) =
      let (ran, r', w') = run_occurrence ports p now (r, w) in
      let (sums, r'', w'') = post_all payments now (r', w') in (counted ran sums, r'', w'')
