-- ===== src/Scheduler/Failures.antt =====
-- internal/core/service/scheduled_payments.go: what follows a run of runOccurrence that fails.
use billpiggy.Base.{
  leb, ◌≤◌, ◌≡◌, refl, sym, subst, ap, ◌∙◌, Bool, true, false, ◌&&◌, ◌||◌, String, List, [], ◌∷◌,
  not, inl, inr, Option-cases, Bool-cases, Option, none, some, ◌==◌, string_eq, arith,
}
use billpiggy.Base.Assoc.{lookup, insert}
use billpiggy.Clock.{Time, before}
use billpiggy.Payments.{
  ScheduledPayment, ScheduledPaymentPosting, due, reminder_due_at, scheduled_payment_finished,
}
use billpiggy.Ledger.{PaymentRepository, posting_eq, claim_posting, is_set}
use billpiggy.Scheduler.{
  Ports, Ran, nothing_posted, posted_one, failed, ClaimError, posting_exists, other_error,
  occurrence, claim_and_notify, notified, advanced, move_on, expensed, after_claim, fresh_id,
  run_due, run_occurrence,
}
use billpiggy.Scheduler.Runs.{last_branch, closed_reminder}
use billpiggy.Scheduler.Posts.{Recorded, recording, fresh_id_posted}
use billpiggy.Scheduler.Claiming.{due_key, held, present-insert_self}

-- The state after runs for one payment at the times.
unfoldable pub reruns {ℓ} :
    {W : Type ℓ}
    → Ports W
    → ScheduledPayment
    → List Time
    → PaymentRepository × W
    → PaymentRepository × W
reruns ports p [] s = s
reruns ports p (now ∷ later) s =
    let (_, r', w') = run_occurrence ports p now s in reruns ports p later (r', w')

unfoldable pub all_from : Time → List Time → Bool
all_from start [] = true
all_from start (now ∷ later) = leb start now && all_from start later

module _ {ℓ} {W : Type ℓ} (ports : Ports W) where
  run_due_row :
      (p : ScheduledPayment) (now : Time) (r : PaymentRepository) (x : ScheduledPaymentPosting)
      → lookup (due_key p) r.postings ≡ some x
      → (o : String × W) → run_due ports p now r o ≡ (nothing_posted, r, o.1)
  unfolding claim_and_notify claim_posting after_claim
  run_due_row p now r x row (id, w) = rw row refl

  -- A run of a payment that is neither paused, deleted nor finished, from its due date on.
  running_run :
      (p : ScheduledPayment) (now : Time) (r : PaymentRepository) (w : W)
      → (p.paused || is_set p.deleted_at) ≡ false
      → p.next_due_at ≤ now
      → scheduled_payment_finished p p.next_due_at ≡ false
      → run_occurrence ports p now (r, w) ≡ run_due ports p now r (fresh_id ports p w)
  unfolding run_occurrence
  running_run p now r w running arrived unfinished =
      let late : before now p.next_due_at ≡ false = ground arith in
      last_branch _ _ _ _ _ _ _ _ running
        (closed_reminder ports (reminder_due_at p p.next_due_at) p now late) late unfinished

  -- A run for an occurrence that has a row does nothing.
  handled_run :
      (p : ScheduledPayment) (now : Time) (r : PaymentRepository) (w : W)
      → held (due_key p) r ≡ true
      → (p.paused || is_set p.deleted_at) ≡ false
      → p.next_due_at ≤ now
      → scheduled_payment_finished p p.next_due_at ≡ false
      → run_occurrence ports p now (r, w) ≡ (nothing_posted, r, (fresh_id ports p w).1)
  handled_run p now r w row running arrived unfinished =
      running_run p now r w running arrived unfinished
      ∙ elim (Option-cases (lookup (due_key p) r.postings)) [
        | inl n ↦ let no_row : false ≡ true = rw n at row in cc
        | inr (x, n) ↦ run_due_row p now r x n (fresh_id ports p w)
      ]

  advanced_failed :
      (ran : Ran) (r : PaymentRepository) (w : W) (o : Option PaymentRepository) (e : String)
      → (ran ≡ posted_one)
      → (advanced ports ran (r, w) o).0 ≡ failed e
      → (advanced ports ran (r, w) o).1 ≡ r
  advanced_failed ran r w none e kind h = refl
  advanced_failed ran r w (some r') e kind h = cc

  expensed_failed :
      (p : ScheduledPayment) (r : PaymentRepository) (o : Option String × W) (e : String)
      → (expensed ports p r o).0 ≡ failed e
      → (expensed ports p r o).1 ≡ r
  unfolding move_on
  expensed_failed p r (none, w) e h = advanced_failed posted_one r w _ e refl h
  expensed_failed p r (some x, w) e h = refl

  after_claim_failed :
      (p : ScheduledPayment) (id : String) (now : Time) (o : Option ClaimError)
      (r : PaymentRepository) (w : W) (e : String)
      → (after_claim ports p id now (o, r, w)).0 ≡ failed e
      → (after_claim ports p id now (o, r, w)).1 ≡ r
  unfolding after_claim move_on
  after_claim_failed p id now (some posting_exists) r w e h = refl
  after_claim_failed p id now (some (other_error x)) r w e h = refl
  after_claim_failed p id now none r w e h = elim (Bool-cases (id == "")) [
    | inl empty ↦ rw empty (advanced_failed posted_one r w _ e refl (rw empty at h))
    | inr drawn ↦ rw drawn (expensed_failed p r _ e (rw drawn at h))
  ]

  notified_first : (r : PaymentRepository) (o : Option String × W) → (notified ports r o).1 ≡ r
  notified_first r (none, w) = refl
  notified_first r (some e, w) = refl

  -- After claimAndNotify the occurrence has a row, and the payments are as before.
  claim_leaves :
      (p : ScheduledPayment) (id : String) (now : Time) (r : PaymentRepository) (w : W)
      → (held (due_key p) (claim_and_notify ports p due id now (r, w)).1 ≡ true)
        × ((claim_and_notify ports p due id now (r, w)).1.payments ≡ r.payments)
  unfolding claim_and_notify claim_posting
  claim_leaves p id now r w = elim (Option-cases (lookup (due_key p) r.postings)) [
    | inl n ↦
        let row = occurrence p due id now in
        let r' = record r { postings = insert (due_key p) row r.postings } in
        rw (n, notified_first r' (ports.queue_notification p due (not (id == "")) now w))
          (present-insert_self (due_key p) row r.postings, refl)
    | inr (x, n) ↦ (rw n (rw n refl), rw n refl)
  ]

  run_due_failed :
      (p : ScheduledPayment) (now : Time) (r : PaymentRepository) (o : String × W) (e : String)
      → (run_due ports p now r o).0 ≡ failed e
      → (held (due_key p) (run_due ports p now r o).1 ≡ true)
        × ((run_due ports p now r o).1.payments ≡ r.payments)
  run_due_failed p now r (id, w) e h =
      let (x, r', w') = claim_and_notify ports p due id now (r, w) in
      let same = after_claim_failed p id now x r' w' e h in
      let claimed = claim_leaves p id now r w in
      (rw same claimed.0, ap (λ (s : PaymentRepository). s.payments) same ∙ claimed.1)

  stopped_run :
      (p : ScheduledPayment) (now : Time) (r : PaymentRepository) (w : W)
      → (p.paused || is_set p.deleted_at) ≡ true
      → (run_occurrence ports p now (r, w)).0 ≡ nothing_posted
  unfolding run_occurrence
  stopped_run p now r w h = rw h refl

  failed_runs :
      (p : ScheduledPayment) (now : Time) (r : PaymentRepository) (w : W) (e : String)
      → (run_occurrence ports p now (r, w)).0 ≡ failed e
      → (p.paused || is_set p.deleted_at) ≡ false
  failed_runs p now r w e h = elim (Bool-cases (p.paused || is_set p.deleted_at)) [
    | inl stopped ↦ let silent = stopped_run p now r w stopped in cc
    | inr running ↦ running
  ]

  -- A run that fails from the due date on has written the row, and moved no cursor.
  failed_run :
      (p : ScheduledPayment) (now : Time) (r : PaymentRepository) (w : W) (e : String)
      → p.next_due_at ≤ now
      → scheduled_payment_finished p p.next_due_at ≡ false
      → (run_occurrence ports p now (r, w)).0 ≡ failed e
      → (held (due_key p) (run_occurrence ports p now (r, w)).1 ≡ true)
        × ((run_occurrence ports p now (r, w)).1.payments ≡ r.payments)
  failed_run p now r w e arrived unfinished h =
      let same = running_run p now r w (failed_runs p now r w e h) arrived unfinished in
      let first = run_due_failed p now r (fresh_id ports p w) e (rw same at h) in rw same first

module _ {ℓ} {W : Type ℓ} (ports : Ports W) where
  handled_reruns :
      (p : ScheduledPayment) (later : List Time) (r : PaymentRepository) (v : Recorded W)
      → held (due_key p) r ≡ true
      → (p.paused || is_set p.deleted_at) ≡ false
      → all_from p.next_due_at later ≡ true
      → scheduled_payment_finished p p.next_due_at ≡ false
      → ((reruns (recording ports) p later (r, v)).0 ≡ r)
        × ((reruns (recording ports) p later (r, v)).1.posted ≡ v.posted)
  unfolding reruns all_from
  handled_reruns p [] r v row running after unfinished = (refl, refl)
  handled_reruns p (now ∷ later) r v row running after unfinished =
      let u = (fresh_id (recording ports) p v).1 in
      let rest = handled_reruns p later r u row running (ground (arith, after)) unfinished in
      subst
        (λ (o : Ran × PaymentRepository × Recorded W).
          ((reruns (recording ports) p later (o.1, o.2)).0 ≡ r)
          × ((reruns (recording ports) p later (o.1, o.2)).1.posted ≡ v.posted))
        (sym
          (handled_run (recording ports) p now r v row running (ground (arith, after)) unfinished))
        (rest.0, rest.1 ∙ fresh_id_posted ports p v)

  -- Where a run fails from the due date on, for a payment that is not finished (its notification, its
  -- expense or the write of its cursor was refused), then all later runs of it, at any times from
  -- the due date on, leave payments and ledger as that run left them and call postExpense for
  -- nothing; the payments, and with them the cursor, are the ones from before the failure.
  pub failed_run-is_final :
      (p : ScheduledPayment) (now : Time) (later : List Time) (r : PaymentRepository)
      (v : Recorded W) (e : String)
      → p.next_due_at ≤ now
      → scheduled_payment_finished p p.next_due_at ≡ false
      → (run_occurrence (recording ports) p now (r, v)).0 ≡ failed e
      → all_from p.next_due_at later ≡ true
      → let (_, r', v') = run_occurrence (recording ports) p now (r, v) in
        (r'.payments ≡ r.payments)
        × ((reruns (recording ports) p later (r', v')).0 ≡ r')
        × ((reruns (recording ports) p later (r', v')).1.posted ≡ v'.posted)
  failed_run-is_final p now later r v e arrived unfinished h after =
      let first = failed_run (recording ports) p now r v e arrived unfinished h in
      let (_, r', v') = run_occurrence (recording ports) p now (r, v) in
      let rest =
        handled_reruns p later r' v' first.0 (failed_runs (recording ports) p now r v e h) after
          unfinished in
      (first.1, rest.0, rest.1)
