-- ===== src/Scheduler/Runs.antt =====
-- internal/core/service/scheduled_payments.go: what one run of runOccurrence leaves of the ledger.
use billpiggy.Base.{
  ◌≡◌, refl, Bool, true, false, ◌||◌, String, Option, none, some, string_eq, if◌then◌else◌, arith,
}
use billpiggy.Clock.{Time, before}
use billpiggy.Payments.{
  ScheduledPayment, reminder, due, reminder_due_at, scheduled_payment_finished,
}
use billpiggy.Ledger.{PaymentRepository, PostingKey, posting_eq, is_set}
use billpiggy.Scheduler.{
  Ports, Ran, nothing_posted, claim_and_notify, fresh_id, run_due, run_occurrence, reminder_open,
}
use billpiggy.Scheduler.Claiming.{
  held, advance_keeps, after_claim_keeps, claim_held, reminded_keeps,
}

-- What holds of every branch holds of the choice.
pub branches {ℓ κ} :
    {A : Type ℓ} (holds : A → Type κ) (x y z v : A)
    → holds x
    → holds y
    → holds z
    → holds v
    → (a b c d : Bool)
    → holds (if a then x else if b then y else if c then x else if d then z else v)
branches holds x y z v hx hy hz hv true b c d = hx
branches holds x y z v hx hy hz hv false true c d = hy
branches holds x y z v hx hy hz hv false false true d = hx
branches holds x y z v hx hy hz hv false false false true = hz
branches holds x y z v hx hy hz hv false false false false = hv

pub last_branch {ℓ} :
    {A : Type ℓ} (x y z v : A) (a b c d : Bool)
    → a ≡ false
    → b ≡ false
    → c ≡ false
    → d ≡ false
    → (if a then x else if b then y else if c then x else if d then z else v) ≡ v
last_branch x y z v a b c d ea eb ec ed = rw (ea, eb, ec, ed) refl

module _ {ℓ} {W : Type ℓ} (ports : Ports W) where
  run_due-held :
      (k : PostingKey) (p : ScheduledPayment) (now : Time) (r : PaymentRepository) (o : String × W)
      → held k r ≡ true
      → held k (run_due ports p now r o).1 ≡ true
  run_due-held k p now r (id, w) h =
      let won = claim_held ports p due id now r w k h in
      let (e, r', w') = claim_and_notify ports p due id now (r, w) in
      rw (after_claim_keeps ports p id now e r' w') won

  -- A row of the ledger stays.
  pub run_held :
      (k : PostingKey) (p : ScheduledPayment) (now : Time) (r : PaymentRepository) (w : W)
      → held k r ≡ true
      → held k (run_occurrence ports p now (r, w)).1 ≡ true
  unfolding run_occurrence
  run_held k p now r w h =
      branches (λ (o : Ran × PaymentRepository × W). held k o.1 ≡ true) _ _ _ _ h
        (rw (reminded_keeps ports (claim_and_notify ports p reminder "" now (r, w)))
          (claim_held ports p reminder "" now r w k h))
        (rw (advance_keeps ports nothing_posted p.id p.next_due_at p.next_due_at true r w) h)
        (run_due-held k p now r (fresh_id ports p w) h) (p.paused || is_set p.deleted_at)
        (reminder_open ports (reminder_due_at p p.next_due_at) p now) (before now p.next_due_at)
        (scheduled_payment_finished p p.next_due_at)

  pub closed_reminder :
      (o : Option Time) (p : ScheduledPayment) (now : Time)
      → before now p.next_due_at ≡ false
      → reminder_open ports o p now ≡ false
  closed_reminder none p now late = refl
  closed_reminder (some at) p now late = ground arith
