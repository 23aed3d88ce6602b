-- ===== src/Scheduler/Claiming.antt =====
-- The ledger rows that one occurrence of internal/core/service/scheduled_payments.go writes.
use billpiggy.Base.{
  ◌≡◌, refl, inl, inr, Bool, true, false, not, String, List, Option, none, some, Comparable, ◌==◌,
  string_eq, if◌then◌else◌, Option-cases, Bool-cases,
}
use billpiggy.Base.Assoc.{lookup, insert, lookup-insert, lookup-insert_self}
use billpiggy.Clock.{Time}
use billpiggy.Payments.{
  ScheduledPayment, ScheduledPaymentPosting, PostingKind, due, scheduled_payment_finished,
  next_due_for,
}
use billpiggy.Ledger.{
  PaymentRepository, PostingKey, posting_eq, key_of_posting, claim_posting, advance_schedule,
  is_set,
}
use billpiggy.Scheduler.{
  Ports, Ran, nothing_posted, posted_one, failed, ClaimError, posting_exists, other_error,
  occurrence, claim_and_notify, notified, advanced, reminded, move_on, expensed, after_claim,
}

abbrev pub due_key : ScheduledPayment → PostingKey
due_key p = key_of_posting (occurrence p due "" 0)

abbrev pub is_posted : Ran → Bool
is_posted nothing_posted = false
is_posted posted_one = true
is_posted (failed e) = false

abbrev pub present : Option ScheduledPaymentPosting → Bool
present none = false
present (some x) = true

-- The ledger has a row for the key.
abbrev pub held : PostingKey → PaymentRepository → Bool
held k r = present (lookup k r.postings)

present-insert :
    {K : Type 0} ⦃comparable : Comparable K⦄ (k j : K) (x : ScheduledPaymentPosting)
    (m : List (K × ScheduledPaymentPosting))
    → present (lookup j m) ≡ true
    → present (lookup j (insert k x m)) ≡ true
present-insert k j x m h = rw (lookup-insert k j x m) (chosen (k == j))
  where
    chosen : (b : Bool) → present (if b then some x else lookup j m) ≡ true
    chosen true = refl
    chosen false = h

pub present-insert_self :
    {K : Type 0} ⦃comparable : Comparable K⦄ (k : K) (x : ScheduledPaymentPosting)
    (m : List (K × ScheduledPaymentPosting))
    → present (lookup k (insert k x m)) ≡ true
present-insert_self k x m = rw (lookup-insert_self k x m) refl

module _ {ℓ} {W : Type ℓ} (ports : Ports W) where
  pub advance_keeps :
      (ran : Ran) (id : String) (next last : Time) (paused : Bool) (r : PaymentRepository) (w : W)
      → (advanced ports ran (r, w) (advance_schedule id next last paused r)).1.postings ≡ r.postings
  unfolding advance_schedule
  advance_keeps ran id next last paused r w = found (lookup id r.payments)
    where
      kept :
          (p : ScheduledPayment) (b : Bool)
          → (advanced ports ran
              (r, w)
              (if b
                then none
                else some (record r {
                  payments =
                      insert id
                        (record p {
                          next_due_at = next;
                          last_posted_at = some last;
                          paused = paused;
                        })
                        r.payments;
                }))).1.postings
            ≡ r.postings
      kept p true = refl
      kept p false = refl

      found :
          (o : Option ScheduledPayment)
          → (advanced ports ran
              (r, w)
              (elim o [
                | none ↦ none
                | some p ↦
                    if is_set p.deleted_at
                    then none
                    else some (record r {
                      payments =
                          insert id
                            (record p {
                              next_due_at = next;
                              last_posted_at = some last;
                              paused = paused;
                            })
                            r.payments;
                    })
              ])).1.postings
            ≡ r.postings
      found none = refl
      found (some p) = kept p (is_set p.deleted_at)

  pub advance_silent :
      (r : PaymentRepository) (w : W) (o : Option PaymentRepository)
      → is_posted (advanced ports nothing_posted (r, w) o).0 ≡ false
  advance_silent r w none = refl
  advance_silent r w (some r') = refl

  pub move_on_keeps :
      (p : ScheduledPayment) (r : PaymentRepository) (w : W)
      → (move_on ports p (r, w)).1.postings ≡ r.postings
  unfolding move_on
  move_on_keeps p r w =
      let next = next_due_for p p.next_due_at in
      advance_keeps posted_one p.id next p.next_due_at (scheduled_payment_finished p next) r w

  pub expensed_keeps :
      (p : ScheduledPayment) (r : PaymentRepository) (o : Option String × W)
      → (expensed ports p r o).1.postings ≡ r.postings
  expensed_keeps p r (none, w) = move_on_keeps p r w
  expensed_keeps p r (some e, w) = refl

  pub after_claim_keeps :
      (p : ScheduledPayment) (id : String) (now : Time) (o : Option ClaimError)
      (r : PaymentRepository) (w : W)
      → (after_claim ports p id now (o, r, w)).1.postings ≡ r.postings
  unfolding after_claim
  after_claim_keeps p id now (some posting_exists) r w = refl
  after_claim_keeps p id now (some (other_error e)) r w = refl
  after_claim_keeps p id now none r w = elim (Bool-cases (id == "")) [
    | inl e ↦ rw e (move_on_keeps p r w)
    | inr e ↦ rw e (expensed_keeps p r _)
  ]

  -- Only an occurrence that was claimed without an error is posted.
  pub after_claim_posted :
      (p : ScheduledPayment) (id : String) (now : Time) (o : Option ClaimError)
      (r : PaymentRepository) (w : W)
      → is_posted (after_claim ports p id now (o, r, w)).0 ≡ true
      → ◌≡◌ {A = Option ClaimError} o none
  unfolding after_claim
  after_claim_posted p id now none r w h = refl
  after_claim_posted p id now (some posting_exists) r w h = cc
  after_claim_posted p id now (some (other_error e)) r w h = cc

  module _ (p : ScheduledPayment) (kind : PostingKind) (id : String) (now : Time)
      (r : PaymentRepository) (w : W) where
    abbrev claim_key : PostingKey
    claim_key = key_of_posting (occurrence p kind id now)

    notified_keeps : (s : PaymentRepository) (o : Option String × W) → (notified ports s o).1 ≡ s
    notified_keeps s (none, v) = refl
    notified_keeps s (some e, v) = refl

    abbrev claimed_repo : PaymentRepository
    claimed_repo = record r { postings = insert claim_key (occurrence p kind id now) r.postings }

    pub claim_held :
        (k : PostingKey)
        → held k r ≡ true
        → held k (claim_and_notify ports p kind id now (r, w)).1 ≡ true
    unfolding claim_and_notify claim_posting
    claim_held k h = elim (Option-cases (lookup claim_key r.postings)) [
      | inl e ↦
          rw
            (
              e,
              notified_keeps (claimed_repo)
                  (ports.queue_notification p kind (not (id == "")) now w),
            )
            (present-insert claim_key k (occurrence p kind id now) r.postings h)
      | inr (x, e) ↦ rw e h
    ]

    pub claim_won :
        ◌≡◌ {A = Option ClaimError} (claim_and_notify ports p kind id now (r, w)).0 none
        → (held claim_key r ≡ false)
          × (held claim_key (claim_and_notify ports p kind id now (r, w)).1 ≡ true)
    unfolding claim_and_notify claim_posting
    claim_won h = elim (Option-cases (lookup claim_key r.postings)) [
      | inl e ↦ (
        rw e refl,
        rw
            (
              e,
              notified_keeps (claimed_repo)
                  (ports.queue_notification p kind (not (id == "")) now w),
            )
            (present-insert_self claim_key (occurrence p kind id now) r.postings),
      )
      | inr (x, e) ↦
          let k : ◌≡◌ {A = Option ClaimError} (some posting_exists) none = rw e at h in cc
    ]

  pub reminded_keeps : (o : Option ClaimError × PaymentRepository × W) → (reminded ports o).1 ≡ o.1
  reminded_keeps (none, r, w) = refl
  reminded_keeps (some posting_exists, r, w) = refl
  reminded_keeps (some (other_error e), r, w) = refl

  pub reminded_silent :
      (o : Option ClaimError × PaymentRepository × W) → is_posted (reminded ports o).0 ≡ false
  reminded_silent (none, r, w) = refl
  reminded_silent (some posting_exists, r, w) = refl
  reminded_silent (some (other_error e), r, w) = refl
