-- ===== src/Scheduler/Posts.antt =====
-- internal/core/service/scheduled_payments.go: how often postExpense is called for an occurrence.
use billpiggy.Base.{
  equals_iff, ℕ, ◌+◌, ◌≤◌, ◌≡◌, refl, subst, ◌∙◌, true, false, ◌&&◌, ◌||◌, String, List, [], ◌∷◌,
  not, inl, inr, Option-cases, Bool-cases, Option, none, some, ◌==◌, string_eq, if◌then◌else◌,
  arith,
}
use billpiggy.Clock.{Time, before, unix_nano}
use billpiggy.Payments.{
  ScheduledPayment, PostingKind, reminder, due, reminder_due_at, scheduled_payment_finished,
}
use billpiggy.Ledger.{PaymentRepository, PostingKey, posting_eq, claim_posting, is_set}
use billpiggy.Scheduler.{
  Ports, posted_expense, Ran, nothing_posted, posted_one, failed, ClaimError, posting_exists,
  other_error, occurrence, claim_and_notify, notified, advanced, reminded, move_on, expensed,
  after_claim, fresh_id, run_due, run_occurrence, reminder_open,
}
use billpiggy.Scheduler.Runs.{branches}
use billpiggy.Scheduler.Claiming.{
  due_key, held, advance_keeps, claim_held, claim_won, reminded_keeps, move_on_keeps,
  expensed_keeps,
}

-- A state beside which the occurrences are kept that postExpense was called for.
pub record Recorded {ℓ} (W : Type ℓ) : Type ℓ where
  pub posted : List PostingKey
  pub world : W

abbrev pub in_world {ℓ} : {A : Type 0} {W : Type ℓ} → Recorded W → A × W → A × Recorded W
in_world v (a, w) = (a, record v { world = w })

abbrev pub key_at : ScheduledPayment → Time → PostingKey
key_at p at = record { payment_id = p.id; due_at = unix_nano at; kind = due }

-- The same ports, where each call of postExpense is written down, whether it fails or not.
abbrev pub recording {ℓ} : {W : Type ℓ} → Ports W → Ports (Recorded W)
recording ports = record {
  posts_expenses = ports.posts_expenses;
  new_id = λ v. in_world v (ports.new_id v.world);
  queue_notification = λ p kind auto_posted now v.
      in_world v (ports.queue_notification p kind auto_posted now v.world);
  post = λ p expense at now v.
      in_world (record v { posted = key_at p at ∷ v.posted }) (ports.post p expense at now v.world);
}

unfoldable pub times : PostingKey → List PostingKey → ℕ
times k [] = 0
times k (j ∷ js) = (if j == k then 1 else 0) + times k js

-- What a run adds to the occurrences posted it also adds to the rows of the ledger.
pub record Bounded {ℓ} {W : Type ℓ} (k : PostingKey) (r : PaymentRepository) (v : Recorded W)
    (o : Ran × PaymentRepository × Recorded W) : Type 0 where
  pub bound :
      times k o.2.posted + (if held k r then 1 else 0)
      ≤ times k v.posted + (if held k o.1 then 1 else 0)

module _ {ℓ} {W : Type ℓ} (ports : Ports W) where
  advanced_posted :
      (ran : Ran) (r : PaymentRepository) (v : Recorded W) (o : Option PaymentRepository)
      → (advanced (recording ports) ran (r, v) o).2.posted ≡ v.posted
  advanced_posted ran r v none = refl
  advanced_posted ran r v (some r') = refl

  move_on_posted :
      (p : ScheduledPayment) (r : PaymentRepository) (v : Recorded W)
      → (move_on (recording ports) p (r, v)).2.posted ≡ v.posted
  unfolding move_on
  move_on_posted p r v = advanced_posted posted_one r v _

  expensed_posted :
      (p : ScheduledPayment) (r : PaymentRepository) (v : Recorded W) (o : Option String × W)
      → (expensed (recording ports) p r (in_world v o)).2.posted ≡ v.posted
  expensed_posted p r v (none, w) = move_on_posted p r (record v { world = w })
  expensed_posted p r v (some e, w) = refl

  notified_posted :
      (r : PaymentRepository) (v : Recorded W) (o : Option String × W)
      → (notified (recording ports) r (in_world v o)).2.posted ≡ v.posted
  notified_posted r v (none, w) = refl
  notified_posted r v (some e, w) = refl

  claim_posted :
      (p : ScheduledPayment) (kind : PostingKind) (id : String) (now : Time) (r : PaymentRepository)
      (v : Recorded W)
      → (claim_and_notify (recording ports) p kind id now (r, v)).2.posted ≡ v.posted
  unfolding claim_and_notify
  claim_posted p kind id now r v =
      elim (Option-cases (claim_posting (occurrence p kind id now) r)) [
        | inl e ↦ rw e refl
        | inr (r', e) ↦
            rw e
              (notified_posted r' v (ports.queue_notification p kind (not (id == "")) now v.world))
      ]

  reminded_posted :
      (o : Option ClaimError × PaymentRepository × Recorded W)
      → (reminded (recording ports) o).2.posted ≡ o.2.posted
  reminded_posted (none, r, v) = refl
  reminded_posted (some posting_exists, r, v) = refl
  reminded_posted (some (other_error e), r, v) = refl

  pub fresh_id_posted :
      (p : ScheduledPayment) (v : Recorded W) → (fresh_id (recording ports) p v).1.posted ≡ v.posted
  fresh_id_posted p v = elim (Bool-cases (p.auto_post && ports.posts_expenses)) [
    | inl h ↦ rw h refl
    | inr h ↦ rw h refl
  ]

  -- A run that calls postExpense for nothing and keeps the ledger's rows.
  quiet_Bounded :
      {k : PostingKey} {r : PaymentRepository} {v : Recorded W}
      (o : Ran × PaymentRepository × Recorded W)
      → o.2.posted ≡ v.posted
      → (held k r ≡ true → held k o.1 ≡ true)
      → Bounded k r v o
  quiet_Bounded {k} {r} {v} o same keeps = record { bound = rw same (ground (arith, keeps)) }

  -- A run that calls postExpense for an occurrence of which it has written the first row.
  posting_Bounded :
      (k j : PostingKey) {r : PaymentRepository} {v : Recorded W} (v' : Recorded W)
      (o : Ran × PaymentRepository × Recorded W)
      → o.2.posted ≡ j ∷ v'.posted
      → v'.posted ≡ v.posted
      → (held k r ≡ true → held k o.1 ≡ true)
      → ((held j r ≡ false) × (held j o.1 ≡ true))
      → Bounded k r v o
  unfolding times
  posting_Bounded k j {r} {v} v' o added same keeps won = record {
    bound = elim (Bool-cases (j == k)) [
      | inl hit ↦
          let key : j ≡ k = (equals_iff j k).0 hit in
          let here : (held k r ≡ false) × (held k o.1 ≡ true) =
            subst (λ i. (held i r ≡ false) × (held i o.1 ≡ true)) key won in
          rw (added, same, hit) (ground (arith, here.0, here.1))
      | inr miss ↦ rw (added, same, miss) (ground (arith, keeps))
    ];
  }

  after_claim-Bounded :
      (k : PostingKey) (p : ScheduledPayment) (id : String) (now : Time) (r r' : PaymentRepository)
      (v v' : Recorded W) (o : Option ClaimError)
      → v'.posted ≡ v.posted
      → (held k r ≡ true → held k r' ≡ true)
      → (◌≡◌ {A = Option ClaimError} o none
          → (held (due_key p) r ≡ false) × (held (due_key p) r' ≡ true))
      → Bounded k r v (after_claim (recording ports) p id now (o, r', v'))
  unfolding after_claim times
  after_claim-Bounded k p id now r r' v v' (some posting_exists) same keeps won =
      quiet_Bounded (nothing_posted, r', v') same keeps
  after_claim-Bounded k p id now r r' v v' (some (other_error e)) same keeps won =
      quiet_Bounded (failed e, r', v') same keeps
  after_claim-Bounded k p id now r r' v v' none same keeps won = elim (Bool-cases (id == "")) [
    | inl e ↦ rw e (
        quiet_Bounded (move_on (recording ports) p (r', v')) (move_on_posted p r' v' ∙ same)
          (λ h. rw (move_on_keeps (recording ports) p r' v') (keeps h)))
    | inr e ↦
        let u = record v' { posted = due_key p ∷ v'.posted } in
        let made =
          ports.post p (posted_expense p id p.next_due_at now) p.next_due_at now v'.world in
        let rows = expensed_keeps (recording ports) p r' (in_world u made) in
        rw e (
          posting_Bounded k (due_key p) v' (expensed (recording ports) p r' (in_world u made))
            (expensed_posted p r' u made) same (λ h. rw rows (keeps h))
            ((won refl).0, rw rows (won refl).1))
  ]

  run_due-Bounded :
      (k : PostingKey) (p : ScheduledPayment) (now : Time) (r : PaymentRepository) (v : Recorded W)
      (o : String × Recorded W)
      → o.1.posted ≡ v.posted
      → Bounded k r v (run_due (recording ports) p now r o)
  run_due-Bounded k p now r v (id, u) same =
      let (e, r', v') = claim_and_notify (recording ports) p due id now (r, u) in
      after_claim-Bounded k p id now r r' v v' e (claim_posted p due id now r u ∙ same)
        (claim_held (recording ports) p due id now r u k)
        (claim_won (recording ports) p due id now r u)

  run_occurrence-Bounded :
      (k : PostingKey) (p : ScheduledPayment) (now : Time) (r : PaymentRepository) (v : Recorded W)
      → Bounded k r v (run_occurrence (recording ports) p now (r, v))
  unfolding run_occurrence
  run_occurrence-Bounded k p now r v =
      branches (Bounded k r v) _ _ _ _ (quiet_Bounded (nothing_posted, r, v) refl (λ h. h))
        (quiet_Bounded _
          (reminded_posted (claim_and_notify (recording ports) p reminder "" now (r, v))
            ∙ claim_posted p reminder "" now r v)
          (λ h.
            rw
              (reminded_keeps (recording ports)
                (claim_and_notify (recording ports) p reminder "" now (r, v)))
              (claim_held (recording ports) p reminder "" now r v k h)))
        (quiet_Bounded _ (advanced_posted nothing_posted r v _) (λ h.
          rw
            (advance_keeps (recording ports) nothing_posted p.id p.next_due_at p.next_due_at true r
              v)
            h))
        (run_due-Bounded k p now r v (fresh_id (recording ports) p v) (fresh_id_posted p v))
        (p.paused || is_set p.deleted_at)
        (reminder_open (recording ports) (reminder_due_at p p.next_due_at) p now)
        (before now p.next_due_at) (scheduled_payment_finished p p.next_due_at)

  -- Runs of runOccurrence one after another, each for a payment as the scheduler read it and at a time.
  unfoldable pub after_runs :
      List (ScheduledPayment × Time)
      → PaymentRepository × Recorded W
      → PaymentRepository × Recorded W
  after_runs [] s = s
  after_runs ((p, now) ∷ runs) s =
      let (_, r', v') = run_occurrence (recording ports) p now s in after_runs runs (r', v')

  after_runs-times :
      (k : PostingKey) (runs : List (ScheduledPayment × Time)) (r : PaymentRepository)
      (v : Recorded W)
      → times k (after_runs runs (r, v)).1.posted + (if held k r then 1 else 0)
        ≤ times k v.posted + 1
  unfolding after_runs
  after_runs-times k [] r v = ground arith
  after_runs-times k ((p, now) ∷ runs) r v =
      let (ran, r', v') = run_occurrence (recording ports) p now (r, v) in
      ground (arith, (run_occurrence-Bounded k p now r v).bound, after_runs-times k runs r' v')

  -- However often the scheduler runs, on whatever copies of payments and at whatever times, and
  -- whatever notifications or expenses fail: postExpense is called at most once for an occurrence, a
  -- payment's id with a due date, and not at all for one that the ledger has a row of at the start.
  pub posted-at_most_once :
      (k : PostingKey) (runs : List (ScheduledPayment × Time)) (r : PaymentRepository) (w : W)
      → times k (after_runs runs (r, record { posted = []; world = w })).1.posted
          + (if held k r then 1 else 0)
        ≤ 1
  unfolding times
  posted-at_most_once k runs r w =
      ground (arith, after_runs-times k runs r (record { posted = []; world = w }))
