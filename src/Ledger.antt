-- ===== src/Ledger.antt =====
-- internal/adapter/outbound/memory/scheduled_payment_repository.go: recurring payments with the ledger
-- of the occurrences that were handled. The mutex makes each method one step on the record.
use billpiggy.Base.{
  ◌≡◌, ◌↔◌, Bool, true, false, not, ◌&&◌, ◌||◌, String, List, [], Option, none, some, Comparable,
  ◌==◌, string_eq, nat_eq, string_beq_iff, if◌then◌else◌, arith,
}
use billpiggy.Base.Int.{ℤ, same_ℤ, same_ℤ_iff}
use billpiggy.Base.Assoc.{lookup, insert}
use billpiggy.Clock.{Time, unix_nano, after}
use billpiggy.Payments.{ScheduledPayment, ScheduledPaymentPosting, PostingKind, reminder, due}

-- postingKey
pub record PostingKey : Type 0 where
  pub payment_id : String
  pub due_at : ℤ
  pub kind : PostingKind

abbrev same_kind : PostingKind → PostingKind → Bool
same_kind reminder reminder = true
same_kind due due = true
same_kind reminder due = false
same_kind due reminder = false

abbrev same_posting : PostingKey → PostingKey → Bool
same_posting j k =
    j.payment_id == k.payment_id && (same_ℤ j.due_at k.due_at && same_kind j.kind k.kind)

same_kind_iff : (a b : PostingKind) → (same_kind a b ≡ true) ↔ (a ≡ b)
same_kind_iff reminder reminder = ground arith
same_kind_iff due due = ground arith
same_kind_iff reminder due = ground arith
same_kind_iff due reminder = ground arith

pub same_posting_iff : (j k : PostingKey) → (same_posting j k ≡ true) ↔ (j ≡ k)
same_posting_iff j k = ground (
  arith,
  string_beq_iff j.payment_id k.payment_id,
  same_ℤ_iff j.due_at k.due_at,
  same_kind_iff j.kind k.kind,
)

instance abbrev pub posting_eq : Comparable PostingKey
posting_eq = record {
  equals = same_posting;
  sound = λ j k. (same_posting_iff j k).0;
  complete = λ j k. (same_posting_iff j k).1;
}

pub record PaymentRepository : Type 0 where
  pub payments : List (String × ScheduledPayment)
  pub postings : List (PostingKey × ScheduledPaymentPosting)

-- NewScheduledPaymentRepository
unfoldable pub new_payment_repository : PaymentRepository
new_payment_repository = record { payments = []; postings = [] }

-- CreateScheduledPayment
unfoldable pub create_scheduled_payment : ScheduledPayment → PaymentRepository → PaymentRepository
create_scheduled_payment p r = record r { payments = insert p.id p r.payments }

abbrev pub key_of_posting : ScheduledPaymentPosting → PostingKey
key_of_posting posting = record {
  payment_id = posting.scheduled_payment_id;
  due_at = unix_nano posting.due_at;
  kind = posting.kind;
}

abbrev pub claim_row :
    ScheduledPaymentPosting
    → PaymentRepository
    → Option ScheduledPaymentPosting
    → Option PaymentRepository
claim_row posting r (some earlier) = none
claim_row posting r none =
    some (record r { postings = insert (key_of_posting posting) posting r.postings })

-- ClaimPosting, `none` for ErrPostingExists
unfoldable pub claim_posting :
    ScheduledPaymentPosting → PaymentRepository → Option PaymentRepository
claim_posting posting r = claim_row posting r (lookup (key_of_posting posting) r.postings)

abbrev pub is_set : Option Time → Bool
is_set none = false
is_set (some t) = true

abbrev moved : Time → Time → Bool → ScheduledPayment → ScheduledPayment
moved next_due last_posted paused p = record p {
  next_due_at = next_due;
  last_posted_at = some last_posted;
  paused = paused;
}

-- AdvanceSchedule, `none` for errNotFound
unfoldable pub advance_schedule :
    String → Time → Time → Bool → PaymentRepository → Option PaymentRepository
advance_schedule id next_due last_posted paused r = elim (lookup id r.payments) [
  | none ↦ none
  | some p ↦
      if is_set p.deleted_at
      then none
      else some (record r { payments = insert id (moved next_due last_posted paused p) r.payments })
]

-- The filter of ListDueScheduledPayments.
unfoldable pub is_due_through : Time → ScheduledPayment → Bool
is_due_through through p =
    not (is_set p.deleted_at || p.paused) && not (after p.next_due_at through)

-- UpdateScheduledPayment and DeleteScheduledPayment, `none` for errNotFound. The clock is read once.
abbrev owned_live : String → ScheduledPayment → Bool
owned_live owner p = p.owner_id == owner && not (is_set p.deleted_at)

unfoldable pub update_scheduled_payment :
    ScheduledPayment → PaymentRepository → Option PaymentRepository
update_scheduled_payment p r = elim (lookup p.id r.payments) [
  | none ↦ none
  | some existing ↦
      if owned_live p.owner_id existing
      then some (record r { payments = insert p.id p r.payments })
      else none
]

unfoldable pub delete_scheduled_payment :
    String → String → Time → PaymentRepository → Option PaymentRepository
delete_scheduled_payment owner id now r = elim (lookup id r.payments) [
  | none ↦ none
  | some existing ↦
      if owned_live owner existing
      then some
          (record r { payments = insert id (record existing { deleted_at = some now }) r.payments })
      else none
]
