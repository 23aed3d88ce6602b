-- ===== src/Tests/Payloads.antt =====
-- An encoding of one expense and of its removal, for the tests of the event log.
use billpiggy.Base.{
  ◌≡◌, refl, sym, ap, Bool, true, false, ◌&&◌, ℕ, List, [], ◌∷◌, Option, none, some, ◌==◌,
  string_eq, nat_eq, string_beq_iff, arith, if◌then◌else◌,
}
use billpiggy.Base.Int.{pos, same_ℤ, same_ℤ_iff}
use billpiggy.Clock.{Time}
use billpiggy.Outbox.{Bytes}
use billpiggy.Projections.{ExpenseRecord, ExpenseEnvelope}
use billpiggy.Expenses.{Strings}
use billpiggy.Expenses.Service.{ExpenseService}
use billpiggy.Expenses.Log.{RoundTrip}

abbrev pub lunch : ExpenseRecord
lunch = record {
  id = "lunch";
  owner_id = "member";
  title = "Lunch";
  amount_minor = pos 1250;
  currency = "EUR";
  occurred_at = 900;
  category_id = "food";
  category_name = "Food";
  tag_ids = [];
  status = "confirmed";
  shared_group_id = "";
  items = [];
  latitude = none;
  longitude = none;
  address = "";
  receipt_object_key = "";
  created_at = 1000;
  updated_at = 1000;
  deleted_at = none;
}

abbrev is_empty : {A : Type 0} → List A → Bool
is_empty [] = true
is_empty (x ∷ xs) = false

abbrev is_absent : {A : Type 0} → Option A → Bool
is_absent none = true
is_absent (some a) = false

empty_list : {A : Type 0} (xs : List A) → is_empty xs ≡ true → xs ≡ []
empty_list [] h = refl
empty_list (x ∷ xs) h = cc

absent_option : {A : Type 0} (o : Option A) → is_absent o ≡ true → Path (Option A) o none
absent_option none h = refl
absent_option (some a) h = cc

abbrev same_texts : ExpenseRecord → Bool
same_texts e =
    e.id == "lunch"
    && e.owner_id == "member"
    && e.title == "Lunch"
    && e.currency == "EUR"
    && e.category_id == "food"
    && e.category_name == "Food"

abbrev same_rest : ExpenseRecord → Bool
same_rest e =
    e.status == "confirmed"
    && e.shared_group_id == ""
    && e.address == ""
    && e.receipt_object_key == ""
    && same_ℤ e.amount_minor (pos 1250)

abbrev same_times : ExpenseRecord → Bool
same_times e =
    e.occurred_at == 900 && e.created_at == 1000 && e.updated_at == 1000 && is_absent e.deleted_at

abbrev same_shape : ExpenseRecord → Bool
same_shape e =
    is_empty e.tag_ids && is_empty e.items && is_absent e.latitude && is_absent e.longitude

abbrev is_lunch : ExpenseRecord → Bool
is_lunch e = same_texts e && (same_rest e && (same_times e && same_shape e))

both : (a b : Bool) → (a && b) ≡ true → (a ≡ true) × (b ≡ true)
both true true h = (refl, refl)
both true false h = cc
both false b h = cc

lunch_only : (e : ExpenseRecord) → is_lunch e ≡ true → e ≡ lunch
lunch_only e h =
    let first = both (same_texts e) (same_rest e && (same_times e && same_shape e)) h in
    let second = both (same_rest e) (same_times e && same_shape e) first.1 in
    let third = both (same_times e) (same_shape e) second.1 in
    let texts = first.0 in
    let rest = second.0 in
    let times = third.0 in
    let shape = third.1 in
    let same_id : e.id ≡ "lunch" = (string_beq_iff e.id "lunch").0 (ground (arith, texts)) in
    let same_owner_id : e.owner_id ≡ "member" =
      (string_beq_iff e.owner_id "member").0 (ground (arith, texts)) in
    let same_title : e.title ≡ "Lunch" =
      (string_beq_iff e.title "Lunch").0 (ground (arith, texts)) in
    let same_currency : e.currency ≡ "EUR" =
      (string_beq_iff e.currency "EUR").0 (ground (arith, texts)) in
    let same_category_id : e.category_id ≡ "food" =
      (string_beq_iff e.category_id "food").0 (ground (arith, texts)) in
    let same_category_name : e.category_name ≡ "Food" =
      (string_beq_iff e.category_name "Food").0 (ground (arith, texts)) in
    let same_status : e.status ≡ "confirmed" =
      (string_beq_iff e.status "confirmed").0 (ground (arith, rest)) in
    let same_shared_group_id : e.shared_group_id ≡ "" =
      (string_beq_iff e.shared_group_id "").0 (ground (arith, rest)) in
    let same_address : e.address ≡ "" = (string_beq_iff e.address "").0 (ground (arith, rest)) in
    let same_receipt_object_key : e.receipt_object_key ≡ "" =
      (string_beq_iff e.receipt_object_key "").0 (ground (arith, rest)) in
    let same_occurred_at : e.occurred_at ≡ 900 = ground (arith, times) in
    let same_created_at : e.created_at ≡ 1000 = ground (arith, times) in
    let same_updated_at : e.updated_at ≡ 1000 = ground (arith, times) in
    let same_amount : e.amount_minor ≡ pos 1250 =
      (same_ℤ_iff e.amount_minor (pos 1250)).0 (ground (arith, rest)) in
    let same_deleted : Path (Option Time) e.deleted_at none =
      absent_option e.deleted_at (ground (arith, times)) in
    let same_tags = empty_list e.tag_ids (ground (arith, shape)) in
    let same_items = empty_list e.items (ground (arith, shape)) in
    let same_latitude = absent_option e.latitude (ground (arith, shape)) in
    let same_longitude = absent_option e.longitude (ground (arith, shape)) in
    λ i. record {
      id = same_id i;
      owner_id = same_owner_id i;
      title = same_title i;
      amount_minor = same_amount i;
      currency = same_currency i;
      occurred_at = same_occurred_at i;
      category_id = same_category_id i;
      category_name = same_category_name i;
      tag_ids = same_tags i;
      status = same_status i;
      shared_group_id = same_shared_group_id i;
      items = same_items i;
      latitude = same_latitude i;
      longitude = same_longitude i;
      address = same_address i;
      receipt_object_key = same_receipt_object_key i;
      created_at = same_created_at i;
      updated_at = same_updated_at i;
      deleted_at = same_deleted i;
    }

abbrev pub lunch_envelope : ExpenseEnvelope
lunch_envelope = record { expense = lunch; expense_id = ""; owner_id = "" }

abbrev removed_envelope : ExpenseEnvelope
removed_envelope = record { expense = lunch; expense_id = "lunch"; owner_id = "member" }

-- Payload 1 is the lunch, payload 2 its removal, and nothing else is encoded.
abbrev pub unmarshal : Bytes → Option ExpenseEnvelope
unmarshal [] = none
unmarshal (n ∷ _) =
    if n == 1 then some lunch_envelope else if n == 2 then some removed_envelope else none

abbrev marshal_if : Bool → ℕ → Option Bytes
marshal_if true n = some (n ∷ [])
marshal_if false n = none

abbrev plain_strings : Strings
plain_strings = record {
  trim_space = λ text. text;
  to_lower = λ text. text;
  to_upper = λ text. text;
  has_substring = λ text part. true;
}

abbrev pub lunch_service : ExpenseService
lunch_service = record {
  with_object_references = true;
  with_groups = true;
  with_taxonomy = false;
  strings = plain_strings;
  marshal_expense = λ e. marshal_if (is_lunch e) 1;
  marshal_removed = λ id owner at. marshal_if (id == "lunch") 2;
  sort_slice = λ first xs. xs;
}

same_bytes : {a b : Bytes} → Path (Option Bytes) (some a) (some b) → a ≡ b
same_bytes h = grind (arith, h)

encoded :
    (b : Bool) (n : ℕ) (payload : Bytes)
    → marshal_if b n ≡ some payload
    → (b ≡ true) × (n ∷ [] ≡ payload)
encoded true n payload h = (refl, same_bytes h)
encoded false n payload h = cc

pub lunch_codec : RoundTrip lunch_service unmarshal
lunch_codec = record {
  expense_back = λ e payload h.
      let code = encoded (is_lunch e) 1 payload h in
      (lunch_envelope, ap unmarshal (sym code.1), sym (lunch_only e code.0), refl);
  removed_back = λ id owner at payload h.
      let code = encoded (id == "lunch") 2 payload h in
      (removed_envelope, ap unmarshal (sym code.1), sym ((string_beq_iff id "lunch").0 code.0));
}
