-- ===== src/Expenses/Effects.antt =====
-- internal/core/service/expenses.go: what the commands leave in the event log and in the projection.
pub mod Commands
pub mod Agreement
use billpiggy.Base.{
  ◌≡◌, refl, sym, ap, ◌∙◌, subst, Bool, true, false, not, ◌&&◌, ◌||◌, suc, String, List, [], ◌∷◌,
  ◌++◌, Option, none, some, string_eq, ◌==◌, equals_iff, arith, if◌then◌else◌,
}
use billpiggy.Base.Act.{
  Failure, Outcome, ok, err, Act, Done, pure, read, guard, require, when, atomic, modify, continue,
  ◌>>=◌, ◌>>◌,
}
use billpiggy.Base.After.{After, After-pure, After-bind, After-guard, After-require, After-read}
use billpiggy.Base.Returns.{
  Returns, Returns-bind, Returns-require, Returns-read, Returns-when, After-Returns, After-atomic,
}
use billpiggy.Base.Assoc.{lookup, insert}
use billpiggy.Base.Rows.{Rows}
use billpiggy.Clock.{Time}
use billpiggy.Outbox.{Bytes}
use billpiggy.EventStore.{
  EventStore, StoredEvent, DomainEvent, append, append_marshalled, stream_key, count_or_zero,
}
use billpiggy.Projections.{
  ExpenseRecord, ExpenseContribution, ExpenseEnvelope, Decoded, decoded, undecodable, skipped,
  removal, contribution_of, contribution_of_envelope, decode_expense_contribution,
}
use billpiggy.Objects.{References}
use billpiggy.Expenses.{
  ExpenseRepository, store_expense, replace_expense, remove_expense, get_owned_expense, owned_live,
  when_true,
}
use billpiggy.Expenses.Service.{
  ExpenseService, ExpenseState, ExpenseCommand, on_expenses, on_references, append_event, appended,
  expense_event, new_expense_event, drafted, edited, create_expense, update_expense, delete_expense,
  attach_receipt, track_receipt,
}
use billpiggy.Expenses.Validation.{valid_expense}
use billpiggy.Expenses.Log.{
  Agrees, RoundTrip, Filed, active_only, written_together, envelope_added, envelope_removed,
}

-- What Append adds to the log.
pub record Logged (event : DomainEvent) (before after : List StoredEvent) : Type 0 where
  pub stored : StoredEvent
  pub added : after ≡ before ++ stored ∷ []
  pub same_event : stored.event ≡ event
  pub encoded : event.payload ≡ some stored.payload

abbrev stored_event : DomainEvent → Bytes → EventStore → StoredEvent
stored_event event payload s = record {
  event = event;
  global_seq = suc s.sequence;
  version = suc (count_or_zero (lookup (stream_key event) s.versions));
  payload = payload;
  metadata = ("actor_id", event.actor_id) ∷ [];
}

same_store : {s t : EventStore} → Path (Option EventStore) (some s) (some t) → t ≡ s
same_store h = grind (arith, h)

marshalled-Logged :
    (event : DomainEvent) (s t : EventStore) (payload : Option Bytes)
    → event.payload ≡ payload
    → elim payload as (λ _. Option EventStore) [
      | none ↦ none
      | some bytes ↦ some (append_marshalled event bytes s)
    ]
      ≡ some t
    → Logged event s.events t.events
unfolding append_marshalled
marshalled-Logged event s t none e h = cc
marshalled-Logged event s t (some payload) e h = record {
  stored = stored_event event payload s;
  added = ap (λ (u : EventStore). u.events) (same_store h);
  same_event = refl;
  encoded = e;
}

append-Logged :
    (event : DomainEvent) (s t : EventStore)
    → append event s ≡ some t
    → Logged event s.events t.events
unfolding append
append-Logged event s t h = marshalled-Logged event s t event.payload refl h

pub on_log :
    (event : DomainEvent) (s : ExpenseState) (o : Option EventStore)
    → append event s.store ≡ o
    → (a : Done) → (appended s o).0 ≡ ok a
    → Logged event s.store.events (appended s o).1.store.events
on_log event s none e a h = cc
on_log event s (some store) e a h = append-Logged event s.store store e

inactive : (c : ExpenseContribution) → c.active ≡ false → active_only (some c) ≡ none
inactive c h = grind (arith, h)

decoded_by :
    (event_type : String) (envelope : ExpenseEnvelope) (known : Bool) (o : Option ExpenseEnvelope)
    → known ≡ true
    → o ≡ some envelope
    → (if known
        then elim o as (λ _. Decoded ExpenseContribution) [
          | none ↦ undecodable
          | some found ↦ contribution_of_envelope event_type found
        ]
        else skipped)
      ≡ contribution_of_envelope event_type envelope
decoded_by event_type envelope true none k h = cc
decoded_by event_type envelope true (some found) k h =
    ap (contribution_of_envelope event_type) (same_envelope h)
  where
    same_envelope : Path (Option ExpenseEnvelope) (some found) (some envelope) → found ≡ envelope
    same_envelope e = grind (arith, e)
decoded_by event_type envelope false o k h = cc

module _ (service : ExpenseService) (unmarshal : Bytes → Option ExpenseEnvelope)
    (codec : RoundTrip service unmarshal) where
  decoded_expense :
      (event_type : String) (expense : ExpenseRecord) (payload : Bytes)
      → (event_type == "expense_added"
          || (event_type == "expense_updated" || event_type == "expense_removed"))
        ≡ true
      → (event_type == "expense_removed") ≡ false
      → (expense.id == "") ≡ false
      → service.marshal_expense expense ≡ some payload
      → decode_expense_contribution unmarshal event_type payload ≡ decoded (contribution_of expense)
  unfolding decode_expense_contribution
  decoded_expense event_type expense payload kind other_kind named encoded =
      let back = codec.expense_back expense payload encoded in
      let read =
        envelope_added unmarshal event_type expense back.0 other_kind back.2 back.3 named in
      decoded_by event_type back.0
        (event_type == "expense_added"
          || (event_type == "expense_updated" || event_type == "expense_removed"))
        (unmarshal payload) kind back.1
      ∙ read

  decoded_removal :
      (id owner : String) (at : Time) (payload : Bytes)
      → (id == "") ≡ false
      → service.marshal_removed id owner at ≡ some payload
      → (c : ExpenseContribution) × (decode_expense_contribution unmarshal "expense_removed" payload
          ≡ decoded c)
        × (c.expense_id ≡ id)
        × (c.active ≡ false)
  unfolding decode_expense_contribution
  decoded_removal id owner at payload named encoded =
      let back = codec.removed_back id owner at payload encoded in
      let read = envelope_removed unmarshal id back.0 back.2 named in
      (
        removal id back.0.owner_id,
        decoded_by "expense_removed" back.0 true (unmarshal payload) refl back.1 ∙ read,
        refl,
        refl,
      )

  -- A removal, and the row that is marked as deleted.
  pub removed :
      (event_id id owner_id : String) (expense : ExpenseRecord) (now : Time)
      (rows : ExpenseRepository) (before after : List StoredEvent)
      → Filed id expense
      → Logged
          (new_expense_event event_id "expense_removed" id owner_id
            (service.marshal_removed id owner_id now)
            now)
          before
          after
      → Agrees unmarshal rows before
      → Agrees unmarshal
          (insert id (record expense { deleted_at = some expense.updated_at }) rows)
          after
  removed event_id id owner_id expense now rows before after filed logged h =
      let told = decoded_removal id owner_id now logged.stored.payload filed.1 logged.encoded in
      let deleted = record expense { deleted_at = some expense.updated_at } in
      subst (λ events. Agrees unmarshal (insert id deleted rows) events) (sym logged.added)
        (written_together unmarshal id deleted told.0 logged.stored h
          (ap (λ (e : DomainEvent). e.aggregate_type) logged.same_event)
          (ap
              (λ (e : DomainEvent).
                decode_expense_contribution unmarshal e.event_type logged.stored.payload)
              logged.same_event
            ∙ told.1)
          told.2 (inactive told.0 told.3) (filed.0, filed.1))

  -- An event with the whole expense, and its row.
  pub saved :
      (event_id event_type owner_id : String) (expense : ExpenseRecord) (now : Time)
      (rows : ExpenseRepository) (before after : List StoredEvent)
      → (event_type == "expense_added"
          || (event_type == "expense_updated" || event_type == "expense_removed"))
        ≡ true
      → (event_type == "expense_removed") ≡ false
      → (expense.id == "") ≡ false
      → Logged (expense_event service event_id event_type owner_id expense now) before after
      → Agrees unmarshal rows before
      → Agrees unmarshal (insert expense.id expense rows) after
  saved event_id event_type owner_id expense now rows before after kind other_kind named logged h =
      subst (λ events. Agrees unmarshal (insert expense.id expense rows) events) (sym logged.added)
        (written_together unmarshal expense.id expense (contribution_of expense) logged.stored h
          (ap (λ (e : DomainEvent). e.aggregate_type) logged.same_event)
          (ap
              (λ (e : DomainEvent).
                decode_expense_contribution unmarshal e.event_type logged.stored.payload)
              logged.same_event
            ∙ decoded_expense event_type expense logged.stored.payload kind other_kind named
                logged.encoded)
          refl refl (refl, named))
