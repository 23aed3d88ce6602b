-- ===== src/Expenses/Log.antt =====
-- internal/core/service/expenses.go and internal/core/domain/projection.go: what a reader of the event
-- log makes of an expense, against the row of the projection.
use billpiggy.Base.{
  ◌≡◌, refl, sym, ap, ◌∙◌, Bool, true, false, String, List, [], ◌∷◌, ◌++◌, Option, none, some,
  string_eq, ◌==◌, equals_iff, arith, if◌then◌else◌,
}
use mathlib.Core.Option
use billpiggy.Base.Assoc.{lookup, insert, lookup-insert}
use billpiggy.Base.Rows.{Rows, insert-Rows}
use billpiggy.Clock.{Time}
use billpiggy.Outbox.{Bytes}
use billpiggy.EventStore.{StoredEvent}
use billpiggy.Projections.{
  ExpenseRecord, ExpenseContribution, ExpenseEnvelope, Decoded, decoded, skipped, undecodable,
  removal, contribution_of, contribution_of_envelope, decode_expense_contribution,
}
use billpiggy.Expenses.{ExpenseRepository}
use billpiggy.Expenses.Service.{ExpenseService}

module _ (unmarshal : Bytes → Option ExpenseEnvelope) where
  abbrev noted :
      String → Option ExpenseContribution → Decoded ExpenseContribution → Option ExpenseContribution
  noted id before (decoded c) = if c.expense_id == id then some c else before
  noted id before skipped = before
  noted id before undecodable = before

  -- What one event says of the expense.
  abbrev pub read_event :
      String → Option ExpenseContribution → StoredEvent → Option ExpenseContribution
  read_event id before stored =
      if stored.event.aggregate_type == "expense"
      then noted id before
          (decode_expense_contribution unmarshal stored.event.event_type stored.payload)
      else before

  -- The last contribution of the expense in the log.
  unfoldable pub mirror :
      String → Option ExpenseContribution → List StoredEvent → Option ExpenseContribution
  mirror id before [] = before
  mirror id before (stored ∷ later) = mirror id (read_event id before stored) later

  mirror-append :
      (id : String) (before : Option ExpenseContribution) (events : List StoredEvent)
      (stored : StoredEvent)
      → mirror id before (events ++ stored ∷ []) ≡ read_event id (mirror id before events) stored
  unfolding mirror
  mirror-append id before [] stored = refl
  mirror-append id before (first ∷ later) stored =
      mirror-append id (read_event id before first) later stored

-- A contribution counts while it is active.
abbrev pub active_only : Option ExpenseContribution → Option ExpenseContribution
active_only none = none
active_only (some c) = if c.active then some c else none

abbrev pub Filed : String → ExpenseRecord → Type 0
Filed id expense = (expense.id ≡ id) × ((id == "") ≡ false)

-- The log and the projection say the same of every expense, and rows are filed under their own ids.
pub record Agrees (unmarshal : Bytes → Option ExpenseEnvelope) (rows : ExpenseRepository)
    (events : List StoredEvent) : Type 0 where
  pub same :
      (id : String)
      → active_only (mirror unmarshal id none events)
        ≡ active_only (Option.map contribution_of (lookup id rows))
  pub filed : Rows Filed rows

-- Encoding a payload and decoding it gives back what the readers look at.
pub record RoundTrip (service : ExpenseService) (unmarshal : Bytes → Option ExpenseEnvelope)
    : Type 0 where
  pub expense_back :
      (expense : ExpenseRecord) (payload : Bytes)
      → service.marshal_expense expense ≡ some payload
      → (envelope : ExpenseEnvelope) × (unmarshal payload ≡ some envelope)
        × (envelope.expense ≡ expense)
        × (envelope.expense_id ≡ "")
  pub removed_back :
      (id owner : String) (at : Time) (payload : Bytes)
      → service.marshal_removed id owner at ≡ some payload
      → (envelope : ExpenseEnvelope) × (unmarshal payload ≡ some envelope)
        × (envelope.expense_id ≡ id)

module _ (unmarshal : Bytes → Option ExpenseEnvelope) where
  noted_event :
      (wanted : String) (before : Option ExpenseContribution) (c : ExpenseContribution)
      (is_expense : Bool) (d : Decoded ExpenseContribution)
      → is_expense ≡ true
      → d ≡ decoded c
      → (if is_expense then noted unmarshal wanted before d else before)
        ≡ (if c.expense_id == wanted then some c else before)
  noted_event wanted before c true d h e = ap (noted unmarshal wanted before) e
  noted_event wanted before c false d h e = cc

  told :
      (hit : Bool) (before : Option ExpenseContribution) (c : ExpenseContribution)
      (expense : ExpenseRecord) (row : Option ExpenseRecord)
      → active_only (some c) ≡ active_only (some (contribution_of expense))
      → active_only before ≡ active_only (Option.map contribution_of row)
      → active_only (if hit then some c else before)
        ≡ active_only (Option.map contribution_of (if hit then some expense else row))
  told true before c expense row h e = h
  told false before c expense row h e = e

  -- An event of an expense and the row that it tells of are written together.
  pub written_together :
      (id : String) (expense : ExpenseRecord) (c : ExpenseContribution) (stored : StoredEvent)
      {rows : ExpenseRepository} {events : List StoredEvent}
      → Agrees unmarshal rows events
      → stored.event.aggregate_type ≡ "expense"
      → decode_expense_contribution unmarshal stored.event.event_type stored.payload ≡ decoded c
      → c.expense_id ≡ id
      → active_only (some c) ≡ active_only (some (contribution_of expense))
      → Filed id expense
      → Agrees unmarshal (insert id expense rows) (events ++ stored ∷ [])
  written_together id expense c stored {rows} {events} h kind read same_id same_active filed =
      record {
        same = λ wanted.
            ap active_only (
              mirror-append unmarshal wanted none events stored
              ∙ noted_event wanted (mirror unmarshal wanted none events) c
                  (stored.event.aggregate_type == "expense")
                  (decode_expense_contribution unmarshal stored.event.event_type stored.payload)
                  ((equals_iff stored.event.aggregate_type "expense").1 kind) read
              ∙ ap (λ key. if key == wanted then some c else mirror unmarshal wanted none events)
                  same_id)
            ∙ told (id == wanted) (mirror unmarshal wanted none events) c expense
                (lookup wanted rows) same_active (h.same wanted)
            ∙ sym (
                ap (λ o. active_only (Option.map contribution_of o))
                  (lookup-insert id wanted expense rows));
        filed = insert-Rows Filed id expense filed h.filed;
      }

  -- What a reader makes of the payloads of the service.
  pub envelope_added :
      (event_type : String) (expense : ExpenseRecord) (envelope : ExpenseEnvelope)
      → (event_type == "expense_removed") ≡ false
      → envelope.expense ≡ expense
      → envelope.expense_id ≡ ""
      → (expense.id == "") ≡ false
      → contribution_of_envelope event_type envelope ≡ decoded (contribution_of expense)
  unfolding contribution_of_envelope
  envelope_added event_type expense envelope kind same no_id named =
      grind (arith, kind, same, no_id, named)

  pub envelope_removed :
      (id : String) (envelope : ExpenseEnvelope)
      → envelope.expense_id ≡ id
      → (id == "") ≡ false
      → contribution_of_envelope "expense_removed" envelope ≡ decoded (removal id envelope.owner_id)
  unfolding contribution_of_envelope
  envelope_removed id envelope same named = grind (arith, same, named)
