-- ===== src/Notifications/Settling.antt =====
-- internal/core/service/notifications.go: what DeliverPending leaves of the deliveries that it claims.
use billpiggy.Base.{
  ◌≡◌, refl, ap, ◌∙◌, Bool, true, false, ◌⊎◌, inl, inr, ℕ, leb, String, List, [], ◌∷◌, Option, none,
  some, string_eq, equals_iff, arith, if◌then◌else◌,
}
use billpiggy.Base.Act.{ok, Act, modify, ◌>>◌}
use billpiggy.Base.After.{After-pure}
use billpiggy.Base.Returns.{Returns, Returns-bind, Returns-pure, Returns-read, After-Returns}
use billpiggy.Base.Assoc.{lookup, insert, lookup-insert}
use billpiggy.Clock.{Time}
use billpiggy.Identity.{AppUser}
use billpiggy.Notifications.{
  Deliveries, StoredDelivery, NotificationDelivery, in_progress, mark_notification_sent,
  mark_notification_retry, mark_notification_dead_lettered,
}
use billpiggy.Notifications.Service.{
  SendResult, send_ok, send_quota_exceeded, send_failed, resolve_recipient, attempt, settle,
  deliver_next, deliver_all, deliver_pending, claimed, max_attempts,
}

abbrev busy : Option StoredDelivery → Bool
busy none = false
busy (some stored) = in_progress stored.delivery.status

-- No worker holds the delivery.
pub record Settled (id : String) (entries : Deliveries) : Type 0 where
  pub not_held : busy (lookup id entries) ≡ false

abbrev pub Claimed : NotificationDelivery → List NotificationDelivery → Type 0
Claimed delivery [] = ⊥
Claimed delivery (d ∷ ds) = (d ≡ delivery) ⊎ Claimed delivery ds

-- A row that no worker holds is written under `key`.
insert-Settled :
    (key id : String) (stored : StoredDelivery) (entries : Deliveries)
    → in_progress stored.delivery.status ≡ false
    → ((key ≡ id) ⊎ Settled id entries)
    → Settled id (insert key stored entries)
insert-Settled key id stored entries free (inl e) = record {
  not_held = grind (arith, lookup-insert key id stored entries, equals_iff key id, e, free);
}
insert-Settled key id stored entries free (inr h) = record {
  not_held =
      grind (arith, lookup-insert key id stored entries, equals_iff key id, h.not_held, free);
}

module _ (key id : String) {entries : Deliveries} (h : (key ≡ id) ⊎ Settled id entries) where
  sent-Settled : Returns (Settled id) (mark_notification_sent key) entries
  unfolding mark_notification_sent modify
  sent-Settled =
      Returns-read _ _ _
        λ value _. record { result = λ _ _. insert-Settled key id _ entries refl h }

  retry-Settled : (at : Time) → Returns (Settled id) (mark_notification_retry key at) entries
  unfolding mark_notification_retry modify
  retry-Settled at =
      Returns-read _ _ _
        λ value _. record { result = λ _ _. insert-Settled key id _ entries refl h }

  dead-Settled : Returns (Settled id) (mark_notification_dead_lettered key) entries
  unfolding mark_notification_dead_lettered modify
  dead-Settled =
      Returns-read _ _ _
        λ value _. record { result = λ _ _. insert-Settled key id _ entries refl h }

Returns-if :
    {S A : Type 0} {P : S → Type 0} {s : S} (m n : Act S A) (b : Bool)
    → Returns P m s
    → Returns P n s
    → Returns P (if b then m else n) s
Returns-if m n true h k = h
Returns-if m n false h k = k

module _ (users : String → Option AppUser) (send : String → NotificationDelivery → SendResult)
    (now : Time) (id : String) where
  settle-Settled :
      (delivery : NotificationDelivery) (result : SendResult) {entries : Deliveries}
      → ((delivery.id ≡ id) ⊎ Settled id entries)
      → Returns (Settled id) (settle users send now delivery result) entries
  unfolding ◌>>◌
  settle-Settled delivery send_ok h = Returns-pure _ _ (sent-Settled delivery.id id h)
  settle-Settled delivery send_quota_exceeded h =
      Returns-pure _ _ (retry-Settled delivery.id id h _)
  settle-Settled delivery send_failed h = Returns-pure _ _ (
      Returns-if _ _ (leb max_attempts delivery.attempts) (dead-Settled delivery.id id h)
        (retry-Settled delivery.id id h _))

  deliver_next-Settled :
      (quota : Bool) (delivery : NotificationDelivery) {entries : Deliveries}
      → ((delivery.id ≡ id) ⊎ Settled id entries)
      → Returns (Settled id) (deliver_next users send now quota delivery) entries
  deliver_next-Settled quota delivery h =
      Returns-if _ _ quota (settle-Settled delivery send_quota_exceeded h) (
        settle-Settled delivery (attempt users send now delivery (resolve_recipient users delivery))
          h)

  deliver_all-Settled :
      (quota : Bool) (deliveries : List NotificationDelivery) (entries : Deliveries)
      → ((delivery : NotificationDelivery) × (delivery.id ≡ id) × Claimed delivery deliveries)
        ⊎ Settled id entries
      → Returns (Settled id) (deliver_all users send now quota deliveries) entries
  unfolding deliver_all
  deliver_all-Settled quota [] entries (inl h) = absurd h.2
  deliver_all-Settled quota [] entries (inr h) = After-Returns (After-pure tt h)
  deliver_all-Settled quota (d ∷ ds) entries (inr h) =
      Returns-bind (deliver_next users send now quota d) _ λ stop returned.
        deliver_all-Settled stop ds (deliver_next users send now quota d entries).1
          (inr ((deliver_next-Settled quota d (inr h)).result stop returned))
  deliver_all-Settled quota (d ∷ ds) entries (inl (delivery, same, inr later)) =
      Returns-bind (deliver_next users send now quota d) _ λ stop returned.
        deliver_all-Settled stop ds (deliver_next users send now quota d entries).1
          (inl (delivery, same, later))
  deliver_all-Settled quota (d ∷ ds) entries (inl (delivery, same, inl e)) =
      Returns-bind (deliver_next users send now quota d) _ λ stop returned.
        deliver_all-Settled stop ds (deliver_next users send now quota d entries).1 (
          inr (
            (deliver_next-Settled quota d
                (inl (ap (λ (v : NotificationDelivery). v.id) e ∙ same))).result
              stop returned))

-- After a DeliverPending that returns without an error, every delivery that it claimed is out of
-- progress: sent, back in the queue, or dead-lettered.
pub deliver_pending-Settled :
    (users : String → Option AppUser) (send : String → NotificationDelivery → SendResult)
    (now : Time) (limit : ℕ) (entries : Deliveries) (delivery : NotificationDelivery)
    → (deliver_pending users send now limit entries).0 ≡ ok tt
    → Claimed delivery (claimed users send now limit entries).0
    → Settled delivery.id (deliver_pending users send now limit entries).1
unfolding deliver_pending
deliver_pending-Settled users send now limit entries delivery returned held =
    (deliver_all-Settled users send now delivery.id false (claimed users send now limit entries).0
        (claimed users send now limit entries).1 (inl (delivery, refl, held))).result
      tt returned
