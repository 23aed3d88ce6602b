-- ===== src/Notifications.antt =====
-- internal/core/domain/notification.go and internal/adapter/outbound/memory/notification_repository.go:
-- email deliveries, and the queue from which workers claim them. Go visits the entries of the queue in
-- no fixed order; the order of the list stands for the one that a call happens to take.
pub mod Service
pub mod Settling
pub mod Backoff
use billpiggy.Base.{
  Bool, true, false, not, ◌&&◌, ◌||◌, String, List, [], ◌∷◌, Option, none, some, ℕ, zero, suc, ◌+◌,
  string_eq, if◌then◌else◌, ltb,
}
use billpiggy.Base.Int.{ℤ, leb_ℤ, sub_ℕ}
use billpiggy.Base.Assoc.{lookup, insert}
use billpiggy.Base.Act.{Failure, other, Act, Done, read, modify, ◌>>=◌}
use billpiggy.Clock.{Time, after}

pub data NotificationKind : Type 0 where
  notification_invitation notification_budget_alert notification_report_ready
        notification_access_changed notification_payment_due notification_password_reset :
      NotificationKind

pub data NotificationStatus : Type 0 where
  notification_pending notification_processing notification_sent notification_failed :
      NotificationStatus

pub record NotificationDelivery : Type 0 where
  pub id : String
  pub user_id : String
  pub recipient_email : String
  pub kind : NotificationKind
  pub payload : List (String × String)
  pub created_at : Time
  pub status : NotificationStatus
  pub attempts : ℕ

-- storedDelivery
pub record StoredDelivery : Type 0 where
  pub delivery : NotificationDelivery
  pub available_at : Time
  pub locked_at : Time

abbrev pub Deliveries : Type 0
Deliveries = List (String × StoredDelivery)

-- QueueNotification
abbrev pub stored_delivery : NotificationDelivery → StoredDelivery
stored_delivery value = record { delivery = value; available_at = value.created_at; locked_at = 0 }

unfoldable pub queue_notification : NotificationDelivery → Act Deliveries Done
queue_notification value = modify (insert value.id (stored_delivery value))

abbrev pub waits : NotificationStatus → Bool
waits notification_pending = true
waits notification_processing = false
waits notification_sent = false
waits notification_failed = false

abbrev pub in_progress : NotificationStatus → Bool
in_progress notification_processing = true
in_progress notification_pending = false
in_progress notification_sent = false
in_progress notification_failed = false

-- The two reasons for which ClaimNotifications takes a delivery.
abbrev pub claimable : Time → ℤ → StoredDelivery → Bool
claimable now lease_ttl stored =
    waits stored.delivery.status && not (after stored.available_at now)
    || in_progress stored.delivery.status && leb_ℤ lease_ttl (sub_ℕ now stored.locked_at)

abbrev pub taken : Time → StoredDelivery → StoredDelivery
taken now stored = record stored {
  delivery = record (stored.delivery) {
    status = notification_processing;
    attempts = stored.delivery.attempts + 1;
  };
  locked_at = now;
}

-- ClaimNotifications: the claimed deliveries, as they are written, and the queue that it leaves.
unfoldable pub claim_notifications :
    Time → ℤ → ℕ → Deliveries → List NotificationDelivery × Deliveries
claim_notifications now lease_ttl zero entries = ([], entries)
claim_notifications now lease_ttl (suc limit) [] = ([], [])
claim_notifications now lease_ttl (suc limit) ((key, stored) ∷ rest) =
    let with_one = claim_notifications now lease_ttl limit rest in
    let without = claim_notifications now lease_ttl (suc limit) rest in
    if claimable now lease_ttl stored
    then ((taken now stored).delivery ∷ with_one.0, (key, taken now stored) ∷ with_one.1)
    else (without.0, (key, stored) ∷ without.1)

abbrev in_status : NotificationStatus → NotificationDelivery → NotificationDelivery
in_status status value = record value { status = status }

abbrev finished : NotificationStatus → NotificationDelivery → NotificationDelivery
finished status value = record value { status = status; payload = [] }

-- MarkNotificationSent
unfoldable pub mark_notification_sent : String → Act Deliveries Done
mark_notification_sent id = do
  value ← read (other "not found") (lookup id)
  modify (insert id (record value { delivery = finished notification_sent value.delivery }))

-- MarkNotificationRetry
unfoldable pub mark_notification_retry : String → Time → Act Deliveries Done
mark_notification_retry id available_at = do
  value ← read (other "not found") (lookup id)
  modify (
      insert id (record value {
        delivery = in_status notification_pending value.delivery;
        available_at = available_at;
      }))

-- MarkNotificationDeadLettered
unfoldable pub mark_notification_dead_lettered : String → Act Deliveries Done
mark_notification_dead_lettered id = do
  value ← read (other "not found") (lookup id)
  modify (insert id (record value { delivery = finished notification_failed value.delivery }))
