-- ===== src/Notifications/Service.antt =====
-- internal/core/service/notifications.go: NotificationService, which delivers what is queued. What the
-- templates and the provider answer to one delivery is an argument, and so is the clock.
use billpiggy.Base.{
  Bool, true, false, not, ◌||◌, ℕ, zero, suc, ◌*◌, leb, ltb, String, List, [], ◌∷◌, Option, none,
  some, ◌==◌, nat_eq, string_eq, if◌then◌else◌,
}
use billpiggy.Base.Int.{ℤ, pos}
use billpiggy.Base.Act.{invalid, Act, Done, pure, guard, ◌>>=◌, ◌>>◌}
use billpiggy.Clock.{Time, add_duration, minute}
use billpiggy.Identity.{AppUser, wants_notification}
use billpiggy.Notifications.{
  Deliveries, NotificationDelivery, NotificationKind, notification_invitation,
  notification_budget_alert, notification_report_ready, notification_access_changed,
  notification_payment_due, notification_password_reset, notification_pending, queue_notification,
  claim_notifications, mark_notification_sent, mark_notification_retry,
  mark_notification_dead_lettered,
}

-- notificationMaxAttempts, notificationLeaseTTL, notificationQuotaBackoff and notificationMaxBackoff
abbrev pub max_attempts : ℕ
max_attempts = 5

abbrev pub lease_ttl : ℤ
lease_ttl = pos 120000000000

abbrev pub hour : ℕ
hour = 3600000000000

-- The loop of notificationRetryDelay, `turns` times at most.
unfoldable pub doubled : ℕ → ℕ → ℕ
doubled zero delay = delay
doubled (suc turns) delay =
    let later = doubled turns (delay * 2) in if ltb delay hour then later else delay

-- notificationRetryDelay
abbrev pub less_one : ℕ → ℕ
less_one zero = zero
less_one (suc n) = n

abbrev pub capped : ℕ → ℕ
capped delay = if ltb hour delay then hour else delay

unfoldable pub notification_retry_delay : ℕ → ℤ
notification_retry_delay attempts = pos (capped (doubled (less_one attempts) minute))

-- The texts of the kinds.
abbrev pub kind_text : NotificationKind → String
kind_text notification_invitation = "invitation"
kind_text notification_budget_alert = "budget_alert"
kind_text notification_report_ready = "report_ready"
kind_text notification_access_changed = "access_changed"
kind_text notification_payment_due = "payment_due"
kind_text notification_password_reset = "password_reset"

-- What rendering and sending an email ends with.
pub data SendResult : Type 0 where
  send_ok send_quota_exceeded send_failed : SendResult

-- resolveRecipient: an address, nobody because the user opted out, or no such user.
pub data Recipient : Type 0 where
  address : String → Recipient
  opted_out unknown_user : Recipient

abbrev wanted_by : NotificationDelivery → Option AppUser → Recipient
wanted_by delivery none = unknown_user
wanted_by delivery (some user) =
    if wants_notification (kind_text delivery.kind) user
    then (if user.email == "" then opted_out else address user.email)
    else opted_out

abbrev pub resolve_recipient : (String → Option AppUser) → NotificationDelivery → Recipient
resolve_recipient users delivery =
    if delivery.recipient_email == ""
    then wanted_by delivery (users delivery.user_id)
    else address delivery.recipient_email

-- Queue
unfoldable pub queue :
    String → Time → String → NotificationKind → List (String × String) → Act Deliveries Done
queue id now user_id kind payload = do
  guard (not (user_id == "")) (invalid "notification recipient and kind are required")
  queue_notification (record {
    id = id;
    user_id = user_id;
    recipient_email = "";
    kind = kind;
    payload = payload;
    created_at = now;
    status = notification_pending;
    attempts = 0;
  })

module _ (users : String → Option AppUser) (send : String → NotificationDelivery → SendResult)
    (now : Time) where
  abbrev pub attempt : NotificationDelivery → Recipient → SendResult
  attempt delivery (address to) = send to delivery
  attempt delivery opted_out = send_ok
  attempt delivery unknown_user = send_failed

  -- What deliverOne does with the result; its value says whether the send quota is exhausted.
  abbrev pub settle : NotificationDelivery → SendResult → Act Deliveries Bool
  settle delivery send_ok = do mark_notification_sent delivery.id; pure false
  settle delivery send_quota_exceeded = do
    mark_notification_retry delivery.id (add_duration now (pos hour))
    pure true
  settle delivery send_failed = do
    (if leb max_attempts delivery.attempts
        then mark_notification_dead_lettered delivery.id
        else mark_notification_retry delivery.id
            (add_duration now (notification_retry_delay delivery.attempts)))
    pure false

  -- deliverOne
  abbrev pub deliver_one : NotificationDelivery → Act Deliveries Bool
  deliver_one delivery = settle delivery (attempt delivery (resolve_recipient users delivery))

  -- The turn of the loop of DeliverPending for one claimed delivery.
  abbrev pub deliver_next : Bool → NotificationDelivery → Act Deliveries Bool
  deliver_next quota_exceeded delivery =
      if quota_exceeded then settle delivery send_quota_exceeded else deliver_one delivery

  unfoldable pub deliver_all : Bool → List NotificationDelivery → Act Deliveries Done
  deliver_all quota_exceeded [] = pure tt
  deliver_all quota_exceeded (delivery ∷ deliveries) = do
    stop ← deliver_next quota_exceeded delivery
    deliver_all stop deliveries

  abbrev batch : ℕ → ℕ
  batch limit = if limit == 0 || ltb 100 limit then 25 else limit

  -- DeliverPending
  abbrev pub claimed : ℕ → Deliveries → List NotificationDelivery × Deliveries
  claimed limit entries = claim_notifications now lease_ttl (batch limit) entries

  unfoldable pub deliver_pending : ℕ → Act Deliveries Done
  deliver_pending limit entries =
      deliver_all false (claimed limit entries).0 (claimed limit entries).1
