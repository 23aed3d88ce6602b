-- ===== src/Auth/Emails.antt =====
-- internal/core/service/auth.go: the emails that AuthService queues.
use billpiggy.Base.{String, List, [], ◌∷◌, ◌==◌, string_eq, if◌then◌else◌}
use Prim.Native.String.{◌++◌}
use billpiggy.Base.Act.{Act, Done, when}
use billpiggy.Clock.{Time}
use billpiggy.Identity.{AppUser, Invitation}
use billpiggy.Notifications.{
  NotificationDelivery, NotificationKind, notification_invitation, notification_access_changed,
  notification_password_reset, notification_pending, queue_notification,
}
use billpiggy.Auth.{Ports, AuthService, AuthState, on_notifications, role_text, text_of_bool}

module _ (ports : Ports) where
  module _ (service : AuthService) where
    -- The deliveries that the service queues are addressed by email.
    abbrev delivery_to :
        String → String → NotificationKind → List (String × String) → Time → NotificationDelivery
    delivery_to id email kind payload now = record {
      id = id;
      user_id = "";
      recipient_email = email;
      kind = kind;
      payload = payload;
      created_at = now;
      status = notification_pending;
      attempts = 0;
    }

    unfoldable pub queue_email : NotificationDelivery → Act AuthState Done
    queue_email delivery =
        when service.with_notifications (on_notifications (queue_notification delivery))

    -- The link that an email carries when the service knows its public address.
    abbrev linked : String → String → String → List (String × String)
    linked name path raw_token =
        if service.config.public_base_url == ""
        then []
        else (name, (ports.trim_right_slashes service.config.public_base_url ++ path) ++ raw_token)
          ∷ []

    -- queueInvitationEmail
    abbrev pub queue_invitation_email : String → Time → Invitation → String → Act AuthState Done
    queue_invitation_email id now invitation raw_token = queue_email (
        delivery_to id invitation.email notification_invitation
          (("role", role_text invitation.role)
            ∷ ("token", raw_token)
            ∷ ("expires_at", ports.format_rfc3339 invitation.expires_at)
            ∷ linked "accept_url" "/accept-invitation?token=" raw_token)
          now)

    -- queuePasswordResetEmail
    abbrev pub queue_password_reset_email :
        String → Time → AppUser → String → Time → Act AuthState Done
    queue_password_reset_email id now user raw_token expires_at = queue_email (
        delivery_to id user.email notification_password_reset
          (("token", raw_token)
            ∷ ("expires_at", ports.format_rfc3339 expires_at)
            ∷ linked "reset_url" "/reset-password?token=" raw_token)
          now)

    -- queueAccessChangedEmail
    abbrev pub queue_access_changed_email : String → Time → AppUser → Act AuthState Done
    queue_access_changed_email id now user = queue_email (
        delivery_to id user.email notification_access_changed
          (("role", role_text user.role) ∷ ("blocked", text_of_bool user.access_blocked) ∷ []) now)
