-- ===== src/Identity.antt =====
-- internal/core/domain/identity.go: roles and their permissions, users, invitations and tokens.
pub mod Repository
pub mod Writes
pub mod Operations
pub mod WellFormed
pub mod SuperAdmin
pub mod Spent
pub mod SingleUse
pub mod Values
pub mod Tokens
use billpiggy.Base.{Bool, true, false, String, List, Option, none, some, string_eq}
use billpiggy.Base.Assoc.{lookup}
use billpiggy.Clock.{Time}

-- `other_role` is any text that is none of the three constants.
pub data UserRole : Type 0 where
  role_member role_admin role_super_admin : UserRole
  other_role : String → UserRole

pub data Permission : Type 0 where
  expenses_read expenses_write expenses_delete budgets_read budgets_write payments_read
        payments_write analytics_read users_invite users_manage groups_manage audit_read :
      Permission
  other_permission : String → Permission

abbrev member_allows : Permission → Bool
member_allows expenses_read = true
member_allows expenses_write = true
member_allows expenses_delete = true
member_allows budgets_read = true
member_allows budgets_write = true
member_allows analytics_read = true
member_allows payments_read = true
member_allows payments_write = true
member_allows _ = false

-- UserRole.Allows
abbrev pub allows : UserRole → Permission → Bool
allows role_super_admin permission = true
allows role_admin audit_read = false
allows role_admin _ = true
allows role_member permission = member_allows permission
allows (other_role text) permission = false

pub record AppUser : Type 0 where
  pub id : String
  pub email : String
  pub password_hash : String
  pub display_name : String
  pub profile_image_object_key : String
  pub role : UserRole
  pub access_blocked : Bool
  pub email_notifications_enabled : Bool
  pub notification_preferences : List (String × Bool)
  pub ai_enabled : Bool
  pub created_at : Time
  pub updated_at : Time

abbrev override_or : Bool → Option Bool → Bool
override_or fallback none = fallback
override_or fallback (some wanted) = wanted

-- AppUser.WantsNotification, a kind being its text
abbrev pub wants_notification : String → AppUser → Bool
wants_notification kind user =
    override_or user.email_notifications_enabled (lookup kind user.notification_preferences)

-- `other_status` is any text that is none of the four constants.
pub data InvitationStatus : Type 0 where
  invitation_pending invitation_accepted invitation_revoked invitation_expired : InvitationStatus
  other_status : String → InvitationStatus

pub record Invitation : Type 0 where
  pub id : String
  pub email : String
  pub role : UserRole
  pub token_hash : String
  pub status : InvitationStatus
  pub invited_by : String
  pub expires_at : Time
  pub created_at : Time
  pub accepted_by : String
  pub accepted_at : Option Time

pub record RefreshToken : Type 0 where
  pub id : String
  pub user_id : String
  pub token_hash : String
  pub family_id : String
  pub expires_at : Time
  pub created_at : Time
  pub revoked_at : Option Time
  pub replaced_by : String

pub record PasswordReset : Type 0 where
  pub id : String
  pub user_id : String
  pub token_hash : String
  pub expires_at : Time
  pub created_at : Time
  pub used_at : Option Time
