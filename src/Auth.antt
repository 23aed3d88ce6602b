-- ===== src/Auth.antt =====
-- internal/core/service/auth.go: what AuthService is built from. Its repositories are the in-memory
-- ones; the libraries that hash, sign and read text are the record `Ports`. A call runs at one instant,
-- and takes the random values that it draws as arguments; an error that is wrapped is the error itself,
-- as errors.Is sees it.
pub mod Sessions
pub mod Accounts
pub mod Passwords
pub mod Effects
pub mod Calls
pub mod SingleUse
pub mod SuperAdmin
pub mod ResetOnce
pub mod ChangePassword
pub mod Emails
use billpiggy.Base.{
  Bool, true, false, not, String, List, [], ◌∷◌, Option, none, some, ◌≡◌, ◌&&◌, ◌||◌, ◌==◌,
  string_eq, ltb, ◌*◌, ℕ, if◌then◌else◌,
}
use Prim.Native.String.{len, ◌++◌}
use billpiggy.Base.Int.{ℤ, pos, leb_ℤ}
use billpiggy.Base.Act.{
  Failure, conflict, invalid, other, Outcome, ok, err, Act, Done, read, fail, from_option, guard,
  when, ◌>>=◌, ◌>>◌, pure,
}
use billpiggy.Clock.{Time, add_duration, minute, day_length}
use billpiggy.Identity.{
  AppUser, UserRole, role_member, role_admin, role_super_admin, other_role, Invitation,
}
use billpiggy.Identity.Repository.{IdentityRepository}
use billpiggy.Identity.Values.{is_super_admin}
use billpiggy.Notifications.{
  Deliveries, NotificationDelivery, NotificationKind, notification_invitation,
  notification_access_changed, notification_password_reset, notification_pending,
  queue_notification,
}
use billpiggy.Objects.{References, ObjectReference, object_active, track_object, orphan_objects_for}

-- AuthConfig
pub record AuthConfig : Type 0 where
  pub jwt_secret : String
  pub issuer : String
  pub access_token_ttl : ℤ
  pub refresh_token_ttl : ℤ
  pub invitation_ttl : ℤ
  pub password_reset_ttl : ℤ
  pub bootstrap_super_admin_email : String
  pub bootstrap_super_admin_password : String
  pub public_base_url : String

-- AuthService, its repositories being in the state; the flags say whether WithNotifications and
-- WithObjectReferences were called.
pub record AuthService : Type 0 where
  pub config : AuthConfig
  pub with_notifications : Bool
  pub with_object_references : Bool

-- `if ttl <= 0 { ttl = fallback }`
abbrev positive_or : ℕ → ℤ → ℤ
positive_or fallback ttl = if leb_ℤ ttl (pos 0) then pos fallback else ttl

abbrev or_text : String → String → String
or_text fallback text = if text == "" then fallback else text

-- NewAuthService, with a repository
abbrev pub new_auth_service : AuthConfig → Outcome AuthService
new_auth_service config =
    if ltb (len config.jwt_secret) 32
    then err (invalid "JWT secret must contain at least 32 bytes")
    else ok (record {
      config = record config {
        issuer = or_text "billpiggy" config.issuer;
        access_token_ttl = positive_or (15 * minute) config.access_token_ttl;
        refresh_token_ttl = positive_or (30 * day_length) config.refresh_token_ttl;
        invitation_ttl = positive_or (7 * day_length) config.invitation_ttl;
        password_reset_ttl = positive_or (60 * minute) config.password_reset_ttl;
      };
      with_notifications = false;
      with_object_references = false;
    })

pub record AccessClaims : Type 0 where
  pub role : UserRole
  pub subject : String
  pub issuer : String
  pub issued_at : Time
  pub expires_at : Time

pub record Session : Type 0 where
  pub access_token : String
  pub access_token_expiry : Time
  pub refresh_token : String
  pub refresh_token_expiry : Time

pub record InvitationDelivery : Type 0 where
  pub invitation : Invitation
  pub raw_token : String

-- bcrypt, SHA-256 in hexadecimal, JWT with HS256, and the text functions of Go's library that depend on
-- Unicode tables or on layouts.
pub record Ports : Type 0 where
  pub generate_from_password : String → Option String
  pub password_matches : String → String → Bool
  pub token_hash : String → String
  pub signed_string : String → AccessClaims → Option String
  pub parse_with_claims : String → String → Time → String → Option AccessClaims
  pub to_lower : String → String
  pub trim_space : String → String
  pub trim_right_slashes : String → String
  pub format_rfc3339 : Time → String

pub record AuthState : Type 0 where
  pub repository : IdentityRepository
  pub notifications : Deliveries
  pub references : References

module _ {A : Type 0} where
  unfoldable pub on_repository : Act IdentityRepository A → Act AuthState A
  on_repository m s = let r = m s.repository in (r.0, record s { repository = r.1 })

  unfoldable pub on_notifications : Act Deliveries A → Act AuthState A
  on_notifications m s = let r = m s.notifications in (r.0, record s { notifications = r.1 })

  unfoldable pub on_references : Act References A → Act AuthState A
  on_references m s = let r = m s.references in (r.0, record s { references = r.1 })

  abbrev pub stored : (IdentityRepository → Option A) → AuthState → Option A
  stored get s = get s.repository

-- ObjectResourceProfileImage
abbrev pub object_resource_profile_image : String
object_resource_profile_image = "user_profile_image"

-- The text of a role.
abbrev pub role_text : UserRole → String
role_text role_member = "member"
role_text role_admin = "admin"
role_text role_super_admin = "super_admin"
role_text (other_role text) = text

-- validRole
abbrev pub valid_role : UserRole → Bool
valid_role role_member = true
valid_role role_admin = true
valid_role role_super_admin = true
valid_role (other_role _) = false

abbrev pub text_of_bool : Bool → String
text_of_bool true = "true"
text_of_bool false = "false"

module _ (ports : Ports) where
  -- normalizeEmail
  abbrev pub normalize_email : String → String
  normalize_email email = ports.to_lower (ports.trim_space email)

  -- newUser, given the id and the hash that are drawn
  abbrev pub user_with : String → String → String → String → UserRole → Time → AppUser
  user_with id email hash display_name role now = record {
    id = id;
    email = normalize_email email;
    password_hash = hash;
    display_name = ports.trim_space display_name;
    profile_image_object_key = "";
    role = role;
    access_blocked = false;
    email_notifications_enabled = true;
    notification_preferences = [];
    ai_enabled = true;
    created_at = now;
    updated_at = now;
  }

  abbrev pub acceptable : String → String → String → UserRole → Bool
  acceptable email password display_name role = not (
      normalize_email email == ""
      || ports.trim_space display_name == ""
      || ltb (len password) 12
      || not (valid_role role))

  abbrev hashed : (String → AppUser) → Option String → Outcome AppUser
  hashed make none = err (other "hash password")
  hashed make (some hash) = ok (make hash)

  unfoldable pub new_user : String → String → String → String → UserRole → Time → Outcome AppUser
  new_user id email password display_name role now =
      if acceptable email password display_name role
      then hashed (λ hash. user_with id email hash display_name role now)
          (ports.generate_from_password password)
      else err conflict

  -- What newUser returns has the id and the role that it was asked for.
  fields_of :
      (id email display_name : String) (role : UserRole) (now : Time) (b : Bool) (o : Option String)
      (user : AppUser)
      → (if b
          then hashed (λ hash. user_with id email hash display_name role now) o
          else err conflict)
        ≡ ok user
      → (user.id ≡ id) × (user.role ≡ role)
  fields_of id email display_name role now false o user h = cc
  fields_of id email display_name role now true none user h = cc
  fields_of id email display_name role now true (some hash) user h = (cc, cc)

  pub new_user_fields :
      (id email password display_name : String) (role : UserRole) (now : Time) (user : AppUser)
      → new_user id email password display_name role now ≡ ok user
      → (user.id ≡ id) × (user.role ≡ role)
  unfolding new_user
  new_user_fields id email password display_name role now user h =
      fields_of id email display_name role now (acceptable email password display_name role)
        (ports.generate_from_password password) user h
