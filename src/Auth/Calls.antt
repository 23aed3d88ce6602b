-- ===== src/Auth/Calls.antt =====
-- internal/core/service/auth.go: any sequence of calls of AuthService, by any callers.
pub mod Effects
use billpiggy.Base.{◌≡◌, Bool, String, List, [], ◌∷◌, Option, none, string_eq}
use billpiggy.Base.Act.{Act, Outcome, Done}
use billpiggy.Base.Assoc.{lookup}
use billpiggy.Clock.{Time}
use billpiggy.Identity.{AppUser, UserRole}
use billpiggy.Identity.Repository.{IdentityRepository}
use billpiggy.Auth.{Ports, AuthService, AuthState}
use billpiggy.Auth.Sessions.{
  SessionDraw, ensure_bootstrap_super_admin, login, refresh, logout, authenticate_access_token,
}
use billpiggy.Auth.Accounts.{
  InviteDraw, invite, accept, list_all_users, update_profile, update_notification_preferences,
  get_profile, update_profile_image, manage_user, delete_account,
}
use billpiggy.Auth.Passwords.{ResetDraw, change_password, request_password_reset, reset_password}

-- A call that may write, with the instant at which it runs and what it draws.
pub data Call : Type 0 where
  bootstrap_call : String → Time → Call
  login_call : SessionDraw → Time → String → String → Call
  refresh_call : SessionDraw → Time → String → Call
  logout_call : Time → String → Call
  invite_call : InviteDraw → Time → AppUser → String → UserRole → Call
  accept_call : String → Time → String → String → String → Call
  profile_call : Time → String → String → String → Bool → Bool → Call
  preferences_call : Time → String → List (String × Bool) → Call
  image_call : Time → String → String → Call
  manage_call : String → Time → AppUser → String → UserRole → Bool → Call
  delete_call : AppUser → String → Call
  change_password_call : Time → String → String → String → Call
  request_reset_call : ResetDraw → Time → String → Call
  reset_call : Time → String → String → Call

module _ (ports : Ports) (service : AuthService) where
  -- The state after the call, whether it returns or fails.
  abbrev pub after_call : Call → AuthState → AuthState
  after_call (bootstrap_call id now) s = (ensure_bootstrap_super_admin ports service id now s).1
  after_call (login_call draw now email password) s =
      (login ports service draw now email password s).1
  after_call (refresh_call draw now raw_token) s = (refresh ports service draw now raw_token s).1
  after_call (logout_call now raw_token) s = (logout ports service now raw_token s).1
  after_call (invite_call draw now actor email role) s =
      (invite ports service draw now actor email role s).1
  after_call (accept_call id now raw_token password name) s =
      (accept ports service id now raw_token password name s).1
  after_call (profile_call now id name email notifications ai) s =
      (update_profile ports service now id name email notifications ai s).1
  after_call (preferences_call now id preferences) s =
      (update_notification_preferences ports service now id preferences s).1
  after_call (image_call now id object_key) s =
      (update_profile_image ports service now id object_key s).1
  after_call (manage_call delivery_id now actor id role blocked) s =
      (manage_user ports service delivery_id now actor id role blocked s).1
  after_call (delete_call actor id) s = (delete_account ports service actor id s).1
  after_call (change_password_call now id old_password new_password) s =
      (change_password ports service now id old_password new_password s).1
  after_call (request_reset_call draw now email) s =
      (request_password_reset ports service draw now email s).1
  after_call (reset_call now raw_token new_password) s =
      (reset_password ports service now raw_token new_password s).1

  -- The UUID that a call draws for a row is not in use.
  abbrev pub FreshId : Call → IdentityRepository → Type 0
  FreshId (login_call draw _ _ _) r = lookup draw.token_id r.refresh_by_id ≡ none
  FreshId (refresh_call draw _ _) r = lookup draw.token_id r.refresh_by_id ≡ none
  FreshId (accept_call id _ _ _ _) r = lookup id r.users_by_id ≡ none
  FreshId (request_reset_call draw _ _) r = lookup draw.reset_id r.password_resets_by_id ≡ none
  FreshId _ r = Unit {0}

  unfoldable pub after_calls : List Call → AuthState → AuthState
  after_calls [] s = s
  after_calls (call ∷ calls) s = after_calls calls (after_call call s)

  abbrev pub FreshIds : List Call → AuthState → Type 0
  FreshIds [] s = Unit {0}
  FreshIds (call ∷ calls) s = FreshId call s.repository × FreshIds calls (after_call call s)
