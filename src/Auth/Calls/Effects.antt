-- ===== src/Auth/Calls/Effects.antt =====
-- internal/core/service/auth.go: a sequence of calls is a run of the repository's writes.
use billpiggy.Base.{List, [], ◌∷◌, string_eq}
use billpiggy.Identity.Repository.{IdentityRepository}
use billpiggy.Identity.Writes.{Writes, unchanged}
use billpiggy.Identity.WellFormed.{WellFormed}
use billpiggy.Auth.{Ports, AuthService, AuthState}
use billpiggy.Auth.Effects.{Reached}
use billpiggy.Auth.Effects.Sessions.{
  ensure_bootstrap_super_admin-Reached, login-Reached, refresh-Reached, logout-Reached,
}
use billpiggy.Auth.Effects.Accounts.{
  invite-Reached, accept-Reached, update_profile-Reached, update_notification_preferences-Reached,
  update_profile_image-Reached, manage_user-Reached, delete_account-Reached,
}
use billpiggy.Auth.Effects.Passwords.{
  change_password-Reached, request_password_reset-Reached, reset_password-Reached,
}
use billpiggy.Auth.Calls.{
  Call, bootstrap_call, login_call, refresh_call, logout_call, invite_call, accept_call,
  profile_call, preferences_call, image_call, manage_call, delete_call, change_password_call,
  request_reset_call, reset_call, after_call, after_calls, FreshId, FreshIds,
}

module _ (ports : Ports) (service : AuthService) {r : IdentityRepository} (h : WellFormed r) where
  after_call-Reached :
      (call : Call) (s : AuthState)
      → Reached r s
      → FreshId ports service call s.repository
      → Reached r (after_call ports service call s)
  after_call-Reached (bootstrap_call id now) s ws fresh =
      (ensure_bootstrap_super_admin-Reached ports service id now ws).holds
  after_call-Reached (login_call draw now email password) s ws fresh =
      (login-Reached ports service draw now email password ws fresh).holds
  after_call-Reached (refresh_call draw now raw_token) s ws fresh =
      (refresh-Reached ports service draw now raw_token ws fresh).holds
  after_call-Reached (logout_call now raw_token) s ws fresh =
      (logout-Reached ports service now raw_token ws).holds
  after_call-Reached (invite_call draw now actor email role) s ws fresh =
      (invite-Reached ports service draw now actor email role ws).holds
  after_call-Reached (accept_call id now raw_token password name) s ws fresh =
      (accept-Reached ports service id now raw_token password name h ws fresh).holds
  after_call-Reached (profile_call now id name email notifications ai) s ws fresh =
      (update_profile-Reached ports service now id name email notifications ai h ws).holds
  after_call-Reached (preferences_call now id preferences) s ws fresh =
      (update_notification_preferences-Reached ports service now id preferences h ws).holds
  after_call-Reached (image_call now id object_key) s ws fresh =
      (update_profile_image-Reached ports service now id object_key h ws).holds
  after_call-Reached (manage_call delivery_id now actor id role blocked) s ws fresh =
      (manage_user-Reached ports service delivery_id now actor id role blocked h ws).holds
  after_call-Reached (delete_call actor id) s ws fresh =
      (delete_account-Reached ports service actor id ws).holds
  after_call-Reached (change_password_call now id old_password new_password) s ws fresh =
      (change_password-Reached ports service now id old_password new_password h ws).holds
  after_call-Reached (request_reset_call draw now email) s ws fresh =
      (request_password_reset-Reached ports service draw now email ws fresh).holds
  after_call-Reached (reset_call now raw_token new_password) s ws fresh =
      (reset_password-Reached ports service now raw_token new_password h ws).holds

  after-Reached :
      (calls : List Call) (s : AuthState)
      → Reached r s
      → FreshIds ports service calls s
      → Reached r (after_calls ports service calls s)
  unfolding after_calls
  after-Reached [] s ws fresh = ws
  after-Reached (call ∷ calls) s ws fresh =
      after-Reached calls (after_call ports service call s) (after_call-Reached call s ws fresh.0)
        fresh.1

-- The calls only make writes that the relation allows.
pub after_calls-Writes :
    (ports : Ports) (service : AuthService) (calls : List Call) (s : AuthState)
    → WellFormed s.repository
    → FreshIds ports service calls s
    → Writes s.repository (after_calls ports service calls s).repository
after_calls-Writes ports service calls s h fresh =
    after-Reached ports service h calls s unchanged fresh
