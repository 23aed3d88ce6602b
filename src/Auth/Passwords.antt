-- ===== src/Auth/Passwords.antt =====
-- internal/core/service/auth.go: changing and resetting passwords.
use billpiggy.Base.{not, ◌&&◌, String, Option, none, some, ltb, if◌then◌else◌}
use Prim.Native.String.{len}
use billpiggy.Base.Act.{
  unauthorized, not_found, conflict, other, Act, Done, pure, read, from_option, guard, ◌>>=◌, ◌>>◌,
}
use billpiggy.Clock.{Time, after, add_duration}
use billpiggy.Identity.{AppUser, PasswordReset}
use billpiggy.Identity.Repository.{
  get_user_by_id, get_user_by_email, get_password_reset_by_token_hash, update_user,
}
use billpiggy.Identity.Tokens.{
  create_password_reset, mark_password_reset_used, invalidate_pending_password_resets,
  revoke_all_refresh_tokens, live,
}
use billpiggy.Auth.{Ports, AuthService, AuthState, on_repository, stored, normalize_email}
use billpiggy.Auth.Emails.{queue_password_reset_email}

-- What RequestPasswordReset draws: a raw token, and the ids of the reset and of its email.
pub record ResetDraw : Type 0 where
  pub raw_token : Option String
  pub reset_id : String
  pub delivery_id : String

module _ (ports : Ports) (service : AuthService) where
  abbrev pub with_password : String → Time → AppUser → AppUser
  with_password hash now user = record user { password_hash = hash; updated_at = now }

  -- ChangePassword
  unfoldable pub change_password : Time → String → String → String → Act AuthState Done
  change_password now user_id current_password new_password = do
    user ← read not_found (stored (get_user_by_id user_id))
    guard (ports.password_matches user.password_hash current_password) unauthorized
    guard (not (ltb (len new_password) 12)) conflict
    hash ← from_option (other "hash password") (ports.generate_from_password new_password)
    on_repository (update_user (with_password hash now user))
    on_repository (invalidate_pending_password_resets now user_id)
    on_repository (revoke_all_refresh_tokens now user_id)

  -- RequestPasswordReset: no account, or a blocked one, answers as success does.
  abbrev pub reset_for : ResetDraw → String → Time → AppUser → PasswordReset
  reset_for draw raw_token now user = record {
    id = draw.reset_id;
    user_id = user.id;
    token_hash = ports.token_hash raw_token;
    expires_at = add_duration now service.config.password_reset_ttl;
    created_at = now;
    used_at = none;
  }

  unfoldable pub send_reset : ResetDraw → Time → AppUser → Act AuthState Done
  send_reset draw now user = do
    raw_token ← from_option (other "generate token") draw.raw_token
    let reset = reset_for draw raw_token now user
    on_repository (create_password_reset reset)
    queue_password_reset_email ports service draw.delivery_id now user raw_token reset.expires_at

  abbrev pub for_account : ResetDraw → Time → Option AppUser → Act AuthState Done
  for_account draw now none = pure tt
  for_account draw now (some user) =
      if user.access_blocked then pure tt else send_reset draw now user

  unfoldable pub request_password_reset : ResetDraw → Time → String → Act AuthState Done
  request_password_reset draw now email s =
      for_account draw now (get_user_by_email (normalize_email ports email) s.repository) s

  -- ResetPassword
  unfoldable pub reset_password : Time → String → String → Act AuthState Done
  reset_password now raw_token new_password = do
    reset ←
        read unauthorized (stored (get_password_reset_by_token_hash (ports.token_hash raw_token)))
    guard (live reset.used_at && after reset.expires_at now) unauthorized
    guard (not (ltb (len new_password) 12)) conflict
    user ← read unauthorized (stored (get_user_by_id reset.user_id))
    guard (not user.access_blocked) unauthorized
    hash ← from_option (other "hash password") (ports.generate_from_password new_password)
    on_repository (update_user (with_password hash now user))
    on_repository (mark_password_reset_used now reset.id)
    on_repository (invalidate_pending_password_resets now user.id)
    on_repository (revoke_all_refresh_tokens now user.id)
