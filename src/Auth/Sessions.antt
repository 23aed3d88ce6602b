-- ===== src/Auth/Sessions.antt =====
-- internal/core/service/auth.go: the bootstrap, login, refresh, logout and access tokens.
use billpiggy.Base.{
  Bool, not, ◌&&◌, ◌||◌, String, Option, none, some, ◌==◌, string_eq, ltb, if◌then◌else◌,
}
use billpiggy.Base.Act.{
  unauthorized, bootstrap, other, Act, Done, pure, read, from_option, from_outcome, guard, when,
  ◌>>=◌, ◌>>◌,
}
use billpiggy.Clock.{Time, after, add_duration}
use billpiggy.Identity.{AppUser, role_super_admin, RefreshToken}
use billpiggy.Identity.Repository.{
  create_user, get_user_by_id, get_user_by_email, get_refresh_token_by_hash,
}
use billpiggy.Identity.Tokens.{
  create_refresh_token, rotate_refresh_token, live, revoke_refresh_token,
}
use billpiggy.Identity.Values.{count_super_admins}
use billpiggy.Auth.{
  Ports, AuthService, AuthState, AccessClaims, Session, on_repository, stored, new_user,
  normalize_email,
}

-- What issueSession draws: a raw token, and two identifiers.
pub record SessionDraw : Type 0 where
  pub raw_token : Option String
  pub token_id : String
  pub family_id : String

-- The token is live and has not expired.
abbrev pub usable : Time → RefreshToken → Bool
usable now token = live token.revoked_at && after token.expires_at now

module _ (ports : Ports) (service : AuthService) where
  abbrev missing_credentials : Bool
  missing_credentials =
      service.config.bootstrap_super_admin_email == ""
      || service.config.bootstrap_super_admin_password == ""

  -- EnsureBootstrapSuperAdmin
  abbrev pub create_super_admin : String → Time → Act AuthState Done
  create_super_admin id now = do
    guard (not missing_credentials) bootstrap
    user ← from_outcome (
        new_user ports id service.config.bootstrap_super_admin_email
          service.config.bootstrap_super_admin_password "Super admin" role_super_admin now)
    on_repository (create_user user)

  unfoldable pub ensure_bootstrap_super_admin : String → Time → Act AuthState Done
  ensure_bootstrap_super_admin id now s =
      when (not (ltb 0 (count_super_admins s.repository.users_by_id))) (create_super_admin id now) s

  -- issueSession; an empty id of a replaced token asks for a new token
  abbrev pub access_claims : AppUser → Time → AccessClaims
  access_claims user now = record {
    role = user.role;
    subject = user.id;
    issuer = service.config.issuer;
    issued_at = now;
    expires_at = add_duration now service.config.access_token_ttl;
  }

  abbrev pub fresh_token : AppUser → String → SessionDraw → Time → RefreshToken
  fresh_token user raw_token draw now = record {
    id = draw.token_id;
    user_id = user.id;
    token_hash = ports.token_hash raw_token;
    family_id = draw.family_id;
    expires_at = add_duration now service.config.refresh_token_ttl;
    created_at = now;
    revoked_at = none;
    replaced_by = "";
  }

  abbrev pub store_token : Time → String → RefreshToken → Act AuthState Done
  store_token now replaced_id token =
      if replaced_id == ""
      then on_repository (create_refresh_token token)
      else on_repository (rotate_refresh_token now replaced_id token)

  unfoldable pub issue_session : SessionDraw → Time → AppUser → String → Act AuthState Session
  issue_session draw now user replaced_id = do
    access_token ←
        from_option (other "sign access token")
          (ports.signed_string service.config.jwt_secret (access_claims user now))
    raw_token ← from_option (other "generate token") draw.raw_token
    store_token now replaced_id (fresh_token user raw_token draw now)
    pure (record {
      access_token = access_token;
      access_token_expiry = add_duration now service.config.access_token_ttl;
      refresh_token = raw_token;
      refresh_token_expiry = add_duration now service.config.refresh_token_ttl;
    })

  -- Login
  unfoldable pub login : SessionDraw → Time → String → String → Act AuthState Session
  login draw now email password = do
    user ← read unauthorized (stored (get_user_by_email (normalize_email ports email)))
    guard (not user.access_blocked && ports.password_matches user.password_hash password)
        unauthorized
    issue_session draw now user ""

  -- Refresh
  unfoldable pub refresh : SessionDraw → Time → String → Act AuthState Session
  refresh draw now raw_token = do
    token ← read unauthorized (stored (get_refresh_token_by_hash (ports.token_hash raw_token)))
    guard (usable now token) unauthorized
    user ← read unauthorized (stored (get_user_by_id token.user_id))
    guard (not user.access_blocked) unauthorized
    issue_session draw now user token.id

  -- Logout
  abbrev pub revoke_found : Time → Option RefreshToken → Act AuthState Done
  revoke_found now none = pure tt
  revoke_found now (some token) = on_repository (revoke_refresh_token now token.id)

  unfoldable pub logout : Time → String → Act AuthState Done
  logout now raw_token s =
      revoke_found now (get_refresh_token_by_hash (ports.token_hash raw_token) s.repository) s

  -- AuthenticateAccessToken
  unfoldable pub authenticate_access_token : Time → String → Act AuthState AppUser
  authenticate_access_token now raw_token = do
    claims ←
        from_option unauthorized
          (ports.parse_with_claims service.config.jwt_secret service.config.issuer now raw_token)
    guard (not (claims.subject == "")) unauthorized
    user ← read unauthorized (stored (get_user_by_id claims.subject))
    guard (not user.access_blocked) unauthorized
    pure user
