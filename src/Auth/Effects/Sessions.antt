-- ===== src/Auth/Effects/Sessions.antt =====
-- internal/core/service/auth.go: what the bootstrap, login, refresh and logout write.
use billpiggy.Base.{◌≡◌, not, String, Option, none, some, string_eq, ◌==◌, ltb, arith}
use billpiggy.Base.Act.{◌>>◌}
use billpiggy.Base.After.{
  After-pure, After-bind, After-guard, After-when, After-found, After-read, After-outcome, After-if,
}
use billpiggy.Base.Assoc.{lookup}
use billpiggy.Clock.{Time}
use billpiggy.Identity.{AppUser, RefreshToken}
use billpiggy.Identity.Repository.{IdentityRepository, get_refresh_token_by_hash}
use billpiggy.Identity.Values.{count_super_admins}
use billpiggy.Identity.Operations.{
  create_user-Writes, create_refresh_token-Writes, rotate_refresh_token-Writes,
  revoke_refresh_token-Writes,
}
use billpiggy.Auth.{Ports, AuthService, AuthState}
use billpiggy.Auth.Sessions.{
  SessionDraw, ensure_bootstrap_super_admin, store_token, issue_session, login, refresh, logout,
  revoke_found, authenticate_access_token,
}
use billpiggy.Auth.Effects.{Reached, AfterReached, on_repository-Reached}

module _ (ports : Ports) (service : AuthService) {r : IdentityRepository} {s : AuthState} where
  pub ensure_bootstrap_super_admin-Reached :
      (id : String) (now : Time)
      → Reached r s
      → AfterReached r (ensure_bootstrap_super_admin ports service id now) s
  unfolding ensure_bootstrap_super_admin ◌>>◌
  ensure_bootstrap_super_admin-Reached id now ws = record {
    holds =
        (After-when (not (ltb 0 (count_super_admins s.repository.users_by_id))) ws λ none_there.
          After-guard _ _ _ ws λ _.
            After-outcome _ _ ws
              λ user _. on_repository-Reached (create_user-Writes user ws (ground arith))).holds;
  }

  store_token-Reached :
      (now : Time) (replaced_id : String) (token : RefreshToken)
      → Reached r s
      → lookup token.id s.repository.refresh_by_id ≡ none
      → AfterReached r (store_token ports service now replaced_id token) s
  store_token-Reached now replaced_id token ws fresh =
      After-if _ _ (replaced_id == "")
        (on_repository-Reached (create_refresh_token-Writes token ws fresh))
        (on_repository-Reached (rotate_refresh_token-Writes now replaced_id token ws fresh))

  pub issue_session-Reached :
      (draw : SessionDraw) (now : Time) (user : AppUser) (replaced_id : String)
      → Reached r s
      → lookup draw.token_id s.repository.refresh_by_id ≡ none
      → AfterReached r (issue_session ports service draw now user replaced_id) s
  unfolding issue_session ◌>>◌
  issue_session-Reached draw now user replaced_id ws fresh = After-found _ _ _ ws λ _ _.
      After-found _ _ _ ws λ raw _.
        After-bind (store_token-Reached now replaced_id _ ws fresh) λ _ _ more. After-pure _ more

  pub login-Reached :
      (draw : SessionDraw) (now : Time) (email password : String)
      → Reached r s
      → lookup draw.token_id s.repository.refresh_by_id ≡ none
      → AfterReached r (login ports service draw now email password) s
  unfolding login ◌>>◌
  login-Reached draw now email password ws fresh =
      After-read _ _ _ ws
        λ user _. After-guard _ _ _ ws λ _. issue_session-Reached draw now user "" ws fresh

  pub refresh-Reached :
      (draw : SessionDraw) (now : Time) (raw_token : String)
      → Reached r s
      → lookup draw.token_id s.repository.refresh_by_id ≡ none
      → AfterReached r (refresh ports service draw now raw_token) s
  unfolding refresh ◌>>◌
  refresh-Reached draw now raw_token ws fresh = After-read _ _ _ ws λ token _.
      After-guard _ _ _ ws λ _.
        After-read _ _ _ ws
          λ user _. After-guard _ _ _ ws λ _. issue_session-Reached draw now user token.id ws fresh

  revoke_found-Reached :
      (now : Time) (o : Option RefreshToken)
      → Reached r s
      → AfterReached r (revoke_found ports service now o) s
  revoke_found-Reached now none ws = After-pure _ ws
  revoke_found-Reached now (some token) ws =
      on_repository-Reached (revoke_refresh_token-Writes now token.id ws)

  pub logout-Reached :
      (now : Time) (raw_token : String)
      → Reached r s
      → AfterReached r (logout ports service now raw_token) s
  unfolding logout
  logout-Reached now raw_token ws = record {
    holds =
        (revoke_found-Reached now
          (get_refresh_token_by_hash (ports.token_hash raw_token) s.repository) ws).holds;
  }

  pub authenticate_access_token-Reached :
      (now : Time) (raw_token : String)
      → Reached r s
      → AfterReached r (authenticate_access_token ports service now raw_token) s
  unfolding authenticate_access_token ◌>>◌
  authenticate_access_token-Reached now raw_token ws = After-found _ _ _ ws λ _ _.
      After-guard _ _ _ ws λ _. After-read _ _ _ ws λ _ _. After-guard _ _ _ ws λ _. After-pure _ ws
