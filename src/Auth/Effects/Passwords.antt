-- ===== src/Auth/Effects/Passwords.antt =====
-- internal/core/service/auth.go: what changing and resetting a password write.
use billpiggy.Base.{
  ◌≡◌, refl, Bool, true, false, String, Option, none, some, string_eq, if◌then◌else◌,
}
use billpiggy.Base.Act.{pure, ◌>>◌}
use billpiggy.Base.After.{After-pure, After-bind, After-guard, After-found, After-read}
use billpiggy.Base.Assoc.{lookup}
use billpiggy.Clock.{Time}
use billpiggy.Identity.{AppUser}
use billpiggy.Identity.Repository.{IdentityRepository, get_user_by_email}
use billpiggy.Identity.WellFormed.{WellFormed}
use billpiggy.Identity.Operations.{
  create_password_reset-Writes, mark_password_reset_used-Writes,
  invalidate_pending_password_resets-Writes, revoke_all_refresh_tokens-Writes,
}
use billpiggy.Auth.{Ports, AuthService, AuthState, normalize_email}
use billpiggy.Auth.Passwords.{
  ResetDraw, change_password, request_password_reset, send_reset, for_account, reset_password,
}
use billpiggy.Auth.Effects.{
  Reached, AfterReached, on_repository-Reached, queue_email-Reached, write_back-Reached,
}

module _ (ports : Ports) (service : AuthService) {r : IdentityRepository} {s : AuthState} where
  pub change_password-Reached :
      (now : Time) (user_id current_password new_password : String)
      → WellFormed r
      → Reached r s
      → AfterReached r (change_password ports service now user_id current_password new_password) s
  unfolding change_password ◌>>◌
  change_password-Reached now user_id current_password new_password h ws =
      After-read _ _ _ ws λ user found. After-guard _ _ _ ws λ _. After-guard _ _ _ ws λ _.
        After-found _ _ _ ws λ hash _.
          After-bind (write_back-Reached user_id user _ h ws found refl refl) λ _ _ one.
            After-bind
              (on_repository-Reached (invalidate_pending_password_resets-Writes now user_id one))
              λ _ _ two. on_repository-Reached (revoke_all_refresh_tokens-Writes now user_id two)

  send_reset-Reached :
      (draw : ResetDraw) (now : Time) (user : AppUser)
      → Reached r s
      → lookup draw.reset_id s.repository.password_resets_by_id ≡ none
      → AfterReached r (send_reset ports service draw now user) s
  unfolding send_reset ◌>>◌
  send_reset-Reached draw now user ws fresh = After-found _ _ _ ws λ raw _.
      After-bind (on_repository-Reached (create_password_reset-Writes _ ws fresh))
        λ _ _ more. queue_email-Reached ports service _ more

  blocked_or_sent :
      (draw : ResetDraw) (now : Time) (user : AppUser) (blocked : Bool)
      → Reached r s
      → AfterReached r (send_reset ports service draw now user) s
      → AfterReached r (if blocked then pure tt else send_reset ports service draw now user) s
  blocked_or_sent draw now user true ws h = After-pure _ ws
  blocked_or_sent draw now user false ws h = h

  for_account-Reached :
      (draw : ResetDraw) (now : Time) (o : Option AppUser)
      → Reached r s
      → lookup draw.reset_id s.repository.password_resets_by_id ≡ none
      → AfterReached r (for_account ports service draw now o) s
  for_account-Reached draw now none ws fresh = After-pure _ ws
  for_account-Reached draw now (some user) ws fresh =
      blocked_or_sent draw now user user.access_blocked ws
        (send_reset-Reached draw now user ws fresh)

  pub request_password_reset-Reached :
      (draw : ResetDraw) (now : Time) (email : String)
      → Reached r s
      → lookup draw.reset_id s.repository.password_resets_by_id ≡ none
      → AfterReached r (request_password_reset ports service draw now email) s
  unfolding request_password_reset
  request_password_reset-Reached draw now email ws fresh = record {
    holds =
        (for_account-Reached draw now (get_user_by_email (normalize_email ports email) s.repository)
          ws fresh).holds;
  }

  pub reset_password-Reached :
      (now : Time) (raw_token new_password : String)
      → WellFormed r
      → Reached r s
      → AfterReached r (reset_password ports service now raw_token new_password) s
  unfolding reset_password ◌>>◌
  reset_password-Reached now raw_token new_password h ws = After-read _ _ _ ws λ reset _.
      After-guard _ _ _ ws λ _. After-guard _ _ _ ws λ _. After-read _ _ _ ws λ user found.
        After-guard _ _ _ ws λ _. After-found _ _ _ ws λ hash _.
          After-bind (write_back-Reached reset.user_id user _ h ws found refl refl) λ _ _ one.
            After-bind (on_repository-Reached (mark_password_reset_used-Writes now reset.id one))
              λ _ _ two.
                After-bind
                  (on_repository-Reached
                    (invalidate_pending_password_resets-Writes now user.id two))
                  λ _ _ three.
                    on_repository-Reached (revoke_all_refresh_tokens-Writes now user.id three)
