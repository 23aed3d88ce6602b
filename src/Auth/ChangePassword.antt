-- ===== src/Auth/ChangePassword.antt =====
-- internal/core/service/auth.go: ChangePassword, and the tokens and resets of the user.
use billpiggy.Base.{
  ◌≡◌, refl, Bool, true, false, String, Option, none, some, string_eq, ◌==◌, equals_iff,
  if◌then◌else◌,
}
use billpiggy.Base.Act.{ok, modify, ◌>>=◌, ◌>>◌}
use billpiggy.Base.After.{After}
use billpiggy.Base.Returns.{
  Returns, After-Returns, Returns-bind, Returns-found, Returns-read, Returns-guard,
}
use billpiggy.Base.Rows.{Rows, map_values-Rows_of}
use billpiggy.Base.Assoc.{lookup}
use billpiggy.Clock.{Time}
use billpiggy.Identity.{RefreshToken, PasswordReset}
use billpiggy.Identity.Repository.{IdentityRepository}
use billpiggy.Identity.Tokens.{
  live, closed_at, revoke_for, invalidate_for, invalidate_pending_password_resets,
  revoke_all_refresh_tokens,
}
use billpiggy.Auth.{Ports, AuthService, AuthState, on_repository}
use billpiggy.Auth.Passwords.{change_password}

abbrev TokenEnded : String → String → RefreshToken → Type 0
TokenEnded user_id id token = token.user_id ≡ user_id → live token.revoked_at ≡ false

abbrev ResetEnded : String → String → PasswordReset → Type 0
ResetEnded user_id id reset = reset.user_id ≡ user_id → live reset.used_at ≡ false

-- Every refresh token of the user is revoked, and every reset is used.
pub record Ended (user_id : String) (r : IdentityRepository) : Type 0 where
  pub tokens_ended : Rows (TokenEnded user_id) r.refresh_by_id
  pub resets_ended : Rows (ResetEnded user_id) r.password_resets_by_id

always_closed : (now : Time) (o : Option Time) → live (closed_at now o) ≡ false
always_closed now none = refl
always_closed now (some before) = refl

closed_for :
    (b : Bool) (now : Time) (o : Option Time)
    → b ≡ true
    → live (if b then closed_at now o else o) ≡ false
closed_for true now o h = always_closed now o
closed_for false now o h = cc

-- The two last steps of ChangePassword.
ends :
    (now : Time) (user_id : String) {s : AuthState}
    → After
        (λ t. Ended user_id t.repository)
        (on_repository (invalidate_pending_password_resets now user_id) >>= λ _.
          on_repository (revoke_all_refresh_tokens now user_id))
        s
unfolding ◌>>=◌ on_repository invalidate_pending_password_resets revoke_all_refresh_tokens modify
ends now user_id {s} = record {
  holds = record {
    tokens_ended =
        map_values-Rows_of (TokenEnded user_id) (revoke_for now user_id) s.repository.refresh_by_id
          λ id token own.
            closed_for (token.user_id == user_id) now token.revoked_at
              ((equals_iff token.user_id user_id).1 own);
    resets_ended =
        map_values-Rows_of (ResetEnded user_id) (invalidate_for now user_id)
          s.repository.password_resets_by_id
          λ id reset own.
            closed_for (reset.user_id == user_id) now reset.used_at
              ((equals_iff reset.user_id user_id).1 own);
  };
}

module _ (ports : Ports) (service : AuthService) where
  changed-Ended :
      (now : Time) (user_id current_password new_password : String) {s : AuthState}
      → Returns
          (λ t. Ended user_id t.repository)
          (change_password ports service now user_id current_password new_password)
          s
  unfolding change_password ◌>>◌
  changed-Ended now user_id current_password new_password = Returns-read _ _ _ λ user _.
      Returns-guard _ _ _ λ _.
        Returns-guard _ _ _ λ _.
          Returns-found _ _ _ λ hash _. Returns-bind _ _ λ _ _. After-Returns (ends now user_id)

  -- After a ChangePassword that succeeds, every refresh token of the user is revoked.
  pub change_password_ends_sessions :
      (now : Time) (user_id current_password new_password : String) (s : AuthState) (id : String)
      (token : RefreshToken)
      → (change_password ports service now user_id current_password new_password s).0 ≡ ok tt
      → lookup id
          (change_password ports service now user_id current_password new_password
            s).1.repository.refresh_by_id
        ≡ some token
      → token.user_id ≡ user_id
      → live token.revoked_at ≡ false
  change_password_ends_sessions now user_id current_password new_password s id token h found own =
      ((changed-Ended now user_id current_password new_password).result tt h).tokens_ended.row id
        token found own

  -- After a ChangePassword that succeeds, every password reset of the user is used.
  pub change_password_ends_resets :
      (now : Time) (user_id current_password new_password : String) (s : AuthState) (id : String)
      (reset : PasswordReset)
      → (change_password ports service now user_id current_password new_password s).0 ≡ ok tt
      → lookup id
          (change_password ports service now user_id current_password new_password
            s).1.repository.password_resets_by_id
        ≡ some reset
      → reset.user_id ≡ user_id
      → live reset.used_at ≡ false
  change_password_ends_resets now user_id current_password new_password s id reset h found own =
      ((changed-Ended now user_id current_password new_password).result tt h).resets_ended.row id
        reset found own
