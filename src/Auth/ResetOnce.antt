-- ===== src/Auth/ResetOnce.antt =====
-- internal/core/service/auth.go: reset tokens that are presented again.
use billpiggy.Base.{◌≡◌, true, ◌&&◌, inl, inr, String, List, ◌∷◌, some, string_eq, arith}
use billpiggy.Base.Act.{unauthorized, ok, err, modify, ◌>>=◌, ◌>>◌}
use billpiggy.Base.After.{After, After-bind, After-require, After-read}
use billpiggy.Base.Returns.{
  Returns, After-Returns, Returns-bind, Returns-found, Returns-read, Returns-guard,
}
use billpiggy.Base.Refuses.{read_refuses, guard_refuses}
use billpiggy.Base.Assoc.{lookup}
use billpiggy.Clock.{Time, after}
use billpiggy.Identity.{AppUser, PasswordReset}
use billpiggy.Identity.Repository.{
  IdentityRepository, get_password_reset_by_token_hash, update_user,
}
use billpiggy.Identity.Tokens.{
  live, mark_password_reset_used, invalidate_pending_password_resets, revoke_all_refresh_tokens,
}
use billpiggy.Identity.Values.{empty_reset}
use billpiggy.Identity.Writes.{unchanged}
use billpiggy.Identity.WellFormed.{WellFormed, Writes-WellFormed}
use billpiggy.Identity.Operations.{
  invalidate_pending_password_resets-Writes, revoke_all_refresh_tokens-Writes,
}
use billpiggy.Identity.Spent.{via_cases, Spent-via}
use billpiggy.Identity.SingleUse.{SpentReset, use_reset_closes, Writes-SpentReset}
use billpiggy.Auth.{Ports, AuthService, AuthState, on_repository}
use billpiggy.Auth.Passwords.{reset_password, with_password}
use billpiggy.Auth.Effects.{
  Reached, on_repository-Reached, After-on_repository, Returns-on_repository,
}
use billpiggy.Auth.Effects.Passwords.{reset_password-Reached}
use billpiggy.Auth.Calls.{Call, reset_call, after_calls, FreshIds}
use billpiggy.Auth.Calls.Effects.{after_calls-Writes}

-- The index points from the hash to the reset's id.
abbrev Indexed : String → String → IdentityRepository → Type 0
Indexed hash id r = lookup hash r.password_reset_by_hash ≡ some id

update_user-Indexed :
    (hash id : String) (user : AppUser) {r : IdentityRepository}
    → Indexed hash id r
    → After (Indexed hash id) (update_user user) r
unfolding update_user ◌>>◌ modify
update_user-Indexed hash id user h =
    After-read _ _ _ h λ previous _. After-require _ _ _ h λ _. record { holds = h }

marked :
    (hash : String) (now : Time) (id : String) {r : IdentityRepository}
    → Indexed hash id r
    → Returns (SpentReset hash) (mark_password_reset_used now id) r
unfolding mark_password_reset_used modify
marked hash now id {r} h =
    Returns-read _ _ _ λ reset _. record { result = λ _ _. use_reset_closes hash now id reset r h }

-- The row of a usable reset is filed under its own id, which the index holds.
own_id :
    (now : Time) (hash : String) (reset : PasswordReset) (r : IdentityRepository)
    → WellFormed r
    → get_password_reset_by_token_hash hash r ≡ some reset
    → (live reset.used_at && after reset.expires_at now) ≡ true
    → Indexed hash reset.id r
own_id now hash reset r h found good =
    let cases =
      via_cases empty_reset hash r.password_reset_by_hash r.password_resets_by_id reset found in
    elim cases.2 [
      | inl row ↦ let named = h.resets_named.row cases.0 reset row in grind (arith, named, cases.1)
      | inr zero ↦ ground (arith, zero, good)
    ]

-- What ResetPassword does after the new password is stored.
closing-SpentReset :
    (hash : String) (now : Time) (id user_id : String) {s : AuthState}
    → Indexed hash id s.repository
    → Returns
        (λ t. SpentReset hash t.repository)
        (do
          on_repository (mark_password_reset_used now id)
          on_repository (invalidate_pending_password_resets now user_id)
          on_repository (revoke_all_refresh_tokens now user_id))
        s
unfolding ◌>>◌
closing-SpentReset hash now id user_id {s} h =
    Returns-bind (on_repository (mark_password_reset_used now id)) _ λ done returned.
      After-Returns (record {
        holds =
            Writes-SpentReset hash
              ((Returns-on_repository _ (marked hash now id h)).result done returned)
              (closed user_id now (on_repository (mark_password_reset_used now id) s).1).holds;
      })
  where
    closed :
        (user_id : String) (now : Time) (t : AuthState)
        → After
            (Reached t.repository)
            (on_repository (invalidate_pending_password_resets now user_id) >>= λ _.
              on_repository (revoke_all_refresh_tokens now user_id))
            t
    closed user_id now t =
        After-bind
          (on_repository-Reached (invalidate_pending_password_resets-Writes now user_id unchanged))
          λ _ _ more. on_repository-Reached (revoke_all_refresh_tokens-Writes now user_id more)

module _ (ports : Ports) (service : AuthService) where
  -- A reset that succeeds spends its token.
  pub reset_password-SpentReset :
      (now : Time) (raw_token new_password : String) {s : AuthState}
      → WellFormed s.repository
      → Returns
          (λ t. SpentReset (ports.token_hash raw_token) t.repository)
          (reset_password ports service now raw_token new_password)
          s
  unfolding reset_password ◌>>◌
  reset_password-SpentReset now raw_token new_password {s} h =
      let hash = ports.token_hash raw_token in
      Returns-read _ _ _ λ reset found. Returns-guard _ _ _ λ good. Returns-guard _ _ _ λ _.
        Returns-read _ _ _ λ user _. Returns-guard _ _ _ λ _. Returns-found _ _ _ λ password_hash _.
          let changed = with_password ports service password_hash now user in
          Returns-bind (on_repository (update_user changed)) _ λ _ _.
            closing-SpentReset hash now reset.id user.id
              (After-on_repository (update_user changed) (
                update_user-Indexed hash reset.id changed
                  (own_id now hash reset s.repository h found good))).holds

  -- A reset that is spent is refused.
  pub reset_refused :
      (now : Time) (raw_token new_password : String) (s : AuthState)
      → SpentReset (ports.token_hash raw_token) s.repository
      → (reset_password ports service now raw_token new_password s).0 ≡ err unauthorized
  unfolding reset_password ◌>>◌
  reset_refused now raw_token new_password s spent = read_refuses _ _ _ λ reset found.
      guard_refuses _ _ _ _ (
        let dead =
          Spent-via (λ row. row.used_at) empty_reset reset (ports.token_hash raw_token)
            s.repository.password_reset_by_hash s.repository.password_resets_by_id spent found in
        ground (arith, dead))

  -- A reset token that set a password is refused as unauthorized by a later ResetPassword, at any
  -- time, for any new password and after any calls of the service. The repository is well-formed
  -- and the ids that the calls draw are not in use.
  pub reset_password_once :
      (now later : Time) (raw_token new_password later_password : String) (calls : List Call)
      (s : AuthState)
      → WellFormed s.repository
      → FreshIds ports service (reset_call now raw_token new_password ∷ calls) s
      → (reset_password ports service now raw_token new_password s).0 ≡ ok tt
      → (reset_password ports service later raw_token later_password (
          after_calls ports service calls
            (reset_password ports service now raw_token new_password s).1)).0
        ≡ err unauthorized
  reset_password_once now later raw_token new_password later_password calls s h fresh returned =
      let hash = ports.token_hash raw_token in
      let t = (reset_password ports service now raw_token new_password s).1 in
      let first =
        (reset_password-Reached ports service now raw_token new_password h unchanged).holds in
      let rest = after_calls-Writes ports service calls t (Writes-WellFormed h first) fresh.1 in
      reset_refused later raw_token later_password (after_calls ports service calls t) (
        Writes-SpentReset hash
          ((reset_password-SpentReset now raw_token new_password h).result tt returned) rest)
