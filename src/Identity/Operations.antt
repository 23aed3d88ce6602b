-- ===== src/Identity/Operations.antt =====
-- internal/adapter/outbound/memory/identity_repository.go: each operation is a run of the writes that
-- its conditions allow.
use billpiggy.Base.{◌≡◌, refl, false, String, none, some, string_eq}
use billpiggy.Base.Act.{Act, modify, ◌>>◌}
use billpiggy.Base.After.{After, After-guard, After-require, After-read}
use billpiggy.Base.Assoc.{lookup}
use billpiggy.Clock.{Time}
use billpiggy.Identity.{AppUser, Invitation, RefreshToken, PasswordReset}
use billpiggy.Identity.Repository.{
  IdentityRepository, create_user, update_user, delete_user, create_invitation, accept_invitation,
}
use billpiggy.Identity.Tokens.{
  create_refresh_token, rotate_refresh_token, revoke_refresh_token, revoke_all_refresh_tokens,
  create_password_reset, mark_password_reset_used, invalidate_pending_password_resets,
}
use billpiggy.Identity.Values.{active_super_admin, is_super_admin, count_super_admins}
use billpiggy.Identity.Writes.{
  Write, bootstrapped, updated, removed, joined, invited, token_issued, token_rotated,
  token_revoked, tokens_revoked, reset_issued, reset_used, resets_closed, Writes, and_then,
}

abbrev pub AfterWrites :
    IdentityRepository → {A : Type 0} → Act IdentityRepository A → IdentityRepository → Type 0
AfterWrites s m r = After (Writes s) m r

module _ {s : IdentityRepository} where
  wrote :
      {r : IdentityRepository} (f : IdentityRepository → IdentityRepository)
      → Writes s r
      → Write r (f r)
      → AfterWrites s (modify f) r
  unfolding modify
  wrote f ws w = record { holds = and_then ws w }

  pub create_user-Writes :
      {r : IdentityRepository} (user : AppUser)
      → Writes s r
      → count_super_admins r.users_by_id ≡ 0
      → AfterWrites s (create_user user) r
  unfolding create_user ◌>>◌
  create_user-Writes {r} user ws none_there =
      After-require _ _ _ ws
        λ fresh. After-require _ _ _ ws λ _. wrote _ ws (bootstrapped user none_there fresh refl)

  pub update_user-Writes :
      {r : IdentityRepository} (user : AppUser)
      → Writes s r
      → ((previous : AppUser)
          → lookup user.id r.users_by_id ≡ some previous
          → active_super_admin user ≡ active_super_admin previous)
      → AfterWrites s (update_user user) r
  unfolding update_user ◌>>◌
  update_user-Writes {r} user ws same = After-read _ _ _ ws λ previous found.
      After-require _ _ _ ws
        λ _. wrote _ ws (updated previous user found (same previous found) refl)

  pub delete_user-Writes :
      {r : IdentityRepository} (id : String)
      → Writes s r
      → ((user : AppUser) → lookup id r.users_by_id ≡ some user → is_super_admin user.role ≡ false)
      → AfterWrites s (delete_user id) r
  unfolding delete_user
  delete_user-Writes {r} id ws plain =
      After-read _ _ _ ws λ user found. wrote _ ws (removed user id found (plain user found) refl)

  pub create_invitation-Writes :
      {r : IdentityRepository} (invitation : Invitation)
      → Writes s r
      → is_super_admin invitation.role ≡ false
      → AfterWrites s (create_invitation invitation) r
  unfolding create_invitation ◌>>◌
  create_invitation-Writes invitation ws plain =
      After-require _ _ _ ws λ _. wrote _ ws (invited invitation plain refl)

  pub accept_invitation-Writes :
      {r : IdentityRepository} (now : Time) (id : String) (user : AppUser)
      → Writes s r
      → lookup user.id r.users_by_id ≡ none
      → is_super_admin user.role ≡ false
      → AfterWrites s (accept_invitation now id user) r
  unfolding accept_invitation ◌>>◌
  accept_invitation-Writes now id user ws fresh plain = After-read _ _ _ ws λ invitation found.
      After-guard _ _ _ ws λ _.
        After-require _ _ _ ws
          λ _. wrote _ ws (joined now id invitation user found fresh plain refl)

  pub create_refresh_token-Writes :
      {r : IdentityRepository} (token : RefreshToken)
      → Writes s r
      → lookup token.id r.refresh_by_id ≡ none
      → AfterWrites s (create_refresh_token token) r
  unfolding create_refresh_token ◌>>◌
  create_refresh_token-Writes token ws fresh =
      After-require _ _ _ ws λ absent. wrote _ ws (token_issued token absent fresh refl)

  pub rotate_refresh_token-Writes :
      {r : IdentityRepository} (now : Time) (id : String) (replacement : RefreshToken)
      → Writes s r
      → lookup replacement.id r.refresh_by_id ≡ none
      → AfterWrites s (rotate_refresh_token now id replacement) r
  unfolding rotate_refresh_token ◌>>◌
  rotate_refresh_token-Writes now id replacement ws fresh = After-read _ _ _ ws λ old found.
      After-guard _ _ _ ws λ _.
        After-require _ _ _ ws
          λ absent. wrote _ ws (token_rotated now id old replacement found absent fresh refl)

  pub revoke_refresh_token-Writes :
      {r : IdentityRepository} (now : Time) (id : String)
      → Writes s r
      → AfterWrites s (revoke_refresh_token now id) r
  unfolding revoke_refresh_token
  revoke_refresh_token-Writes now id ws = wrote _ ws (token_revoked now id refl)

  pub revoke_all_refresh_tokens-Writes :
      {r : IdentityRepository} (now : Time) (user_id : String)
      → Writes s r
      → AfterWrites s (revoke_all_refresh_tokens now user_id) r
  unfolding revoke_all_refresh_tokens
  revoke_all_refresh_tokens-Writes now user_id ws = wrote _ ws (tokens_revoked now user_id refl)

  pub create_password_reset-Writes :
      {r : IdentityRepository} (reset : PasswordReset)
      → Writes s r
      → lookup reset.id r.password_resets_by_id ≡ none
      → AfterWrites s (create_password_reset reset) r
  unfolding create_password_reset ◌>>◌
  create_password_reset-Writes reset ws fresh =
      After-require _ _ _ ws λ absent. wrote _ ws (reset_issued reset absent fresh refl)

  pub mark_password_reset_used-Writes :
      {r : IdentityRepository} (now : Time) (id : String)
      → Writes s r
      → AfterWrites s (mark_password_reset_used now id) r
  unfolding mark_password_reset_used
  mark_password_reset_used-Writes now id ws =
      After-read _ _ _ ws λ reset found. wrote _ ws (reset_used now id reset found refl)

  pub invalidate_pending_password_resets-Writes :
      {r : IdentityRepository} (now : Time) (user_id : String)
      → Writes s r
      → AfterWrites s (invalidate_pending_password_resets now user_id) r
  unfolding invalidate_pending_password_resets
  invalidate_pending_password_resets-Writes now user_id ws =
      wrote _ ws (resets_closed now user_id refl)
