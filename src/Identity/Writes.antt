-- ===== src/Identity/Writes.antt =====
-- internal/adapter/outbound/memory/identity_repository.go, as AuthService uses it: the writes that its
-- calls may make, each with what the service has checked before, and the operations as runs of them.
use billpiggy.Base.{◌≡◌, true, false, String, none, some, string_eq}
use billpiggy.Base.Assoc.{lookup, map_values}
use billpiggy.Clock.{Time}
use billpiggy.Identity.{AppUser, Invitation, RefreshToken, PasswordReset}
use billpiggy.Identity.Repository.{
  IdentityRepository, put_user, replace_user, remove_user, put_invitation, join,
}
use billpiggy.Identity.Tokens.{
  put_refresh_token, rotate, revoke_row, revoke_for, put_reset, use_reset, invalidate_for,
}
use billpiggy.Identity.Values.{active_super_admin, is_super_admin, count_super_admins, missing}

-- One write, from the repository `r` to `t`.
pub data Write (r t : IdentityRepository) : Type 0 where
  bootstrapped :
      (user : AppUser)
      → count_super_admins r.users_by_id ≡ 0
      → missing user.id r.users_by_id ≡ true
      → t ≡ put_user user r
      → Write r t
  updated :
      (previous user : AppUser)
      → lookup user.id r.users_by_id ≡ some previous
      → active_super_admin user ≡ active_super_admin previous
      → t ≡ replace_user previous user r
      → Write r t
  removed :
      (user : AppUser) (id : String)
      → lookup id r.users_by_id ≡ some user
      → is_super_admin user.role ≡ false
      → t ≡ remove_user user id r
      → Write r t
  joined :
      (now : Time) (id : String) (invitation : Invitation) (user : AppUser)
      → lookup id r.invitations_by_id ≡ some invitation
      → lookup user.id r.users_by_id ≡ none
      → is_super_admin user.role ≡ false
      → t ≡ join now id invitation user r
      → Write r t
  invited :
      (invitation : Invitation)
      → is_super_admin invitation.role ≡ false
      → t ≡ put_invitation invitation r
      → Write r t
  token_issued :
      (token : RefreshToken)
      → missing token.token_hash r.refresh_id_by_hash ≡ true
      → lookup token.id r.refresh_by_id ≡ none
      → t ≡ put_refresh_token token r
      → Write r t
  token_rotated :
      (now : Time) (id : String) (old replacement : RefreshToken)
      → lookup id r.refresh_by_id ≡ some old
      → missing replacement.token_hash r.refresh_id_by_hash ≡ true
      → lookup replacement.id r.refresh_by_id ≡ none
      → t ≡ rotate now id old replacement r
      → Write r t
  token_revoked : (now : Time) (id : String) → t ≡ revoke_row now id r → Write r t
  tokens_revoked :
      (now : Time) (user_id : String)
      → t ≡ record r { refresh_by_id = map_values (revoke_for now user_id) r.refresh_by_id }
      → Write r t
  reset_issued :
      (reset : PasswordReset)
      → missing reset.token_hash r.password_reset_by_hash ≡ true
      → lookup reset.id r.password_resets_by_id ≡ none
      → t ≡ put_reset reset r
      → Write r t
  reset_used :
      (now : Time) (id : String) (reset : PasswordReset)
      → lookup id r.password_resets_by_id ≡ some reset
      → t ≡ use_reset now id reset r
      → Write r t
  resets_closed :
      (now : Time) (user_id : String)
      → t ≡ record r {
        password_resets_by_id = map_values (invalidate_for now user_id) r.password_resets_by_id;
      }
      → Write r t

-- Any number of writes.
pub data Writes (r : IdentityRepository) : IdentityRepository → Type 0 where
  unchanged : Writes r r
  and_then : {t u : IdentityRepository} → Writes r t → Write t u → Writes r u
