-- ===== src/Identity/Tokens.antt =====
-- internal/adapter/outbound/memory/identity_repository.go: refresh tokens and password resets.
use billpiggy.Identity.Values.{err_not_found, missing}
use billpiggy.Base.{
  Bool, true, false, String, List, Option, none, some, ◌==◌, string_eq, if◌then◌else◌,
}
use billpiggy.Base.Act.{other, Act, Done, read, guard, require, modify, ◌>>=◌, ◌>>◌}
use billpiggy.Base.Assoc.{lookup, insert, map_values}
use billpiggy.Clock.{Time}
use billpiggy.Identity.{RefreshToken, PasswordReset}
use billpiggy.Identity.Repository.{IdentityRepository}

-- CreateRefreshToken
abbrev pub put_refresh_token : RefreshToken → IdentityRepository → IdentityRepository
put_refresh_token token r = record r {
  refresh_by_id = insert token.id token r.refresh_by_id;
  refresh_id_by_hash = insert token.token_hash token.id r.refresh_id_by_hash;
}

unfoldable pub create_refresh_token : RefreshToken → Act IdentityRepository Done
create_refresh_token token = do
  require (λ r. missing token.token_hash r.refresh_id_by_hash)
      (other "refresh token already exists")
  modify (put_refresh_token token)

-- RotateRefreshToken. The old token's row is written before the replacement's.
abbrev pub live : Option Time → Bool
live none = true
live (some _) = false

abbrev pub rotate :
    Time → String → RefreshToken → RefreshToken → IdentityRepository → IdentityRepository
rotate now old_id old replacement r =
    let revoked = record old { revoked_at = some now; replaced_by = replacement.id } in
    put_refresh_token (record replacement { family_id = old.family_id })
      (record r { refresh_by_id = insert old_id revoked r.refresh_by_id })

unfoldable pub rotate_refresh_token : Time → String → RefreshToken → Act IdentityRepository Done
rotate_refresh_token now old_id replacement = do
  old ← read err_not_found (λ r. lookup old_id r.refresh_by_id)
  guard (live old.revoked_at) err_not_found
  require (λ r. missing replacement.token_hash r.refresh_id_by_hash)
      (other "refresh token already exists")
  modify (rotate now old_id old replacement)

-- RevokeRefreshToken: a token that is missing or revoked is left as it is.
abbrev pub closed_at : Time → Option Time → Option Time
closed_at now none = some now
closed_at now (some before) = some before

abbrev pub revoke : Time → RefreshToken → RefreshToken
revoke now token = record token { revoked_at = closed_at now token.revoked_at }

abbrev pub revoked_row :
    Time
    → String
    → Option RefreshToken
    → List (String × RefreshToken)
    → List (String × RefreshToken)
revoked_row now id none rows = rows
revoked_row now id (some token) rows = insert id (revoke now token) rows

abbrev pub revoke_row : Time → String → IdentityRepository → IdentityRepository
revoke_row now id r = record r {
  refresh_by_id = revoked_row now id (lookup id r.refresh_by_id) r.refresh_by_id;
}

unfoldable pub revoke_refresh_token : Time → String → Act IdentityRepository Done
revoke_refresh_token now id = modify (revoke_row now id)

-- RevokeAllRefreshTokens
abbrev pub revoke_for : Time → String → RefreshToken → RefreshToken
revoke_for now user_id token = record token {
  revoked_at =
      if token.user_id == user_id then closed_at now token.revoked_at else token.revoked_at;
}

unfoldable pub revoke_all_refresh_tokens : Time → String → Act IdentityRepository Done
revoke_all_refresh_tokens now user_id =
    modify (λ r. record r { refresh_by_id = map_values (revoke_for now user_id) r.refresh_by_id })

-- CreatePasswordReset
abbrev pub put_reset : PasswordReset → IdentityRepository → IdentityRepository
put_reset reset r = record r {
  password_resets_by_id = insert reset.id reset r.password_resets_by_id;
  password_reset_by_hash = insert reset.token_hash reset.id r.password_reset_by_hash;
}

unfoldable pub create_password_reset : PasswordReset → Act IdentityRepository Done
create_password_reset reset = do
  require (λ r. missing reset.token_hash r.password_reset_by_hash)
      (other "password reset token already exists")
  modify (put_reset reset)

-- MarkPasswordResetUsed, which does not ask whether it was used before
abbrev pub use_reset : Time → String → PasswordReset → IdentityRepository → IdentityRepository
use_reset now id reset r = record r {
  password_resets_by_id = insert id (record reset { used_at = some now }) r.password_resets_by_id;
}

unfoldable pub mark_password_reset_used : Time → String → Act IdentityRepository Done
mark_password_reset_used now id = do
  reset ← read err_not_found (λ r. lookup id r.password_resets_by_id)
  modify (use_reset now id reset)

-- InvalidatePendingPasswordResets
abbrev pub invalidate_for : Time → String → PasswordReset → PasswordReset
invalidate_for now user_id reset = record reset {
  used_at = if reset.user_id == user_id then closed_at now reset.used_at else reset.used_at;
}

unfoldable pub invalidate_pending_password_resets : Time → String → Act IdentityRepository Done
invalidate_pending_password_resets now user_id = modify (λ r. record r {
  password_resets_by_id = map_values (invalidate_for now user_id) r.password_resets_by_id;
})
