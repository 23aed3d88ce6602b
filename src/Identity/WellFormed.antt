-- ===== src/Identity/WellFormed.antt =====
-- internal/adapter/outbound/memory/identity_repository.go: what the maps of the repository keep.
use billpiggy.Base.{◌≡◌, refl, sym, subst, false, String, List, Option, none, some, string_eq}
use billpiggy.Base.Assoc.{lookup, insert}
use billpiggy.Base.Rows.{Rows, insert-Rows, erase-Rows, map_values-Rows}
use billpiggy.Clock.{Time}
use billpiggy.Identity.{AppUser, Invitation, RefreshToken, PasswordReset}
use billpiggy.Identity.Repository.{IdentityRepository}
use billpiggy.Identity.Tokens.{revoke, revoked_row, revoke_for, invalidate_for}
use billpiggy.Identity.Values.{is_super_admin}
use billpiggy.Identity.Writes.{
  Write, bootstrapped, updated, removed, joined, invited, token_issued, token_rotated,
  token_revoked, tokens_revoked, reset_issued, reset_used, resets_closed, Writes, unchanged,
  and_then,
}

abbrev pub Named : String → AppUser → Type 0
Named id user = user.id ≡ id

abbrev pub TokenNamed : String → RefreshToken → Type 0
TokenNamed id token = token.id ≡ id

abbrev pub ResetNamed : String → PasswordReset → Type 0
ResetNamed id reset = reset.id ≡ id

abbrev pub Plain : String → Invitation → Type 0
Plain id invitation = is_super_admin invitation.role ≡ false

-- Every row is filed under its own id, and nobody is invited to be a super-admin.
pub record WellFormed (r : IdentityRepository) : Type 0 where
  pub users_named : Rows Named r.users_by_id
  pub tokens_named : Rows TokenNamed r.refresh_by_id
  pub resets_named : Rows ResetNamed r.password_resets_by_id
  pub invitations_plain : Rows Plain r.invitations_by_id

revoked_row-Rows :
    (now : Time) (id : String) (rows : List (String × RefreshToken))
    → Rows TokenNamed rows
    → (o : Option RefreshToken) → lookup id rows ≡ o
    → Rows TokenNamed (revoked_row now id o rows)
revoked_row-Rows now id rows h none e = h
revoked_row-Rows now id rows h (some token) e =
    insert-Rows TokenNamed id (revoke now token) (h.row id token e) h

module _ {r : IdentityRepository} (h : WellFormed r) where
  with_users :
      {users : List (String × AppUser)} {emails : List (String × String)}
      → Rows Named users
      → WellFormed (record r { users_by_id = users; user_id_by_email = emails })
  with_users rows = record {
    users_named = rows;
    tokens_named = h.tokens_named;
    resets_named = h.resets_named;
    invitations_plain = h.invitations_plain;
  }

  with_tokens :
      {tokens : List (String × RefreshToken)} {hashes : List (String × String)}
      → Rows TokenNamed tokens
      → WellFormed (record r { refresh_by_id = tokens; refresh_id_by_hash = hashes })
  with_tokens rows = record {
    users_named = h.users_named;
    tokens_named = rows;
    resets_named = h.resets_named;
    invitations_plain = h.invitations_plain;
  }

  with_resets :
      {resets : List (String × PasswordReset)} {hashes : List (String × String)}
      → Rows ResetNamed resets
      → WellFormed (record r { password_resets_by_id = resets; password_reset_by_hash = hashes })
  with_resets rows = record {
    users_named = h.users_named;
    tokens_named = h.tokens_named;
    resets_named = rows;
    invitations_plain = h.invitations_plain;
  }

  with_invitations :
      {invitations : List (String × Invitation)} {hashes : List (String × String)}
      → Rows Plain invitations
      → WellFormed (record r { invitations_by_id = invitations; invitation_id_by_hash = hashes })
  with_invitations rows = record {
    users_named = h.users_named;
    tokens_named = h.tokens_named;
    resets_named = h.resets_named;
    invitations_plain = rows;
  }

  user_put : (user : AppUser) → Rows Named (insert user.id user r.users_by_id)
  user_put user = insert-Rows Named user.id user refl h.users_named

  token_put :
      (token : RefreshToken) {tokens : List (String × RefreshToken)}
      → Rows TokenNamed tokens
      → Rows TokenNamed (insert token.id token tokens)
  token_put token rows = insert-Rows TokenNamed token.id token refl rows

abbrev became : {r t : IdentityRepository} → t ≡ r → WellFormed r → WellFormed t
became e h = subst WellFormed (sym e) h

pub Write-WellFormed : {r t : IdentityRepository} → WellFormed r → Write r t → WellFormed t
Write-WellFormed h (bootstrapped user _ _ e) = became e (with_users h (user_put h user))
Write-WellFormed h (updated _ user _ _ e) = became e (with_users h (user_put h user))
Write-WellFormed h (removed _ id _ _ e) =
    became e (with_users h (erase-Rows Named id h.users_named))
Write-WellFormed h (joined now id invitation user found _ _ e) = became e (
    with_invitations (with_users h (user_put h user))
      (insert-Rows Plain id _ (h.invitations_plain.row id invitation found) h.invitations_plain))
Write-WellFormed h (invited invitation plain e) =
    became e
      (with_invitations h (insert-Rows Plain invitation.id invitation plain h.invitations_plain))
Write-WellFormed h (token_issued token _ _ e) =
    became e (with_tokens h (token_put h token h.tokens_named))
Write-WellFormed h (token_rotated now id old replacement found _ _ e) = became e (
    with_tokens h (
      token_put h _ (insert-Rows TokenNamed id _ (h.tokens_named.row id old found) h.tokens_named)))
Write-WellFormed {r} h (token_revoked now id e) =
    became e (with_tokens h (revoked_row-Rows now id r.refresh_by_id h.tokens_named _ refl))
Write-WellFormed h (tokens_revoked now user_id e) = became e (
    with_tokens h (map_values-Rows TokenNamed (revoke_for now user_id) (λ _ _ p. p) h.tokens_named))
Write-WellFormed h (reset_issued reset _ _ e) =
    became e (with_resets h (insert-Rows ResetNamed reset.id reset refl h.resets_named))
Write-WellFormed h (reset_used now id reset found e) =
    became e (
      with_resets h
        (insert-Rows ResetNamed id _ (h.resets_named.row id reset found) h.resets_named))
Write-WellFormed h (resets_closed now user_id e) = became e (
    with_resets h
      (map_values-Rows ResetNamed (invalidate_for now user_id) (λ _ _ p. p) h.resets_named))

pub Writes-WellFormed : {r t : IdentityRepository} → WellFormed r → Writes r t → WellFormed t
Writes-WellFormed h unchanged = h
Writes-WellFormed h (and_then ws w) = Write-WellFormed (Writes-WellFormed h ws) w
