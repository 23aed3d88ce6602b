-- ===== src/Identity/SingleUse.antt =====
-- internal/adapter/outbound/memory/identity_repository.go: writes after a refresh token
-- is revoked, or a password reset is used.
use billpiggy.Base.{
  ◌≡◌, refl, sym, ap, subst, Bool, true, false, String, List, Option, none, some, string_eq, arith,
  ◌==◌, equals_iff, if◌then◌else◌,
}
use billpiggy.Base.Assoc.{lookup, insert, lookup-insert, lookup-insert_self}
use billpiggy.Clock.{Time}
use billpiggy.Identity.{RefreshToken, PasswordReset}
use billpiggy.Identity.Repository.{IdentityRepository}
use billpiggy.Identity.Tokens.{
  live, closed_at, rotate, use_reset, revoke, revoked_row, revoke_for, invalidate_for,
}
use billpiggy.Identity.Values.{missing}
use billpiggy.Identity.Writes.{
  Write, bootstrapped, updated, removed, joined, invited, token_issued, token_rotated,
  token_revoked, tokens_revoked, reset_issued, reset_used, resets_closed, Writes, unchanged,
  and_then,
}
use billpiggy.Identity.Spent.{Spent, closed_row, Spent-insert, Spent-rewrite, Spent-map_values}

abbrev pub SpentToken : String → IdentityRepository → Type 0
SpentToken hash r = Spent (λ token. token.revoked_at) hash r.refresh_id_by_hash r.refresh_by_id

abbrev pub SpentReset : String → IdentityRepository → Type 0
SpentReset hash r =
    Spent (λ reset. reset.used_at) hash r.password_reset_by_hash r.password_resets_by_id

stays_closed : (now : Time) (o : Option Time) → live o ≡ false → live (closed_at now o) ≡ false
stays_closed now none h = refl
stays_closed now (some before) h = h

closed_if :
    (b : Bool) (now : Time) (o : Option Time)
    → live o ≡ false
    → live (if b then closed_at now o else o) ≡ false
closed_if true now o h = stays_closed now o h
closed_if false now o h = h

revoked_row-Spent :
    (hash : String) (now : Time) (id : String) {index : List (String × String)}
    {rows : List (String × RefreshToken)}
    → (o : Option RefreshToken) → lookup id rows ≡ o
    → Spent (λ token. token.revoked_at) hash index rows
    → Spent (λ token. token.revoked_at) hash index (revoked_row now id o rows)
revoked_row-Spent hash now id none e h = h
revoked_row-Spent hash now id (some token) e h =
    Spent-rewrite _ hash (revoke now token) token id e (stays_closed now token.revoked_at) h

abbrev pub replaced : Time → RefreshToken → RefreshToken → RefreshToken
replaced now old replacement = record old { revoked_at = some now; replaced_by = replacement.id }

rotated-SpentToken :
    (hash : String) (now : Time) (id : String) (old replacement : RefreshToken)
    (r : IdentityRepository)
    → lookup id r.refresh_by_id ≡ some old
    → missing replacement.token_hash r.refresh_id_by_hash ≡ true
    → lookup replacement.id r.refresh_by_id ≡ none
    → Spent
        (λ token. token.revoked_at)
        hash
        r.refresh_id_by_hash
        (insert id (replaced now old replacement) r.refresh_by_id)
    → SpentToken hash (rotate now id old replacement r)
rotated-SpentToken hash now id old replacement r found absent fresh h =
    let revoked = replaced now old replacement in
    Spent-insert _ hash _ replacement.id replacement.token_hash absent
      (grind (
        arith,
        equals_iff id replacement.id,
        lookup-insert id replacement.id revoked r.refresh_by_id,
        fresh,
        found,
      ))
      h

-- The token that is rotated is spent.
pub rotate_closes :
    (hash : String) (now : Time) (id : String) (old replacement : RefreshToken)
    (r : IdentityRepository)
    → lookup hash r.refresh_id_by_hash ≡ some id
    → lookup id r.refresh_by_id ≡ some old
    → missing replacement.token_hash r.refresh_id_by_hash ≡ true
    → lookup replacement.id r.refresh_by_id ≡ none
    → SpentToken hash (rotate now id old replacement r)
rotate_closes hash now id old replacement r indexed found absent fresh =
    rotated-SpentToken hash now id old replacement r found absent fresh (record {
      row_id = id;
      indexed = indexed;
      row_closed =
          ap (closed_row (λ token. token.revoked_at))
            (lookup-insert_self id (replaced now old replacement) r.refresh_by_id);
    })

-- A reset that is marked is spent.
pub use_reset_closes :
    (hash : String) (now : Time) (id : String) (reset : PasswordReset) (r : IdentityRepository)
    → lookup hash r.password_reset_by_hash ≡ some id
    → SpentReset hash (use_reset now id reset r)
use_reset_closes hash now id reset r indexed = record {
  row_id = id;
  indexed = indexed;
  row_closed =
      ap (closed_row (λ value. value.used_at))
        (lookup-insert_self id (record reset { used_at = some now }) r.password_resets_by_id);
}

pub Write-SpentToken :
    {r t : IdentityRepository} (hash : String) → SpentToken hash r → Write r t → SpentToken hash t
Write-SpentToken hash h (bootstrapped _ _ _ e) = subst (SpentToken hash) (sym e) h
Write-SpentToken hash h (updated _ _ _ _ e) = subst (SpentToken hash) (sym e) h
Write-SpentToken hash h (removed _ _ _ _ e) = subst (SpentToken hash) (sym e) h
Write-SpentToken hash h (joined _ _ _ _ _ _ _ e) = subst (SpentToken hash) (sym e) h
Write-SpentToken hash h (invited _ _ e) = subst (SpentToken hash) (sym e) h
Write-SpentToken hash h (token_issued token absent fresh e) =
    subst (SpentToken hash) (sym e)
      (Spent-insert _ hash token token.id token.token_hash absent fresh h)
Write-SpentToken {r} hash h (token_rotated now id old replacement found absent fresh e) =
    subst (SpentToken hash) (sym e) (
      rotated-SpentToken hash now id old replacement r found absent fresh
        (Spent-rewrite _ hash _ old id found (λ _. refl) h))
Write-SpentToken hash h (token_revoked now id e) =
    subst (SpentToken hash) (sym e) (revoked_row-Spent hash now id _ refl h)
Write-SpentToken hash h (tokens_revoked now user_id e) = subst (SpentToken hash) (sym e) (
    Spent-map_values _ hash (revoke_for now user_id)
      (λ v. closed_if (v.user_id == user_id) now v.revoked_at) h)
Write-SpentToken hash h (reset_issued _ _ _ e) = subst (SpentToken hash) (sym e) h
Write-SpentToken hash h (reset_used _ _ _ _ e) = subst (SpentToken hash) (sym e) h
Write-SpentToken hash h (resets_closed _ _ e) = subst (SpentToken hash) (sym e) h

pub Write-SpentReset :
    {r t : IdentityRepository} (hash : String) → SpentReset hash r → Write r t → SpentReset hash t
Write-SpentReset hash h (bootstrapped _ _ _ e) = subst (SpentReset hash) (sym e) h
Write-SpentReset hash h (updated _ _ _ _ e) = subst (SpentReset hash) (sym e) h
Write-SpentReset hash h (removed _ _ _ _ e) = subst (SpentReset hash) (sym e) h
Write-SpentReset hash h (joined _ _ _ _ _ _ _ e) = subst (SpentReset hash) (sym e) h
Write-SpentReset hash h (invited _ _ e) = subst (SpentReset hash) (sym e) h
Write-SpentReset hash h (token_issued _ _ _ e) = subst (SpentReset hash) (sym e) h
Write-SpentReset hash h (token_rotated _ _ _ _ _ _ _ e) = subst (SpentReset hash) (sym e) h
Write-SpentReset hash h (token_revoked _ _ e) = subst (SpentReset hash) (sym e) h
Write-SpentReset hash h (tokens_revoked _ _ e) = subst (SpentReset hash) (sym e) h
Write-SpentReset hash h (reset_issued reset absent fresh e) =
    subst (SpentReset hash) (sym e)
      (Spent-insert _ hash reset reset.id reset.token_hash absent fresh h)
Write-SpentReset hash h (reset_used now id reset found e) =
    subst (SpentReset hash) (sym e) (Spent-rewrite _ hash _ reset id found (λ _. refl) h)
Write-SpentReset hash h (resets_closed now user_id e) = subst (SpentReset hash) (sym e) (
    Spent-map_values _ hash (invalidate_for now user_id)
      (λ v. closed_if (v.user_id == user_id) now v.used_at) h)

pub Writes-SpentToken :
    {r t : IdentityRepository} (hash : String) → SpentToken hash r → Writes r t → SpentToken hash t
Writes-SpentToken hash h unchanged = h
Writes-SpentToken hash h (and_then ws w) = Write-SpentToken hash (Writes-SpentToken hash h ws) w

pub Writes-SpentReset :
    {r t : IdentityRepository} (hash : String) → SpentReset hash r → Writes r t → SpentReset hash t
Writes-SpentReset hash h unchanged = h
Writes-SpentReset hash h (and_then ws w) = Write-SpentReset hash (Writes-SpentReset hash h ws) w
