-- ===== src/Identity/SuperAdmin.antt =====
-- internal/core/domain/identity.go and internal/adapter/outbound/memory/identity_repository.go: which
-- users are active super-admins, as writes leave it.
use billpiggy.Base.{
  ◌≡◌, refl, sym, ap, ◌∙◌, Bool, true, false, String, List, [], ◌∷◌, Option, none, some, string_eq,
  arith, equals_iff,
}
use billpiggy.Base.Assoc.{lookup, insert, erase, lookup-insert, lookup-erase}
use billpiggy.Identity.{AppUser}
use billpiggy.Identity.Repository.{IdentityRepository}
use billpiggy.Identity.Values.{active_super_admin, is_super_admin, count_super_admins}
use billpiggy.Identity.Writes.{
  Write, bootstrapped, updated, removed, joined, invited, token_issued, token_rotated,
  token_revoked, tokens_revoked, reset_issued, reset_used, resets_closed, Writes, unchanged,
  and_then,
}

abbrev pub standing : Option AppUser → Bool
standing none = false
standing (some user) = active_super_admin user

-- The user with this id is a super-admin who is not blocked.
abbrev pub super_admin_at : String → IdentityRepository → Bool
super_admin_at id r = standing (lookup id r.users_by_id)

standing-insert :
    (id wanted : String) (user : AppUser) (users : List (String × AppUser))
    → active_super_admin user ≡ standing (lookup id users)
    → standing (lookup wanted (insert id user users)) ≡ standing (lookup wanted users)
standing-insert id wanted user users h =
    grind (arith, equals_iff id wanted, lookup-insert id wanted user users)

standing-erase :
    (id wanted : String) (users : List (String × AppUser))
    → standing (lookup id users) ≡ false
    → standing (lookup wanted (erase id users)) ≡ standing (lookup wanted users)
standing-erase id wanted users h = grind (arith, equals_iff id wanted, lookup-erase id wanted users)

plain_inactive :
    (user : AppUser) → is_super_admin user.role ≡ false → active_super_admin user ≡ false
plain_inactive user h = ground (arith, h)

-- Nobody is a super-admin in a repository that counts none.
none_counted :
    (id : String) (users : List (String × AppUser))
    → count_super_admins users ≡ 0
    → standing (lookup id users) ≡ false
unfolding count_super_admins lookup
none_counted id [] h = refl
none_counted id ((key, user) ∷ rest) h = ground (arith, none_counted id rest)

pub Write-super_admin_at :
    {r t : IdentityRepository} (owner : String)
    → super_admin_at owner r ≡ true
    → Write r t
    → (id : String) → super_admin_at id t ≡ super_admin_at id r
Write-super_admin_at {r} owner h (bootstrapped user none_there _ e) id =
    let off = none_counted owner r.users_by_id none_there in cc
Write-super_admin_at {r} owner h (updated previous user found same e) id =
    ap (super_admin_at id) e
    ∙ standing-insert user.id id user r.users_by_id (same ∙ ap standing (sym found))
Write-super_admin_at {r} owner h (removed user uid found plain e) id =
    ap (super_admin_at id) e
    ∙ standing-erase uid id r.users_by_id (ap standing found ∙ plain_inactive user plain)
Write-super_admin_at {r} owner h (joined now _ invitation user _ fresh plain e) id =
    ap (super_admin_at id) e
    ∙ standing-insert user.id id user r.users_by_id
        (plain_inactive user plain ∙ ap standing (sym fresh))
Write-super_admin_at owner h (invited _ _ e) id = ap (super_admin_at id) e
Write-super_admin_at owner h (token_issued _ _ _ e) id = ap (super_admin_at id) e
Write-super_admin_at owner h (token_rotated _ _ _ _ _ _ _ e) id = ap (super_admin_at id) e
Write-super_admin_at owner h (token_revoked _ _ e) id = ap (super_admin_at id) e
Write-super_admin_at owner h (tokens_revoked _ _ e) id = ap (super_admin_at id) e
Write-super_admin_at owner h (reset_issued _ _ _ e) id = ap (super_admin_at id) e
Write-super_admin_at owner h (reset_used _ _ _ _ e) id = ap (super_admin_at id) e
Write-super_admin_at owner h (resets_closed _ _ e) id = ap (super_admin_at id) e

pub Writes-super_admin_at :
    {r t : IdentityRepository} (owner : String)
    → super_admin_at owner r ≡ true
    → Writes r t
    → (id : String) → super_admin_at id t ≡ super_admin_at id r
Writes-super_admin_at owner h unchanged id = refl
Writes-super_admin_at owner h (and_then ws w) id =
    let before = Writes-super_admin_at owner h ws in
    Write-super_admin_at owner (before owner ∙ h) w id ∙ before id
