-- ===== src/Identity/Repository.antt =====
-- internal/adapter/outbound/memory/identity_repository.go: users, invitations, refresh tokens and
-- password resets, each under its id, with an index by email or by token hash. Go's zero value, which
-- reading a map gives on a missing key, is the argument `empty_user` and its like.
use billpiggy.Identity.Values.{
  empty_invitation, empty_refresh_token, empty_reset, empty_user, err_not_found, missing, via,
}
use billpiggy.Base.{
  Bool, true, false, not, ◌&&◌, ◌||◌, String, List, [], map, Option, none, some, ◌==◌, string_eq,
  if◌then◌else◌,
}
use billpiggy.Base.Act.{other, Act, Done, read, guard, require, modify, ◌>>=◌, ◌>>◌}
use billpiggy.Base.Assoc.{lookup, insert, erase}
use billpiggy.Clock.{Time, after}
use billpiggy.Identity.{
  AppUser, Invitation, InvitationStatus, invitation_pending, invitation_accepted,
  invitation_revoked, invitation_expired, other_status, RefreshToken, PasswordReset,
}

pub record IdentityRepository : Type 0 where
  pub users_by_id : List (String × AppUser)
  pub user_id_by_email : List (String × String)
  pub invitations_by_id : List (String × Invitation)
  pub invitation_id_by_hash : List (String × String)
  pub refresh_by_id : List (String × RefreshToken)
  pub refresh_id_by_hash : List (String × String)
  pub password_resets_by_id : List (String × PasswordReset)
  pub password_reset_by_hash : List (String × String)

-- NewIdentityRepository
abbrev pub new_identity_repository : IdentityRepository
new_identity_repository = record {
  users_by_id = [];
  user_id_by_email = [];
  invitations_by_id = [];
  invitation_id_by_hash = [];
  refresh_by_id = [];
  refresh_id_by_hash = [];
  password_resets_by_id = [];
  password_reset_by_hash = [];
}

-- GetUserByID, GetUserByEmail, GetInvitationByTokenHash, GetRefreshTokenByHash and
-- GetPasswordResetByTokenHash, errNotFound being `none`
abbrev pub get_user_by_id : String → IdentityRepository → Option AppUser
get_user_by_id id r = lookup id r.users_by_id

abbrev pub get_user_by_email : String → IdentityRepository → Option AppUser
get_user_by_email email r = via empty_user email r.user_id_by_email r.users_by_id

abbrev pub get_invitation_by_token_hash : String → IdentityRepository → Option Invitation
get_invitation_by_token_hash hash r =
    via empty_invitation hash r.invitation_id_by_hash r.invitations_by_id

abbrev pub get_refresh_token_by_hash : String → IdentityRepository → Option RefreshToken
get_refresh_token_by_hash hash r = via empty_refresh_token hash r.refresh_id_by_hash r.refresh_by_id

abbrev pub get_password_reset_by_token_hash : String → IdentityRepository → Option PasswordReset
get_password_reset_by_token_hash hash r =
    via empty_reset hash r.password_reset_by_hash r.password_resets_by_id

abbrev values : {A : Type 0} → List (String × A) → List A
values entries = map (λ entry. entry.1) entries

-- ListUsers, in the order of the entries
abbrev pub list_users : IdentityRepository → List AppUser
list_users r = values r.users_by_id

-- CreateUser
abbrev pub put_user : AppUser → IdentityRepository → IdentityRepository
put_user user r = record r {
  users_by_id = insert user.id user r.users_by_id;
  user_id_by_email = insert user.email user.id r.user_id_by_email;
}

unfoldable pub create_user : AppUser → Act IdentityRepository Done
create_user user = do
  require (λ r. missing user.id r.users_by_id) (other "user id already exists")
  require (λ r. missing user.email r.user_id_by_email) (other "user email already exists")
  modify (put_user user)

-- UpdateUser. The index follows a changed email.
abbrev pub taken_by_another : AppUser → IdentityRepository → Bool
taken_by_another user r = elim (lookup user.email r.user_id_by_email) [
  | none ↦ false
  | some existing ↦ not (existing == user.id)
]

abbrev pub replace_user : AppUser → AppUser → IdentityRepository → IdentityRepository
replace_user previous user r = record r {
  users_by_id = insert user.id user r.users_by_id;
  user_id_by_email =
      if previous.email == user.email
      then r.user_id_by_email
      else insert user.email user.id (erase previous.email r.user_id_by_email);
}

unfoldable pub update_user : AppUser → Act IdentityRepository Done
update_user user = do
  previous ← read err_not_found (get_user_by_id user.id)
  require (λ r. previous.email == user.email || not (taken_by_another user r))
      (other "user email already exists")
  modify (replace_user previous user)

-- DeleteUser
abbrev pub remove_user : AppUser → String → IdentityRepository → IdentityRepository
remove_user user user_id r = record r {
  users_by_id = erase user_id r.users_by_id;
  user_id_by_email = erase user.email r.user_id_by_email;
}

unfoldable pub delete_user : String → Act IdentityRepository Done
delete_user user_id = do
  user ← read err_not_found (get_user_by_id user_id)
  modify (remove_user user user_id)

-- CreateInvitation
abbrev pub put_invitation : Invitation → IdentityRepository → IdentityRepository
put_invitation invitation r = record r {
  invitations_by_id = insert invitation.id invitation r.invitations_by_id;
  invitation_id_by_hash = insert invitation.token_hash invitation.id r.invitation_id_by_hash;
}

unfoldable pub create_invitation : Invitation → Act IdentityRepository Done
create_invitation invitation = do
  require (λ r. missing invitation.token_hash r.invitation_id_by_hash)
      (other "invitation token already exists")
  modify (put_invitation invitation)

-- AcceptInvitation
abbrev pub awaits_acceptance : InvitationStatus → Bool
awaits_acceptance invitation_pending = true
awaits_acceptance invitation_accepted = false
awaits_acceptance invitation_revoked = false
awaits_acceptance invitation_expired = false
awaits_acceptance (other_status _) = false

abbrev pub join : Time → String → Invitation → AppUser → IdentityRepository → IdentityRepository
join now invitation_id invitation user r =
    let accepted = record invitation {
      status = invitation_accepted;
      accepted_by = user.id;
      accepted_at = some now;
    } in
    record (put_user user r) {
      invitations_by_id = insert invitation_id accepted r.invitations_by_id;
    }

unfoldable pub accept_invitation : Time → String → AppUser → Act IdentityRepository Done
accept_invitation now invitation_id user = do
  invitation ← read err_not_found (λ r. lookup invitation_id r.invitations_by_id)
  guard (awaits_acceptance invitation.status && after invitation.expires_at now) err_not_found
  require (λ r. missing user.email r.user_id_by_email) (other "user email already exists")
  modify (join now invitation_id invitation user)
