-- ===== src/Tests/Accounts.antt =====
-- Sessions, passwords and roles at concrete inputs.
use billpiggy.Base.{◌≡◌, refl, true, false, String, List, [], ◌∷◌, none, some, ◌==◌, string_eq}
use billpiggy.Base.Int.{pos, ◌+ℤ◌}
use billpiggy.Base.Act.{
  unauthorized, ok, err, ◌>>=◌, ◌>>◌, read, guard, require, from_option, modify, pure,
}
use billpiggy.Base.Assoc.{lookup, insert, map_values}
use billpiggy.Base.Rows.{empty-Rows, cons-Rows}
use billpiggy.Clock.{add_duration}
use billpiggy.Identity.{
  AppUser, UserRole, role_member, role_admin, role_super_admin, RefreshToken, PasswordReset,
}
use billpiggy.Identity.Repository.{IdentityRepository, update_user}
use billpiggy.Identity.Tokens.{
  live, rotate_refresh_token, mark_password_reset_used, invalidate_pending_password_resets,
  revoke_all_refresh_tokens,
}
use billpiggy.Identity.WellFormed.{WellFormed, Named, TokenNamed, ResetNamed, Plain}
use billpiggy.Identity.SuperAdmin.{super_admin_at}
use billpiggy.Auth.{AuthService, AuthState, Session, Ports, on_repository}
use billpiggy.Auth.Sessions.{SessionDraw, refresh, issue_session}
use billpiggy.Auth.Passwords.{change_password, reset_password}
use billpiggy.Auth.Calls.{Call, logout_call, manage_call, after_calls}
use billpiggy.Auth.SuperAdmin.{after_calls-super_admin_at}
use billpiggy.Auth.SingleUse.{refresh_once}
use billpiggy.Auth.ResetOnce.{reset_password_once}
use billpiggy.Auth.ChangePassword.{change_password_ends_sessions, change_password_ends_resets}

abbrev user_named : String → UserRole → AppUser
user_named id role = record {
  id = id;
  email = id;
  password_hash = "a long password";
  display_name = id;
  profile_image_object_key = "";
  role = role;
  access_blocked = false;
  email_notifications_enabled = true;
  notification_preferences = [];
  ai_enabled = true;
  created_at = 1;
  updated_at = 1;
}

abbrev owner : AppUser
owner = user_named "owner" role_super_admin

abbrev pub member : AppUser
member = user_named "member" role_member

abbrev token : RefreshToken
token = record {
  id = "token";
  user_id = "member";
  token_hash = "raw token";
  family_id = "family";
  expires_at = 100;
  created_at = 1;
  revoked_at = none;
  replaced_by = "";
}

abbrev reset : PasswordReset
reset = record {
  id = "reset";
  user_id = "member";
  token_hash = "raw reset";
  expires_at = 100;
  created_at = 1;
  used_at = none;
}

abbrev people : IdentityRepository
people = record {
  users_by_id = ("owner", owner) ∷ ("member", member) ∷ [];
  user_id_by_email = ("owner", "owner") ∷ ("member", "member") ∷ [];
  invitations_by_id = [];
  invitation_id_by_hash = [];
  refresh_by_id = ("token", token) ∷ [];
  refresh_id_by_hash = ("raw token", "token") ∷ [];
  password_resets_by_id = ("reset", reset) ∷ [];
  password_reset_by_hash = ("raw reset", "reset") ∷ [];
}

people-WellFormed : WellFormed people
people-WellFormed = record {
  users_named = cons-Rows Named refl (cons-Rows Named refl (empty-Rows Named));
  tokens_named = cons-Rows TokenNamed refl (empty-Rows TokenNamed);
  resets_named = cons-Rows ResetNamed refl (empty-Rows ResetNamed);
  invitations_plain = empty-Rows Plain;
}

abbrev plain_ports : Ports
plain_ports = record {
  generate_from_password = λ password. some password;
  password_matches = λ hash password. hash == password;
  token_hash = λ raw. raw;
  signed_string = λ secret claims. some claims.subject;
  parse_with_claims = λ secret issuer now raw. none;
  to_lower = λ text. text;
  trim_space = λ text. text;
  trim_right_slashes = λ text. text;
  format_rfc3339 = λ at. "";
}

abbrev service : AuthService
service = record {
  config = record {
    jwt_secret = "0123456789abcdef0123456789abcdef";
    issuer = "billpiggy";
    access_token_ttl = pos 10;
    refresh_token_ttl = pos 50;
    invitation_ttl = pos 70;
    password_reset_ttl = pos 20;
    bootstrap_super_admin_email = "";
    bootstrap_super_admin_password = "";
    public_base_url = "";
  };
  with_notifications = true;
  with_object_references = true;
}

abbrev start : AuthState
start = record { repository = people; notifications = []; references = [] }

-- The owner makes the member an administrator, and the member logs out.
abbrev later_calls : List Call
later_calls =
    manage_call "mail" 30 owner "member" role_admin false ∷ logout_call 31 "raw token" ∷ []

after_calls-super_admin_at_example :
    super_admin_at "owner" (after_calls plain_ports service later_calls start).repository
    ≡ super_admin_at "owner" start.repository
unfolding lookup
after_calls-super_admin_at_example =
    after_calls-super_admin_at plain_ports service later_calls start "owner" "owner"
      people-WellFormed (tt, (tt, tt)) refl

abbrev first_draw : SessionDraw
first_draw = record { raw_token = some "second token"; token_id = "second"; family_id = "other" }

abbrev second_draw : SessionDraw
second_draw = record { raw_token = some "third token"; token_id = "third"; family_id = "another" }

abbrev issued : Session
issued = record {
  access_token = "member";
  access_token_expiry = 30;
  refresh_token = "second token";
  refresh_token_expiry = 70;
}

refresh_issues : (refresh plain_ports service first_draw 20 "raw token" start).0 ≡ ok issued
unfolding refresh issue_session rotate_refresh_token on_repository ◌>>=◌ ◌>>◌ read guard require
    from_option modify pure insert lookup add_duration ◌+ℤ◌
refresh_issues = refl

refresh_once_example :
    (refresh plain_ports service second_draw 40 "raw token" (
      after_calls plain_ports service later_calls
        (refresh plain_ports service first_draw 20 "raw token" start).1)).0
    ≡ err unauthorized
unfolding lookup
refresh_once_example =
    refresh_once plain_ports service first_draw second_draw 20 40 "raw token" issued later_calls
      start people-WellFormed refl (refl, (tt, (tt, tt))) refresh_issues

reset_succeeds :
    (reset_password plain_ports service 20 "raw reset" "another password" start).0 ≡ ok tt
unfolding reset_password mark_password_reset_used invalidate_pending_password_resets
    revoke_all_refresh_tokens update_user on_repository ◌>>=◌ ◌>>◌ read guard require from_option
    modify pure insert lookup map_values
reset_succeeds = refl

reset_password_once_example :
    (reset_password plain_ports service 40 "raw reset" "a third password" (
      after_calls plain_ports service later_calls
        (reset_password plain_ports service 20 "raw reset" "another password" start).1)).0
    ≡ err unauthorized
reset_password_once_example =
    reset_password_once plain_ports service 20 40 "raw reset" "another password" "a third password"
      later_calls start people-WellFormed (tt, (tt, (tt, tt))) reset_succeeds

change_succeeds :
    (change_password plain_ports service 20 "member" "a long password" "another password" start).0
    ≡ ok tt
unfolding change_password invalidate_pending_password_resets revoke_all_refresh_tokens update_user
    on_repository ◌>>=◌ ◌>>◌ read guard require from_option modify pure insert lookup map_values
change_succeeds = refl

abbrev ended_token : RefreshToken
ended_token = record token { revoked_at = some 20 }

abbrev ended_reset : PasswordReset
ended_reset = record reset { used_at = some 20 }

token_ended :
    lookup "token"
      (change_password plain_ports service 20 "member" "a long password" "another password"
        start).1.repository.refresh_by_id
    ≡ some ended_token
unfolding change_password invalidate_pending_password_resets revoke_all_refresh_tokens update_user
    on_repository ◌>>=◌ ◌>>◌ read guard require from_option modify pure insert lookup map_values
token_ended = refl

reset_ended :
    lookup "reset"
      (change_password plain_ports service 20 "member" "a long password" "another password"
        start).1.repository.password_resets_by_id
    ≡ some ended_reset
unfolding change_password invalidate_pending_password_resets revoke_all_refresh_tokens update_user
    on_repository ◌>>=◌ ◌>>◌ read guard require from_option modify pure insert lookup map_values
reset_ended = refl

change_password_ends_sessions_example : live ended_token.revoked_at ≡ false
change_password_ends_sessions_example =
    change_password_ends_sessions plain_ports service 20 "member" "a long password"
      "another password" start "token" ended_token change_succeeds token_ended refl

change_password_ends_resets_example : live ended_reset.used_at ≡ false
change_password_ends_resets_example =
    change_password_ends_resets plain_ports service 20 "member" "a long password" "another password"
      start "reset" ended_reset change_succeeds reset_ended refl
