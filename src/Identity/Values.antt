-- ===== src/Identity/Values.antt =====
-- internal/adapter/outbound/memory/identity_repository.go: the zero values that Go reads from a map on a
-- missing key, reading through an index, and the count of super-admins.
use billpiggy.Base.{
  Bool, true, false, not, ◌&&◌, String, List, [], ◌∷◌, Option, none, some, string_eq, ℕ, ◌+◌,
  if◌then◌else◌,
}
use billpiggy.Base.Act.{Failure, other}
use billpiggy.Base.Assoc.{lookup}
use billpiggy.Identity.{
  AppUser, UserRole, role_super_admin, role_member, role_admin, other_role, Invitation,
  other_status, RefreshToken, PasswordReset,
}

-- errNotFound, which is not the service's ErrNotFound
abbrev pub err_not_found : Failure
err_not_found = other "not found"

-- The zero values of the structs.
abbrev pub empty_user : AppUser
empty_user = record {
  id = "";
  email = "";
  password_hash = "";
  display_name = "";
  profile_image_object_key = "";
  role = other_role "";
  access_blocked = false;
  email_notifications_enabled = false;
  notification_preferences = [];
  ai_enabled = false;
  created_at = 0;
  updated_at = 0;
}

abbrev pub empty_invitation : Invitation
empty_invitation = record {
  id = "";
  email = "";
  role = other_role "";
  token_hash = "";
  status = other_status "";
  invited_by = "";
  expires_at = 0;
  created_at = 0;
  accepted_by = "";
  accepted_at = none;
}

abbrev pub empty_refresh_token : RefreshToken
empty_refresh_token = record {
  id = "";
  user_id = "";
  token_hash = "";
  family_id = "";
  expires_at = 0;
  created_at = 0;
  revoked_at = none;
  replaced_by = "";
}

abbrev pub empty_reset : PasswordReset
empty_reset = record {
  id = "";
  user_id = "";
  token_hash = "";
  expires_at = 0;
  created_at = 0;
  used_at = none;
}

-- What an index points at; a missing entry reads as the zero value.
abbrev pub or_zero : {A : Type 0} → A → Option A → A
or_zero zero none = zero
or_zero zero (some a) = a

abbrev pub through : {A : Type 0} → A → List (String × A) → Option String → Option A
through zero rows none = none
through zero rows (some id) = some (or_zero zero (lookup id rows))

abbrev pub via : {A : Type 0} → A → String → List (String × String) → List (String × A) → Option A
via zero key index rows = through zero rows (lookup key index)

abbrev pub missing : {A : Type 0} → String → List (String × A) → Bool
missing key entries = elim (lookup key entries) [ none ↦ true | some _ ↦ false ]

abbrev pub is_super_admin : UserRole → Bool
is_super_admin role_super_admin = true
is_super_admin role_admin = false
is_super_admin role_member = false
is_super_admin (other_role _) = false

abbrev pub active_super_admin : AppUser → Bool
active_super_admin user = is_super_admin user.role && not user.access_blocked

-- CountSuperAdmins
unfoldable pub count_super_admins : List (String × AppUser) → ℕ
count_super_admins [] = 0
count_super_admins ((_, user) ∷ rest) =
    let later = count_super_admins rest in if active_super_admin user then later + 1 else later
