-- ===== src/Auth/Accounts.antt =====
-- internal/core/service/auth.go: invitations, profiles, and the management of users.
use billpiggy.Base.{Bool, true, false, not, ◌&&◌, ◌||◌, String, List, Option, none, ◌==◌, string_eq}
use billpiggy.Base.Act.{
  unauthorized, forbidden, not_found, conflict, other, Act, Done, pure, read, from_option,
  from_outcome, guard, when, ◌>>=◌, ◌>>◌,
}
use billpiggy.Clock.{Time, after, add_duration}
use billpiggy.Identity.{
  AppUser, UserRole, users_invite, users_manage, allows, Invitation, invitation_pending,
}
use billpiggy.Identity.Repository.{
  awaits_acceptance, get_user_by_id, get_invitation_by_token_hash, list_users, update_user,
  delete_user, create_invitation, accept_invitation,
}
use billpiggy.Identity.Values.{is_super_admin}
use billpiggy.Objects.{ObjectReference, object_active, track_object, orphan_objects_for}
use billpiggy.Auth.{
  Ports, AuthService, AuthState, InvitationDelivery, on_repository, on_references, stored, new_user,
  normalize_email, valid_role, role_text, object_resource_profile_image,
}
use billpiggy.Auth.Emails.{queue_invitation_email, queue_access_changed_email}

-- What Invite draws: a raw token, and the ids of the invitation and of its email.
pub record InviteDraw : Type 0 where
  pub raw_token : Option String
  pub invitation_id : String
  pub delivery_id : String

module _ (ports : Ports) (service : AuthService) where
  -- Invite
  abbrev pub invitation_for : AppUser → String → UserRole → String → String → Time → Invitation
  invitation_for actor email role raw_token id now = record {
    id = id;
    email = normalize_email ports email;
    role = role;
    token_hash = ports.token_hash raw_token;
    status = invitation_pending;
    invited_by = actor.id;
    expires_at = add_duration now service.config.invitation_ttl;
    created_at = now;
    accepted_by = "";
    accepted_at = none;
  }

  unfoldable pub invite :
      InviteDraw → Time → AppUser → String → UserRole → Act AuthState InvitationDelivery
  invite draw now actor email role = do
    guard (allows actor.role users_invite && not (is_super_admin role)) forbidden
    guard (valid_role role) conflict
    raw_token ← from_option (other "generate token") draw.raw_token
    let invitation = invitation_for actor email role raw_token draw.invitation_id now
    guard (not (invitation.email == "")) conflict
    on_repository (create_invitation invitation)
    queue_invitation_email ports service draw.delivery_id now invitation raw_token
    pure (record { invitation = invitation; raw_token = raw_token })

  -- AcceptInvitation
  unfoldable pub accept : String → Time → String → String → String → Act AuthState AppUser
  accept user_id now raw_token password display_name = do
    invitation ←
        read unauthorized (stored (get_invitation_by_token_hash (ports.token_hash raw_token)))
    guard (awaits_acceptance invitation.status) unauthorized
    guard (after invitation.expires_at now) unauthorized
    user ←
        from_outcome
          (new_user ports user_id invitation.email password display_name invitation.role now)
    on_repository (accept_invitation now invitation.id user)
    pure user

  -- ListUsers of the service
  unfoldable pub list_all_users : AppUser → Act AuthState (List AppUser)
  list_all_users actor = do
    guard (allows actor.role users_manage) forbidden
    λ s. pure (list_users s.repository) s

  -- UpdateProfile
  abbrev pub with_profile : String → String → Bool → Bool → Time → AppUser → AppUser
  with_profile display_name email notifications ai_enabled now user = record user {
    display_name = ports.trim_space display_name;
    email = normalize_email ports email;
    email_notifications_enabled = notifications;
    ai_enabled = ai_enabled;
    updated_at = now;
  }

  unfoldable pub update_profile :
      Time → String → String → String → Bool → Bool → Act AuthState AppUser
  update_profile now user_id display_name email notifications ai_enabled = do
    user ← read not_found (stored (get_user_by_id user_id))
    let changed = with_profile display_name email notifications ai_enabled now user
    guard (not (changed.display_name == "" || changed.email == "")) conflict
    on_repository (update_user changed)
    pure changed

  -- UpdateNotificationPreferences
  unfoldable pub update_notification_preferences :
      Time → String → List (String × Bool) → Act AuthState AppUser
  update_notification_preferences now user_id preferences = do
    user ← read not_found (stored (get_user_by_id user_id))
    let changed = record user { notification_preferences = preferences; updated_at = now }
    on_repository (update_user changed)
    pure changed

  -- GetProfile
  unfoldable pub get_profile : String → Act AuthState AppUser
  get_profile user_id = read not_found (stored (get_user_by_id user_id))

  -- UpdateProfileImage
  abbrev pub image_reference : String → String → ObjectReference
  image_reference user_id object_key = record {
    object_key = object_key;
    owner_id = user_id;
    resource_type = object_resource_profile_image;
    resource_id = user_id;
    state = object_active;
    updated_at = 0;
  }

  unfoldable pub track_image : String → String → String → Act AuthState Done
  track_image user_id previous_key object_key = do
    on_references (track_object (image_reference user_id object_key))
    when (not (previous_key == "") && not (previous_key == object_key))
        (on_references (orphan_objects_for object_resource_profile_image user_id object_key))

  unfoldable pub update_profile_image : Time → String → String → Act AuthState AppUser
  update_profile_image now user_id object_key = do
    user ← read not_found (stored (get_user_by_id user_id))
    guard (not (ports.trim_space object_key == "")) conflict
    let changed = record user { profile_image_object_key = object_key; updated_at = now }
    on_repository (update_user changed)
    when service.with_object_references
        (track_image user_id user.profile_image_object_key object_key)
    pure changed

  -- ManageUser
  abbrev same_role : UserRole → UserRole → Bool
  same_role a b = role_text a == role_text b

  abbrev same_flag : Bool → Bool → Bool
  same_flag true b = b
  same_flag false b = not b

  unfoldable pub manage_user :
      String → Time → AppUser → String → UserRole → Bool → Act AuthState AppUser
  manage_user delivery_id now actor user_id role blocked = do
    guard (allows actor.role users_manage) forbidden
    user ← read not_found (stored (get_user_by_id user_id))
    guard (not (is_super_admin user.role || is_super_admin role)) forbidden
    guard (valid_role role) conflict
    let changed = record user { role = role; access_blocked = blocked; updated_at = now }
    on_repository (update_user changed)
    when (not (same_role user.role role) || not (same_flag user.access_blocked blocked))
        (queue_access_changed_email ports service delivery_id now changed)
    pure changed

  -- DeleteUser of the service
  unfoldable pub delete_account : AppUser → String → Act AuthState Done
  delete_account actor user_id = do
    guard (allows actor.role users_manage) forbidden
    user ← read not_found (stored (get_user_by_id user_id))
    guard (not (is_super_admin user.role)) forbidden
    on_repository (delete_user user_id)
    when service.with_object_references
        (on_references (orphan_objects_for object_resource_profile_image user_id ""))
