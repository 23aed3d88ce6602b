-- ===== src/Auth/Effects/Accounts.antt =====
-- internal/core/service/auth.go: what invitations, profiles and the management of users write.
use billpiggy.Base.{
  ◌≡◌, refl, ap, ◌∙◌, Bool, false, String, List, Option, none, some, string_eq, arith,
}
use billpiggy.Base.Act.{◌>>◌}
use billpiggy.Base.After.{
  After-pure, After-bind, After-guard, After-when, After-found, After-read, After-outcome,
}
use billpiggy.Base.Assoc.{lookup}
use billpiggy.Clock.{Time}
use billpiggy.Identity.{AppUser, UserRole, Invitation}
use billpiggy.Identity.Repository.{IdentityRepository}
use billpiggy.Identity.Values.{is_super_admin, through, or_zero, empty_invitation}
use billpiggy.Identity.WellFormed.{WellFormed, Plain, Writes-WellFormed}
use billpiggy.Base.Rows.{Rows}
use billpiggy.Identity.Operations.{
  create_invitation-Writes, accept_invitation-Writes, delete_user-Writes,
}
use billpiggy.Auth.{Ports, AuthService, AuthState, new_user_fields}
use billpiggy.Auth.Accounts.{
  InviteDraw, invite, accept, update_profile, update_notification_preferences, track_image,
  update_profile_image, manage_user, delete_account,
}
use billpiggy.Auth.Effects.{
  Reached, AfterReached, on_repository-Reached, on_references-Reached, queue_email-Reached,
  write_back-Reached,
}

-- No invitation that a token finds is for a super-admin.
row-Plain :
    (id : String) (rows : List (String × Invitation)) (o : Option Invitation)
    → Rows Plain rows
    → lookup id rows ≡ o
    → is_super_admin (or_zero empty_invitation o).role ≡ false
row-Plain id rows none h e = refl
row-Plain id rows (some invitation) h e = h.row id invitation e

plain_via :
    (hash : String) (r : IdentityRepository) (found : Option String) (invitation : Invitation)
    → WellFormed r
    → through empty_invitation r.invitations_by_id found ≡ some invitation
    → is_super_admin invitation.role ≡ false
plain_via hash r none invitation h e = cc
plain_via hash r (some id) invitation h e =
    let plain =
      row-Plain id r.invitations_by_id (lookup id r.invitations_by_id) h.invitations_plain refl in
    grind (arith, plain, e)

module _ (ports : Ports) (service : AuthService) {r : IdentityRepository} {s : AuthState} where
  pub invite-Reached :
      (draw : InviteDraw) (now : Time) (actor : AppUser) (email : String) (role : UserRole)
      → Reached r s
      → AfterReached r (invite ports service draw now actor email role) s
  unfolding invite ◌>>◌
  invite-Reached draw now actor email role ws = After-guard _ _ _ ws λ allowed.
      After-guard _ _ _ ws λ _. After-found _ _ _ ws λ raw _. After-guard _ _ _ ws λ _.
        After-bind (on_repository-Reached (create_invitation-Writes _ ws (ground arith)))
          λ _ _ more.
            After-bind (queue_email-Reached ports service _ more) λ _ _ last. After-pure _ last

  pub accept-Reached :
      (user_id : String) (now : Time) (raw_token password display_name : String)
      → WellFormed r
      → Reached r s
      → lookup user_id s.repository.users_by_id ≡ none
      → AfterReached r (accept ports service user_id now raw_token password display_name) s
  unfolding accept ◌>>◌
  accept-Reached user_id now raw_token password display_name h ws fresh =
      After-read _ _ _ ws λ invitation found. After-guard _ _ _ ws λ _. After-guard _ _ _ ws λ _.
        After-outcome _ _ ws λ user built.
          let fields =
            new_user_fields ports user_id invitation.email password display_name invitation.role now
              user built in
          let plain =
            plain_via (ports.token_hash raw_token) s.repository
              (lookup (ports.token_hash raw_token) s.repository.invitation_id_by_hash) invitation
              (Writes-WellFormed h ws) found in
          After-bind
            (on_repository-Reached (
              accept_invitation-Writes now invitation.id user ws
                (ap (λ id. lookup id s.repository.users_by_id) fields.0 ∙ fresh)
                (ap is_super_admin fields.1 ∙ plain)))
            λ _ _ more. After-pure _ more

  pub update_profile-Reached :
      (now : Time) (user_id display_name email : String) (notifications ai_enabled : Bool)
      → WellFormed r
      → Reached r s
      → AfterReached r
          (update_profile ports service now user_id display_name email notifications ai_enabled)
          s
  unfolding update_profile ◌>>◌
  update_profile-Reached now user_id display_name email notifications ai_enabled h ws =
      After-read _ _ _ ws λ user found. After-guard _ _ _ ws λ _.
        After-bind (write_back-Reached user_id user _ h ws found refl refl)
          λ _ _ more. After-pure _ more

  pub update_notification_preferences-Reached :
      (now : Time) (user_id : String) (preferences : List (String × Bool))
      → WellFormed r
      → Reached r s
      → AfterReached r (update_notification_preferences ports service now user_id preferences) s
  unfolding update_notification_preferences ◌>>◌
  update_notification_preferences-Reached now user_id preferences h ws =
      After-read _ _ _ ws λ user found.
        After-bind (write_back-Reached user_id user _ h ws found refl refl)
          λ _ _ more. After-pure _ more

  track_image-Reached :
      (user_id previous_key object_key : String)
      → Reached r s
      → AfterReached r (track_image ports service user_id previous_key object_key) s
  unfolding track_image ◌>>◌
  track_image-Reached user_id previous_key object_key ws =
      After-bind (on_references-Reached _ ws)
        λ _ _ more. After-when _ more λ _. on_references-Reached _ more

module _ (ports : Ports) (service : AuthService) {r : IdentityRepository} {s : AuthState} where
  pub update_profile_image-Reached :
      (now : Time) (user_id object_key : String)
      → WellFormed r
      → Reached r s
      → AfterReached r (update_profile_image ports service now user_id object_key) s
  unfolding update_profile_image ◌>>◌
  update_profile_image-Reached now user_id object_key h ws = After-read _ _ _ ws λ user found.
      After-guard _ _ _ ws λ _.
        After-bind (write_back-Reached user_id user _ h ws found refl refl) λ _ _ more.
          After-bind
            (After-when _ more λ _.
              track_image-Reached ports service user_id user.profile_image_object_key object_key
                more)
            λ _ _ last. After-pure _ last

  pub manage_user-Reached :
      (delivery_id : String) (now : Time) (actor : AppUser) (user_id : String) (role : UserRole)
      (blocked : Bool)
      → WellFormed r
      → Reached r s
      → AfterReached r (manage_user ports service delivery_id now actor user_id role blocked) s
  unfolding manage_user ◌>>◌
  manage_user-Reached delivery_id now actor user_id role blocked h ws = After-guard _ _ _ ws λ _.
      After-read _ _ _ ws λ user found. After-guard _ _ _ ws λ plain. After-guard _ _ _ ws λ _.
        After-bind (write_back-Reached user_id user _ h ws found refl (ground arith)) λ _ _ more.
          After-bind (After-when _ more λ _. queue_email-Reached ports service _ more)
            λ _ _ last. After-pure _ last

  pub delete_account-Reached :
      (actor : AppUser) (user_id : String)
      → Reached r s
      → AfterReached r (delete_account ports service actor user_id) s
  unfolding delete_account ◌>>◌
  delete_account-Reached actor user_id ws = After-guard _ _ _ ws λ _.
      After-read _ _ _ ws λ user found. After-guard _ _ _ ws λ plain.
        After-bind
          (on_repository-Reached
            (delete_user-Writes user_id ws λ other again. grind (arith, found, again, plain)))
          λ _ _ more. After-when _ more λ _. on_references-Reached _ more
