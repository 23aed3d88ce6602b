-- ===== src/Auth/Effects.antt =====
-- internal/core/service/auth.go: what each call writes to the identity repository.
pub mod Sessions
pub mod Accounts
pub mod Passwords
use billpiggy.Base.{
  ◌≡◌, refl, sym, ap, ◌∙◌, subst, Bool, true, false, not, ◌&&◌, ◌||◌, String, List, Option, none,
  some, string_eq, ◌==◌, ltb, arith,
}
use Prim.Native.String.{len}
use billpiggy.Base.Act.{
  Failure, Outcome, ok, err, Act, Done, pure, fail, read, from_option, guard, when, modify, ◌>>=◌,
  ◌>>◌,
}
use billpiggy.Base.After.{
  After, After-pure, After-bind, After-guard, After-when, After-found, After-read,
}
use billpiggy.Base.Returns.{Returns}
use billpiggy.Base.Assoc.{lookup}
use billpiggy.Clock.{Time, after}
use billpiggy.Identity.{AppUser, UserRole}
use billpiggy.Identity.Repository.{update_user, IdentityRepository, get_user_by_id}
use billpiggy.Identity.Values.{active_super_admin, is_super_admin, count_super_admins}
use billpiggy.Identity.Writes.{Writes}
use billpiggy.Identity.WellFormed.{WellFormed, Writes-WellFormed}
use billpiggy.Identity.Operations.{AfterWrites, update_user-Writes}
use billpiggy.Notifications.{NotificationDelivery, queue_notification, Deliveries}
use billpiggy.Objects.{References}
use billpiggy.Auth.{
  Ports, AuthService, AuthState, on_repository, on_notifications, on_references, new_user, stored,
}
use billpiggy.Auth.Emails.{queue_email}

pub Returns-on_repository :
    {A : Type 0} {P : IdentityRepository → Type 0} {s : AuthState} (m : Act IdentityRepository A)
    → Returns P m s.repository
    → Returns (λ t. P t.repository) (on_repository m) s
unfolding on_repository
Returns-on_repository m h = record { result = h.result }

pub After-on_repository :
    {A : Type 0} {P : IdentityRepository → Type 0} {s : AuthState} (m : Act IdentityRepository A)
    → After P m s.repository
    → After (λ t. P t.repository) (on_repository m) s
unfolding on_repository
After-on_repository m h = record { holds = h.holds }

-- The call has only made writes that the repository's relation allows.
abbrev pub Reached : IdentityRepository → AuthState → Type 0
Reached r s = Writes r s.repository

abbrev pub AfterReached : IdentityRepository → {A : Type 0} → Act AuthState A → AuthState → Type 0
AfterReached r m s = After (Reached r) m s

-- A stored user is the one that its own id finds.
own_row :
    (id : String) {user previous : AppUser} {repository : IdentityRepository}
    → WellFormed repository
    → lookup id repository.users_by_id ≡ some user
    → lookup user.id repository.users_by_id ≡ some previous
    → previous ≡ user
own_row id {user} {previous} h found again =
    let named = h.users_named.row id user found in grind (arith, named, found, again)

module _ {A : Type 0} {r : IdentityRepository} {s : AuthState} where
  pub on_repository-Reached :
      {m : Act IdentityRepository A}
      → AfterWrites r m s.repository
      → AfterReached r (on_repository m) s
  unfolding on_repository
  on_repository-Reached h = record { holds = h.holds }

  pub on_notifications-Reached :
      (m : Act Deliveries A) → Reached r s → AfterReached r (on_notifications m) s
  unfolding on_notifications
  on_notifications-Reached m ws = record { holds = ws }

  pub on_references-Reached :
      (m : Act References A) → Reached r s → AfterReached r (on_references m) s
  unfolding on_references
  on_references-Reached m ws = record { holds = ws }

module _ {r : IdentityRepository} {s : AuthState} where
  pub queue_email-Reached :
      (ports : Ports) (service : AuthService) (delivery : NotificationDelivery)
      → Reached r s
      → AfterReached r (queue_email ports service delivery) s
  unfolding queue_email
  queue_email-Reached ports service delivery ws =
      After-when _ ws λ _. on_notifications-Reached (queue_notification delivery) ws

  -- A user that was read is written back, with the same id and the same standing.
  pub write_back-Reached :
      (id : String) (user changed : AppUser)
      → WellFormed r
      → Reached r s
      → lookup id s.repository.users_by_id ≡ some user
      → changed.id ≡ user.id
      → active_super_admin changed ≡ active_super_admin user
      → AfterReached r (on_repository (update_user changed)) s
  write_back-Reached id user changed h ws found same_id same = on_repository-Reached (
      update_user-Writes changed ws λ previous again.
        same
        ∙ ap active_super_admin (
            sym (
              own_row id (Writes-WellFormed h ws) found
                (ap (λ i. lookup i s.repository.users_by_id) (sym same_id) ∙ again))))
