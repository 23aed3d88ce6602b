-- ===== src/Auth/SuperAdmin.antt =====
-- internal/core/service/auth.go: who is a super-admin, over any calls.
use billpiggy.Base.{◌≡◌, true, String, List}
use billpiggy.Identity.WellFormed.{WellFormed}
use billpiggy.Identity.SuperAdmin.{super_admin_at, Writes-super_admin_at}
use billpiggy.Auth.{Ports, AuthService, AuthState}
use billpiggy.Auth.Calls.{Call, after_calls, FreshIds}
use billpiggy.Auth.Calls.Effects.{after_calls-Writes}

-- Over any calls of the service's methods, at any times and whether they fail or not: where the
-- repository's rows are filed under their own ids and no pending invitation makes a super-admin
-- (WellFormed), the ids that the calls draw are not in use, and the user `owner` is an active
-- super-admin at the start, each user is an active super-admin at the end exactly if it was at
-- the start.
pub after_calls-super_admin_at :
    (ports : Ports) (service : AuthService) (calls : List Call) (s : AuthState) (owner id : String)
    → WellFormed s.repository
    → FreshIds ports service calls s
    → super_admin_at owner s.repository ≡ true
    → super_admin_at id (after_calls ports service calls s).repository
      ≡ super_admin_at id s.repository
after_calls-super_admin_at ports service calls s owner id h fresh active =
    Writes-super_admin_at owner active (after_calls-Writes ports service calls s h fresh) id
