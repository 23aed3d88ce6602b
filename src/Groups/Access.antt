-- ===== src/Groups/Access.antt =====
-- internal/core/service/groups.go: who may change a group.
use billpiggy.Base.{◌≡◌, false, String, Option, none, some, string_eq, arith}
use billpiggy.Base.Act.{
  forbidden, not_found, err, from_option, read, guard, pure, continue, ◌>>=◌, ◌>>◌,
}
use billpiggy.Base.Refuses.{bind_stops}
use billpiggy.Base.Assoc.{lookup}
use billpiggy.Identity.{AppUser}
use billpiggy.Groups.{
  UserGroup, GroupRepository, may_change, require_group_owner, update_group, delete_group,
  add_member, remove_member,
}

owner_required :
    (trim_space : String → String) (actor : AppUser) (o : Option UserGroup) (group : UserGroup)
    (groups : GroupRepository)
    → o ≡ some group
    → may_change trim_space actor group ≡ false
    → continue
        (from_option not_found o groups)
        (λ found. guard (may_change trim_space actor found) forbidden >>= λ _. pure found)
      ≡ (err forbidden, groups)
unfolding from_option guard ◌>>=◌
owner_required trim_space actor none group groups e h = cc
owner_required trim_space actor (some g) group groups e h = grind (arith, e, h)

module _ (trim_space : String → String) (actor : AppUser) (group_id : String) (group : UserGroup)
    (groups : GroupRepository) where
  refused :
      lookup group_id groups ≡ some group
      → may_change trim_space actor group ≡ false
      → require_group_owner trim_space actor group_id groups ≡ (err forbidden, groups)
  unfolding require_group_owner read ◌>>=◌ ◌>>◌
  refused found stranger =
      owner_required trim_space actor (lookup group_id groups) group groups found stranger

-- Who may not change a group is refused as forbidden by UpdateGroup, DeleteGroup, AddMember and
-- RemoveMember alike, and the groups stay as they are.
pub strangers_refused :
    (trim_space : String → String) (actor : AppUser) (group_id name user_id : String)
    (group : UserGroup) (groups : GroupRepository)
    → lookup group_id groups ≡ some group
    → may_change trim_space actor group ≡ false
    → (update_group trim_space actor group_id name groups ≡ (err forbidden, groups))
      × (delete_group trim_space actor group_id groups ≡ (err forbidden, groups))
      × (add_member trim_space actor group_id user_id groups ≡ (err forbidden, groups))
      × (remove_member trim_space actor group_id user_id groups ≡ (err forbidden, groups))
unfolding update_group delete_group add_member remove_member
strangers_refused trim_space actor group_id name user_id group groups found stranger =
    let stop = refused trim_space actor group_id group groups found stranger in
    (
      bind_stops _ _ groups groups forbidden stop,
      bind_stops _ _ groups groups forbidden stop,
      bind_stops _ _ groups groups forbidden stop,
      bind_stops _ _ groups groups forbidden stop,
    )
