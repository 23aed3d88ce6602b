-- ===== src/Groups.antt =====
-- internal/core/domain/group.go, internal/core/service/groups.go and
-- internal/adapter/outbound/memory/group_repository.go: groups, who may see them and who may change
-- them.
pub mod Access
use billpiggy.Base.{
  Bool, true, false, not, ◌&&◌, ◌||◌, String, List, [], ◌∷◌, ◌++◌, Option, none, some, ◌==◌,
  string_eq, contains, if◌then◌else◌,
}
use billpiggy.Base.Act.{
  Failure, forbidden, not_found, other, Act, Done, pure, read, guard, modify, ◌>>=◌, ◌>>◌,
}
use billpiggy.Base.Assoc.{lookup, insert, erase}
use billpiggy.Clock.{Time}
use billpiggy.Identity.{AppUser, UserRole, role_member, role_admin, role_super_admin, other_role}
use billpiggy.Identity.Values.{is_super_admin}

pub record UserGroup : Type 0 where
  pub id : String
  pub name : String
  pub created_by : String
  pub created_at : Time
  pub member_ids : List String

abbrev pub GroupRepository : Type 0
GroupRepository = List (String × UserGroup)

-- CreateGroup of the repository
unfoldable pub store_group : UserGroup → Act GroupRepository Done
store_group g = modify (insert g.id g)

abbrev pub visible_group : String → Bool → UserGroup → Bool
visible_group viewer super g = super || g.created_by == viewer || contains viewer g.member_ids

-- ListVisibleGroups
unfoldable pub list_visible_groups : String → Bool → GroupRepository → List UserGroup
list_visible_groups viewer super [] = []
list_visible_groups viewer super ((_, g) ∷ rest) =
    let later = list_visible_groups viewer super rest in
    if visible_group viewer super g then g ∷ later else later

-- GetGroup, UpdateGroup and DeleteGroup of the repository
abbrev no_group : Failure
no_group = other "not found"

unfoldable pub rename_group : String → String → Act GroupRepository Done
rename_group group_id name = do
  g ← read no_group (lookup group_id)
  modify (insert group_id (record g { name = name }))

unfoldable pub drop_group : String → Act GroupRepository Done
drop_group group_id = do _ ← read no_group (lookup group_id); modify (erase group_id)

-- AddMember of the repository
abbrev pub with_member : String → List String → List String
with_member user_id members = if contains user_id members then members else members ++ user_id ∷ []

unfoldable pub enlist : String → String → Act GroupRepository Done
enlist group_id user_id = do
  g ← read no_group (lookup group_id)
  modify (insert group_id (record g { member_ids = with_member user_id g.member_ids }))

-- RemoveMember of the repository
unfoldable pub without_member : String → List String → List String
without_member user_id [] = []
without_member user_id (id ∷ ids) =
    let later = without_member user_id ids in if id == user_id then later else id ∷ later

unfoldable pub discharge : String → String → Act GroupRepository Done
discharge group_id user_id = do
  g ← read no_group (lookup group_id)
  modify (insert group_id (record g { member_ids = without_member user_id g.member_ids }))

abbrev pub administers : UserRole → Bool
administers role_admin = true
administers role_super_admin = true
administers role_member = false
administers (other_role _) = false

-- GroupService, over strings.TrimSpace and a drawn id.
module _ (trim_space : String → String) where
  -- CreateGroup
  abbrev pub new_group : String → Time → AppUser → String → List String → UserGroup
  new_group id now actor name members = record {
    id = id;
    name = trim_space name;
    created_by = actor.id;
    created_at = now;
    member_ids = members;
  }

  unfoldable pub create_group :
      String → Time → AppUser → String → List String → Act GroupRepository UserGroup
  create_group id now actor name members = do
    guard (administers actor.role) forbidden
    guard (not (trim_space name == "")) (other "group name is required")
    store_group (new_group id now actor name members)
    pure (new_group id now actor name members)

  -- requireGroupOwner
  abbrev pub may_change : AppUser → UserGroup → Bool
  may_change actor group = is_super_admin actor.role || group.created_by == actor.id

  unfoldable pub require_group_owner : AppUser → String → Act GroupRepository UserGroup
  require_group_owner actor group_id = do
    group ← read not_found (lookup group_id)
    guard (may_change actor group) forbidden
    pure group

  -- UpdateGroup
  unfoldable pub update_group : AppUser → String → String → Act GroupRepository UserGroup
  update_group actor group_id name = do
    group ← require_group_owner actor group_id
    guard (not (trim_space name == "")) (other "group name is required")
    rename_group group_id (trim_space name)
    pure (record group { name = trim_space name })

  -- DeleteGroup
  unfoldable pub delete_group : AppUser → String → Act GroupRepository Done
  delete_group actor group_id = do _ ← require_group_owner actor group_id; drop_group group_id

  -- AddMember
  unfoldable pub add_member : AppUser → String → String → Act GroupRepository Done
  add_member actor group_id user_id = do
    _ ← require_group_owner actor group_id
    guard (not (trim_space user_id == "")) (other "user id is required")
    enlist group_id user_id

  -- RemoveMember
  unfoldable pub remove_member : AppUser → String → String → Act GroupRepository Done
  remove_member actor group_id user_id = do
    _ ← require_group_owner actor group_id
    discharge group_id user_id

-- The ids of the groups that a viewer sees, as visibleGroupIDs of the services lists them.
abbrev group_ids : List UserGroup → List String
group_ids [] = []
group_ids (g ∷ gs) = g.id ∷ group_ids gs

unfoldable pub visible_group_ids : AppUser → GroupRepository → List String
visible_group_ids viewer groups =
    group_ids (list_visible_groups viewer.id (is_super_admin viewer.role) groups)
