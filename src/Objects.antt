-- ===== src/Objects.antt =====
-- internal/core/domain/object_reference.go and
-- internal/adapter/outbound/memory/object_reference_repository.go: which resource each stored object
-- belongs to.
use billpiggy.Base.{
  Bool, true, false, not, ◌&&◌, String, List, [], ◌∷◌, ◌==◌, string_eq, if◌then◌else◌,
}
use billpiggy.Base.Assoc.{insert, erase}
use billpiggy.Base.Act.{Act, Done, modify}
use billpiggy.Clock.{Time}

pub data ObjectReferenceState : Type 0 where
  object_active object_orphaned : ObjectReferenceState

pub record ObjectReference : Type 0 where
  pub object_key : String
  pub owner_id : String
  pub resource_type : String
  pub resource_id : String
  pub state : ObjectReferenceState
  pub updated_at : Time

abbrev pub References : Type 0
References = List (String × ObjectReference)

-- TrackObject
unfoldable pub track_object : ObjectReference → Act References Done
track_object reference =
    modify (insert reference.object_key (record reference { state = object_active }))

abbrev is_active : ObjectReferenceState → Bool
is_active object_active = true
is_active object_orphaned = false

-- The rows that OrphanObjectsFor changes.
abbrev pub to_orphan : String → String → String → String → ObjectReference → Bool
to_orphan resource_type resource_id keep key reference =
    reference.resource_type == resource_type
    && reference.resource_id == resource_id
    && is_active reference.state
    && not (key == keep)

unfoldable pub orphan_rows : String → String → String → References → References
orphan_rows resource_type resource_id keep [] = []
orphan_rows resource_type resource_id keep ((key, reference) ∷ rest) =
    let later = orphan_rows resource_type resource_id keep rest in
    if to_orphan resource_type resource_id keep key reference
    then (key, record reference { state = object_orphaned }) ∷ later
    else (key, reference) ∷ later

-- OrphanObjectsFor
unfoldable pub orphan_objects_for : String → String → String → Act References Done
orphan_objects_for resource_type resource_id keep =
    modify (orphan_rows resource_type resource_id keep)

-- ForgetObject
unfoldable pub forget_object : String → Act References Done
forget_object object_key = modify (erase object_key)
