-- ===== src/Taxonomy.antt =====
-- internal/core/domain/taxonomy.go, internal/core/service/taxonomy.go and
-- internal/adapter/outbound/memory/taxonomy_repository.go: categories and tags, each owner's under the
-- owner's id.
use billpiggy.Base.{
  Bool, true, false, not, ◌||◌, String, List, [], ◌∷◌, ◌++◌, Option, none, some, ◌==◌, string_eq,
  if◌then◌else◌,
}
use billpiggy.Base.Act.{
  Failure, not_found, other, Act, Done, pure, guard, or_fail, read, modify, ◌>>=◌, ◌>>◌,
}
use billpiggy.Base.Assoc.{lookup, insert}
use billpiggy.Clock.{Time}

-- ExpenseCategory and ExpenseTag; a tag is never a default one.
pub record Label : Type 0 where
  pub id : String
  pub name : String
  pub color : String
  pub is_default : Bool
  pub created_at : Time

abbrev pub LabelsByOwner : Type 0
LabelsByOwner = List (String × List Label)

pub record TaxonomyRepository : Type 0 where
  pub categories : LabelsByOwner
  pub tags : LabelsByOwner

abbrev default_category : String → String → String → Label
default_category id name color = record {
  id = id;
  name = name;
  color = color;
  is_default = true;
  created_at = 0;
}

-- DefaultCategories
abbrev pub default_categories : List Label
default_categories =
    default_category "0197c1a0-0000-4000-8000-000000000001" "Food" "#f97316"
    ∷ default_category "0197c1a0-0000-4000-8000-000000000002" "Groceries" "#84cc16"
    ∷ default_category "0197c1a0-0000-4000-8000-000000000003" "Transport" "#0ea5e9"
    ∷ default_category "0197c1a0-0000-4000-8000-000000000004" "Home" "#8b5cf6"
    ∷ default_category "0197c1a0-0000-4000-8000-000000000005" "Utilities" "#14b8a6"
    ∷ default_category "0197c1a0-0000-4000-8000-000000000006" "Health" "#ef4444"
    ∷ default_category "0197c1a0-0000-4000-8000-000000000007" "Entertainment" "#ec4899"
    ∷ default_category "0197c1a0-0000-4000-8000-000000000008" "Other" "#64748b"
    ∷ default_category "0197c1a0-0000-4000-8000-000000000009" "Pets" "#f59e0b"
    ∷ default_category "0197c1a0-0000-4000-8000-00000000000a" "Education" "#6366f1"
    ∷ default_category "0197c1a0-0000-4000-8000-00000000000b" "Insurance" "#3b82f6"
    ∷ default_category "0197c1a0-0000-4000-8000-00000000000c" "Travel" "#06b6d4"
    ∷ default_category "0197c1a0-0000-4000-8000-00000000000d" "Personal Care" "#d946ef"
    ∷ default_category "0197c1a0-0000-4000-8000-00000000000e" "Investments" "#22c55e"
    ∷ default_category "0197c1a0-0000-4000-8000-00000000000f" "Shopping" "#eab308"
    ∷ []

abbrev labels_or_none : Option (List Label) → List Label
labels_or_none none = []
labels_or_none (some labels) = labels

abbrev pub labels_of : String → LabelsByOwner → List Label
labels_of owner by_owner = labels_or_none (lookup owner by_owner)

-- ListCategories and ListTags
abbrev pub list_categories : String → TaxonomyRepository → List Label
list_categories owner r = default_categories ++ labels_of owner r.categories

abbrev pub list_tags : String → TaxonomyRepository → List Label
list_tags owner r = labels_of owner r.tags

abbrev pub has_label : String → List Label → Bool
has_label id [] = false
has_label id (label ∷ labels) = label.id == id || has_label id labels

-- The first label with the id is renamed and recolored.
unfoldable pub recolored : Label → List Label → List Label
recolored wanted [] = []
recolored wanted (label ∷ labels) =
    let later = recolored wanted labels in
    if label.id == wanted.id
    then record label { name = wanted.name; color = wanted.color } ∷ labels
    else label ∷ later

-- The first label with the id is removed.
unfoldable pub without_label : String → List Label → List Label
without_label id [] = []
without_label id (label ∷ labels) =
    let later = without_label id labels in if label.id == id then labels else label ∷ later

-- CreateCategory, UpdateCategory and DeleteCategory of the repository, and the same of tags.
unfoldable pub add_label : String → Label → Act LabelsByOwner Done
add_label owner value = modify (λ r. insert owner (labels_of owner r ++ value ∷ []) r)

abbrev known : String → String → LabelsByOwner → Option (List Label)
known owner id r = if has_label id (labels_of owner r) then some (labels_of owner r) else none

unfoldable pub update_label : String → Label → Act LabelsByOwner Done
update_label owner value = do
  labels ← read (other "not found") (known owner value.id)
  modify (insert owner (recolored value labels))

unfoldable pub delete_label : String → String → Act LabelsByOwner Done
delete_label owner id = do
  labels ← read (other "not found") (known owner id)
  modify (insert owner (without_label id labels))

-- TaxonomyService, over strings.TrimSpace: on the categories with the word "category", and on the tags
-- with the word "tag".
module _ (trim_space : String → String) where
  abbrev new_label : String → Time → String → String → Label
  new_label id now name color = record {
    id = id;
    name = trim_space name;
    color = trim_space color;
    is_default = false;
    created_at = now;
  }

  -- CreateCategory and CreateTag
  unfoldable pub create_label :
      Failure → String → Time → String → String → String → Act LabelsByOwner Label
  create_label name_required id now owner name color = do
    guard (not (owner == "" || trim_space name == "")) name_required
    add_label owner (new_label id now name color)
    pure (new_label id now name color)

  -- UpdateCategory and UpdateTag
  unfoldable pub change_label :
      Failure → String → String → String → String → Act LabelsByOwner Label
  change_label name_required owner id name color = do
    guard (not (trim_space name == "")) name_required
    or_fail not_found (update_label owner (new_label id 0 name color))
    pure (new_label id 0 name color)

-- DeleteCategory and DeleteTag
unfoldable pub remove_label : String → String → Act LabelsByOwner Done
remove_label owner id = or_fail not_found (delete_label owner id)
