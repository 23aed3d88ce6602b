-- ===== src/Base/Assoc.antt =====
-- A Go map as an association list, keyed by a comparable type.
use billpiggy.Base.{
  ◌≡◌, refl, Comparable, ◌==◌, equals_iff, equals_self, List, [], ◌∷◌, Option, none, some, arith,
  if◌then◌else◌,
}
use mathlib.Core.Option

module _ {ℓ κ} {K : Type ℓ} {V : Type κ} ⦃comparable : Comparable K⦄ where
  -- `m[key]`
  unfoldable pub lookup : K → List (K × V) → Option V
  lookup key [] = none
  lookup key ((other, value) ∷ rest) =
      let later = lookup key rest in if other == key then some value else later

  -- `delete(m, key)`
  unfoldable pub erase : K → List (K × V) → List (K × V)
  erase key [] = []
  erase key ((other, value) ∷ rest) =
      let later = erase key rest in if other == key then later else (other, value) ∷ later

  pub lookup-erase :
      (key wanted : K) (entries : List (K × V))
      → lookup wanted (erase key entries) ≡ (if key == wanted then none else lookup wanted entries)
  unfolding lookup erase
  lookup-erase key wanted [] = ground arith
  lookup-erase key wanted ((other, value) ∷ rest) =
      let hit = equals_iff other key in
      ground
        (arith, hit, equals_iff other wanted, equals_iff key wanted, lookup-erase key wanted rest)

  -- `m[key] = value`
  unfoldable pub insert : K → V → List (K × V) → List (K × V)
  insert key value [] = (key, value) ∷ []
  insert key value ((other, old) ∷ rest) =
      let later = insert key value rest in
      if other == key then (other, value) ∷ rest else (other, old) ∷ later

  pub lookup-insert :
      (key wanted : K) (value : V) (entries : List (K × V))
      → lookup wanted (insert key value entries)
        ≡ (if key == wanted then some value else lookup wanted entries)
  unfolding lookup insert
  lookup-insert key wanted value [] = refl
  lookup-insert key wanted value ((other, old) ∷ rest) =
      let hit = equals_iff other key in
      ground (
        arith,
        hit,
        equals_iff other wanted,
        equals_iff key wanted,
        lookup-insert key wanted value rest,
      )

  pub lookup-insert_self :
      (key : K) (value : V) (entries : List (K × V))
      → lookup key (insert key value entries) ≡ some value
  lookup-insert_self key value entries =
      rw (lookup-insert key key value entries, equals_self key) refl

-- `for key, value := range m { m[key] = f(value) }`
unfoldable pub map_values {κ ι} : {K : Type κ} {V : Type ι} → (V → V) → List (K × V) → List (K × V)
map_values f [] = []
map_values f ((key, value) ∷ rest) = (key, f value) ∷ map_values f rest

module _ {ℓ κ} {K : Type ℓ} {V : Type κ} ⦃comparable : Comparable K⦄ where
  pub lookup-map_values :
      (f : V → V) (wanted : K) (entries : List (K × V))
      → lookup wanted (map_values f entries) ≡ Option.map f (lookup wanted entries)
  unfolding lookup map_values
  lookup-map_values f wanted [] = refl
  lookup-map_values f wanted ((key, value) ∷ rest) = ground (arith, lookup-map_values f wanted rest)
