-- ===== src/Base/Rows.antt =====
-- What holds of every row of a map, and rows that an index points at.
use billpiggy.Base.{
  ◌≡◌, refl, sym, subst, ◌∙◌, ◌⊎◌, inl, inr, List, [], ◌∷◌, Option, none, some, arith, Comparable,
  equals_iff,
}
use mathlib.Core.Option
use billpiggy.Base.Assoc.{
  lookup, insert, erase, map_values, lookup-insert, lookup-erase, lookup-map_values,
}

pub record Rows {K V : Type 0} ⦃comparable : Comparable K⦄ (Q : K → V → Type 0)
    (entries : List (K × V)) : Type 0 where
  pub row : (k : K) (v : V) → lookup k entries ≡ some v → Q k v

module _ {K V : Type 0} ⦃comparable : Comparable K⦄ where
  pub insert_cases :
      (key wanted : K) (value found : V) (entries : List (K × V))
      → lookup wanted (insert key value entries) ≡ some found
      → ((key ≡ wanted) × (value ≡ found)) ⊎ (lookup wanted entries ≡ some found)
  insert_cases key wanted value found entries h =
      grind (arith, equals_iff key wanted, lookup-insert key wanted value entries)

  pub erase_cases :
      (key wanted : K) (found : V) (entries : List (K × V))
      → lookup wanted (erase key entries) ≡ some found
      → lookup wanted entries ≡ some found
  erase_cases key wanted found entries h =
      grind (arith, equals_iff key wanted, lookup-erase key wanted entries)

module _ {K V : Type 0} ⦃comparable : Comparable K⦄ where
  first_or_later :
      (key wanted : K) (value found : V) (entries : List (K × V))
      → lookup wanted ((key, value) ∷ entries) ≡ some found
      → ((key ≡ wanted) × (value ≡ found)) ⊎ (lookup wanted entries ≡ some found)
  unfolding lookup
  first_or_later key wanted value found entries h = grind (arith, equals_iff key wanted, h)

map_cases :
    {V : Type 0} (f : V → V) (o : Option V) (found : V)
    → Option.map f o ≡ some found
    → (old : V) × (o ≡ some old) × (f old ≡ found)
map_cases f none found h = cc
map_cases f (some old) found h = (old, refl, cc)

module _ {K V : Type 0} ⦃comparable : Comparable K⦄ (Q : K → V → Type 0) where
  moved : {k l : K} {v w : V} → k ≡ l → v ≡ w → Q k v → Q l w
  moved {k} {v} {w} p q h = subst (λ l. Q l w) p (subst (Q k) q h)

  pub insert-Rows :
      (key : K) (value : V) {entries : List (K × V)}
      → Q key value
      → Rows Q entries
      → Rows Q (insert key value entries)
  insert-Rows key value {entries} q rows = record {
    row = λ k v h. elim (insert_cases key k value v entries h) [
      | inl e ↦ moved e.0 e.1 q
      | inr old ↦ rows.row k v old
    ];
  }

  pub erase-Rows : (key : K) {entries : List (K × V)} → Rows Q entries → Rows Q (erase key entries)
  erase-Rows key {entries} rows = record {
    row = λ k v h. rows.row k v (erase_cases key k v entries h);
  }

  pub map_values-Rows :
      (f : V → V) {entries : List (K × V)}
      → ((k : K) (v : V) → Q k v → Q k (f v))
      → Rows Q entries
      → Rows Q (map_values f entries)
  map_values-Rows f {entries} keep rows = record {
    row = λ k v h.
        let found = map_cases f (lookup k entries) v (sym (lookup-map_values f k entries) ∙ h) in
        subst (Q k) found.2 (keep k found.0 (rows.row k found.0 found.1));
  }

  -- A function that makes every row satisfy the property.
  pub map_values-Rows_of :
      (f : V → V) (entries : List (K × V))
      → ((k : K) (v : V) → Q k (f v))
      → Rows Q (map_values f entries)
  map_values-Rows_of f entries makes = record {
    row = λ k v h.
        let found = map_cases f (lookup k entries) v (sym (lookup-map_values f k entries) ∙ h) in
        subst (Q k) found.2 (makes k found.0);
  }

  pub empty-Rows : Rows Q []
  unfolding lookup
  empty-Rows = record { row = λ k v h. cc }

  pub cons-Rows :
      {key : K} {value : V} {entries : List (K × V)}
      → Q key value
      → Rows Q entries
      → Rows Q ((key, value) ∷ entries)
  unfolding lookup
  cons-Rows {key} {value} {entries} q rows = record {
    row = λ k v h. elim (first_or_later key k value v entries h) [
      | inl e ↦ moved e.0 e.1 q
      | inr later ↦ rows.row k v later
    ];
  }
