-- ===== src/Identity/Spent.antt =====
-- internal/adapter/outbound/memory/identity_repository.go: rows that an index of token hashes points at,
-- and that are closed: revoked refresh tokens and used password resets.
use billpiggy.Base.{
  ◌≡◌, refl, sym, ap, ◌∙◌, Bool, true, false, not, String, List, Option, none, some, ◌⊎◌, inl, inr,
  string_eq, arith, equals_iff,
}
use mathlib.Core.Option
use billpiggy.Base.Assoc.{lookup, insert, map_values, lookup-insert, lookup-map_values}
use billpiggy.Clock.{Time}
use billpiggy.Identity.Tokens.{live}
use billpiggy.Identity.Values.{or_zero, through, via, missing}

-- The index knows the hash, and the row that it points at is closed.
abbrev pub closed_row : {V : Type 0} → (V → Option Time) → Option V → Bool
closed_row closed none = false
closed_row closed (some v) = not (live (closed v))

pub record Spent {V : Type 0} (closed : V → Option Time) (hash : String)
    (index : List (String × String)) (rows : List (String × V)) : Type 0 where
  pub row_id : String
  pub indexed : lookup hash index ≡ some row_id
  pub row_closed : closed_row closed (lookup row_id rows) ≡ true

module _ {V : Type 0} (closed : V → Option Time) (hash : String) where
  -- A new row under a new id and a new hash.
  pub Spent-insert :
      (value : V) (id new_hash : String) {index : List (String × String)} {rows : List (String × V)}
      → missing new_hash index ≡ true
      → lookup id rows ≡ none
      → Spent closed hash index rows
      → Spent closed hash (insert new_hash id index) (insert id value rows)
  Spent-insert value id new_hash {index} {rows} absent fresh h = record {
    row_id = h.row_id;
    indexed =
        grind (
          arith,
          equals_iff new_hash hash,
          lookup-insert new_hash hash id index,
          h.indexed,
          absent,
        );
    row_closed =
        grind (
          arith,
          equals_iff id h.row_id,
          lookup-insert id h.row_id value rows,
          h.row_closed,
          fresh,
        );
  }

  -- A row that is written again, closed if it was.
  pub Spent-rewrite :
      (value old : V) (id : String) {index : List (String × String)} {rows : List (String × V)}
      → lookup id rows ≡ some old
      → (live (closed old) ≡ false → live (closed value) ≡ false)
      → Spent closed hash index rows
      → Spent closed hash index (insert id value rows)
  Spent-rewrite value old id {index} {rows} found keeps h = record {
    row_id = h.row_id;
    indexed = h.indexed;
    row_closed = grind (
      arith,
      equals_iff id h.row_id,
      lookup-insert id h.row_id value rows,
      h.row_closed,
      found,
      keeps,
    );
  }

  closed_values :
      (f : V → V)
      → ((v : V) → live (closed v) ≡ false → live (closed (f v)) ≡ false)
      → (o : Option V) → closed_row closed o ≡ true
      → closed_row closed (Option.map f o) ≡ true
  closed_values f keeps none h = h
  closed_values f keeps (some v) h = ground (arith, keeps v)

  pub Spent-map_values :
      (f : V → V) {index : List (String × String)} {rows : List (String × V)}
      → ((v : V) → live (closed v) ≡ false → live (closed (f v)) ≡ false)
      → Spent closed hash index rows
      → Spent closed hash index (map_values f rows)
  Spent-map_values f {index} {rows} keeps h = record {
    row_id = h.row_id;
    indexed = h.indexed;
    row_closed =
        ap (closed_row closed) (lookup-map_values f h.row_id rows)
        ∙ closed_values f keeps (lookup h.row_id rows) h.row_closed;
  }

-- What an index finds is a row that is there, or the zero value of a row that is not.
found_or_zero :
    {V : Type 0} (zero : V) (o : Option V) (row : V)
    → Path (Option V) (some (or_zero zero o)) (some row)
    → (o ≡ some row) ⊎ (row ≡ zero)
found_or_zero zero none row h = inr cc
found_or_zero zero (some v) row h = inl h

through_cases :
    {V : Type 0} (zero : V) (rows : List (String × V)) (found : Option String) (row : V)
    → through zero rows found ≡ some row
    → (id : String) × (found ≡ some id) × ((lookup id rows ≡ some row) ⊎ (row ≡ zero))
through_cases zero rows none row h = cc
through_cases zero rows (some id) row h = (id, refl, found_or_zero zero (lookup id rows) row h)

pub via_cases :
    {V : Type 0} (zero : V) (hash : String) (index : List (String × String))
    (rows : List (String × V)) (row : V)
    → via zero hash index rows ≡ some row
    → (id : String) × (lookup hash index ≡ some id) × ((lookup id rows ≡ some row) ⊎ (row ≡ zero))
via_cases zero hash index rows row h = through_cases zero rows (lookup hash index) row h

-- What an index finds under a spent hash is closed.
closed_found :
    {V : Type 0} (closed : V → Option Time) (zero row : V) (o : Option V)
    → closed_row closed o ≡ true
    → Path (Option V) (some (or_zero zero o)) (some row)
    → live (closed row) ≡ false
closed_found closed zero row none h e = cc
closed_found closed zero row (some v) h e = ground (arith, h, e)

pub Spent-via :
    {V : Type 0} (closed : V → Option Time) (zero row : V) (hash : String)
    (index : List (String × String)) (rows : List (String × V))
    → Spent closed hash index rows
    → via zero hash index rows ≡ some row
    → live (closed row) ≡ false
Spent-via closed zero row hash index rows h found =
    closed_found closed zero row (lookup h.row_id rows) h.row_closed
      (ap (through zero rows) (sym h.indexed) ∙ found)
