-- ===== src/Cache.antt =====
-- pkg/cache/cache.go: a map whose entries expire. Keys are of any comparable type and values of
-- any type, as in Go. The clock is read once in Get and once in Set. Get locks twice.
pub mod View
use billpiggy.Base.{
  ℕ, ◌+◌, Bool, true, false, Option, none, some, List, [], ◌∷◌, Comparable, length, if◌then◌else◌,
  ltb,
}
use billpiggy.Base.Int.{ℤ}
use billpiggy.Base.Assoc.{lookup, insert, erase}
use billpiggy.Clock.{Time, after, add_duration}

pub record Entry {ℓ} (V : Type ℓ) : Type ℓ where
  pub value : V
  pub expires_at : Time

pub record Cache {ℓ κ} (K : Type ℓ) (V : Type κ) : Type (ℓ ⊔ κ) where
  pub ttl : ℤ
  pub values : List (K × Entry V)

-- Get up to its second lock: the answer, and whether it goes on to delete the entry.
abbrev pub answer {κ} : {V : Type κ} → Time → Option (Entry V) → Option V × Bool
answer now none = (none, false)
answer now (some x) = if after now x.expires_at then (none, true) else (some x.value, false)

module _ {ℓ κ} {K : Type ℓ} {V : Type κ} ⦃comparable : Comparable K⦄ where
  -- New
  unfoldable pub new_cache : ℤ → Cache K V
  new_cache ttl = record { ttl = ttl; values = [] }

  -- Get up to its second lock. Other calls may come between it and `delete_expired`.
  unfoldable pub get : K → Time → Cache K V → Option V × Bool
  get key now c = answer now (lookup key c.values)

  -- The second locked part of Get.
  unfoldable pub delete_expired : K → Cache K V → Cache K V
  delete_expired key c = record c { values = erase key c.values }

  -- Set
  unfoldable pub put : K → V → Time → Cache K V → Cache K V
  put key v now c = record c {
    values = insert key (record { value = v; expires_at = add_duration now c.ttl }) c.values;
  }

  -- Invalidate
  unfoldable pub invalidate : K → Cache K V → Cache K V
  invalidate key c = record c { values = erase key c.values }

  -- Clear
  unfoldable pub clear : Cache K V → Cache K V
  clear c = record c { values = [] }

  -- Len
  abbrev pub len : Cache K V → ℕ
  len c = length c.values
