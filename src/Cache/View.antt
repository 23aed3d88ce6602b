-- ===== src/Cache/View.antt =====
-- The cache of pkg/cache/cache.go against the history of its calls, with the two locked parts of Get
-- as calls of their own.
use billpiggy.Base.{
  ◌≤◌, ◌≡◌, refl, sym, ◌&&◌, leb, inl, inr, ◌∙◌, Bool, true, false, Option, none, some, List, [],
  ◌∷◌, arith, Comparable, ◌==◌, if◌then◌else◌, ltb, Bool-cases,
}
use billpiggy.Base.Int.{ℤ}
use billpiggy.Base.Assoc.{lookup, lookup-insert, lookup-erase}
use billpiggy.Clock.{Time, add_duration}
use billpiggy.Cache.{Cache, Entry, new_cache, answer, get, delete_expired, put, invalidate, clear}

-- The calls that write. `drops k t` is the second part of a Get that read the clock at `t`.
pub data Call {ℓ κ} (K : Type ℓ) (V : Type κ) : Type (ℓ ⊔ κ) where
  drops : K → Time → Call K V
  puts : K → V → Time → Call K V
  invalidates : K → Call K V
  clears : Call K V

abbrev pub fresh {κ} : {V : Type κ} → ℤ → Time → Option (V × Time) → Option V
fresh ttl now none = none
fresh ttl now (some (v, t)) = if ltb (add_duration t ttl) now then none else some v

abbrev live {κ} : {V : Type κ} → Time → Option (Entry V) → Option V
live now none = none
live now (some x) = if ltb x.expires_at now then none else some x.value

live-answer {κ} : {V : Type κ} (now : Time) (o : Option (Entry V)) → (answer now o).0 ≡ live now o
live-answer now none = refl
live-answer now (some x) = ground arith

abbrev pub is_none {κ} : {V : Type κ} → Option V → Bool
is_none none = true
is_none (some v) = false

-- What has expired stays so.
stays_over {κ} :
    {V : Type κ} (ttl : ℤ) (t now : Time) (o : Option (V × Time))
    → is_none (fresh ttl t o) ≡ true
    → t ≤ now
    → fresh ttl now o ≡ none
stays_over ttl t now none h le = refl
stays_over ttl t now (some (v, at)) h le = ground arith

module _ {ℓ κ} {K : Type ℓ} {V : Type κ} ⦃comparable : Comparable K⦄ where
  unfoldable pub step : Call K V → Cache K V → Cache K V
  step (drops key t) c = delete_expired key c
  step (puts key v now) c = put key v now c
  step (invalidates key) c = invalidate key c
  step clears c = clear c

  -- The calls from last to first.
  unfoldable pub run : List (Call K V) → Cache K V → Cache K V
  run [] c = c
  run (x ∷ xs) c = step x (run xs c)

  -- What the calls, from last to first, have last written to the key, with when that was. A Get takes
  -- nothing back.
  unfoldable pub last_write : K → List (Call K V) → Option (V × Time)
  last_write key [] = none
  last_write key (drops k t ∷ xs) = last_write key xs
  last_write key (puts k v now ∷ xs) = if k == key then some (v, now) else last_write key xs
  last_write key (invalidates k ∷ xs) = if k == key then none else last_write key xs
  last_write key (clears ∷ xs) = none

  -- What each Get deletes of the key had expired by the time that it read the clock, which was at
  -- `now` or before: no Set of the key comes between the two parts of a Get.
  unfoldable pub unraced : K → ℤ → Time → List (Call K V) → Bool
  unraced key ttl now [] = true
  unraced key ttl now (drops k t ∷ xs) =
      let rest = unraced key ttl now xs in
      if k == key then is_none (fresh ttl t (last_write key xs)) && leb t now && rest else rest
  unraced key ttl now (puts k v t ∷ xs) = unraced key ttl now xs
  unraced key ttl now (invalidates k ∷ xs) = unraced key ttl now xs
  unraced key ttl now (clears ∷ xs) = unraced key ttl now xs

  step-ttl : (x : Call K V) (c : Cache K V) → (step x c).ttl ≡ c.ttl
  unfolding step delete_expired put invalidate clear
  step-ttl (drops k t) c = refl
  step-ttl (puts k v t) c = refl
  step-ttl (invalidates k) c = refl
  step-ttl clears c = refl

  run-ttl : (xs : List (Call K V)) (c : Cache K V) → (run xs c).ttl ≡ c.ttl
  unfolding run
  run-ttl [] c = refl
  run-ttl (x ∷ xs) c = step-ttl x (run xs c) ∙ run-ttl xs c

  live-run :
      (xs : List (Call K V)) (key : K) (ttl : ℤ) (now : Time)
      → unraced key ttl now xs ≡ true
      → live now (lookup key (run xs (new_cache ttl)).values) ≡ fresh ttl now (last_write key xs)
  unfolding run last_write step new_cache lookup delete_expired put invalidate clear unraced
  live-run [] key ttl now g = refl
  live-run (drops k t ∷ xs) key ttl now g =
      rw (lookup-erase k key (run xs (new_cache ttl)).values) (elim (Bool-cases (k == key)) [
        | inl h ↦
            rw h (sym (stays_over ttl t now (last_write key xs) (ground arith) (ground arith)))
        | inr h ↦ rw h (live-run xs key ttl now (ground arith))
      ])
  live-run (puts k v t ∷ xs) key ttl now g =
      rw
        (
          lookup-insert k key
              (record { value = v; expires_at = add_duration t (run xs (new_cache ttl)).ttl })
              (run xs (new_cache ttl)).values,
          run-ttl xs (new_cache ttl),
        )
        (elim (Bool-cases (k == key)) [
          | inl h ↦ rw h refl
          | inr h ↦ rw h (live-run xs key ttl now g)
        ])
  live-run (invalidates k ∷ xs) key ttl now g =
      rw (lookup-erase k key (run xs (new_cache ttl)).values) (elim (Bool-cases (k == key)) [
        | inl h ↦ rw h refl
        | inr h ↦ rw h (live-run xs key ttl now g)
      ])
  live-run (clears ∷ xs) key ttl now g = refl

  live-last_write :
      (xs : List (Call K V)) (key : K) (ttl : ℤ) (now : Time) (v : V)
      → live now (lookup key (run xs (new_cache ttl)).values) ≡ some v
      → fresh ttl now (last_write key xs) ≡ some v
  unfolding run last_write step new_cache lookup delete_expired put invalidate clear
  live-last_write [] key ttl now v h = h
  live-last_write (drops k t ∷ xs) key ttl now v h = elim (Bool-cases (k == key)) [
    | inl hit ↦
        let gone : ◌≡◌ {A = Option V} none (some v) =
          rw (lookup-erase k key (run xs (new_cache ttl)).values, hit) at h in
        cc
    | inr miss ↦
        live-last_write xs key ttl now v
          (rw (lookup-erase k key (run xs (new_cache ttl)).values, miss) at h)
  ]
  live-last_write (puts k w t ∷ xs) key ttl now v h =
      let found =
        rw
          (
            lookup-insert k key
                (record { value = w; expires_at = add_duration t (run xs (new_cache ttl)).ttl })
                (run xs (new_cache ttl)).values,
            run-ttl xs (new_cache ttl),
          )
          at h in
      elim (Bool-cases (k == key)) [
        | inl hit ↦ rw hit (rw hit at found)
        | inr miss ↦ rw miss (live-last_write xs key ttl now v (rw miss at found))
      ]
  live-last_write (invalidates k ∷ xs) key ttl now v h = elim (Bool-cases (k == key)) [
    | inl hit ↦
        let gone : ◌≡◌ {A = Option V} none (some v) =
          rw (lookup-erase k key (run xs (new_cache ttl)).values, hit) at h in
        cc
    | inr miss ↦ rw miss (
        live-last_write xs key ttl now v
          (rw (lookup-erase k key (run xs (new_cache ttl)).values, miss) at h))
  ]
  live-last_write (clears ∷ xs) key ttl now v h = h

  -- After any calls on a new cache, where no Set of the key comes between the two parts of a Get of
  -- it, Get answers with what the last write to the key that was not taken back has put there,
  -- unless its time to live is over, and with nothing otherwise.
  pub get-run :
      (xs : List (Call K V)) (key : K) (ttl : ℤ) (now : Time)
      → unraced key ttl now xs ≡ true
      → (get key now (run xs (new_cache ttl))).0 ≡ fresh ttl now (last_write key xs)
  unfolding get
  get-run xs key ttl now g =
      live-answer now (lookup key (run xs (new_cache ttl)).values) ∙ live-run xs key ttl now g

  -- After any calls on a new cache, the parts of Gets and the other calls in any order, a value that
  -- Get answers with is the one that the last write to the key has put there, was not taken back, and
  -- is within its time to live.
  pub get-last_write :
      (xs : List (Call K V)) (key : K) (ttl : ℤ) (now : Time) (v : V)
      → (get key now (run xs (new_cache ttl))).0 ≡ some v
      → fresh ttl now (last_write key xs) ≡ some v
  unfolding get
  get-last_write xs key ttl now v h =
      live-last_write xs key ttl now v
        (sym (live-answer now (lookup key (run xs (new_cache ttl)).values)) ∙ h)
