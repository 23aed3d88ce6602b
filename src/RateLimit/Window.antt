-- ===== src/RateLimit/Window.antt =====
-- The limit within one window of pkg/ratelimit/fixed_window.go.
use billpiggy.Base.{
  ℕ, suc, ◌+◌, ◌-◌, ◌<◌, ◌≡◌, refl, inl, inr, Bool, not, true, false, ◌&&◌, ◌||◌, String, List, [],
  ◌∷◌, some, arith, ◌==◌, string_eq, string_beq_iff, nat_eq, if◌then◌else◌, Bool-cases,
  Option-cases, equals_self, min, leb,
}
use billpiggy.Base.Int.{ℤ, pos, -ℤ_parts}
use billpiggy.Base.Assoc.{lookup, insert, lookup-insert, lookup-insert_self}
use billpiggy.Clock.{Time, is_zero}
use billpiggy.RateLimit.{
  Entry, FixedWindow, closed, evict_expired, swept, admit, allow, entry_or_zero,
}

lookup-evict_expired :
    (interval : ℤ) (now : Time) (k : String) (e : Entry) (m : List (String × Entry))
    → lookup k m ≡ some e
    → closed interval now e ≡ false
    → lookup k (evict_expired interval now m) ≡ some e
unfolding lookup evict_expired
lookup-evict_expired interval now k e [] h alive = cc
lookup-evict_expired interval now k e ((j, x) ∷ m) h alive =
    ground (arith, lookup-evict_expired interval now k e m)

abbrev pub one_if : Bool → ℕ
one_if true = 1
one_if false = 0

-- Of the calls in the list, those for the key, and those of them that are let through.
unfoldable pub asked : String → List (String × Time) → ℕ
asked key [] = 0
asked key ((j, now) ∷ cs) = one_if (j == key) + asked key cs

unfoldable pub allowed : String → List (String × Time) → FixedWindow → ℕ
allowed key [] l = 0
allowed key ((j, now) ∷ cs) l =
    let (ok, l') = allow j now l in one_if (j == key && ok) + allowed key cs l'

-- Every call of the list comes before the instant.
abbrev pub AllBefore : Time → List (String × Time) → Type 0
AllBefore end [] = Unit {0}
AllBefore end ((j, now) ∷ cs) = (now < end) × AllBefore end cs

-- A call that finds the key's window open.
module _ (limit interval : ℕ) (key : String) (started : Time) where
  -- The limiter has counted `n` operations of the key in the window that began at `started`.
  pub record Counts (n : ℕ) (l : FixedWindow) : Type 0 where
    pub bounded : l.limit ≡ pos limit
    pub spaced : l.interval ≡ pos interval
    pub entered : lookup key l.entries ≡ some (record { started = started; count = n })

  Counts-swept :
      (n : ℕ) (now : Time) (l : FixedWindow)
      → now < started + interval
      → Counts n l
      → Counts n (swept now l)
  unfolding swept
  Counts-swept n now l inside v = record {
    bounded = v.bounded;
    spaced = v.spaced;
    entered = ground (
      arith,
      v.spaced,
      v.entered,
      -ℤ_parts (pos now) (pos started),
      lookup-evict_expired l.interval now key (record { started = started; count = n }) l.entries
          v.entered,
    );
  }

  admit_key :
      (n : ℕ) (now : Time) (l : FixedWindow)
      → 0 < started
      → now < started + interval
      → Counts n l
      → ((admit key now l).0 ≡ not (leb limit n))
        × Counts (if leb limit n then n else suc n) (admit key now l).1
  unfolding admit
  admit_key n now l began inside v =
      rw (v.entered, v.bounded, v.spaced)
        (ground (
          arith,
          -ℤ_parts (pos now) (pos started),
          lookup-insert_self key (record { started = started; count = suc n }) l.entries,
        ))

  -- Writing another key's entry.
  Counts-insert :
      (j : String) (n : ℕ) (x : Entry) (l : FixedWindow)
      → (j == key) ≡ false
      → Counts n l
      → Counts n (record l { entries = insert j x l.entries })
  Counts-insert j n x l apart v = record {
    bounded = v.bounded;
    spaced = v.spaced;
    entered = rw (lookup-insert j key x l.entries, apart) v.entered;
  }

  admit_other :
      (j : String) (n : ℕ) (now : Time) (l : FixedWindow)
      → (j == key) ≡ false
      → Counts n l
      → Counts n (admit j now l).1
  unfolding admit
  admit_other j n now l apart v =
      let value = entry_or_zero (lookup j l.entries) in
      ground (
        arith,
        Counts-insert j n (record { started = now; count = 1 }) l apart v,
        Counts-insert j n (record value { count = suc value.count }) l apart v,
      )

  allowed_running :
      (cs : List (String × Time)) (n : ℕ) (l : FixedWindow)
      → 0 < started
      → AllBefore (started + interval) cs
      → Counts n l
      → allowed key cs l ≡ min (limit - n) (asked key cs)
  unfolding allowed asked allow
  allowed_running [] n l began inside v = omega arith
  allowed_running ((j, now) ∷ cs) n l began inside v =
      let v' = Counts-swept n now l inside.0 v in
      elim (Bool-cases (j == key)) [
        | inl same ↦
            let e : j ≡ key = (string_beq_iff j key).0 same in
            let (answer, w) = admit_key n now (swept now l) began inside.0 v' in
            let next =
              allowed_running cs (if leb limit n then n else suc n) (admit key now (swept now l)).1
                began inside.1 w in
            rw (same, e, answer, next) (ground arith)
        | inr other ↦
            rw
              (
                other,
                allowed_running cs n (admit j now (swept now l)).1 began inside.1
                    (admit_other j n now (swept now l) other v'),
              )
              (omega arith)
      ]

-- No window of the key is open at the instant: an entry that it has began an interval ago or longer.
unfoldable pub none_open : String → ℕ → Time → List (String × Entry) → Bool
none_open key interval t [] = true
none_open key interval t ((k, e) ∷ m) =
    let rest = none_open key interval t m in
    if k == key then leb (e.started + interval) t && rest else rest

none_open-evict_expired :
    (key : String) (interval : ℕ) (t now : Time) (i : ℤ) (m : List (String × Entry))
    → none_open key interval t m ≡ true
    → none_open key interval t (evict_expired i now m) ≡ true
unfolding none_open evict_expired
none_open-evict_expired key interval t now i [] h = refl
none_open-evict_expired key interval t now i ((k, e) ∷ m) h =
    ground (arith, none_open-evict_expired key interval t now i m)

none_open-swept :
    (key : String) (interval : ℕ) (t now : Time) (l : FixedWindow)
    → none_open key interval t l.entries ≡ true
    → none_open key interval t (swept now l).entries ≡ true
unfolding swept
none_open-swept key interval t now l h =
    ground (arith, none_open-evict_expired key interval t now l.interval l.entries h)

none_open-closed :
    (key : String) (interval : ℕ) (t : Time) (m : List (String × Entry)) (e : Entry)
    → none_open key interval t m ≡ true
    → lookup key m ≡ some e
    → closed (pos interval) t e ≡ true
unfolding none_open lookup
none_open-closed key interval t [] e h found = cc
none_open-closed key interval t ((k, x) ∷ m) e h found = ground (
  arith,
  none_open-closed key interval t m e,
  -ℤ_parts (pos t) (pos e.started),
  -ℤ_parts (pos t) (pos x.started),
)

either : (b c : Bool) → c ≡ true → (b || c) ≡ true
either b c h = ground arith

admit_opens :
    (limit interval : ℕ) (key : String) (t : Time) (l : FixedWindow)
    → l.limit ≡ pos limit
    → l.interval ≡ pos interval
    → none_open key interval t l.entries ≡ true
    → ((admit key t l).0 ≡ true) × Counts limit interval key t 1 (admit key t l).1
unfolding admit
admit_opens limit interval key t l bounded spaced over =
    let value = entry_or_zero (lookup key l.entries) in
    let opened : (is_zero value.started || closed l.interval t value) ≡ true =
      elim (Option-cases (lookup key l.entries)) [
        | inl gone ↦ rw gone refl
        | inr (e, found) ↦
            rw (found, spaced)
              (either (is_zero e.started) (closed (pos interval) t e)
                (none_open-closed key interval t l.entries e over found))
      ] in
    rw opened (
      refl,
      record {
        bounded = bounded;
        spaced = spaced;
        entered = lookup-insert_self key (record { started = t; count = 1 }) l.entries;
      },
    )

-- A call of a key that has no open window is let through and opens one.
opens_window :
    (limit interval : ℕ) (key : String) (t : Time) (l : FixedWindow)
    → l.limit ≡ pos limit
    → l.interval ≡ pos interval
    → none_open key interval t l.entries ≡ true
    → ((allow key t l).0 ≡ true) × Counts limit interval key t 1 (allow key t l).1
unfolding allow swept
opens_window limit interval key t l bounded spaced over =
    admit_opens limit interval key t (swept t l) bounded spaced
      (none_open-swept key interval t t l over)

-- A key that has no open window, since it has no entry or one that began an interval ago or longer,
-- calls at `t`, and then any calls follow, of any keys, before the interval is over: of the key's
-- calls exactly the first `limit` are let through (and the very first one also where the limit is
-- 0), whatever the other keys do and whenever the sweep runs.
pub window_quota :
    (limit interval : ℕ) (key : String) (t : Time) (cs : List (String × Time)) (l : FixedWindow)
    → l.limit ≡ pos limit
    → l.interval ≡ pos interval
    → none_open key interval t l.entries ≡ true
    → 0 < t
    → AllBefore (t + interval) cs
    → allowed key ((key, t) ∷ cs) l ≡ 1 + min (limit - 1) (asked key cs)
unfolding allowed
window_quota limit interval key t cs l bounded spaced over began inside =
    let (answer, counts) = opens_window limit interval key t l bounded spaced over in
    let rest = allowed_running limit interval key t cs 1 (allow key t l).1 began inside counts in
    rw (answer, rest, equals_self key) refl
