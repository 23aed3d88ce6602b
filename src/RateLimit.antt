-- ===== src/RateLimit.antt =====
-- pkg/ratelimit/fixed_window.go: the process-local limiter. The mutex makes Allow one step, at
-- the time that it reads the clock. Differences of instants are taken exactly; Go's Sub is exact
-- up to 292 years.
pub mod Window
use billpiggy.Base.{
  ℕ, suc, ◌+◌, ◌%◌, Bool, true, false, ◌||◌, String, List, [], ◌∷◌, Option, none, some, ◌==◌,
  nat_eq, string_eq, if◌then◌else◌, length,
}
use billpiggy.Base.Int.{ℤ, pos, ◌-ℤ◌, leb_ℤ, word}
use billpiggy.Base.Assoc.{lookup, insert}
use billpiggy.Clock.{Time, zero_time, is_zero}

pub record Entry : Type 0 where
  pub started : Time
  pub count : ℕ

pub record FixedWindow : Type 0 where
  pub limit : ℤ
  pub interval : ℤ
  pub entries : List (String × Entry)
  pub calls : ℕ

-- NewFixedWindow
unfoldable pub new_fixed_window : ℤ → ℤ → FixedWindow
new_fixed_window limit interval = record {
  limit = limit;
  interval = interval;
  entries = [];
  calls = 0;
}

abbrev pub evict_after_calls : ℕ
evict_after_calls = 1000

-- now.Sub(started) >= interval
abbrev pub closed : ℤ → Time → Entry → Bool
closed interval now e = leb_ℤ interval (pos now -ℤ pos e.started)

-- evictExpiredLocked
unfoldable pub evict_expired : ℤ → Time → List (String × Entry) → List (String × Entry)
evict_expired interval now [] = []
evict_expired interval now ((k, e) ∷ m) =
    let rest = evict_expired interval now m in if closed interval now e then rest else (k, e) ∷ rest

-- A missing key of the map reads as the zero entry.
abbrev pub entry_or_zero : Option Entry → Entry
entry_or_zero none = record { started = zero_time; count = 0 }
entry_or_zero (some e) = e

-- The call's number, and the sweep at every thousandth one.
unfoldable pub swept : Time → FixedWindow → FixedWindow
swept now l =
    let calls = (l.calls + 1) % word in
    record l {
      calls = calls;
      entries =
          if calls % evict_after_calls == 0
          then evict_expired l.interval now l.entries
          else l.entries;
    }

-- The part of Allow after the sweep.
unfoldable pub admit : String → Time → FixedWindow → Bool × FixedWindow
admit key now l =
    let value = entry_or_zero (lookup key l.entries) in
    if is_zero value.started || closed l.interval now value
    then (true, record l { entries = insert key (record { started = now; count = 1 }) l.entries })
    else if leb_ℤ l.limit (pos value.count)
    then (false, l)
    else (
      true,
      record l { entries = insert key (record value { count = suc value.count }) l.entries },
    )

-- Allow
unfoldable pub allow : String → Time → FixedWindow → Bool × FixedWindow
unfolding swept admit
allow key now l = admit key now (swept now l)

-- Len
abbrev pub len : FixedWindow → ℕ
len l = length l.entries
