-- ===== src/Clock.antt =====
-- Go's time.Time and time.Duration as the code uses them. An instant is its nanoseconds since
-- 0001-01-01T00:00:00Z, so that 0 is the zero Time; every instant is in UTC, as the code's own
-- calls of UTC() make it. Instants before year 1 are not represented. A Duration is an int64.
use billpiggy.Base.{ℕ, ◌+◌, ◌*◌, Bool, ltb, ◌==◌, nat_eq}
use billpiggy.Base.Int.{ℤ, pos, pos_part, sub_ℕ, wrap64, ◌+ℤ◌}

abbrev pub Time : Type 0
Time = ℕ

abbrev pub zero_time : Time
zero_time = 0

-- t.IsZero(), t.After(u), t.Before(u), t.Equal(u)
abbrev pub is_zero : Time → Bool
is_zero t = t == 0

abbrev pub after : Time → Time → Bool
after t u = ltb u t

abbrev pub before : Time → Time → Bool
before t u = ltb t u

abbrev pub equal : Time → Time → Bool
equal t u = t == u

-- t.Add(d)
unfoldable pub add_duration : Time → ℤ → Time
unfolding ◌+ℤ◌
add_duration t d = pos_part (pos t +ℤ d)

-- time.Second, time.Minute, and the length of a day
abbrev pub second : ℕ
second = 1000000000

abbrev pub minute : ℕ
minute = 60000000000

abbrev pub day_length : ℕ
day_length = 86400000000000

-- time.UnixMilli(ms)
pub unix_milli : ℕ → Time
unix_milli ms = 62135596800000000000 + ms * 1000000

-- t.UnixNano(): the nanoseconds since 1970-01-01 in an int64.
unfoldable pub unix_nano : Time → ℤ
unix_nano t = wrap64 (sub_ℕ t 62135596800000000000)
