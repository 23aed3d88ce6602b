-- ===== src/Tests/Limits.antt =====
-- pkg/ratelimit and pkg/cache on a few calls.
use billpiggy.Base.{
  ℕ, ◌+◌, ◌-◌, ◌≡◌, refl, min, String, string_eq, true, some, List, [], ◌∷◌, arith,
}
use billpiggy.Base.Int.{pos, ◌+ℤ◌}
use billpiggy.Base.Assoc.{lookup, insert, erase}
use billpiggy.RateLimit.{FixedWindow}
use billpiggy.RateLimit.Window.{allowed, asked, none_open, window_quota}
use billpiggy.Cache.{new_cache, get, put, delete_expired, invalidate}
use billpiggy.Cache.View.{
  Call, drops, puts, invalidates, step, run, fresh, last_write, unraced, get-run, get-last_write,
}
use billpiggy.Clock.{Time, add_duration}

abbrev logins : List (String × Time)
logins = ("1.2.3.4", 101) ∷ ("5.6.7.8", 102) ∷ ("1.2.3.4", 103) ∷ ("1.2.3.4", 104) ∷ []

-- A limiter whose entry of the caller is a full window that is over.
abbrev used_up : FixedWindow
used_up = record {
  limit = pos 2;
  interval = pos 60;
  entries = ("1.2.3.4", record { started = 40; count = 2 }) ∷ [];
  calls = 2;
}

window_over : none_open "1.2.3.4" 60 100 used_up.entries ≡ true
unfolding none_open
window_over = refl

window_quota_example :
    allowed "1.2.3.4" (("1.2.3.4", 100) ∷ logins) used_up ≡ 1 + min (2 - 1) (asked "1.2.3.4" logins)
window_quota_example =
    window_quota 2 60 "1.2.3.4" 100 logins used_up refl refl window_over (omega arith)
      (omega arith, (omega arith, (omega arith, (omega arith, tt))))

-- A Get at 20 has found the first write to "a" expired.
abbrev writes : List (Call String ℕ)
writes = puts "a" 3 21 ∷ drops "a" 20 ∷ invalidates "b" ∷ puts "b" 2 11 ∷ puts "a" 1 10 ∷ []

no_race : unraced "a" (pos 5) 23 writes ≡ true
unfolding unraced last_write add_duration ◌+ℤ◌
no_race = refl

get-run_example :
    (get "a" 23 (run writes (new_cache (pos 5)))).0 ≡ fresh (pos 5) 23 (last_write "a" writes)
get-run_example = get-run writes "a" (pos 5) 23 no_race

answered : (get "a" 23 (run writes (new_cache (pos 5)))).0 ≡ some 3
unfolding get run step new_cache put delete_expired invalidate lookup insert erase add_duration ◌+ℤ◌
answered = refl

get-last_write_example : fresh (pos 5) 23 (last_write "a" writes) ≡ some 3
get-last_write_example = get-last_write writes "a" (pos 5) 23 3 answered
