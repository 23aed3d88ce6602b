-- ===== src/Outbox.antt =====
-- pkg/outbox/outbox.go: messages, retry policies and results. A Duration is an ℤ of nanoseconds
-- with int64 wrap-around, so a policy may hold any of Go's values. The kinds of failure that a
-- handler returns are texts (err.Error()).
pub mod Backoff
pub mod Engine
pub mod Draining
use billpiggy.Base.{
  ℕ, zero, suc, ◌+◌, ◌-◌, Bool, true, false, List, Option, none, some, String, if◌then◌else◌,
}
use billpiggy.Base.Int.{ℤ, pos, leb_ℤ, ltb_ℤ, add64}
use billpiggy.Clock.{Time, second, minute}

abbrev pub Bytes : Type 0
Bytes = List ℕ

pub record Message : Type 0 where
  pub outbox_id : String × ℕ
  pub event_id : String
  pub global_seq : ℕ
  pub aggregate_type : String
  pub aggregate_id : String
  pub aggregate_version : ℕ
  pub event_type : String
  pub payload : Bytes
  pub metadata : List (String × String)
  pub occurred_at : Time
  pub attempts : ℕ
  pub replay : Bool

pub record Policy : Type 0 where
  pub max_attempts : ℤ
  pub base_backoff : ℤ
  pub max_backoff : ℤ
  pub lease_ttl : ℤ

unfoldable pub default_policy : Policy
default_policy = record {
  max_attempts = pos 8;
  base_backoff = pos second;
  max_backoff = pos (300000000000);
  lease_ttl = pos minute;
}

-- `if value <= 0 { value = fallback }`
abbrev pub or_default : ℤ → ℤ → ℤ
or_default value fallback = if leb_ℤ value (pos 0) then fallback else value

-- The loop of RetryDelay: `rounds` is what is left of `attempts - 1`.
unfoldable pub double_delay : ℕ → ℤ → ℤ → ℤ
double_delay zero maximum delay = delay
double_delay (suc rounds) maximum delay =
    let rest = double_delay rounds maximum (add64 delay delay) in
    if ltb_ℤ delay maximum then rest else delay

abbrev pub cap_delay : ℤ → ℤ → ℤ
cap_delay maximum delay = if ltb_ℤ maximum delay then maximum else delay

-- Policy.RetryDelay
unfoldable pub retry_delay : Policy → ℕ → ℤ
retry_delay p attempts =
    let maximum : ℤ = or_default p.max_backoff (pos 300000000000) in
    cap_delay maximum (double_delay (attempts - 1) maximum (or_default p.base_backoff (pos second)))

-- Policy.normalise
unfoldable pub normalise : Policy → Policy
unfolding default_policy
normalise p = record {
  max_attempts = or_default p.max_attempts default_policy.max_attempts;
  base_backoff = or_default p.base_backoff default_policy.base_backoff;
  max_backoff = or_default p.max_backoff default_policy.max_backoff;
  lease_ttl = or_default p.lease_ttl default_policy.lease_ttl;
}

-- The Status and the fields of Result that go with it.
pub data Result : Type 0 where
  idle : Result
  processed : Message → Result
  retried : Message → String → Result
  dead_lettered : Message → String → Result
