-- ===== src/Base/Act.antt =====
-- Methods that change state and may fail. What was written before a failure stays written, as in Go,
-- where a method returns its error and the objects that it has changed remain; a unit of work, which
-- restores them, is `atomic`.
use billpiggy.Base.{Bool, true, false, String, Option, none, some}

-- The errors of the services that callers tell apart, and any other one by its text.
pub data Failure : Type 0 where
  unauthorized forbidden not_found conflict bootstrap : Failure
  invalid other : String → Failure

pub data Outcome {ℓ} (A : Type ℓ) : Type ℓ where
  ok : A → Outcome A
  err : Failure → Outcome A

abbrev pub Act {ℓ} : Type ℓ → Type ℓ → Type ℓ
Act S A = S → Outcome A × S

abbrev pub Done : Type 0
Done = Unit {0}

module _ {ℓ} {S A : Type ℓ} where
  unfoldable pub pure : A → Act S A
  pure a s = (ok a, s)

  unfoldable pub fail : Failure → Act S A
  fail e s = (err e, s)

  -- `if err != nil { return e }`, whatever the error was
  abbrev replaced : Failure → Outcome A × S → Outcome A × S
  replaced e (ok a, s) = (ok a, s)
  replaced e (err f, s) = (err e, s)

  unfoldable pub or_fail : Failure → Act S A → Act S A
  or_fail e m s = replaced e (m s)

  -- What a function returned that changes nothing.
  unfoldable pub from_outcome : Outcome A → Act S A
  from_outcome o s = (o, s)

  -- A value that was found, and an error otherwise.
  unfoldable pub from_option : Failure → Option A → Act S A
  from_option e none s = (err e, s)
  from_option e (some a) s = (ok a, s)

  -- A value that is looked up in the state, and an error when it is not there.
  unfoldable pub read : Failure → (S → Option A) → Act S A
  unfolding from_option
  read e f s = from_option e (f s) s

  abbrev pub kept : S → Outcome A × S → Outcome A × S
  kept s (ok a, t) = (ok a, t)
  kept s (err e, t) = (err e, s)

  -- UnitOfWork.Within: a failure restores the state.
  unfoldable pub atomic : Act S A → Act S A
  atomic m s = kept s (m s)

module _ {ℓ} {S A B : Type ℓ} where
  abbrev pub continue : Outcome A × S → (A → Act S B) → Outcome B × S
  continue (ok a, s) f = f a s
  continue (err e, s) f = (err e, s)

  infixl 5 ◌>>=◌ ◌>>◌
  unfoldable pub ◌>>=◌ : Act S A → (A → Act S B) → Act S B
  ◌>>=◌ m f s = continue (m s) f

  unfoldable pub ◌>>◌ : Act S A → Act S B → Act S B
  unfolding ◌>>=◌
  m >> n = m >>= λ _. n

module _ {S : Type 0} where
  unfoldable pub guard : Bool → Failure → Act S Done
  guard true e s = (ok tt, s)
  guard false e s = (err e, s)

  -- A condition on the state.
  unfoldable pub require : (S → Bool) → Failure → Act S Done
  unfolding guard
  require f e s = guard (f s) e s

  -- `if b { ... }`
  unfoldable pub when : Bool → Act S Done → Act S Done
  when true m s = m s
  when false m s = (ok tt, s)

  unfoldable pub modify : (S → S) → Act S Done
  modify f s = (ok tt, f s)
