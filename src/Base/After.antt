-- ===== src/Base/After.antt =====
-- What holds of the state after a method, whether it returns or fails: one rule for each way to build
-- a method.
use billpiggy.Base.{◌≡◌, refl, Bool, true, false, Option, none, some, if◌then◌else◌}
use billpiggy.Base.Act.{
  Failure, Outcome, ok, err, Act, Done, pure, fail, from_option, from_outcome, read, guard, require,
  when, continue, ◌>>=◌,
}

pub record After {ℓ} {S A : Type ℓ} (P : S → Type ℓ) (m : Act S A) (s : S) : Type ℓ where
  pub holds : P (m s).1

module _ {ℓ} {S A : Type ℓ} {P : S → Type ℓ} where
  pub After-pure : {s : S} (a : A) → P s → After P (pure a) s
  unfolding pure
  After-pure a h = record { holds = h }

  pub After-fail : {s : S} (e : Failure) → P s → After P (fail {A = A} e) s
  unfolding fail
  After-fail e h = record { holds = h }

module _ {ℓ} {S A B : Type ℓ} {P : S → Type ℓ} where
  continue_after :
      (o : Outcome A × S) (f : A → Act S B)
      → P o.1
      → ((a : A) → o.0 ≡ ok a → After P (f a) o.1)
      → P (continue o f).1
  continue_after (ok a, s) f h next = (next a refl).holds
  continue_after (err e, s) f h next = h

  -- The rest of a block may use what the first method has returned, and that it did not fail.
  pub After-bind :
      {s : S} {m : Act S A} {f : A → Act S B}
      → After P m s
      → ((a : A) → (m s).0 ≡ ok a → P (m s).1 → After P (f a) (m s).1)
      → After P (m >>= f) s
  unfolding ◌>>=◌
  After-bind {s} {m} {f} first next = record {
    holds = continue_after (m s) f first.holds (λ a e. next a e first.holds);
  }

module _ {S B : Type 0} {P : S → Type 0} where
  pub After-guard :
      {s : S} (e : Failure) (f : Done → Act S B) (b : Bool)
      → P s
      → (b ≡ true → After P (f tt) s)
      → After P (guard b e >>= f) s
  unfolding ◌>>=◌ guard
  After-guard e f true h next = record { holds = (next refl).holds }
  After-guard e f false h next = record { holds = h }

  require_after :
      {s : S} (e : Failure) (f : Done → Act S B) (b : Bool)
      → P s
      → (b ≡ true → After P (f tt) s)
      → P (continue (guard b e s) f).1
  unfolding guard
  require_after e f true h next = (next refl).holds
  require_after e f false h next = h

  pub After-require :
      {s : S} (e : Failure) (f : Done → Act S B) (test : S → Bool)
      → P s
      → (test s ≡ true → After P (f tt) s)
      → After P (require test e >>= f) s
  unfolding ◌>>=◌ require
  After-require {s} e f test h next = record { holds = require_after e f (test s) h next }

  found_after :
      {A : Type 0} {s : S} (e : Failure) (f : A → Act S B) (o : Option A)
      → P s
      → ((a : A) → o ≡ some a → After P (f a) s)
      → P (continue (from_option e o s) f).1
  unfolding from_option
  found_after e f none h next = h
  found_after e f (some a) h next = (next a refl).holds

  pub After-found :
      {A : Type 0} {s : S} (e : Failure) (o : Option A) (f : A → Act S B)
      → P s
      → ((a : A) → o ≡ some a → After P (f a) s)
      → After P (from_option e o >>= f) s
  unfolding ◌>>=◌
  After-found e o f h next = record { holds = found_after e f o h next }

  outcome_after :
      {A : Type 0} {s : S} (f : A → Act S B) (o : Outcome A)
      → P s
      → ((a : A) → o ≡ ok a → After P (f a) s)
      → P (continue (o, s) f).1
  outcome_after f (ok a) h next = (next a refl).holds
  outcome_after f (err e) h next = h

  pub After-outcome :
      {A : Type 0} {s : S} (o : Outcome A) (f : A → Act S B)
      → P s
      → ((a : A) → o ≡ ok a → After P (f a) s)
      → After P (from_outcome o >>= f) s
  unfolding ◌>>=◌ from_outcome
  After-outcome o f h next = record { holds = outcome_after f o h next }

  -- A value that is looked up in the state.
  pub After-read :
      {A : Type 0} {s : S} (e : Failure) (g : S → Option A) (f : A → Act S B)
      → P s
      → ((a : A) → g s ≡ some a → After P (f a) s)
      → After P (read e g >>= f) s
  unfolding ◌>>=◌ read
  After-read {s} e g f h next = record { holds = found_after e f (g s) h next }

module _ {S : Type 0} {P : S → Type 0} where
  pub After-when :
      {s : S} {m : Act S Done} (b : Bool) → P s → (b ≡ true → After P m s) → After P (when b m) s
  unfolding when
  After-when true h next = record { holds = (next refl).holds }
  After-when false h next = record { holds = h }

module _ {S B : Type 0} {P : S → Type 0} where
  pub After-if :
      {s : S} (m n : Act S B) (b : Bool)
      → After P m s
      → After P n s
      → After P (if b then m else n) s
  After-if m n true h k = h
  After-if m n false h k = k
