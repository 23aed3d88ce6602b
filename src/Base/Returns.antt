-- ===== src/Base/Returns.antt =====
-- What holds of the state after a method that returns without an error: one rule for each way to build
-- a method.
use billpiggy.Base.{◌≡◌, refl, Bool, true, false, Option, none, some}
use billpiggy.Base.Act.{
  Failure, Outcome, ok, err, Act, Done, pure, from_option, from_outcome, read, guard, require,
  atomic, kept, when, continue, ◌>>=◌,
}
use billpiggy.Base.After.{After}

pub record Returns {S A : Type 0} (P : S → Type 0) (m : Act S A) (s : S) : Type 0 where
  pub result : (a : A) → (m s).0 ≡ ok a → P (m s).1

module _ {S A : Type 0} {P : S → Type 0} where
  pub After-Returns : {m : Act S A} {s : S} → After P m s → Returns P m s
  After-Returns h = record { result = λ _ _. h.holds }

module _ {S A B : Type 0} where
  continue_pure :
      (Q : S → Type 0) (o : Outcome A × S) (f : A → B)
      → ((a : A) → o.0 ≡ ok a → Q o.1)
      → (b : B) → (continue o (λ a. pure (f a))).0 ≡ ok b
      → Q (continue o (λ a. pure (f a))).1
  unfolding pure
  continue_pure Q (ok a, s) f h b e = h a refl
  continue_pure Q (err e, s) f h b no_value = cc

module _ {S A B : Type 0} {P : S → Type 0} where
  continue_returns :
      (o : Outcome A × S) (f : A → Act S B)
      → ((a : A) → o.0 ≡ ok a → Returns P (f a) o.1)
      → (b : B) → (continue o f).0 ≡ ok b
      → P (continue o f).1
  continue_returns (ok a, s) f next b h = (next a refl).result b h
  continue_returns (err e, s) f next b h = cc

  pub Returns-bind :
      {s : S} (m : Act S A) (f : A → Act S B)
      → ((a : A) → (m s).0 ≡ ok a → Returns P (f a) (m s).1)
      → Returns P (m >>= f) s
  unfolding ◌>>=◌
  Returns-bind {s} m f next = record { result = continue_returns (m s) f next }

  -- The last step computes what the method returns.
  pub Returns-pure :
      {s : S} (m : Act S A) (f : A → B) → Returns P m s → Returns P (m >>= λ a. pure (f a)) s
  unfolding ◌>>=◌
  Returns-pure {s} m f h = record { result = continue_pure P (m s) f h.result }

  pub Returns-outcome :
      {s : S} (o : Outcome A) (f : A → Act S B)
      → ((a : A) → o ≡ ok a → Returns P (f a) s)
      → Returns P (from_outcome o >>= f) s
  unfolding ◌>>=◌ from_outcome
  Returns-outcome {s} o f next = record { result = continue_returns (o, s) f next }

  found_returns :
      {s : S} (e : Failure) (f : A → Act S B) (o : Option A)
      → ((a : A) → o ≡ some a → Returns P (f a) s)
      → (b : B) → (continue (from_option e o s) f).0 ≡ ok b
      → P (continue (from_option e o s) f).1
  unfolding from_option
  found_returns e f none next b h = cc
  found_returns e f (some a) next b h = (next a refl).result b h

  pub Returns-found :
      {s : S} (e : Failure) (o : Option A) (f : A → Act S B)
      → ((a : A) → o ≡ some a → Returns P (f a) s)
      → Returns P (from_option e o >>= f) s
  unfolding ◌>>=◌
  Returns-found e o f next = record { result = found_returns e f o next }

  pub Returns-read :
      {s : S} (e : Failure) (g : S → Option A) (f : A → Act S B)
      → ((a : A) → g s ≡ some a → Returns P (f a) s)
      → Returns P (read e g >>= f) s
  unfolding ◌>>=◌ read
  Returns-read {s} e g f next = record { result = found_returns e f (g s) next }

module _ {S B : Type 0} {P : S → Type 0} where
  guarded_returns :
      {s : S} (e : Failure) (f : Done → Act S B) (b : Bool)
      → (b ≡ true → Returns P (f tt) s)
      → (a : B) → (continue (guard b e s) f).0 ≡ ok a
      → P (continue (guard b e s) f).1
  unfolding guard
  guarded_returns e f true next a h = (next refl).result a h
  guarded_returns e f false next a h = cc

  pub Returns-guard :
      {s : S} (e : Failure) (f : Done → Act S B) (b : Bool)
      → (b ≡ true → Returns P (f tt) s)
      → Returns P (guard b e >>= f) s
  unfolding ◌>>=◌
  Returns-guard e f b next = record { result = guarded_returns e f b next }

  pub Returns-require :
      {s : S} (e : Failure) (f : Done → Act S B) (test : S → Bool)
      → (test s ≡ true → Returns P (f tt) s)
      → Returns P (require test e >>= f) s
  unfolding ◌>>=◌ require
  Returns-require {s} e f test next = record { result = guarded_returns e f (test s) next }

-- A unit of work keeps what holds before it, if what it does keeps it when it succeeds.
kept_after :
    {S A : Type 0} (P : S → Type 0) (s : S) (o : Outcome A × S)
    → P s
    → ((a : A) → o.0 ≡ ok a → P o.1)
    → P (kept s o).1
kept_after P s (ok a, t) h next = next a refl
kept_after P s (err e, t) h next = h

module _ {S A : Type 0} {P : S → Type 0} where
  pub After-atomic : {m : Act S A} {s : S} → P s → Returns P m s → After P (atomic m) s
  unfolding atomic
  After-atomic {m} {s} h next = record { holds = kept_after P s (m s) h next.result }

kept_returns :
    {S A : Type 0} (P : S → Type 0) (s : S) (o : Outcome A × S)
    → ((a : A) → o.0 ≡ ok a → P o.1)
    → (a : A) → (kept s o).0 ≡ ok a
    → P (kept s o).1
kept_returns P s (ok a, t) next b h = next a refl
kept_returns P s (err e, t) next b h = cc

module _ {S A : Type 0} {P : S → Type 0} where
  pub Returns-atomic : {m : Act S A} {s : S} → Returns P m s → Returns P (atomic m) s
  unfolding atomic
  Returns-atomic {m} {s} next = record { result = kept_returns P s (m s) next.result }

module _ {S : Type 0} {P : S → Type 0} where
  pub Returns-when :
      {m : Act S Done} {s : S} (b : Bool) → P s → After P m s → Returns P (when b m) s
  unfolding when
  Returns-when true h next = record { result = λ _ _. next.holds }
  Returns-when false h next = record { result = λ _ _. h }
