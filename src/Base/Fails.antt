-- ===== src/Base/Fails.antt =====
-- Methods that leave the state as it was when they fail: one rule for each way to build a method.
use billpiggy.Base.{◌≡◌, refl, Bool, true, false, Option, none, some}
use billpiggy.Base.Act.{
  Failure, Outcome, ok, err, Act, Done, pure, from_option, read, guard, require, atomic, kept,
  continue, ◌>>=◌,
}

pub record Fails {S A : Type 0} (m : Act S A) (s : S) : Type 0 where
  pub unchanged : (e : Failure) → (m s).0 ≡ err e → (m s).1 ≡ s

kept_unchanged :
    {S A : Type 0} (s : S) (o : Outcome A × S) (e : Failure)
    → (kept s o).0 ≡ err e
    → (kept s o).1 ≡ s
kept_unchanged s (ok a, t) e h = cc
kept_unchanged s (err f, t) e h = refl

module _ {S A : Type 0} where
  pub Fails-atomic : (m : Act S A) {s : S} → Fails (atomic m) s
  unfolding atomic
  Fails-atomic m {s} = record { unchanged = kept_unchanged s (m s) }

module _ {S A B : Type 0} where
  last_unchanged :
      (s : S) (o : Outcome A × S) (f : A → B)
      → ((e : Failure) → o.0 ≡ err e → o.1 ≡ s)
      → (e : Failure) → (continue o (λ a. pure (f a))).0 ≡ err e
      → (continue o (λ a. pure (f a))).1 ≡ s
  unfolding pure
  last_unchanged s (ok a, t) f h e r = cc
  last_unchanged s (err g, t) f h e r = h g refl

  pub Fails-pure : {s : S} (m : Act S A) (f : A → B) → Fails m s → Fails (m >>= λ a. pure (f a)) s
  unfolding ◌>>=◌
  Fails-pure {s} m f h = record { unchanged = last_unchanged s (m s) f h.unchanged }

  found_unchanged :
      (s : S) (g : Failure) (f : A → Act S B) (o : Option A)
      → ((a : A) → o ≡ some a → Fails (f a) s)
      → (e : Failure) → (continue (from_option g o s) f).0 ≡ err e
      → (continue (from_option g o s) f).1 ≡ s
  unfolding from_option
  found_unchanged s g f none next e r = refl
  found_unchanged s g f (some a) next e r = (next a refl).unchanged e r

  pub Fails-read :
      {s : S} (g : Failure) (look : S → Option A) (f : A → Act S B)
      → ((a : A) → look s ≡ some a → Fails (f a) s)
      → Fails (read g look >>= f) s
  unfolding ◌>>=◌ read
  Fails-read {s} g look f next = record { unchanged = found_unchanged s g f (look s) next }

module _ {S B : Type 0} where
  guarded_unchanged :
      (s : S) (g : Failure) (f : Done → Act S B) (b : Bool)
      → (b ≡ true → Fails (f tt) s)
      → (e : Failure) → (continue (guard b g s) f).0 ≡ err e
      → (continue (guard b g s) f).1 ≡ s
  unfolding guard
  guarded_unchanged s g f true next e r = (next refl).unchanged e r
  guarded_unchanged s g f false next e r = refl

  pub Fails-guard :
      {s : S} (g : Failure) (f : Done → Act S B) (b : Bool)
      → (b ≡ true → Fails (f tt) s)
      → Fails (guard b g >>= f) s
  unfolding ◌>>=◌
  Fails-guard {s} g f b next = record { unchanged = guarded_unchanged s g f b next }

  pub Fails-require :
      {s : S} (g : Failure) (f : Done → Act S B) (test : S → Bool)
      → (test s ≡ true → Fails (f tt) s)
      → Fails (require test g >>= f) s
  unfolding ◌>>=◌ require
  Fails-require {s} g f test next = record { unchanged = guarded_unchanged s g f (test s) next }
