-- ===== src/Base/Refuses.antt =====
-- Methods that return an error: at a value that is not there, or at a condition that does not hold.
use billpiggy.Base.{◌≡◌, refl, Bool, true, false, Option, none, some, arith}
use billpiggy.Base.Act.{
  Failure, Outcome, ok, err, Act, Done, from_option, read, guard, continue, ◌>>=◌,
}

module _ {S B : Type 0} where
  found_refuses :
      {A : Type 0} {s : S} (e : Failure) (f : A → Act S B) (o : Option A)
      → ((a : A) → o ≡ some a → (f a s).0 ≡ err e)
      → (continue (from_option e o s) f).0 ≡ err e
  unfolding from_option
  found_refuses e f none next = refl
  found_refuses e f (some a) next = next a refl

  pub read_refuses :
      {A : Type 0} {s : S} (e : Failure) (g : S → Option A) (f : A → Act S B)
      → ((a : A) → g s ≡ some a → (f a s).0 ≡ err e)
      → ((read e g >>= f) s).0 ≡ err e
  unfolding ◌>>=◌ read
  read_refuses {A} {s} e g f next = found_refuses e f (g s) next

  pub guard_refuses :
      (s : S) (e : Failure) (f : Done → Act S B) (b : Bool)
      → b ≡ false
      → ((guard b e >>= f) s).0 ≡ err e
  unfolding ◌>>=◌ guard
  guard_refuses s e f true h = cc
  guard_refuses s e f false h = refl

  -- A failure of the first method is the failure of the block, in the same state.
  stopped :
      {A : Type 0} (o : Outcome A × S) (e : Failure) (t : S) (f : A → Act S B)
      → o ≡ (err e, t)
      → continue o f ≡ (err e, t)
  stopped (ok a, s) e t f h = cc
  stopped (err g, s) e t f h = grind (arith, h)

  pub bind_stops :
      {A : Type 0} (m : Act S A) (f : A → Act S B) (s t : S) (e : Failure)
      → m s ≡ (err e, t)
      → (m >>= f) s ≡ (err e, t)
  unfolding ◌>>=◌
  bind_stops m f s t e h = stopped (m s) e t f h
