-- ===== src/Base/Equality.antt =====
-- Decidable equality as an interface: Go's `==` on the comparable types that the code uses.
use Prim.Native.Nat.{ℕ, compare, Ordering}
use Prim.Native.String.{String}
use mathlib.Core.Path.{◌≡◌, refl}
use mathlib.Core.Logic.{◌↔◌, ◌⊎◌, inl, inr}
use mathlib.Core.Bool.{Bool, true, false, ◌||◌}
use mathlib.Core.List.{List, [], ◌∷◌}
use billpiggy.Base.Tests.{Bool-cases}
use native.Mathlib.Omega.{arith}
use text.Mathlib.Text.{◌==◌ as text_test}
use text.Mathlib.TextEquality.{eq_iff as text_test_iff}

-- A type whose values Go compares with `==`. The test answers true for equal values and for no others.
pub record Comparable {κ} (T : Type κ) : Type κ where
  pub equals : T → T → Bool
  pub sound : (x y : T) → equals x y ≡ true → x ≡ y
  pub complete : (x y : T) → x ≡ y → equals x y ≡ true

module _ {κ} {T : Type κ} ⦃comparable : Comparable T⦄ where
  infix 50 ◌==◌
  abbrev pub ◌==◌ : T → T → Bool
  x == y = comparable.equals x y

  pub equals_iff : (x y : T) → (x == y ≡ true) ↔ (x ≡ y)
  equals_iff x y = (comparable.sound x y, comparable.complete x y)

  -- A value equals itself under the test.
  pub equals_self : (x : T) → (x == x) ≡ true
  equals_self x = comparable.complete x x refl

abbrev pub same_number : ℕ → ℕ → Bool
same_number a b = elim (compare a b) [ Ordering.eq ↦ true | _ ↦ false ]

same_number_sound : (a b : ℕ) → same_number a b ≡ true → a ≡ b
same_number_sound a b h = ground arith

same_number_complete : (a b : ℕ) → a ≡ b → same_number a b ≡ true
same_number_complete a b h = ground arith

pub nat_beq_iff : (a b : ℕ) → (same_number a b ≡ true) ↔ (a ≡ b)
nat_beq_iff a b = (same_number_sound a b, same_number_complete a b)

abbrev pub same_text : String → String → Bool
same_text = text_test

pub string_beq_iff : (a b : String) → (same_text a b ≡ true) ↔ (a ≡ b)
string_beq_iff = text_test_iff

instance abbrev pub nat_eq : Comparable ℕ
nat_eq = record {
  equals = same_number;
  sound = λ a b. (nat_beq_iff a b).0;
  complete = λ a b. (nat_beq_iff a b).1;
}

instance abbrev pub string_eq : Comparable String
string_eq = record {
  equals = same_text;
  sound = λ a b. (string_beq_iff a b).0;
  complete = λ a b. (string_beq_iff a b).1;
}

-- A list of names holds the name.
abbrev pub In : String → List String → Type 0
In name [] = ⊥
In name (x ∷ xs) = (x ≡ name) ⊎ In name xs

unfoldable pub contains : String → List String → Bool
contains name [] = false
contains name (x ∷ xs) = x == name || contains name xs

pub contains_iff : (name : String) (xs : List String) → (contains name xs ≡ true) ↔ In name xs
unfolding contains
contains_iff name [] = (λ h. cc, λ h. absurd h)
contains_iff name (x ∷ xs) =
    let later = contains_iff name xs in
    let here = string_beq_iff x name in
    (
      (λ h. elim (Bool-cases (x == name)) [
        | inl e ↦ inl (here.0 e)
        | inr e ↦ inr (later.0 (ground arith))
      ]),
      λ h. elim h [ inl e ↦ ground (arith, here.1 e) | inr i ↦ ground (arith, later.1 i) ],
    )
