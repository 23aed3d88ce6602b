-- ===== src/Base/Int.antt =====
-- Signed integers over the native numbers, and Go's int64 arithmetic on them.
use billpiggy.Base.{
  ℕ, suc, ◌+◌, ◌-◌, ◌*◌, ◌/◌, ◌%◌, ◌^◌, ◌≤◌, ◌<◌, ◌≡◌, refl, Bool, true, false, ◌==◌, nat_eq, ◌↔◌,
  arith, ltb, leb, if◌then◌else◌,
}

-- `negsuc n` is -(n + 1).
pub data ℤ : Type 0 where
  pos : ℕ → ℤ
  negsuc : ℕ → ℤ

abbrev pub pos_part : ℤ → ℕ
pos_part (pos n) = n
pos_part (negsuc n) = 0

abbrev pub neg_part : ℤ → ℕ
neg_part (pos n) = 0
neg_part (negsuc n) = suc n

-- a - b, as an integer.
abbrev pub sub_ℕ : ℕ → ℕ → ℤ
sub_ℕ a b = if leb b a then pos (a - b) else negsuc (b - a - 1)

infixl 65 ◌+ℤ◌ ◌-ℤ◌
infixl 70 ◌*ℤ◌
infix 50 ◌≤ℤ◌
unfoldable pub ◌+ℤ◌ : ℤ → ℤ → ℤ
a +ℤ b = sub_ℕ (pos_part a + pos_part b) (neg_part a + neg_part b)

unfoldable pub ◌-ℤ◌ : ℤ → ℤ → ℤ
a -ℤ b = sub_ℕ (pos_part a + neg_part b) (neg_part a + pos_part b)

abbrev pub ◌≤ℤ◌ : ℤ → ℤ → Type 0
a ≤ℤ b = pos_part a + neg_part b ≤ pos_part b + neg_part a

abbrev pub ltb_ℤ : ℤ → ℤ → Bool
ltb_ℤ a b = ltb (pos_part a + neg_part b) (pos_part b + neg_part a)

abbrev pub leb_ℤ : ℤ → ℤ → Bool
leb_ℤ a b = leb (pos_part a + neg_part b) (pos_part b + neg_part a)

-- The operations stay shut where these are listed.
pub +ℤ_parts :
    (a b : ℤ)
    → pos_part (a +ℤ b) + neg_part a + neg_part b ≡ neg_part (a +ℤ b) + pos_part a + pos_part b
unfolding ◌+ℤ◌
+ℤ_parts a b = ground arith

pub -ℤ_parts :
    (a b : ℤ)
    → pos_part (a -ℤ b) + neg_part a + pos_part b ≡ neg_part (a -ℤ b) + pos_part a + neg_part b
unfolding ◌-ℤ◌
-ℤ_parts a b = ground arith

pub eq_of_parts : (a b : ℤ) → pos_part a + neg_part b ≡ pos_part b + neg_part a → a ≡ b
eq_of_parts a b h = ground arith

pub ruleset int_laws = (arith, +ℤ_parts, -ℤ_parts, eq_of_parts)

-- 2 ^ 63 and 2 ^ 64.
abbrev pub half_word : ℕ
half_word = 9223372036854775808

abbrev pub word : ℕ
word = 18446744073709551616

-- The bit pattern of an integer in 64 bits.
unfoldable pub to_word : ℤ → ℕ
to_word (pos n) = n % word
to_word (negsuc n) = word - 1 - n % word

-- A result of int64 arithmetic: the integer in range with the same bit pattern.
unfoldable pub wrap64 : ℤ → ℤ
unfolding to_word
wrap64 a = if ltb (to_word a) half_word then pos (to_word a) else negsuc (word - 1 - to_word a)

-- Go's int64 `+` and `*`.
unfoldable pub add64 : ℤ → ℤ → ℤ
add64 a b = wrap64 (a +ℤ b)

abbrev pub neg_ℕ : ℕ → ℤ
neg_ℕ n = sub_ℕ 0 n

unfoldable pub ◌*ℤ◌ : ℤ → ℤ → ℤ
pos m *ℤ pos n = pos (m * n)
pos m *ℤ negsuc n = neg_ℕ (m * suc n)
negsuc m *ℤ pos n = neg_ℕ (suc m * n)
negsuc m *ℤ negsuc n = pos (suc m * suc n)

unfoldable pub mul64 : ℤ → ℤ → ℤ
mul64 a b = wrap64 (a *ℤ b)

-- Go's int64 `/`, which rounds towards 0. The divisor is not 0.
unfoldable pub div64 : ℤ → ℤ → ℤ
div64 (pos m) (pos n) = pos (m / n)
div64 (pos m) (negsuc n) = neg_ℕ (m / suc n)
div64 (negsuc m) (pos n) = neg_ℕ (suc m / n)
div64 (negsuc m) (negsuc n) = wrap64 (pos (suc m / suc n))

abbrev pub InInt64 : ℤ → Type 0
InInt64 a = (pos_part a < half_word) × (neg_part a ≤ half_word)

pub wrap64_id : (a : ℤ) → InInt64 a → wrap64 a ≡ a
unfolding wrap64
wrap64_id (pos n) h = ground arith
wrap64_id (negsuc n) h = ground arith

pub wrap64-InInt64 : (a : ℤ) → InInt64 (wrap64 a)
unfolding wrap64
wrap64-InInt64 (pos n) = ground arith
wrap64-InInt64 (negsuc n) = ground arith

-- Bit patterns add and cancel modulo 2 ^ 64.
pub to_word-wrap64 : (a : ℤ) → to_word (wrap64 a) ≡ to_word a
unfolding wrap64 to_word
to_word-wrap64 (pos m) = ground arith
to_word-wrap64 (negsuc m) = ground arith

to_word-add : (a b : ℤ) → to_word (a +ℤ b) ≡ (to_word a + to_word b) % word
unfolding to_word ◌+ℤ◌
to_word-add (pos m) (pos n) = ground arith
to_word-add (pos m) (negsuc n) = ground arith
to_word-add (negsuc m) (pos n) = ground arith
to_word-add (negsuc m) (negsuc n) = ground arith

pub to_word-add64 : (a b : ℤ) → to_word (add64 a b) ≡ (to_word a + to_word b) % word
unfolding add64
to_word-add64 a b = rw (to_word-wrap64 (a +ℤ b)) (to_word-add a b)

pub to_word-mul64_one : (a : ℤ) → to_word (mul64 a (pos 1)) ≡ to_word a
unfolding mul64 to_word ◌*ℤ◌
to_word-mul64_one (pos m) = rw (to_word-wrap64 (pos m *ℤ pos 1)) (ground arith)
to_word-mul64_one (negsuc m) = rw (to_word-wrap64 (negsuc m *ℤ pos 1)) (ground arith)

pub to_word-mul64_minus : (a : ℤ) → (to_word (mul64 a (negsuc 0)) + to_word a) % word ≡ 0
unfolding mul64 to_word ◌*ℤ◌
to_word-mul64_minus (pos m) = rw (to_word-wrap64 (pos m *ℤ negsuc 0)) (ground arith)
to_word-mul64_minus (negsuc m) = rw (to_word-wrap64 (negsuc m *ℤ negsuc 0)) (ground arith)

pub to_word_bound : (a : ℤ) → to_word a < word
unfolding to_word
to_word_bound (pos m) = omega arith
to_word_bound (negsuc m) = omega arith

-- `==` on int64
abbrev pub same_ℤ : ℤ → ℤ → Bool
same_ℤ (pos m) (pos n) = m == n
same_ℤ (negsuc m) (negsuc n) = m == n
same_ℤ (pos m) (negsuc n) = false
same_ℤ (negsuc m) (pos n) = false

pub same_ℤ_iff : (a b : ℤ) → (same_ℤ a b ≡ true) ↔ (a ≡ b)
same_ℤ_iff (pos m) (pos n) = ground arith
same_ℤ_iff (negsuc m) (negsuc n) = ground arith
same_ℤ_iff (pos m) (negsuc n) = ground arith
same_ℤ_iff (negsuc m) (pos n) = ground arith
