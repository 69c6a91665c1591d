-- ===== src/Base/Int.antt =====
-- Signed integers over the native numbers, with the C comparisons.
use Prim.Native.Nat.{ℕ, suc, ◌+◌, ◌-◌, ◌%◌, ◌^◌, ◌≤◌, ◌<◌}
use mathlib.Core.Path.{◌≡◌}
use mathlib.Core.Bool.{Bool}
use native.Mathlib.Omega.{arith}
use sd_projeto.Base.Tests.{ltb, leb, ◌==◌, if◌then◌else◌}

-- `negsuc n` is -(n + 1).
pub data ℤ : Type 0 where
  pos : ℕ → ℤ
  negsuc : ℕ → ℤ

abbrev pub pos_part : ℤ → ℕ
pos_part (pos n) = n
pos_part (negsuc n) = 0

abbrev pub neg_part : ℤ → ℕ
neg_part (pos n) = 0
neg_part (negsuc n) = suc n

-- a - b, as an integer.
abbrev pub sub_ℕ : ℕ → ℕ → ℤ
sub_ℕ a b = if leb b a then pos (a - b) else negsuc (b - a - 1)

infixl 65 ◌+ℤ◌ ◌-ℤ◌
infix 50 ◌==ℤ◌ ◌≤ℤ◌
unfoldable pub ◌+ℤ◌ : ℤ → ℤ → ℤ
a +ℤ b = sub_ℕ (pos_part a + pos_part b) (neg_part a + neg_part b)

unfoldable pub ◌-ℤ◌ : ℤ → ℤ → ℤ
a -ℤ b = sub_ℕ (pos_part a + neg_part b) (neg_part a + pos_part b)

abbrev pub ◌≤ℤ◌ : ℤ → ℤ → Type 0
a ≤ℤ b = pos_part a + neg_part b ≤ pos_part b + neg_part a

abbrev pub ltb_ℤ : ℤ → ℤ → Bool
ltb_ℤ a b = ltb (pos_part a + neg_part b) (pos_part b + neg_part a)

abbrev pub leb_ℤ : ℤ → ℤ → Bool
leb_ℤ a b = leb (pos_part a + neg_part b) (pos_part b + neg_part a)

abbrev pub ◌==ℤ◌ : ℤ → ℤ → Bool
a ==ℤ b = pos_part a + neg_part b == pos_part b + neg_part a

-- The return value of a function that failed.
abbrev pub minus_one : ℤ
minus_one = negsuc 0

-- C's `%` by a positive number: the remainder has the sign of the dividend.
unfoldable pub rem : ℤ → ℕ → ℤ
rem (pos m) n = pos (m % n)
rem (negsuc m) n = sub_ℕ 0 (suc m % n)

unfoldable pub abs : ℤ → ℤ
abs (pos m) = pos m
abs (negsuc m) = pos (suc m)

-- The conversion of an unsigned value to `int`: its low 32 bits, read in two's complement.
unfoldable pub to_int : ℕ → ℤ
to_int w = let low = w % 2 ^ 32 in if ltb low (2 ^ 31) then pos low else negsuc (2 ^ 32 - low - 1)

-- An `int` converted to `unsigned long long` or `size_t`.
unfoldable pub to_unsigned : ℤ → ℕ
to_unsigned (pos m) = m % 2 ^ 64
to_unsigned (negsuc m) = 2 ^ 64 - 1 - m % 2 ^ 64

pub pos_add_one : (n : ℕ) → pos n +ℤ pos 1 ≡ pos (suc n)
unfolding ◌+ℤ◌
pos_add_one n = ground arith

pub pos_sub_one : (n : ℕ) → pos (suc n) -ℤ pos 1 ≡ pos n
unfolding ◌-ℤ◌
pos_sub_one n = ground arith

pub pos-+ℤ : (m n : ℕ) → pos m +ℤ pos n ≡ pos (m + n)
unfolding ◌+ℤ◌
pos-+ℤ m n = ground arith

-- The absolute value of a remainder is an index below the divisor.
pub abs-rem : (a : ℤ) (n : ℕ) → 0 < n → (i : ℕ) × (abs (rem a n) ≡ pos i) × (i < n)
unfolding abs rem
abs-rem (pos m) n h = (m % n, ground arith, omega arith)
abs-rem (negsuc m) n h = (suc m % n, ground arith, omega arith)

rem_negative : rem (negsuc 6) 3 ≡ negsuc 0
unfolding rem
rem_negative = mathlib.Core.Path.refl

to_int_wraps : to_int (2 ^ 32 - 5) ≡ negsuc 4
unfolding to_int
to_int_wraps = mathlib.Core.Path.refl
