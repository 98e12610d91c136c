-- ===== src/Prelude/Int.antt =====
-- Signed integers over the native numbers, and `isize`: a bit pattern of 64 bits with the integer
-- that it stands for.
use Prim.Native.Nat.{ℕ, suc, ◌+◌, ◌-◌, ◌*◌, ◌%◌, ◌^◌, ◌<◌}
use mathlib.Core.Path.{◌≡◌, refl}
use mathlib.Core.Bool.{Bool}
use native.Mathlib.Omega.{arith}
use atom_box.Prelude.Tests.{ltb, leb, if◌then◌else◌}

-- `negsuc n` is -(n + 1).
pub data ℤ : Type 0 where
  pos : ℕ → ℤ
  negsuc : ℕ → ℤ

abbrev pub pos_part : ℤ → ℕ
pos_part (pos n) = n
pos_part (negsuc n) = 0

abbrev pub neg_part : ℤ → ℕ
neg_part (pos n) = 0
neg_part (negsuc n) = suc n

abbrev pub sub_ℕ : ℕ → ℕ → ℤ
sub_ℕ a b = if leb b a then pos (a - b) else negsuc (b - a - 1)

infixl 70 ◌*ℤ◌
unfoldable pub ◌*ℤ◌ : ℤ → ℤ → ℤ
a *ℤ b =
    sub_ℕ (pos_part a * pos_part b + neg_part a * neg_part b)
      (pos_part a * neg_part b + neg_part a * pos_part b)

abbrev pub leb_ℤ : ℤ → ℤ → Bool
leb_ℤ a b = leb (pos_part a + neg_part b) (pos_part b + neg_part a)

abbrev pub word : ℕ
word = 2 ^ 64

abbrev half_word : ℕ
half_word = 2 ^ 63

-- The bits of an integer, and the `isize` that 64 bits stand for.
unfoldable pub to_bits : ℤ → ℕ
to_bits a = (pos_part a + word - neg_part a % word) % word

unfoldable pub of_bits : ℕ → ℤ
of_bits n = if ltb n half_word then pos n else negsuc (word - n - 1)

-- `a * b` on `isize`, which wraps
unfoldable pub isize_mul : ℤ → ℤ → ℤ
unfolding ◌*ℤ◌ to_bits of_bits
isize_mul a b = of_bits (to_bits (a *ℤ b))

pub of_bits-small : (n : ℕ) → n < 2 ^ 63 → of_bits n ≡ pos n
unfolding of_bits
of_bits-small n h = ground arith

pub isize_mul-pos : (m n : ℕ) → m * n < 2 ^ 63 → isize_mul (pos m) (pos n) ≡ pos (m * n)
unfolding isize_mul
isize_mul-pos m n h = ground arith

isize_mul_wraps : isize_mul (pos (2 ^ 62)) (pos 2) ≡ negsuc (2 ^ 63 - 1)
unfolding isize_mul
isize_mul_wraps = refl
