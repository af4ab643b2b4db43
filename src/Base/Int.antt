-- ===== src/Base/Int.antt =====
-- Integers over the native numbers, as far as the source's isize goes.
use Prim.Native.Nat.{ℕ, suc, ◌+◌, ◌-◌, ◌%◌, ◌^◌, ◌<◌}
use mathlib.Core.Path.{◌≡◌}
use native.Mathlib.Omega.{arith}
use zpr_utils.Base.Tests.{leb, if◌then◌else◌}

-- `negsuc n` is -(n + 1).
pub data ℤ : Type 0 where
  pos : ℕ → ℤ
  negsuc : ℕ → ℤ

abbrev pub pos_part : ℤ → ℕ
pos_part (pos n) = n
pos_part (negsuc n) = 0

abbrev pub neg_part : ℤ → ℕ
neg_part (pos n) = 0
neg_part (negsuc n) = suc n

-- a - b, as an integer.
abbrev pub sub_ℕ : ℕ → ℕ → ℤ
sub_ℕ a b = if leb b a then pos (a - b) else negsuc (b - a - 1)

infixl 65 ◌+ℤ◌
unfoldable pub ◌+ℤ◌ : ℤ → ℤ → ℤ
a +ℤ b = sub_ℕ (pos_part a + pos_part b) (neg_part a + neg_part b)

-- `as usize`: the bit pattern of a 64-bit two's complement number.
unfoldable pub as_usize : ℤ → ℕ
as_usize (pos n) = n % 2 ^ 64
as_usize (negsuc n) = 2 ^ 64 - 1 - n % 2 ^ 64

-- An offset that was taken as a difference leads back.
pub as_usize-offset : (a b : ℕ) → a < 2 ^ 64 → as_usize (pos b +ℤ sub_ℕ a b) ≡ a
unfolding as_usize ◌+ℤ◌
as_usize-offset a b h = ground arith

pub as_usize-pos : (b : ℕ) → b < 2 ^ 64 → as_usize (pos b +ℤ pos 0) ≡ b
unfolding as_usize ◌+ℤ◌
as_usize-pos b h = ground arith
