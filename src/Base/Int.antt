-- ===== src/Base/Int.antt =====
-- Signed integers over the native numbers, for times before and after the epoch.
use Prim.Native.Nat.{ℕ, suc, ◌+◌, ◌-◌, ◌≤◌, ◌%◌, ◌^◌}
use mathlib.Core.Bool.{Bool}
use lanyard.Base.Tests.{ltb, leb, if◌then◌else◌}

-- `negsuc n` is -(n + 1).
pub data ℤ : Type 0 where
  pos : ℕ → ℤ
  negsuc : ℕ → ℤ

abbrev pub pos_part : ℤ → ℕ
pos_part (pos n) = n
pos_part (negsuc n) = 0

abbrev pub neg_part : ℤ → ℕ
neg_part (pos n) = 0
neg_part (negsuc n) = suc n

-- a - b, as an integer.
abbrev pub sub_ℕ : ℕ → ℕ → ℤ
sub_ℕ a b = if leb b a then pos (a - b) else negsuc (b - a - 1)

infix 50 ◌≤ℤ◌
abbrev pub ◌≤ℤ◌ : ℤ → ℤ → Type 0
a ≤ℤ b = pos_part a + neg_part b ≤ pos_part b + neg_part a

abbrev pub ltb_ℤ : ℤ → ℤ → Bool
ltb_ℤ a b = ltb (pos_part a + neg_part b) (pos_part b + neg_part a)

-- The int64 that the code's arithmetic makes of an integer: it wraps, in two's complement.
unfoldable pub int64 : ℤ → ℤ
int64 (pos n) = sub_ℕ ((n + 2 ^ 63) % 2 ^ 64) (2 ^ 63)
int64 (negsuc n) = sub_ℕ ((2 ^ 64 - 1 - n % 2 ^ 64 + 2 ^ 63) % 2 ^ 64) (2 ^ 63)

infixl 65 ◌+ℤ◌
unfoldable pub ◌+ℤ◌ : ℤ → ℤ → ℤ
a +ℤ b = sub_ℕ (pos_part a + pos_part b) (neg_part a + neg_part b)
