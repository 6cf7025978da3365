-- ===== src/Base/Int.antt =====
-- Integers over the native numbers, and Go's 64-bit wrap-around and saturation.
use Prim.Native.Nat.{ℕ, ◌+◌, ◌-◌, ◌/◌, ◌≤◌, suc}
use mathlib.Core.Bool.{Bool}
use ozone_oidc_proxy.Base.Tests.{ltb, leb, if◌then◌else◌}

-- `negsuc n` is -(n + 1).
pub data ℤ : Type 0 where
  pos : ℕ → ℤ
  negsuc : ℕ → ℤ

abbrev pub pos_part : ℤ → ℕ
pos_part (pos n) = n
pos_part (negsuc n) = 0

abbrev pub neg_part : ℤ → ℕ
neg_part (pos n) = 0
neg_part (negsuc n) = suc n

-- a - b, as an integer.
abbrev pub sub_ℕ : ℕ → ℕ → ℤ
sub_ℕ a b = if leb b a then pos (a - b) else negsuc (b - a - 1)

infix 50 ◌≤ℤ◌
abbrev pub ◌≤ℤ◌ : ℤ → ℤ → Type 0
a ≤ℤ b = pos_part a + neg_part b ≤ pos_part b + neg_part a

-- `a < b`
abbrev pub lt_ℤ : ℤ → ℤ → Bool
lt_ℤ a b = ltb (pos_part a + neg_part b) (pos_part b + neg_part a)

abbrev pub neg : ℤ → ℤ
neg a = sub_ℕ (neg_part a) (pos_part a)

-- The largest `int64`.
abbrev pub max_int64 : ℕ
max_int64 = 9223372036854775807

abbrev pub two_64 : ℕ
two_64 = 18446744073709551616

-- Integer division by a positive number, which truncates towards zero.
abbrev pub quotient : ℤ → ℕ → ℤ
quotient (pos a) b = pos (a / b)
quotient (negsuc a) b = neg (pos (suc a / b))
