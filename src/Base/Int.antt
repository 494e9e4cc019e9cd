-- ===== src/Base/Int.antt =====
-- Go's `int` (64 bits) and `int32` as integers, with the wrap-around of conversions and sums.
use Prim.Native.Nat.{ℕ, suc, ◌+◌, ◌-◌, ◌%◌, ◌<◌}
use mathlib.Core.Path.{◌≡◌}
use mathlib.Core.Bool.{Bool, true}
use mathlib.Core.Logic.{◌↔◌}
use native.Mathlib.Omega.{arith}
use opi_nvidia_bridge.Base.Tests.{ltb, leb, ◌==◌, if◌then◌else◌}

-- `negsuc n` is -(n + 1).
pub data ℤ : Type 0 where
  pos : ℕ → ℤ
  negsuc : ℕ → ℤ

abbrev pub pos_part : ℤ → ℕ
pos_part (pos n) = n
pos_part (negsuc n) = 0

abbrev pub neg_part : ℤ → ℕ
neg_part (pos n) = 0
neg_part (negsuc n) = suc n

-- a - b, as an integer.
abbrev pub sub_ℕ : ℕ → ℕ → ℤ
sub_ℕ a b = if leb b a then pos (a - b) else negsuc (b - a - 1)

infixl 65 ◌+ℤ◌
abbrev pub ◌+ℤ◌ : ℤ → ℤ → ℤ
a +ℤ b = sub_ℕ (pos_part a + pos_part b) (neg_part a + neg_part b)

abbrev pub ltb_ℤ : ℤ → ℤ → Bool
ltb_ℤ a b = ltb (pos_part a + neg_part b) (pos_part b + neg_part a)

abbrev pub eqb_ℤ : ℤ → ℤ → Bool
eqb_ℤ a b = (pos_part a + neg_part b) == (pos_part b + neg_part a)

pub eqb_ℤ_iff : (a b : ℤ) → (eqb_ℤ a b ≡ true) ↔ (a ≡ b)
eqb_ℤ_iff a b = ground arith

-- The two's complement reading of the low 32 bits.
abbrev signed32 : ℕ → ℤ
signed32 n = if ltb n 0x80000000 then pos n else negsuc (0xffffffff - n)

-- The conversion `int32(z)` of an `int`: the low 32 bits of the two's complement.
unfoldable pub to_int32 : ℤ → ℤ
to_int32 (pos n) = signed32 (n % 0x100000000)
to_int32 (negsuc n) = signed32 (0xffffffff - n % 0x100000000)

abbrev signed64 : ℕ → ℤ
signed64 n = if ltb n 0x8000000000000000 then pos n else negsuc (0xffffffffffffffff - n)

-- What an `int` of 64 bits keeps of a result.
unfoldable pub to_int64 : ℤ → ℤ
to_int64 (pos n) = signed64 (n % 0x10000000000000000)
to_int64 (negsuc n) = signed64 (0xffffffffffffffff - n % 0x10000000000000000)

-- The values of an `int32`.
abbrev pub IsInt32 : ℤ → Type 0
IsInt32 (pos n) = n < 0x80000000
IsInt32 (negsuc n) = n < 0x80000000

pub to_int32-IsInt32 : (z : ℤ) → IsInt32 (to_int32 z)
unfolding to_int32
to_int32-IsInt32 (pos n) = ground arith
to_int32-IsInt32 (negsuc n) = ground arith

-- The values of an `int64`, and of an `int` here.
abbrev pub IsInt64 : ℤ → Type 0
IsInt64 (pos n) = n < 0x8000000000000000
IsInt64 (negsuc n) = n < 0x8000000000000000
