-- ===== src/Base/Words.antt =====
-- Machine words. An `i32` (an AMX cell) is its bit pattern, a number below 2 ^ 32, so
-- `cast_unsigned` and `cast_signed` are the identity; signed order compares the patterns after
-- their sign bit is flipped.
use Prim.Native.Nat.{ℕ, ◌+◌, ◌-◌, ◌%◌}
use mathlib.Core.Bool.{Bool}
use rust_samp.Base.Tests.{ltb, leb}

abbrev pub u32_mod : ℕ
u32_mod = 0x1_0000_0000

abbrev pub sign_bit : ℕ
sign_bit = 0x8000_0000

-- `wrapping_add` and `wrapping_sub` on 32 bits.
abbrev pub wrapping_add : ℕ → ℕ → ℕ
wrapping_add a b = (a + b) % u32_mod

abbrev pub wrapping_sub : ℕ → ℕ → ℕ
wrapping_sub a b = (a + u32_mod - b) % u32_mod

-- The pattern with its sign bit flipped: patterns so biased are ordered as the signed integers.
abbrev pub bias : ℕ → ℕ
bias w = (w + sign_bit) % u32_mod

-- `a < b` and `a ≤ b` on `i32`.
abbrev pub slt : ℕ → ℕ → Bool
slt a b = ltb (bias a) (bias b)

abbrev pub sle : ℕ → ℕ → Bool
sle a b = leb (bias a) (bias b)
