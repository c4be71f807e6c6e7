-- ===== src/Common/Words.antt =====
-- Machine words as native numbers: wrap by `%`, bit-fields by `/` and `%`.
use Prim.Native.Nat.{ℕ, ◌+◌, ◌-◌, ◌*◌, ◌/◌, ◌%◌, ◌^◌, bit_and}
use mathlib.Core.Bool.{Bool}
use revive.Common.Tests.{◌!=◌}

abbrev pub u8 : ℕ → ℕ
u8 n = n % 2 ^ 8

abbrev pub u16 : ℕ → ℕ
u16 n = n % 2 ^ 16

abbrev pub u32 : ℕ → ℕ
u32 n = n % 2 ^ 32

abbrev pub u64 : ℕ → ℕ
u64 n = n % 2 ^ 64

-- `~x` of a 32-bit and of a 64-bit word
abbrev pub not32 : ℕ → ℕ
not32 x = 2 ^ 32 - 1 - x

abbrev pub not64 : ℕ → ℕ
not64 x = 2 ^ 64 - 1 - x

-- The bit-field of `width` bits at bit `lo`, the lowest field first.
abbrev pub field : ℕ → ℕ → ℕ → ℕ
field lo width x = x / 2 ^ lo % 2 ^ width

-- An assignment to that bit-field keeps the low bits of the value.
unfoldable pub set_field : ℕ → ℕ → ℕ → ℕ → ℕ
set_field lo width v x =
    x / 2 ^ (lo + width) * 2 ^ (lo + width) + v % 2 ^ width * 2 ^ lo + x % 2 ^ lo

-- a mask test, `x & mask`
abbrev pub test_bits : ℕ → ℕ → Bool
test_bits x mask = bit_and x mask != 0
