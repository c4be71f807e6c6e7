-- ===== src/Common/Bits/Halves.antt =====
-- A 64-bit word whose low or high half is replaced.
use revive.Common.Words.{u64}
use Prim.Native.Nat.{ℕ, ◌+◌, ◌*◌, ◌/◌, ◌%◌, ◌^◌, ◌<◌, bit_and, bit_or}
use mathlib.Core.Path.{◌≡◌}
use native.Mathlib.Omega.{arith}
use revive.Common.Bits.{bit_and_low, bit_and_shifted, bit_or_fields, bit_or_comm}

pub low_half-set :
    (x v : ℕ)
    → x < 2 ^ 64
    → bit_or (bit_and x 0xffffffff00000000) (bit_and v 0xffffffff)
      ≡ x / 2 ^ 32 * 2 ^ 32 + v % 2 ^ 32
low_half-set x v h =
    let e : bit_and x 0xffffffff00000000 ≡ x / 2 ^ 32 * 2 ^ 32 =
      omega (arith, bit_and_shifted 32 x 0xffffffff, bit_and_low 32 (x / 2 ^ 32)) in
    rw (e, bit_and_low 32 v) (bit_or_fields 32 (x / 2 ^ 32) (v % 2 ^ 32) (omega arith))

pub high_half-set :
    (x v : ℕ) → bit_or (bit_and x 0xffffffff) (u64 (v * 2 ^ 32)) ≡ v % 2 ^ 32 * 2 ^ 32 + x % 2 ^ 32
high_half-set x v =
    let e : u64 (v * 2 ^ 32) ≡ v % 2 ^ 32 * 2 ^ 32 = omega arith in
    rw (bit_or_comm (bit_and x 0xffffffff) (u64 (v * 2 ^ 32)), e, bit_and_low 32 x)
      (bit_or_fields 32 (v % 2 ^ 32) (x % 2 ^ 32) (omega arith))
