-- ===== src/Hart/Alu/Bounds.antt =====
-- The operators give 32-bit words.
use revive.Common.{ℕ, ◌/◌, ◌^◌, ◌<◌, Bool, true, false, arith, if◌then◌else◌, u64, not32}
use revive.Common.Int.{ℤ, pos, negsuc, word32, quot, rem, signed32}
use revive.Common.Bits.{bit_and-le_left, bit_or-lt, bit_xor-lt}
use native.Mathlib.Nat.{div-le_self}
use revive.Hart.Alu.{
  op_add, op_sub, op_and, op_or, op_xor, op_slt, op_sltu, op_sll, op_srl, op_sra, op_mul, op_div,
  op_divu, op_rem, op_remu, op_muh, op_amo_ok, op_amo_ll, op_amo_swap, op_amo_min, op_amo_minu,
  op_amo_max, op_amo_maxu, op_csr_swap, op_csr_set, op_csr_clear,
}

-- An operator that takes words to a word.
pub record OnWords (op : ℕ → ℕ → ℕ) : Type 0 where
  pub word : (a b : ℕ) → a < 2 ^ 32 → b < 2 ^ 32 → op a b < 2 ^ 32

pub word32-lt : (z : ℤ) → word32 z < 2 ^ 32
word32-lt (pos n) = omega arith
word32-lt (negsuc n) = omega arith

pub op_add-OnWords : OnWords op_add
unfolding op_add
op_add-OnWords = record { word = λ a b p q. omega arith }

pub op_sub-OnWords : OnWords op_sub
unfolding op_sub
op_sub-OnWords = record { word = λ a b p q. omega arith }

pub op_and-OnWords : OnWords op_and
unfolding op_and
op_and-OnWords = record { word = λ a b p q. omega (arith, bit_and-le_left a b) }

pub op_or-OnWords : OnWords op_or
unfolding op_or
op_or-OnWords = record { word = bit_or-lt 32 }

pub op_xor-OnWords : OnWords op_xor
unfolding op_xor
op_xor-OnWords = record { word = bit_xor-lt 32 }

pub op_slt-OnWords : OnWords op_slt
unfolding op_slt
op_slt-OnWords = record { word = λ a b p q. ground arith }

pub op_sltu-OnWords : OnWords op_sltu
unfolding op_sltu
op_sltu-OnWords = record { word = λ a b p q. ground arith }

pub op_sll-OnWords : (shift_count : ℕ → ℕ) → OnWords (op_sll shift_count)
unfolding op_sll
op_sll-OnWords shift_count = record { word = λ a b p q. omega arith }

pub op_srl-OnWords : (shift_count : ℕ → ℕ) → OnWords (op_srl shift_count)
unfolding op_srl
op_srl-OnWords shift_count = record {
  word = λ a b p q. omega (arith, div-le_self a (2 ^ shift_count b));
}

pub op_sra-OnWords : (shift_count : ℕ → ℕ) → OnWords (op_sra shift_count)
unfolding op_sra
op_sra-OnWords shift_count = record { word = λ a b p q. word32-lt _ }

pub op_mul-OnWords : OnWords op_mul
unfolding op_mul
op_mul-OnWords = record { word = λ a b p q. omega arith }

pub op_div-OnWords : OnWords op_div
unfolding op_div
op_div-OnWords = record {
  word = λ a b p q. ground (arith, word32-lt (quot (signed32 a) (signed32 b)));
}

pub op_divu-OnWords : OnWords op_divu
unfolding op_divu
op_divu-OnWords = record { word = λ a b p q. ground (arith, div-le_self a b) }

pub op_rem-OnWords : OnWords op_rem
unfolding op_rem
op_rem-OnWords = record {
  word = λ a b p q. ground (arith, word32-lt (rem (signed32 a) (signed32 b)));
}

pub op_remu-OnWords : OnWords op_remu
unfolding op_remu
op_remu-OnWords = record { word = λ a b p q. ground arith }

high_word-lt : (b : Bool) (x y : ℕ) → (if b then u64 x else u64 y) / 2 ^ 32 < 2 ^ 32
high_word-lt true x y = omega arith
high_word-lt false x y = omega arith

pub op_muh-OnWords : (sign1 sign2 : Bool) → OnWords (λ a b. op_muh a sign1 b sign2)
unfolding op_muh
op_muh-OnWords sign1 sign2 = record { word = λ a b p q. high_word-lt _ _ _ }

pub op_amo_ok-OnWords : OnWords op_amo_ok
unfolding op_amo_ok
op_amo_ok-OnWords = record { word = λ a b p q. omega arith }

pub op_amo_ll-OnWords : OnWords op_amo_ll
unfolding op_amo_ll
op_amo_ll-OnWords = record { word = λ a b p q. p }

pub op_amo_swap-OnWords : OnWords op_amo_swap
unfolding op_amo_swap
op_amo_swap-OnWords = record { word = λ a b p q. q }

pub op_amo_min-OnWords : OnWords op_amo_min
unfolding op_amo_min
op_amo_min-OnWords = record { word = λ a b p q. ground arith }

pub op_amo_minu-OnWords : OnWords op_amo_minu
unfolding op_amo_minu
op_amo_minu-OnWords = record { word = λ a b p q. ground arith }

pub op_amo_max-OnWords : OnWords op_amo_max
unfolding op_amo_max
op_amo_max-OnWords = record { word = λ a b p q. ground arith }

pub op_amo_maxu-OnWords : OnWords op_amo_maxu
unfolding op_amo_maxu
op_amo_maxu-OnWords = record { word = λ a b p q. ground arith }

pub op_csr_swap-OnWords : OnWords op_csr_swap
unfolding op_csr_swap
op_csr_swap-OnWords = record { word = λ a b p q. q }

pub op_csr_set-OnWords : OnWords op_csr_set
unfolding op_csr_set
op_csr_set-OnWords = record { word = bit_or-lt 32 }

pub op_csr_clear-OnWords : OnWords op_csr_clear
unfolding op_csr_clear
op_csr_clear-OnWords = record { word = λ a b p q. omega (arith, bit_and-le_left a (not32 b)) }

pub ruleset operators = (
  op_add-OnWords, op_sub-OnWords, op_and-OnWords, op_or-OnWords, op_xor-OnWords, op_slt-OnWords,
  op_sltu-OnWords, op_sll-OnWords, op_srl-OnWords, op_sra-OnWords, op_mul-OnWords, op_div-OnWords,
  op_divu-OnWords, op_rem-OnWords, op_remu-OnWords, op_muh-OnWords, op_amo_ok-OnWords,
  op_amo_ll-OnWords, op_amo_swap-OnWords, op_amo_min-OnWords, op_amo_minu-OnWords,
  op_amo_max-OnWords, op_amo_maxu-OnWords, op_csr_swap-OnWords, op_csr_set-OnWords,
  op_csr_clear-OnWords,
)
