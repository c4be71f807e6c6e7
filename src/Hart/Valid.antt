-- ===== src/Hart/Valid.antt =====
-- The well-formedness of a hart: every register holds a word of its width, x0 holds 0, and the
-- level is one of the four.
use revive.Common.{
  ℕ, ◌*◌, ◌^◌, ◌≤◌, ◌<◌, ◌≡◌, OnSome, on_none, on_some, OnSome-if, OnSome-get, arith, some, bit_and,
  bit_or, not32, u64,
}
use revive.Common.Bits.{bit_and-le_left, bit_and-le_right, bit_or-lt}
use revive.Hart.State.{
  TraceMachineState, update, Signal, fire, clear, set_mtime, signal, reset, read_gpr, write_gpr,
}
use revive.Hart.Csr.{write_csr, write_csr_file, write_perf}

pub record IsValid (s : TraceMachineState) : Type 0 where
  pub pc_lt : s.pc < 2 ^ 32
  pub gpr_lt : (i : ℕ) → s.gpr i < 2 ^ 32
  pub gpr_zero : s.gpr 0 ≡ 0
  pub isa_lt : s.isa < 2 ^ 32
  pub priv_le : s.priv ≤ 3
  pub status_lt : s.status < 2 ^ 32
  pub inte_lt : s.inte < 2 ^ 32
  pub intp_lt : s.intp < 2 ^ 32
  pub inthw_lt : s.inthw < 2 ^ 32
  pub trans_lt : s.trans < 2 ^ 32
  pub perf_lt : (i : ℕ) → s.perf i < 2 ^ 64
  pub csr_lt : (i : ℕ) → s.csr i < 2 ^ 32

pub update-lt :
    (a : ℕ → ℕ) (i v bound : ℕ)
    → ((j : ℕ) → a j < bound)
    → v < bound
    → (j : ℕ) → update a i v j < bound
update-lt a i v bound h p j = ground (arith, h j)

-- A signal carries a word of the width of what it goes to.
abbrev pub SignalFits : Signal → Type 0
SignalFits (fire type) = type < 2 ^ 32
SignalFits (clear type) = type < 2 ^ 32
SignalFits (set_mtime value) = Unit

pub signal-IsValid :
    (s : TraceMachineState) (c : Signal) → IsValid s → SignalFits c → IsValid (signal s c)
unfolding signal
signal-IsValid s (fire type) v h = record {
  pc_lt = v.pc_lt;
  gpr_lt = v.gpr_lt;
  gpr_zero = v.gpr_zero;
  isa_lt = v.isa_lt;
  priv_le = v.priv_le;
  status_lt = v.status_lt;
  inte_lt = v.inte_lt;
  intp_lt = v.intp_lt;
  inthw_lt = bit_or-lt 32 s.inthw type v.inthw_lt h;
  trans_lt = v.trans_lt;
  perf_lt = v.perf_lt;
  csr_lt = v.csr_lt;
}
signal-IsValid s (clear type) v h = grind (arith, v, bit_and-le_left s.inthw (not32 type))
signal-IsValid s (set_mtime value) v h = grind (arith, v)

pub write_gpr-IsValid :
    (s : TraceMachineState) (idx value : ℕ)
    → IsValid s
    → value < 2 ^ 32
    → IsValid (write_gpr s idx value)
unfolding write_gpr
write_gpr-IsValid s idx value v h = grind (arith, v)

pub read_gpr-lt : (s : TraceMachineState) (idx : ℕ) → IsValid s → read_gpr s idx < 2 ^ 32
unfolding read_gpr
read_gpr-lt s idx v = ground (arith, v.gpr_lt idx)

pub reset-IsValid :
    (s : TraceMachineState) (entry : ℕ) → ((i : ℕ) → s.csr i < 2 ^ 32) → IsValid (reset s entry)
unfolding reset
reset-IsValid s entry h = grind arith

halves-lt : (a b : ℕ) → bit_or (u64 (a * 2 ^ 32)) (bit_and b 0xffffffff) < 2 ^ 64
halves-lt a b =
    bit_or-lt 64 (u64 (a * 2 ^ 32)) (bit_and b 0xffffffff) (omega arith)
      (omega (arith, bit_and-le_right b 0xffffffff))

low_half-lt : (a b : ℕ) → b < 2 ^ 32 → bit_or (bit_and a 0xffffffff00000000) b < 2 ^ 64
low_half-lt a b h =
    bit_or-lt 64 (bit_and a 0xffffffff00000000) b
      (omega (arith, bit_and-le_right a 0xffffffff00000000)) (omega arith)

write_perf-IsValid :
    (s : TraceMachineState) (csr value : ℕ)
    → IsValid s
    → value < 2 ^ 32
    → IsValid (write_perf s csr value)
unfolding write_perf
write_perf-IsValid s csr value v h =
    let full = s.perf (bit_and csr 0x1f) in
    grind (arith, v, halves-lt value full, low_half-lt full value h)

csr-IsValid :
    (s : TraceMachineState) (csr value : ℕ)
    → IsValid s
    → value < 2 ^ 32
    → IsValid (record s { csr = update s.csr csr value })
csr-IsValid s csr value v h = grind (arith, v)

module _ (s : TraceMachineState) (csr value : ℕ) (v : IsValid s) (h : value < 2 ^ 32) where
  isa-IsValid : IsValid (record s { isa = value })
  isa-IsValid = grind (arith, v)

  status-IsValid : IsValid (record s { status = value })
  status-IsValid = grind (arith, v)

  inte-IsValid : IsValid (record s { inte = value })
  inte-IsValid = grind (arith, v)

  intp-IsValid : IsValid (record s { intp = value })
  intp-IsValid = grind (arith, v)

  trans-IsValid : IsValid (record s { trans = value })
  trans-IsValid = grind (arith, v)

  ruleset register_writes = (
    on_none, on_some, OnSome-if, csr-IsValid, write_perf-IsValid, isa-IsValid, status-IsValid,
    inte-IsValid, intp-IsValid, trans-IsValid,
  )

  write_csr_file-IsValid : OnSome IsValid (write_csr_file s csr value)
  unfolding write_csr_file
  write_csr_file-IsValid = search register_writes depth 30

  write_csr_result : OnSome IsValid (write_csr s csr value)
  unfolding write_csr
  write_csr_result = search (register_writes, write_csr_file-IsValid) depth 30

-- A write of a word to any register that accepts it keeps the hart well formed.
pub write_csr-IsValid :
    (s : TraceMachineState) (csr value : ℕ) (t : TraceMachineState)
    → IsValid s
    → value < 2 ^ 32
    → write_csr s csr value ≡ some t
    → IsValid t
write_csr-IsValid s csr value t v h e = OnSome-get t (write_csr_result s csr value v h) e
