-- ===== src/Hart/State.antt =====
-- `TraceMachineState`, the register file, the interrupt lines and `reset`.
use revive.Common.{ℕ, ◌+◌, ◌^◌, bit_and, bit_or, ◌==◌, ◌!=◌, if◌then◌else◌, u32, u64, not32}

-- The fields that the driver reads or writes. An array is a function of its index.
pub record TraceMachineState : Type 0 where
  pub pc : ℕ
  pub gpr : ℕ → ℕ
  pub isa : ℕ
  pub priv : ℕ
  pub status : ℕ
  pub inte : ℕ
  pub intp : ℕ
  pub inthw : ℕ
  pub trans : ℕ
  pub perf : ℕ → ℕ
  pub csr : ℕ → ℕ

-- `a[i] = v`
abbrev pub update : (ℕ → ℕ) → ℕ → ℕ → ℕ → ℕ
update a i v j = if i == j then v else a j

abbrev pub priv_user : ℕ
priv_user = 0

abbrev pub priv_supervisor : ℕ
priv_supervisor = 1

abbrev pub priv_machine : ℕ
priv_machine = 3

unfoldable pub read_gpr : TraceMachineState → ℕ → ℕ
read_gpr s idx = if idx != 0 then s.gpr idx else 0

unfoldable pub write_gpr : TraceMachineState → ℕ → ℕ → TraceMachineState
write_gpr s idx value = record s { gpr = update s.gpr idx (if idx != 0 then value else 0) }

-- What the devices call on a core.
pub data Signal : Type 0 where
  fire clear set_mtime : ℕ → Signal

unfoldable pub signal : TraceMachineState → Signal → TraceMachineState
signal s (fire type) = record s { inthw = bit_or s.inthw type }
signal s (clear type) = record s { inthw = bit_and s.inthw (not32 type) }
signal s (set_mtime value) = record s { perf = update s.perf 1 (u64 value) }

-- The registers of `csr` keep what they held: the code does not clear them.
unfoldable pub reset : TraceMachineState → ℕ → TraceMachineState
reset s entry = record s {
  pc = u32 entry;
  gpr = λ i. 0;
  isa = 2 ^ 0 + 2 ^ 2 + 2 ^ 4 + 2 ^ 6 + 2 ^ 8 + 2 ^ 13 + 2 ^ 12 + 2 ^ 18 + 2 ^ 20 + 2 ^ 30;
  priv = priv_machine;
  status = 0;
  inte = 0;
  intp = 0;
  inthw = 0;
  trans = 0;
  perf = λ i. 0;
}
