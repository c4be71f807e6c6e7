-- ===== src/Hart/Execute.antt =====
-- The bodies of the instructions, `EXECUTE_…`. `len` is `instr_len`, 4 or 2.
pub mod Base
pub mod Compressed
pub mod Keeps
use revive.Common.{
  ℕ, zero, suc, ◌+◌, ◌-◌, ◌*◌, ◌/◌, ◌%◌, ◌^◌, ◌≤◌, ◌<◌, bit_and, bit_or, bit_xor, ◌≡◌, refl, sym,
  ap, ◌∙◌, ◌≢◌, ◌↔◌, ◌⊎◌, inl, inr, Bool, true, false, not, xor, ◌&&◌, ◌||◌, Option, none, some,
  List, [], ◌∷◌, ◌++◌, arith, ltb, leb, ◌==◌, ◌!=◌, between, if◌then◌else◌, ==_iff, Bool-cases, u8,
  u16, u32, u64, not32, not64, field, set_field, test_bits, Outcome, done, panicked, OnSome,
  on_none, on_some, OnSome-if, OnSome-test, OnSome-get, if_holds, OnDone, on_done, on_panicked,
  OnDone-get, OnDone-test,
}
use revive.Hart.Status.{isa_c, tsr}
use revive.Hart.State.{TraceMachineState, read_gpr, write_gpr, priv_supervisor}
use revive.Hart.Csr.{read_csr, write_csr}
use revive.Hart.Trap.{except_enter, trap_return}
use revive.Hart.Exec.{
  Host, M, Access, granted, faulted, pure, ◌>>=◌, ◌>>◌, get_hart, modify, attempt,
}
use revive.Hart.Translate.{translate_vaddr}
use revive.Hart.Access.{
  instr_addr_misalign, breakpoint, store_addr_misalign, store_page_fault, store_access_fault,
  ecall_from_u, for_both, misaligned, execute_g_ld, execute_g_st,
}

-- `state.pc = state.pc + instr_len`
abbrev pub advance : ℕ → TraceMachineState → TraceMachineState
advance len s = record s { pc = u32 (s.pc + len) }

-- `EXECUTE_ALU` and `EXECUTE_MUH`, `value` being what the operator gives
unfoldable pub execute_alu : ℕ → ℕ → ℕ → TraceMachineState → TraceMachineState
execute_alu len dst value s = advance len (write_gpr s dst value)

unfoldable pub execute_jal : ℕ → ℕ → ℕ → ℕ → TraceMachineState → TraceMachineState
execute_jal len dst base offset s =
    let target = bit_and (u32 (base + offset)) (not32 0x1) in
    let link = u32 (s.pc + len) in
    if not (isa_c s.isa != 0) && test_bits target 0x3
    then except_enter s instr_addr_misalign target
    else record (write_gpr s dst link) { pc = target }

unfoldable pub execute_branch : ℕ → Bool → ℕ → TraceMachineState → TraceMachineState
execute_branch len taken offset s =
    let target = if taken then u32 (s.pc + offset) else u32 (s.pc + len) in
    if not (isa_c s.isa != 0) && test_bits target 0x3
    then except_enter s instr_addr_misalign target
    else record s { pc = target }

unfoldable pub execute_fence : ℕ → TraceMachineState → TraceMachineState
execute_fence len s = advance len s

unfoldable pub execute_wfi : ℕ → TraceMachineState → TraceMachineState
execute_wfi len s = advance len s

unfoldable pub execute_ecall : TraceMachineState → TraceMachineState
execute_ecall s = except_enter s (ecall_from_u + s.priv) 0

unfoldable pub execute_ebreak : TraceMachineState → TraceMachineState
execute_ebreak s = except_enter s breakpoint s.pc

unfoldable pub execute_ret : ℕ → TraceMachineState → Outcome TraceMachineState
execute_ret from s =
    if ltb s.priv from
    then panicked
    else if from == priv_supervisor && tsr s.status != 0
    then panicked
    else done (trap_return s from)

-- The write of `EXECUTE_CSR`, and the step to the next instruction.
unfoldable pub csr_write : ℕ → ℕ → Bool → ℕ → TraceMachineState → Outcome TraceMachineState
csr_write len csr false stval s = done (advance len s)
csr_write len csr true stval s = elim (write_csr s csr stval) [
  | some t ↦ done (advance len t)
  | none ↦ panicked
]

unfoldable pub csr_loaded :
    ℕ → ℕ → ℕ → ℕ → Bool → (ℕ → ℕ → ℕ) → TraceMachineState → Option ℕ → Outcome TraceMachineState
unfolding csr_write
csr_loaded len dst srcval csr wr_csr op s none = panicked
csr_loaded len dst srcval csr wr_csr op s (some ldval) =
    csr_write len csr wr_csr (op ldval srcval) (write_gpr s dst ldval)

unfoldable pub execute_csr :
    ℕ → ℕ → ℕ → ℕ → Bool → Bool → (ℕ → ℕ → ℕ) → TraceMachineState → Outcome TraceMachineState
unfolding csr_loaded
execute_csr len dst srcval csr rd_csr wr_csr op s =
    csr_loaded len dst srcval csr wr_csr op s (if rd_csr then read_csr s csr else some 0)

module _ {S : Type 0} (host : Host S) where
  unfoldable pub end_ld : ℕ → ℕ → ℕ → Access → M S (Unit {0})
  end_ld len dst addr (faulted fault) = modify (λ s. except_enter s fault addr)
  end_ld len dst addr (granted value) = modify (λ s. advance len (write_gpr s dst value))

  unfoldable pub execute_ld : ℕ → ℕ → ℕ → ℕ → Bool → ℕ → M S (Unit {0})
  unfolding end_ld
  execute_ld len dst base offset sign size = do
    let addr = u32 (base + offset)
    result ← execute_g_ld host addr sign size
    end_ld len dst addr result

  unfoldable pub end_st : ℕ → ℕ → Option ℕ → M S (Unit {0})
  end_st len addr (some fault) = modify (λ s. except_enter s fault addr)
  end_st len addr none = modify (advance len)

  unfoldable pub execute_st : ℕ → ℕ → ℕ → ℕ → ℕ → M S (Unit {0})
  unfolding end_st
  execute_st len value base offset size = do
    let addr = u32 (base + offset)
    result ← execute_g_st host addr size value
    end_st len addr result

  -- The fault's address is `readGPR(rs1)` as it reads then, after a write of `dst`.
  unfoldable pub amo_fault : ℕ → ℕ → M S (Unit {0})
  amo_fault rs1 fault = modify (λ s. except_enter s fault (read_gpr s rs1))

  unfoldable pub amo_stored : ℕ → ℕ → Option ℕ → M S (Unit {0})
  unfolding amo_fault
  amo_stored len rs1 (some fault) = amo_fault rs1 fault
  amo_stored len rs1 none = modify (advance len)

  unfoldable pub amo_loaded :
      ℕ → ℕ → ℕ → ℕ → ℕ → (ℕ → ℕ → ℕ) → (ℕ → ℕ → ℕ) → ℕ → Access → M S (Unit {0})
  unfolding amo_stored amo_fault
  amo_loaded len dst rs1 addr rs2val op_ld op_st size (faulted fault) = amo_fault rs1 fault
  amo_loaded len dst rs1 addr rs2val op_ld op_st size (granted value) = do
    let ldval = op_ld value rs2val
    modify (λ s. write_gpr s dst ldval)
    result ← execute_g_st host addr size (op_st ldval rs2val)
    amo_stored len rs1 result

  unfoldable pub amo_translated :
      ℕ → ℕ → ℕ → ℕ → ℕ → (ℕ → ℕ → ℕ) → (ℕ → ℕ → ℕ) → ℕ → Access → M S (Unit {0})
  unfolding amo_loaded amo_fault
  amo_translated len dst rs1 addr rs2val op_ld op_st size (faulted fault) = amo_fault rs1 fault
  amo_translated len dst rs1 addr rs2val op_ld op_st size (granted paddr) = do
    result ← execute_g_ld host addr false size
    amo_loaded len dst rs1 addr rs2val op_ld op_st size result

  -- `rs1` and `rs2` are the numbers of the registers of the address and of the operand.
  unfoldable pub execute_amo : ℕ → ℕ → ℕ → ℕ → (ℕ → ℕ → ℕ) → (ℕ → ℕ → ℕ) → ℕ → M S (Unit {0})
  unfolding amo_translated amo_fault
  execute_amo len dst rs1 rs2 op_ld op_st size = do
    s ← get_hart
    let addr = read_gpr s rs1
    if misaligned addr size then amo_fault rs1 store_addr_misalign else (do
      result ← translate_vaddr host addr for_both store_page_fault store_access_fault
      amo_translated len dst rs1 addr (read_gpr s rs2) op_ld op_st size result)
