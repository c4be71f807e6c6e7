-- ===== src/Lockstep.antt =====
-- The lockstep checker (common/utils/lockstep.c): two simulators' traces, line by line.
pub mod Differ
mod Examples
use revive.Common.{
  ℕ, zero, suc, ◌+◌, ◌-◌, ◌*◌, ◌/◌, ◌%◌, ◌^◌, ◌≤◌, ◌<◌, bit_and, bit_or, bit_xor, ◌≡◌, refl, sym,
  ap, ◌∙◌, ◌≢◌, ◌↔◌, ◌⊎◌, inl, inr, Bool, true, false, not, xor, ◌&&◌, ◌||◌, Option, none, some,
  List, [], ◌∷◌, ◌++◌, arith, ltb, leb, ◌==◌, ◌!=◌, between, if◌then◌else◌, ==_iff, Bool-cases, u8,
  u16, u32, u64, not32, not64, field, set_field, test_bits, Outcome, done, panicked, OnSome,
  on_none, on_some, OnSome-if, OnSome-test, OnSome-get, if_holds, OnDone, on_done, on_panicked,
  OnDone-get, OnDone-test, OnDone-if, length, get_elem?, set, get_elem?-set_self, get_elem?-set_ne,
  length-append, get_elem?-below, get_elem?-beyond, length-set,
}

-- The counts of `struct sim_driver`; its file is the list of the lines that are left.
pub record SimDriver (L : Type 0) : Type 0 where
  pub lines : List L
  pub num_instrs : ℕ
  pub last_num_instrs : ℕ

-- `reg` is none where the code has - 1.
pub record SimTrace : Type 0 where
  pub pc : ℕ
  pub reg : Option ℕ
  pub value : ℕ
  pub last_pc : ℕ

-- What is found of the address: no `PC` or no number where it should be, the end of the line, where
-- sscanf returns EOF, or the number.
pub data ScannedPc : Type 0 where
  no_pc end_of_line : ScannedPc
  read_pc : ℕ → ScannedPc

-- What strstr and sscanf find in a line: the address after `PC @`, and the three numbers after
-- `WB`.
pub record Scanner (L : Type 0) : Type 0 where
  pub scan_pc : L → ScannedPc
  pub scan_wb : L → Option (ℕ × ℕ × ℕ)

-- The trace of a write-back, whose number, register and value were scanned.
unfoldable pub write_back : SimTrace → ℕ → ℕ → ℕ → SimTrace
write_back t wb_valid wb_reg wb_value =
    let writes = wb_valid != 0 && wb_reg != 0 in
    record t { reg = if writes then some wb_reg else none; value = if writes then wb_valid else 0 }

-- The result is false where the code returns - 1; the trace keeps what was parsed before.
unfoldable pub parse_wb : {L : Type 0} → Scanner L → L → SimTrace → Bool × SimTrace
parse_wb scanner line t = elim (scanner.scan_wb line) [
  | none ↦ (false, t)
  | some (wb_valid, wb_reg, wb_value) ↦ (true, write_back t wb_valid wb_reg wb_value)
]

-- EOF is not 0, so that the test of the first sscanf lets it pass; the address stays.
unfoldable pub parse_line : {L : Type 0} → Scanner L → L → SimTrace → Bool × SimTrace
parse_line scanner line t = elim (scanner.scan_pc line) [
  | no_pc ↦ (false, t)
  | end_of_line ↦ parse_wb scanner line t
  | read_pc pc ↦ parse_wb scanner line (record t { pc = pc })
]

unfoldable pub parse_trace :
    {L : Type 0} → Scanner L → SimDriver L → SimTrace → Bool × SimDriver L × SimTrace
parse_trace scanner s t = elim s.lines [
  | [] ↦ (false, s, record t { last_pc = t.pc })
  | line ∷ lines ↦
      let (ok, t') = parse_line scanner line (record t { last_pc = t.pc }) in
      (
        ok,
        record s {
          lines = lines;
          num_instrs = if ok then u64 (s.num_instrs + 1) else s.num_instrs;
        },
        t',
      )
]

unfoldable pub same_reg : Option ℕ → Option ℕ → Bool
same_reg none none = true
same_reg none (some b) = false
same_reg (some a) none = false
same_reg (some a) (some b) = a == b

unfoldable pub diff_trace : SimTrace → SimTrace → Bool
diff_trace rtl sim =
    if rtl.pc != sim.pc
    then true
    else if not (same_reg rtl.reg sim.reg)
    then true
    else rtl.value != sim.value

-- What the body of `drive` does: the results of the two parses are not used.
unfoldable pub drive_step :
    {L : Type 0}
    → Scanner L
    → SimDriver L × SimTrace
    → SimDriver L × SimTrace
    → Bool × (SimDriver L × SimTrace) × (SimDriver L × SimTrace)
drive_step scanner rtl isa =
    let (_, rtl_driver, rtl_trace) = parse_trace scanner rtl.0 rtl.1 in
    let (_, isa_driver, isa_trace) = parse_trace scanner isa.0 isa.1 in
    (diff_trace rtl_trace isa_trace, (rtl_driver, rtl_trace), (isa_driver, isa_trace))

-- True when the driver timed out.
unfoldable pub check_timeout : {L : Type 0} → SimDriver L → Bool × SimDriver L
check_timeout s = (s.num_instrs == s.last_num_instrs, record s { last_num_instrs = s.num_instrs })
