-- ===== src/Hart/Execute/Base/Operations.antt =====
-- The operations that `executeG` does on its operands, and its groups of arithmetic, branches, loads
-- and stores.
use revive.Common.{ℕ, Bool, true, false, ◌==◌, if◌then◌else◌, test_bits}
use revive.Hart.State.{read_gpr}
use revive.Hart.Encode.{rd, func3, rs1, rs2}
use revive.Hart.Immediate.{
  extend_imm_type_i, extend_imm_type_s, extend_imm_type_b, extend_zimm, extend_csr,
}
use revive.Hart.Alu.{
  op_add, op_sub, op_and, op_or, op_xor, op_slt, op_sltu, op_sll, op_srl, op_sra, op_mul, op_div,
  op_divu, op_rem, op_remu, op_muh, op_eq, op_ne, op_lt, op_ltu, op_ge, op_geu,
}
use revive.Hart.Exec.{Host, M, fail, ◌>>=◌, get_hart, modify, attempt}
use revive.Hart.Execute.{
  execute_alu, execute_branch, execute_csr, execute_ld, execute_st, execute_amo,
}

module _ {S : Type 0} (host : Host S) (encode : ℕ) where
  -- An operation on the two source registers.
  unfoldable pub register_op : (ℕ → ℕ → ℕ) → M S (Unit {0})
  register_op op =
      modify
        (λ s. execute_alu 4 (rd encode) (op (read_gpr s (rs1 encode)) (read_gpr s (rs2 encode))) s)

  -- An operation on a source register and the immediate of type I.
  unfoldable pub immediate_op : (ℕ → ℕ → ℕ) → M S (Unit {0})
  immediate_op op =
      modify
        (λ s. execute_alu 4 (rd encode) (op (read_gpr s (rs1 encode)) (extend_imm_type_i encode)) s)

  unfoldable pub branch_op : (ℕ → ℕ → Bool) → M S (Unit {0})
  branch_op op = modify (λ s.
      execute_branch 4 (op (read_gpr s (rs1 encode)) (read_gpr s (rs2 encode)))
        (extend_imm_type_b encode) s)

  unfoldable pub load_op : Bool → ℕ → M S (Unit {0})
  load_op sign size = do
    s ← get_hart
    execute_ld host 4 (rd encode) (read_gpr s (rs1 encode)) (extend_imm_type_i encode) sign size

  unfoldable pub store_op : ℕ → M S (Unit {0})
  store_op size = do
    s ← get_hart
    execute_st host 4 (read_gpr s (rs2 encode)) (read_gpr s (rs1 encode)) (extend_imm_type_s encode)
        size

  unfoldable pub amo_op : (ℕ → ℕ → ℕ) → (ℕ → ℕ → ℕ) → M S (Unit {0})
  amo_op op_ld op_st = execute_amo host 4 (rd encode) (rs1 encode) (rs2 encode) op_ld op_st 2

  -- CSRRW, CSRRS, CSRRC with a register, CSRRWI, CSRRSI, CSRRCI with an immediate
  unfoldable pub csr_register : Bool → Bool → (ℕ → ℕ → ℕ) → M S (Unit {0})
  csr_register rd_csr wr_csr op = attempt (λ s.
      execute_csr 4 (rd encode) (read_gpr s (rs1 encode)) (extend_csr encode) rd_csr wr_csr op s)

  unfoldable pub csr_immediate : Bool → Bool → (ℕ → ℕ → ℕ) → M S (Unit {0})
  csr_immediate rd_csr wr_csr op =
      attempt (execute_csr 4 (rd encode) (extend_zimm encode) (extend_csr encode) rd_csr wr_csr op)

  unfoldable pub execute_g_branch : M S (Unit {0})
  execute_g_branch =
      if func3 encode == 0b000
      then branch_op op_eq
      else if func3 encode == 0b001
      then branch_op op_ne
      else if func3 encode == 0b100
      then branch_op op_lt
      else if func3 encode == 0b101
      then branch_op op_ge
      else if func3 encode == 0b110
      then branch_op op_ltu
      else if func3 encode == 0b111
      then branch_op op_geu
      else fail

  unfoldable pub execute_g_load : M S (Unit {0})
  execute_g_load =
      if func3 encode == 0b000
      then load_op true 0
      else if func3 encode == 0b001
      then load_op true 1
      else if func3 encode == 0b010
      then load_op true 2
      else if func3 encode == 0b100
      then load_op false 0
      else if func3 encode == 0b101
      then load_op false 1
      else fail

  unfoldable pub execute_g_store : M S (Unit {0})
  execute_g_store =
      if func3 encode == 0b000
      then store_op 0
      else if func3 encode == 0b001
      then store_op 1
      else if func3 encode == 0b010
      then store_op 2
      else fail

  unfoldable pub execute_g_imm : M S (Unit {0})
  execute_g_imm =
      if func3 encode == 0b000
      then immediate_op op_add
      else if func3 encode == 0b010
      then immediate_op op_slt
      else if func3 encode == 0b011
      then immediate_op op_sltu
      else if func3 encode == 0b100
      then immediate_op op_xor
      else if func3 encode == 0b110
      then immediate_op op_or
      else if func3 encode == 0b111
      then immediate_op op_and
      else if func3 encode == 0b001
      then immediate_op (op_sll host.shift_count)
      else if func3 encode == 0b101
      then (if test_bits encode 0x40000000
          then immediate_op (op_sra host.shift_count)
          else immediate_op (op_srl host.shift_count))
      else fail

  unfoldable pub execute_g_muldiv : M S (Unit {0})
  execute_g_muldiv =
      if func3 encode == 0b000
      then register_op op_mul
      else if func3 encode == 0b001
      then register_op (λ a b. op_muh a true b true)
      else if func3 encode == 0b010
      then register_op (λ a b. op_muh a true b false)
      else if func3 encode == 0b011
      then register_op (λ a b. op_muh a false b false)
      else if func3 encode == 0b100
      then register_op op_div
      else if func3 encode == 0b101
      then register_op op_divu
      else if func3 encode == 0b110
      then register_op op_rem
      else if func3 encode == 0b111
      then register_op op_remu
      else fail

  unfoldable pub execute_g_reg : M S (Unit {0})
  execute_g_reg =
      if func3 encode == 0b000
      then (if test_bits encode 0x40000000 then register_op op_sub else register_op op_add)
      else if func3 encode == 0b010
      then register_op op_slt
      else if func3 encode == 0b011
      then register_op op_sltu
      else if func3 encode == 0b100
      then register_op op_xor
      else if func3 encode == 0b110
      then register_op op_or
      else if func3 encode == 0b111
      then register_op op_and
      else if func3 encode == 0b001
      then register_op (op_sll host.shift_count)
      else if func3 encode == 0b101
      then (if test_bits encode 0x40000000
          then register_op (op_sra host.shift_count)
          else register_op (op_srl host.shift_count))
      else fail
