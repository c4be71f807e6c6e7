-- ===== src/Hart/Execute/Base.antt =====
-- `executeG`, the instructions of four bytes. `EXECUTE_UNKNOWN` is a panic.
pub mod Operations
pub mod Keeps
use revive.Common.{ℕ, Bool, true, false, not, ◌&&◌, ◌==◌, ◌!=◌, if◌then◌else◌, test_bits}
use revive.Hart.State.{read_gpr}
use revive.Hart.Encode.{opcode, rd, func3, rs1, rs2, func7, i_imm110, amo_func5}
use revive.Hart.Immediate.{
  extend_imm_type_i, extend_imm_type_s, extend_imm_type_b, extend_imm_type_u, extend_imm_type_j,
  extend_zimm, extend_csr,
}
use revive.Hart.Alu.{
  op_add, op_sub, op_and, op_or, op_xor, op_slt, op_sltu, op_sll, op_srl, op_sra, op_mul, op_div,
  op_divu, op_rem, op_remu, op_muh, op_eq, op_ne, op_lt, op_ltu, op_ge, op_geu, op_amo_ok,
  op_amo_ll, op_amo_swap, op_amo_min, op_amo_minu, op_amo_max, op_amo_maxu, op_csr_swap, op_csr_set,
  op_csr_clear,
}
use revive.Hart.Exec.{Host, M, pure, fail, ◌>>=◌, get_hart, modify, attempt}
use revive.Hart.Execute.{
  execute_alu, execute_jal, execute_branch, execute_fence, execute_wfi, execute_ecall,
  execute_ebreak, execute_ret, execute_csr, execute_ld, execute_st, execute_amo,
}
use revive.Hart.Execute.Base.Operations.{
  register_op, immediate_op, branch_op, load_op, store_op, amo_op, csr_register, csr_immediate,
  execute_g_branch, execute_g_load, execute_g_store, execute_g_imm, execute_g_muldiv, execute_g_reg,
}

module _ {S : Type 0} (host : Host S) (encode : ℕ) where
  unfoldable pub execute_g_amo : M S (Unit {0})
  execute_g_amo =
      if not (func3 encode == 0b010)
      then fail
      else if amo_func5 encode == 0b00010
      then amo_op host encode op_amo_ll op_amo_ll
      else if amo_func5 encode == 0b00011
      then amo_op host encode op_amo_ok op_amo_swap
      else if amo_func5 encode == 0b00001
      then amo_op host encode op_amo_ll op_amo_swap
      else if amo_func5 encode == 0b00000
      then amo_op host encode op_amo_ll op_add
      else if amo_func5 encode == 0b00100
      then amo_op host encode op_amo_ll op_xor
      else if amo_func5 encode == 0b01100
      then amo_op host encode op_amo_ll op_and
      else if amo_func5 encode == 0b01000
      then amo_op host encode op_amo_ll op_or
      else if amo_func5 encode == 0b10000
      then amo_op host encode op_amo_ll op_amo_min
      else if amo_func5 encode == 0b11000
      then amo_op host encode op_amo_ll op_amo_minu
      else if amo_func5 encode == 0b10100
      then amo_op host encode op_amo_ll op_amo_max
      else if amo_func5 encode == 0b11100
      then amo_op host encode op_amo_ll op_amo_maxu
      else fail

  unfoldable pub execute_g_priv : M S (Unit {0})
  execute_g_priv =
      if func7 encode == 0b0001001
      then modify (execute_fence 4)
      else if rs2 encode == 0b00101 && func7 encode == 0b0001000
      then modify (execute_wfi 4)
      else if rs2 encode == 0b00010
      then (if func7 encode == 0b0000000
          then attempt (execute_ret 0)
          else if func7 encode == 0b0001000
          then attempt (execute_ret 1)
          else if func7 encode == 0b0011000
          then attempt (execute_ret 3)
          else fail)
      else if i_imm110 encode == 0
      then modify execute_ecall
      else if i_imm110 encode == 1
      then modify execute_ebreak
      else fail

  unfoldable pub execute_g_system : M S (Unit {0})
  execute_g_system =
      if func3 encode == 0b000
      then execute_g_priv
      else if func3 encode == 0b001
      then csr_register host encode (rd encode != 0) true op_csr_swap
      else if func3 encode == 0b010
      then csr_register host encode true (rs1 encode != 0) op_csr_set
      else if func3 encode == 0b011
      then csr_register host encode true (rs1 encode != 0) op_csr_clear
      else if func3 encode == 0b101
      then csr_immediate host encode (rd encode != 0) true op_csr_swap
      else if func3 encode == 0b110
      then csr_immediate host encode true (rs1 encode != 0) op_csr_set
      else if func3 encode == 0b111
      then csr_immediate host encode true (rs1 encode != 0) op_csr_clear
      else fail

  unfoldable pub execute_g_fence : M S (Unit {0})
  execute_g_fence =
      if func3 encode == 0b000
      then modify (execute_fence 4)
      else if func3 encode == 0b001
      then modify (execute_fence 4)
      else fail

  unfoldable pub execute_g_lui : M S (Unit {0})
  execute_g_lui = modify (λ s. execute_alu 4 (rd encode) (op_add 0 (extend_imm_type_u encode)) s)

  unfoldable pub execute_g_auipc : M S (Unit {0})
  execute_g_auipc =
      modify (λ s. execute_alu 4 (rd encode) (op_add s.pc (extend_imm_type_u encode)) s)

  unfoldable pub execute_g_jal : M S (Unit {0})
  execute_g_jal = modify (λ s. execute_jal 4 (rd encode) s.pc (extend_imm_type_j encode) s)

  unfoldable pub execute_g_jalr : M S (Unit {0})
  execute_g_jalr =
      modify (λ s. execute_jal 4 (rd encode) (read_gpr s (rs1 encode)) (extend_imm_type_i encode) s)

  -- The switch on the opcode has no default: an opcode that it does not name does nothing.
  unfoldable pub execute_g : M S (Unit {0})
  execute_g =
      if opcode encode == 0b0110111
      then execute_g_lui
      else if opcode encode == 0b0010111
      then execute_g_auipc
      else if opcode encode == 0b1101111
      then execute_g_jal
      else if opcode encode == 0b1100111
      then execute_g_jalr
      else if opcode encode == 0b1100011
      then execute_g_branch host encode
      else if opcode encode == 0b0000011
      then execute_g_load host encode
      else if opcode encode == 0b0100011
      then execute_g_store host encode
      else if opcode encode == 0b0010011
      then execute_g_imm host encode
      else if opcode encode == 0b0110011
      then (if func7 encode == 0b0000001
          then execute_g_muldiv host encode
          else execute_g_reg host encode)
      else if opcode encode == 0b0101111
      then execute_g_amo
      else if opcode encode == 0b0001111
      then execute_g_fence
      else if opcode encode == 0b1110011
      then execute_g_system
      else pure tt
