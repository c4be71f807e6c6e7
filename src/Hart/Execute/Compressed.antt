-- ===== src/Hart/Execute/Compressed.antt =====
-- `executeQ0`, `executeQ1` and `executeQ2`, the instructions of two bytes.
pub mod Keeps
use revive.Common.{ℕ, ◌+◌, Bool, true, ◌&&◌, ◌==◌, ◌!=◌, if◌then◌else◌}
use revive.Hart.State.{TraceMachineState, read_gpr}
use revive.Hart.Encode.{crs2, crdrs1, cfunc1, cfunc3, crdrs2p, cfunc21, crdrs1p, cfunc22}
use revive.Hart.Immediate.{
  extend_imm_c_slli, extend_imm_c_lwsp, extend_imm_c_swsp, extend_imm_c_addi4spn, extend_imm_c_lwsw,
  extend_imm_c_addi, extend_imm_c_j, extend_imm_c_addi16sp, extend_imm_c_lui, extend_imm_c_srl,
  extend_imm_c_b,
}
use revive.Hart.Alu.{op_add, op_sub, op_and, op_or, op_xor, op_sll, op_srl, op_sra, op_eq, op_ne}
use revive.Hart.Exec.{Host, M, fail, ◌>>=◌, get_hart, modify}
use revive.Hart.Execute.{
  execute_alu, execute_jal, execute_branch, execute_ebreak, execute_ld, execute_st,
}

module _ {S : Type 0} (host : Host S) (encode : ℕ) where
  -- An operation of the register `dst` on itself and a word.
  unfoldable pub self_op : ℕ → (ℕ → ℕ → ℕ) → ℕ → M S (Unit {0})
  self_op dst op imm = modify (λ s. execute_alu 2 dst (op (read_gpr s dst) imm) s)

  -- The same on another register.
  unfoldable pub pair_op : (ℕ → ℕ → ℕ) → M S (Unit {0})
  pair_op op = modify (λ s.
      execute_alu 2 (crdrs1p encode + 8)
        (op (read_gpr s (crdrs1p encode + 8)) (read_gpr s (crdrs2p encode + 8))) s)

  -- `OP_ADD` of two words that the state gives.
  unfoldable pub add_op : ℕ → (TraceMachineState → ℕ) → (TraceMachineState → ℕ) → M S (Unit {0})
  add_op dst a b = modify (λ s. execute_alu 2 dst (op_add (a s) (b s)) s)

  unfoldable pub jal_op : ℕ → (TraceMachineState → ℕ) → ℕ → M S (Unit {0})
  jal_op dst base offset = modify (λ s. execute_jal 2 dst (base s) offset s)

  -- A test of the register `rs1` against 0.
  unfoldable pub branch_op : (ℕ → ℕ → Bool) → M S (Unit {0})
  branch_op op =
      modify
        (λ s. execute_branch 2 (op (read_gpr s (crdrs1p encode + 8)) 0) (extend_imm_c_b encode) s)

  -- A word at an offset from the register `base`.
  unfoldable pub load_op : ℕ → ℕ → ℕ → M S (Unit {0})
  load_op dst base offset = do s ← get_hart; execute_ld host 2 dst (read_gpr s base) offset true 2

  unfoldable pub store_op : ℕ → ℕ → ℕ → M S (Unit {0})
  store_op src base offset = do
    s ← get_hart
    execute_st host 2 (read_gpr s src) (read_gpr s base) offset 2

  unfoldable pub execute_q2 : M S (Unit {0})
  execute_q2 =
      if cfunc3 encode == 0b000
      then self_op (crdrs1 encode) (op_sll host.shift_count) (extend_imm_c_slli encode)
      else if cfunc3 encode == 0b010
      then load_op (crdrs1 encode) 2 (extend_imm_c_lwsp encode)
      else if cfunc3 encode == 0b100
      then (if crdrs1 encode != 0 && crs2 encode != 0
          then add_op (crdrs1 encode)
              (λ s. if cfunc1 encode != 0 then read_gpr s (crdrs1 encode) else 0)
              (λ s. read_gpr s (crs2 encode))
          else if crdrs1 encode != 0
          then jal_op (if cfunc1 encode != 0 then 1 else 0) (λ s. read_gpr s (crdrs1 encode)) 0
          else modify execute_ebreak)
      else if cfunc3 encode == 0b110
      then store_op (crs2 encode) 2 (extend_imm_c_swsp encode)
      else fail

  unfoldable pub execute_q1_alu : M S (Unit {0})
  execute_q1_alu =
      if cfunc22 encode == 0b00
      then self_op (crdrs1p encode + 8) (op_srl host.shift_count) (extend_imm_c_srl encode)
      else if cfunc22 encode == 0b01
      then self_op (crdrs1p encode + 8) (op_sra host.shift_count) (extend_imm_c_srl encode)
      else if cfunc22 encode == 0b10
      then self_op (crdrs1p encode + 8) op_and (extend_imm_c_addi encode)
      else if cfunc22 encode == 0b11
      then (if cfunc21 encode == 0b00
          then pair_op op_sub
          else if cfunc21 encode == 0b01
          then pair_op op_xor
          else if cfunc21 encode == 0b10
          then pair_op op_or
          else if cfunc21 encode == 0b11
          then pair_op op_and
          else fail)
      else fail

  unfoldable pub execute_q1 : M S (Unit {0})
  execute_q1 =
      if cfunc3 encode == 0b000
      then self_op (crdrs1 encode) op_add (extend_imm_c_addi encode)
      else if cfunc3 encode == 0b001
      then jal_op 1 (λ s. s.pc) (extend_imm_c_j encode)
      else if cfunc3 encode == 0b010
      then add_op (crdrs1 encode) (λ s. 0) (λ s. extend_imm_c_addi encode)
      else if cfunc3 encode == 0b011
      then (if crdrs1 encode == 2
          then self_op 2 op_add (extend_imm_c_addi16sp encode)
          else add_op (crdrs1 encode) (λ s. 0) (λ s. extend_imm_c_lui encode))
      else if cfunc3 encode == 0b100
      then execute_q1_alu
      else if cfunc3 encode == 0b101
      then jal_op 0 (λ s. s.pc) (extend_imm_c_j encode)
      else if cfunc3 encode == 0b110
      then branch_op op_eq
      else if cfunc3 encode == 0b111
      then branch_op op_ne
      else fail

  unfoldable pub execute_q0 : M S (Unit {0})
  execute_q0 =
      if cfunc3 encode == 0b000
      then add_op (crdrs2p encode + 8) (λ s. read_gpr s 2) (λ s. extend_imm_c_addi4spn encode)
      else if cfunc3 encode == 0b010
      then load_op (crdrs2p encode + 8) (crdrs1p encode + 8) (extend_imm_c_lwsw encode)
      else if cfunc3 encode == 0b110
      then store_op (crdrs2p encode + 8) (crdrs1p encode + 8) (extend_imm_c_lwsw encode)
      else fail
