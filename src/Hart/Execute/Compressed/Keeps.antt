-- ===== src/Hart/Execute/Compressed/Keeps.antt =====
-- The instructions of two bytes keep a hart well formed.
use revive.Common.{ℕ, ◌^◌, ◌<◌, Bool, true, arith, ◌!=◌, if◌then◌else◌}
use revive.Hart.State.{TraceMachineState, read_gpr}
use revive.Hart.Valid.{IsValid, read_gpr-lt}
use revive.Hart.Immediate.Bounds.{
  extend_imm_c_slli-lt, extend_imm_c_addi4spn-lt, extend_imm_c_addi-lt, extend_imm_c_addi16sp-lt,
  extend_imm_c_lui-lt, extend_imm_c_srl-lt,
}
use revive.Hart.Encode.{crdrs1, cfunc1}
use revive.Hart.Alu.Bounds.{OnWords, operators, op_add-OnWords, op_sll-OnWords}
use revive.Hart.Exec.{Host}
use revive.Hart.Exec.Keeps.{
  Keeps, Any, IsHost, Keeps-fail, Keeps-bind, Keeps-if, Keeps-get_hart, Keeps-modify,
}
use revive.Hart.Execute.Keeps.{
  execute_alu-IsValid, execute_jal-IsValid, execute_branch-IsValid, execute_ebreak-IsValid,
}
use revive.Hart.Execute.Keeps.Memory.{execute_ld-Keeps, execute_st-Keeps}
use revive.Hart.Execute.Compressed.{
  self_op, pair_op, add_op, jal_op, branch_op, load_op, store_op, execute_q0, execute_q1,
  execute_q1_alu, execute_q2,
}

module _ {S : Type 0} (host : Host S) (encode : ℕ) where
  self_op-Keeps :
      (dst : ℕ) (op : ℕ → ℕ → ℕ) (imm : ℕ)
      → OnWords op
      → imm < 2 ^ 32
      → Keeps Any (self_op host encode dst op imm)
  unfolding self_op
  self_op-Keeps dst op imm good h =
      Keeps-modify _
        (λ s v. execute_alu-IsValid 2 dst _ s v (good.word _ imm (read_gpr-lt s dst v) h))

  pair_op-Keeps : (op : ℕ → ℕ → ℕ) → OnWords op → Keeps Any (pair_op host encode op)
  unfolding pair_op
  pair_op-Keeps op good =
      Keeps-modify _
        λ s v. execute_alu-IsValid 2 _ _ s v (good.word _ _ (read_gpr-lt s _ v) (read_gpr-lt s _ v))

  add_op-Keeps :
      (dst : ℕ) (a b : TraceMachineState → ℕ)
      → ((s : TraceMachineState) → IsValid s → a s < 2 ^ 32)
      → ((s : TraceMachineState) → IsValid s → b s < 2 ^ 32)
      → Keeps Any (add_op host encode dst a b)
  unfolding add_op
  add_op-Keeps dst a b p q =
      Keeps-modify _
        (λ s v. execute_alu-IsValid 2 dst _ s v (op_add-OnWords.word (a s) (b s) (p s v) (q s v)))

  jal_op-Keeps :
      (dst : ℕ) (base : TraceMachineState → ℕ) (offset : ℕ)
      → Keeps Any (jal_op host encode dst base offset)
  unfolding jal_op
  jal_op-Keeps dst base offset = Keeps-modify _ (λ s v. execute_jal-IsValid 2 dst _ offset s v)

  branch_op-Keeps : (op : ℕ → ℕ → Bool) → Keeps Any (branch_op host encode op)
  unfolding branch_op
  branch_op-Keeps op = Keeps-modify _ (λ s v. execute_branch-IsValid 2 _ _ s v)

  load_op-Keeps : (dst base offset : ℕ) → Keeps Any (load_op host encode dst base offset)
  unfolding load_op
  load_op-Keeps dst base offset =
      Keeps-bind _ _ Keeps-get_hart (λ s v. execute_ld-Keeps host 2 dst _ offset true 2)

  zero-lt : 0 < 2 ^ 32
  zero-lt = omega arith

  move_or_add-lt :
      (s : TraceMachineState)
      → IsValid s
      → (if cfunc1 encode != 0 then read_gpr s (crdrs1 encode) else 0) < 2 ^ 32
  move_or_add-lt s v = ground (arith, read_gpr-lt s (crdrs1 encode) v)

  execute_q1_alu-Keeps : Keeps Any (execute_q1_alu host encode)
  unfolding execute_q1_alu
  execute_q1_alu-Keeps =
      search
        (
          Keeps-if, Keeps-fail, self_op-Keeps, pair_op-Keeps, operators, extend_imm_c_srl-lt,
          extend_imm_c_addi-lt,
        )
        depth 20

  pub execute_q1-Keeps : Keeps Any (execute_q1 host encode)
  unfolding execute_q1
  execute_q1-Keeps =
      search
        (
          Keeps-if, Keeps-fail, self_op-Keeps, add_op-Keeps, zero-lt, operators,
          extend_imm_c_addi-lt, extend_imm_c_lui-lt, extend_imm_c_addi16sp-lt, execute_q1_alu-Keeps,
          jal_op-Keeps, branch_op-Keeps,
        )
        depth 20

  module _ (good : IsHost host) where
    store_op-Keeps : (src base offset : ℕ) → Keeps Any (store_op host encode src base offset)
    unfolding store_op
    store_op-Keeps src base offset =
        Keeps-bind _ _ Keeps-get_hart (λ s v. execute_st-Keeps host good 2 _ _ offset 2)

    pub execute_q0-Keeps : Keeps Any (execute_q0 host encode)
    unfolding execute_q0
    execute_q0-Keeps =
        search
          (
            Keeps-if, Keeps-fail, add_op-Keeps, read_gpr-lt, extend_imm_c_addi4spn-lt,
            load_op-Keeps, store_op-Keeps,
          )
          depth 20

    pub execute_q2-Keeps : Keeps Any (execute_q2 host encode)
    unfolding execute_q2
    execute_q2-Keeps =
        search
          (
            Keeps-if, Keeps-fail, Keeps-modify, self_op-Keeps, op_sll-OnWords, extend_imm_c_slli-lt,
            add_op-Keeps, move_or_add-lt, read_gpr-lt, jal_op-Keeps, execute_ebreak-IsValid,
            load_op-Keeps, store_op-Keeps,
          )
          depth 20
