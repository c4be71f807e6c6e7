-- ===== src/Hart/Execute/Base/Keeps.antt =====
-- The instructions of four bytes keep a hart well formed.
use revive.Common.{ℕ, Bool, arith}
use revive.Hart.Valid.{read_gpr-lt}
use revive.Hart.Immediate.Bounds.{extend_imm_type_u-lt, extend_imm_type_i-lt, extend_zimm-lt}
use revive.Hart.Alu.Bounds.{OnWords, operators, op_add-OnWords}
use revive.Hart.Exec.{Host, pure}
use revive.Hart.Exec.Keeps.{
  Keeps, Any, IsHost, Keeps-pure, Keeps-fail, Keeps-bind, Keeps-if, Keeps-get_hart, Keeps-modify,
  Keeps-attempt,
}
use revive.Hart.Execute.Keeps.{
  execute_alu-IsValid, execute_jal-IsValid, execute_branch-IsValid, execute_fence-IsValid,
  execute_wfi-IsValid, execute_ecall-IsValid, execute_ebreak-IsValid, execute_ret-IsValid,
  execute_csr-IsValid,
}
use revive.Hart.Execute.Keeps.Memory.{execute_ld-Keeps, execute_st-Keeps, execute_amo-Keeps}
use revive.Hart.Execute.Base.{
  execute_g_amo, execute_g_priv, execute_g_system, execute_g_fence, execute_g_lui, execute_g_auipc,
  execute_g_jal, execute_g_jalr, execute_g,
}
use revive.Hart.Execute.Base.Operations.{
  register_op, immediate_op, branch_op, load_op, store_op, amo_op, csr_register, csr_immediate,
  execute_g_branch, execute_g_load, execute_g_store, execute_g_imm, execute_g_muldiv, execute_g_reg,
}

module _ {S : Type 0} (host : Host S) (encode : ℕ) where
  register_op-Keeps : (op : ℕ → ℕ → ℕ) → OnWords op → Keeps Any (register_op host encode op)
  unfolding register_op
  register_op-Keeps op good =
      Keeps-modify _
        λ s v. execute_alu-IsValid 4 _ _ s v (good.word _ _ (read_gpr-lt s _ v) (read_gpr-lt s _ v))

  immediate_op-Keeps : (op : ℕ → ℕ → ℕ) → OnWords op → Keeps Any (immediate_op host encode op)
  unfolding immediate_op
  immediate_op-Keeps op good = Keeps-modify _ λ s v.
      execute_alu-IsValid 4 _ _ s v
        (good.word _ _ (read_gpr-lt s _ v) (extend_imm_type_i-lt encode))

  branch_op-Keeps : (op : ℕ → ℕ → Bool) → Keeps Any (branch_op host encode op)
  unfolding branch_op
  branch_op-Keeps op = Keeps-modify _ (λ s v. execute_branch-IsValid 4 _ _ s v)

  load_op-Keeps : (sign : Bool) (size : ℕ) → Keeps Any (load_op host encode sign size)
  unfolding load_op
  load_op-Keeps sign size =
      Keeps-bind _ _ Keeps-get_hart (λ s v. execute_ld-Keeps host 4 _ _ _ sign size)

  csr_register-Keeps :
      (rd_csr wr_csr : Bool) (op : ℕ → ℕ → ℕ)
      → OnWords op
      → Keeps Any (csr_register host encode rd_csr wr_csr op)
  unfolding csr_register
  csr_register-Keeps rd_csr wr_csr op good =
      Keeps-attempt _
        λ s v. execute_csr-IsValid 4 _ _ _ rd_csr wr_csr op s good (read_gpr-lt s _ v) v

  csr_immediate-Keeps :
      (rd_csr wr_csr : Bool) (op : ℕ → ℕ → ℕ)
      → OnWords op
      → Keeps Any (csr_immediate host encode rd_csr wr_csr op)
  unfolding csr_immediate
  csr_immediate-Keeps rd_csr wr_csr op good =
      Keeps-attempt _
        λ s v. execute_csr-IsValid 4 _ _ _ rd_csr wr_csr op s good (extend_zimm-lt encode) v

  execute_g_lui-Keeps : Keeps Any (execute_g_lui host encode)
  unfolding execute_g_lui
  execute_g_lui-Keeps = Keeps-modify _ λ s v.
      execute_alu-IsValid 4 _ _ s v
        (op_add-OnWords.word 0 _ (omega arith) (extend_imm_type_u-lt encode))

  execute_g_auipc-Keeps : Keeps Any (execute_g_auipc host encode)
  unfolding execute_g_auipc
  execute_g_auipc-Keeps = Keeps-modify _ λ s v.
      execute_alu-IsValid 4 _ _ s v
        (op_add-OnWords.word s.pc _ v.pc_lt (extend_imm_type_u-lt encode))

  execute_g_jal-Keeps : Keeps Any (execute_g_jal host encode)
  unfolding execute_g_jal
  execute_g_jal-Keeps = Keeps-modify _ (λ s v. execute_jal-IsValid 4 _ _ _ s v)

  execute_g_jalr-Keeps : Keeps Any (execute_g_jalr host encode)
  unfolding execute_g_jalr
  execute_g_jalr-Keeps = Keeps-modify _ (λ s v. execute_jal-IsValid 4 _ _ _ s v)

  execute_g_branch-Keeps : Keeps Any (execute_g_branch host encode)
  unfolding execute_g_branch
  execute_g_branch-Keeps = search (Keeps-if, Keeps-fail, branch_op-Keeps) depth 20

  execute_g_load-Keeps : Keeps Any (execute_g_load host encode)
  unfolding execute_g_load
  execute_g_load-Keeps = search (Keeps-if, Keeps-fail, load_op-Keeps) depth 20

  execute_g_imm-Keeps : Keeps Any (execute_g_imm host encode)
  unfolding execute_g_imm
  execute_g_imm-Keeps = search (Keeps-if, Keeps-fail, immediate_op-Keeps, operators) depth 20

  execute_g_muldiv-Keeps : Keeps Any (execute_g_muldiv host encode)
  unfolding execute_g_muldiv
  execute_g_muldiv-Keeps = search (Keeps-if, Keeps-fail, register_op-Keeps, operators) depth 20

  execute_g_reg-Keeps : Keeps Any (execute_g_reg host encode)
  unfolding execute_g_reg
  execute_g_reg-Keeps = search (Keeps-if, Keeps-fail, register_op-Keeps, operators) depth 20

  execute_g_priv-Keeps : Keeps Any (execute_g_priv host encode)
  unfolding execute_g_priv
  execute_g_priv-Keeps =
      search
        (
          Keeps-if, Keeps-fail, Keeps-modify, Keeps-attempt, execute_fence-IsValid,
          execute_wfi-IsValid, execute_ecall-IsValid, execute_ebreak-IsValid, execute_ret-IsValid,
        )
        depth 20

  execute_g_system-Keeps : Keeps Any (execute_g_system host encode)
  unfolding execute_g_system
  execute_g_system-Keeps =
      search
        (
          Keeps-if, Keeps-fail, execute_g_priv-Keeps, csr_register-Keeps, csr_immediate-Keeps,
          operators,
        )
        depth 20

  execute_g_fence-Keeps : Keeps Any (execute_g_fence host encode)
  unfolding execute_g_fence
  execute_g_fence-Keeps =
      search (Keeps-if, Keeps-fail, Keeps-modify, execute_fence-IsValid) depth 20

  nothing-Keeps : Keeps {S = S} Any (pure tt)
  nothing-Keeps = Keeps-pure tt tt

  module _ (good : IsHost host) where
    store_op-Keeps : (size : ℕ) → Keeps Any (store_op host encode size)
    unfolding store_op
    store_op-Keeps size =
        Keeps-bind _ _ Keeps-get_hart (λ s v. execute_st-Keeps host good 4 _ _ _ size)

    amo_op-Keeps :
        (op_ld op_st : ℕ → ℕ → ℕ) → OnWords op_ld → Keeps Any (amo_op host encode op_ld op_st)
    unfolding amo_op
    amo_op-Keeps op_ld op_st h = execute_amo-Keeps host good op_ld op_st h 4 _ _ _ 2

    execute_g_store-Keeps : Keeps Any (execute_g_store host encode)
    unfolding execute_g_store
    execute_g_store-Keeps = search (Keeps-if, Keeps-fail, store_op-Keeps) depth 20

    execute_g_amo-Keeps : Keeps Any (execute_g_amo host encode)
    unfolding execute_g_amo
    execute_g_amo-Keeps = search (Keeps-if, Keeps-fail, amo_op-Keeps, operators) depth 24

    pub execute_g-Keeps : Keeps Any (execute_g host encode)
    unfolding execute_g
    execute_g-Keeps =
        search
          (
            Keeps-if, nothing-Keeps, execute_g_lui-Keeps, execute_g_auipc-Keeps,
            execute_g_jal-Keeps, execute_g_jalr-Keeps, execute_g_branch-Keeps, execute_g_load-Keeps,
            execute_g_store-Keeps, execute_g_imm-Keeps, execute_g_muldiv-Keeps, execute_g_reg-Keeps,
            execute_g_amo-Keeps, execute_g_fence-Keeps, execute_g_system-Keeps,
          )
          depth 24
