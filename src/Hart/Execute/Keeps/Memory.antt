-- ===== src/Hart/Execute/Keeps/Memory.antt =====
-- The instruction bodies that load and store keep a hart well formed.
use revive.Common.{ℕ, ◌+◌, ◌^◌, ◌<◌, Bool, false, Option, arith, u32}
use revive.Hart.State.{TraceMachineState, read_gpr}
use revive.Hart.Valid.{IsValid, write_gpr-IsValid, read_gpr-lt}
use revive.Hart.Trap.{except_enter}
use revive.Hart.Trap.Valid.{except_enter-IsValid}
use revive.Hart.Alu.Bounds.{OnWords}
use revive.Hart.Exec.{Host, Access, modify}
use revive.Hart.Exec.Keeps.{Keeps, Any, IsHost, Keeps-bind, Keeps-if, Keeps-get_hart, Keeps-modify}
use revive.Hart.Access.{store_page_fault, store_access_fault, for_both}
use revive.Hart.Access.Keeps.{
  Fits, granted_fits, faulted_fits, StoreFits, stored_fits, fault_fits, IsWord,
  translate_vaddr-Keeps, execute_g_ld-Keeps, execute_g_st-Keeps,
}
use revive.Hart.Execute.{
  end_ld, execute_ld, end_st, execute_st, amo_fault, amo_stored, amo_loaded, amo_translated,
  execute_amo,
}
use revive.Hart.Execute.Keeps.{advance-IsValid}

-- What `except_enter` does with an address and the code of a fault.
fault-Keeps :
    {S : Type 0} (fault : ℕ) (f : TraceMachineState → ℕ)
    → fault < 2 ^ 32
    → ((s : TraceMachineState) → IsValid s → f s < 2 ^ 32)
    → Keeps {S = S} Any (modify (λ s. except_enter s fault (f s)))
fault-Keeps fault f h k = Keeps-modify _ (λ s v. except_enter-IsValid s fault (f s) v h (k s v))

module _ {S : Type 0} (host : Host S) where
  end_ld-Keeps :
      (len dst addr : ℕ) (x : Access)
      → addr < 2 ^ 32
      → Fits IsWord x
      → Keeps Any (end_ld host len dst addr x)
  unfolding end_ld
  end_ld-Keeps len dst addr _ h (faulted_fits fault q) = fault-Keeps fault (λ s. addr) q (λ s v. h)
  end_ld-Keeps len dst addr _ h (granted_fits value q) =
      Keeps-modify _ (λ s v. advance-IsValid len _ (write_gpr-IsValid s dst value v q))

  pub execute_ld-Keeps :
      (len dst base offset : ℕ) (sign : Bool) (size : ℕ)
      → Keeps Any (execute_ld host len dst base offset sign size)
  unfolding execute_ld
  execute_ld-Keeps len dst base offset sign size =
      Keeps-bind _ _ (execute_g_ld-Keeps host (u32 (base + offset)) sign size)
        (λ x p. end_ld-Keeps len dst _ x (omega arith) p)

  module _ (good : IsHost host) where
    end_st-Keeps :
        (len addr : ℕ) (x : Option ℕ)
        → addr < 2 ^ 32
        → StoreFits x
        → Keeps Any (end_st host len addr x)
    unfolding end_st
    end_st-Keeps len addr _ h stored_fits = Keeps-modify _ (advance-IsValid len)
    end_st-Keeps len addr _ h (fault_fits fault q) = fault-Keeps fault (λ s. addr) q (λ s v. h)

    pub execute_st-Keeps :
        (len value base offset size : ℕ) → Keeps Any (execute_st host len value base offset size)
    unfolding execute_st
    execute_st-Keeps len value base offset size =
        Keeps-bind _ _ (execute_g_st-Keeps host good (u32 (base + offset)) size value)
          (λ x p. end_st-Keeps len _ x (omega arith) p)

  amo_fault-Keeps : (rs1 fault : ℕ) → fault < 2 ^ 32 → Keeps Any (amo_fault host rs1 fault)
  unfolding amo_fault
  amo_fault-Keeps rs1 fault h =
      fault-Keeps fault (λ s. read_gpr s rs1) h (λ s v. read_gpr-lt s rs1 v)

  amo_stored-Keeps :
      (len rs1 : ℕ) (x : Option ℕ) → StoreFits x → Keeps Any (amo_stored host len rs1 x)
  unfolding amo_stored
  amo_stored-Keeps len rs1 _ stored_fits = Keeps-modify _ (advance-IsValid len)
  amo_stored-Keeps len rs1 _ (fault_fits fault q) = amo_fault-Keeps rs1 fault q

  module _ (good : IsHost host) (op_ld op_st : ℕ → ℕ → ℕ) (good_ld : OnWords op_ld) where
    amo_loaded-Keeps :
        (len dst rs1 addr rs2val size : ℕ) (x : Access)
        → rs2val < 2 ^ 32
        → Fits IsWord x
        → Keeps Any (amo_loaded host len dst rs1 addr rs2val op_ld op_st size x)
    unfolding amo_loaded
    amo_loaded-Keeps len dst rs1 addr rs2val size _ h (faulted_fits fault q) =
        amo_fault-Keeps rs1 fault q
    amo_loaded-Keeps len dst rs1 addr rs2val size _ h (granted_fits value q) =
        let w = good_ld.word value rs2val q h in
        Keeps-bind _ _ (Keeps-modify _ (λ s v. write_gpr-IsValid s dst _ v w)) λ _ _.
          Keeps-bind _ _ (execute_g_st-Keeps host good addr size _) (amo_stored-Keeps len rs1)

    amo_translated-Keeps :
        (len dst rs1 addr rs2val size : ℕ) (x : Access)
        → rs2val < 2 ^ 32
        → Fits Any x
        → Keeps Any (amo_translated host len dst rs1 addr rs2val op_ld op_st size x)
    unfolding amo_translated
    amo_translated-Keeps len dst rs1 addr rs2val size _ h (faulted_fits fault q) =
        amo_fault-Keeps rs1 fault q
    amo_translated-Keeps len dst rs1 addr rs2val size _ h (granted_fits paddr q) =
        Keeps-bind _ _ (execute_g_ld-Keeps host addr false size)
          (λ x p. amo_loaded-Keeps len dst rs1 addr rs2val size x h p)

    pub execute_amo-Keeps :
        (len dst rs1 rs2 size : ℕ) → Keeps Any (execute_amo host len dst rs1 rs2 op_ld op_st size)
    unfolding execute_amo
    execute_amo-Keeps len dst rs1 rs2 size = Keeps-bind _ _ Keeps-get_hart λ s v.
        Keeps-if _ _ _ (amo_fault-Keeps rs1 _ (omega arith)) (
          Keeps-bind _ _
            (translate_vaddr-Keeps host store_page_fault store_access_fault (omega arith)
              (omega arith) _ for_both)
            (λ x p. amo_translated-Keeps len dst rs1 _ _ size x (read_gpr-lt s rs2 v) p))
