-- ===== src/Hart/Execute/Keeps.antt =====
-- The instruction bodies keep a hart well formed; those that use memory are in Memory.
pub mod Memory
use revive.Common.{
  ℕ, ◌+◌, ◌^◌, ◌<◌, bit_and, bit_or, ◌≡◌, refl, Bool, true, false, ◌&&◌, Option, none, some, arith,
  ltb, ◌==◌, ◌!=◌, if◌then◌else◌, u32, not32, done, panicked, OnSome, on_none, on_some, OnSome-if,
  OnSome-get, OnDone, on_done, on_panicked, OnDone-test,
}
use revive.Common.Bits.{bit_and-le_left, bit_and-le_right, bit_or-lt}
use revive.Hart.Status.{tsr}
use revive.Hart.State.{TraceMachineState, read_gpr, write_gpr, priv_supervisor}
use revive.Hart.Valid.{IsValid, write_gpr-IsValid, read_gpr-lt, write_csr-IsValid}
use revive.Hart.Csr.{read_csr, read_csr_file, read_perf, write_csr}
use revive.Hart.Trap.{except_enter}
use revive.Hart.Trap.Valid.{except_enter-IsValid, trap_return-IsValid, pc-IsValid, if-IsValid}
use revive.Hart.Alu.Bounds.{OnWords}
use revive.Hart.Exec.{Host, Access, modify}
use revive.Hart.Exec.Keeps.{Keeps, Any, IsHost, Keeps-bind, Keeps-if, Keeps-get_hart, Keeps-modify}
use revive.Hart.Access.{store_page_fault, store_access_fault, for_both}
use revive.Hart.Access.Keeps.{
  Fits, granted_fits, faulted_fits, StoreFits, stored_fits, fault_fits, IsWord,
  translate_vaddr-Keeps, execute_g_ld-Keeps, execute_g_st-Keeps,
}
use revive.Hart.Execute.{
  advance, execute_alu, execute_jal, execute_branch, execute_fence, execute_wfi, execute_ecall,
  execute_ebreak, execute_ret, csr_write, csr_loaded, execute_csr, end_ld, execute_ld, end_st,
  execute_st, amo_fault, amo_stored, amo_loaded, amo_translated, execute_amo,
}

pub advance-IsValid : (len : ℕ) (s : TraceMachineState) → IsValid s → IsValid (advance len s)
advance-IsValid len s v = pc-IsValid s _ v (omega arith)

pub execute_alu-IsValid :
    (len dst value : ℕ) (s : TraceMachineState)
    → IsValid s
    → value < 2 ^ 32
    → IsValid (execute_alu len dst value s)
unfolding execute_alu
execute_alu-IsValid len dst value s v h = advance-IsValid len _ (write_gpr-IsValid s dst value v h)

pub execute_jal-IsValid :
    (len dst base offset : ℕ) (s : TraceMachineState)
    → IsValid s
    → IsValid (execute_jal len dst base offset s)
unfolding execute_jal
execute_jal-IsValid len dst base offset s v =
    let target = bit_and (u32 (base + offset)) (not32 0x1) in
    let h : target < 2 ^ 32 = omega (arith, bit_and-le_left (u32 (base + offset)) (not32 0x1)) in
    if-IsValid _ _ _ (except_enter-IsValid s _ _ v (omega arith) h)
      (pc-IsValid _ _ (write_gpr-IsValid s dst _ v (omega arith)) h)

pub execute_branch-IsValid :
    (len : ℕ) (taken : Bool) (offset : ℕ) (s : TraceMachineState)
    → IsValid s
    → IsValid (execute_branch len taken offset s)
unfolding execute_branch
execute_branch-IsValid len taken offset s v =
    let h : (if taken then u32 (s.pc + offset) else u32 (s.pc + len)) < 2 ^ 32 = ground arith in
    if-IsValid _ _ _ (except_enter-IsValid s _ _ v (omega arith) h) (pc-IsValid s _ v h)

pub execute_fence-IsValid :
    (len : ℕ) (s : TraceMachineState) → IsValid s → IsValid (execute_fence len s)
unfolding execute_fence
execute_fence-IsValid = advance-IsValid

pub execute_wfi-IsValid :
    (len : ℕ) (s : TraceMachineState) → IsValid s → IsValid (execute_wfi len s)
unfolding execute_wfi
execute_wfi-IsValid = advance-IsValid

pub execute_ecall-IsValid : (s : TraceMachineState) → IsValid s → IsValid (execute_ecall s)
unfolding execute_ecall
execute_ecall-IsValid s v = except_enter-IsValid s _ 0 v (omega (arith, v.priv_le)) (omega arith)

pub execute_ebreak-IsValid : (s : TraceMachineState) → IsValid s → IsValid (execute_ebreak s)
unfolding execute_ebreak
execute_ebreak-IsValid s v = except_enter-IsValid s _ s.pc v (omega arith) v.pc_lt

pub execute_ret-IsValid :
    (from : ℕ) (s : TraceMachineState) → IsValid s → OnDone IsValid (execute_ret from s)
unfolding execute_ret
execute_ret-IsValid from s v =
    OnDone-test (ltb s.priv from) _ _ (λ _. on_panicked)
      (λ _.
        OnDone-test (from == priv_supervisor && tsr s.status != 0) _ _ (λ _. on_panicked)
          (λ _. on_done (trap_return-IsValid s from v)))

-- What a read of a control register gives is a word.
read_perf-lt : (s : TraceMachineState) (csr : ℕ) → IsValid s → read_perf s csr < 2 ^ 32
unfolding read_perf
read_perf-lt s csr v =
    let full = s.perf (bit_and csr 0x1f) in
    ground (arith, v.perf_lt (bit_and csr 0x1f), bit_and-le_right full 0xffffffff)

masked-lt : (a b : ℕ) → a < 2 ^ 32 → bit_and a b < 2 ^ 32
masked-lt a b h = omega (arith, h, bit_and-le_left a b)

module _ (s : TraceMachineState) (v : IsValid s) where
  read_csr_file-IsWord : (csr : ℕ) → OnSome IsWord (read_csr_file s csr)
  unfolding read_csr_file
  read_csr_file-IsWord csr = search (on_none, on_some, OnSome-if, v.csr_lt, read_perf-lt) depth 20

  pending-lt : bit_or s.intp s.inthw < 2 ^ 32
  pending-lt = bit_or-lt 32 s.intp s.inthw v.intp_lt v.inthw_lt

  read_csr-IsWord : (csr : ℕ) → OnSome IsWord (read_csr s csr)
  unfolding read_csr
  read_csr-IsWord csr =
      search
        (
          on_none, on_some, OnSome-if, v.isa_lt, v.status_lt, v.inte_lt, v.trans_lt, pending-lt,
          read_csr_file-IsWord, masked-lt, v.csr_lt,
        )
        depth 30

csr_write-IsValid :
    (len csr : ℕ) (wr_csr : Bool) (stval : ℕ) (s : TraceMachineState)
    → IsValid s
    → stval < 2 ^ 32
    → OnDone IsValid (csr_write len csr wr_csr stval s)
unfolding csr_write
csr_write-IsValid len csr false stval s v h = on_done (advance-IsValid len s v)
csr_write-IsValid len csr true stval s v h =
    go (write_csr s csr stval) (λ t e. write_csr-IsValid s csr stval t v h e)
  where
    go :
        (o : Option TraceMachineState)
        → ((t : TraceMachineState) → o ≡ some t → IsValid t)
        → OnDone IsValid (elim o [ some t ↦ done (advance len t) | none ↦ panicked ])
    go none f = on_panicked
    go (some t) f = on_done (advance-IsValid len t (f t refl))

pub execute_csr-IsValid :
    (len dst srcval csr : ℕ) (rd_csr wr_csr : Bool) (op : ℕ → ℕ → ℕ) (s : TraceMachineState)
    → OnWords op
    → srcval < 2 ^ 32
    → IsValid s
    → OnDone IsValid (execute_csr len dst srcval csr rd_csr wr_csr op s)
unfolding execute_csr csr_loaded
execute_csr-IsValid len dst srcval csr rd_csr wr_csr op s good h v =
    go (if rd_csr then read_csr s csr else some 0)
      (OnSome-if rd_csr _ _ (read_csr-IsWord s v csr) (on_some (omega arith)))
  where
    go :
        (o : Option ℕ)
        → OnSome IsWord o
        → OnDone IsValid (csr_loaded len dst srcval csr wr_csr op s o)
    go none p = on_panicked
    go (some ldval) p =
        let q : ldval < 2 ^ 32 = OnSome-get ldval p refl in
        csr_write-IsValid len csr wr_csr (op ldval srcval) (write_gpr s dst ldval)
          (write_gpr-IsValid s dst ldval v q) (good.word ldval srcval q h)
