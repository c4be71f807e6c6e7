-- ===== src/Hart/Examples.antt =====
-- The theorems of a hart at concrete states.
use revive.Common.{
  ℕ, ◌%◌, ◌^◌, ◌≤◌, ◌<◌, ◌≡◌, refl, ◌≢◌, ◌⊎◌, true, false, some, [], arith, done, panicked, on_done,
}
use revive.Hart.State.{TraceMachineState}
use revive.Hart.Valid.{IsValid}
use revive.Hart.Csr.{read_csr, write_csr}
use revive.Hart.Csr.Access.{read_csr-write_csr}
use revive.Hart.Trap.{except_enter, trap_return, find_first_int_code, interrupt, int_mask_m}
use revive.Hart.Trap.Entry.{Entered, except_enter-Entered}
use revive.Hart.Trap.Return.{Resumes, trap_return-except_enter}
use revive.Hart.Trap.Pending.{IsQuiet, Taken, interrupt-Taken}
use revive.Hart.Trap.Priority.{NoneListed, find_first_int_code-panics, pending}
use revive.Hart.Trap.Total.{interrupt_total, interrupt_unlisted_panics}
use revive.Hart.State.{read_gpr, write_gpr, update}
use revive.Hart.Trap.{
  enter_machine, delegates_to_user, delegates_to_supervisor, first_int_code, machine_takes,
  supervisor_takes, user_takes, int_mask, int_mask_s, int_mask_u,
}
use revive.Hart.Trap.Total.{IsListed}
use revive.Hart.Csr.{write_csr_file, is_machine_csr_write, read_csr_file, is_machine_csr}
use revive.Hart.Exec.{Host, World, granted, pure, ◌>>=◌, get_hart, modify, attempt, load}
use revive.Hart.Access.{fetch, fetch_once}
use revive.Hart.Translate.{
  Request, translate_vaddr, need_trans, check_paddr, walk, walk_first, check_leaf, pte_denied,
  pte_invalid, super_paddr,
}
use revive.Hart.Translate.Granted.{Translated, translate_vaddr-Translated}
use revive.Hart.Execute.{execute_alu}
use revive.Hart.Execute.Base.{execute_g}
use revive.Hart.Execute.Base.Operations.{execute_g_imm, immediate_op}
use revive.Hart.Alu.{op_add}
use revive.Hart.Immediate.{extend_imm_type_i, extend_sign_bit}
use revive.Hart.Exec.Keeps.{IsHost}
use revive.Hart.Cycle.{cycles}
use revive.Hart.Cycle.{count, execute, cycle}
use revive.Hart.Cycle.Keeps.{cycles-IsValid}

-- A hart at a level, with enabled and raised interrupts.
abbrev hart_at : ℕ → ℕ → ℕ → TraceMachineState
hart_at priv inte intp = record {
  pc = 0x1000;
  gpr = λ i. 0;
  isa = 0x4;
  priv = priv;
  status = 0;
  inte = inte;
  intp = intp;
  inthw = 0;
  trans = 0;
  perf = λ i. 0;
  csr = λ i. 0;
}

hart_at-IsValid :
    (priv inte intp : ℕ)
    → priv ≤ 3
    → inte < 2 ^ 32
    → intp < 2 ^ 32
    → IsValid (hart_at priv inte intp)
hart_at-IsValid priv inte intp p q r = record {
  pc_lt = omega arith;
  gpr_lt = λ i. omega arith;
  gpr_zero = refl;
  isa_lt = omega arith;
  priv_le = p;
  status_lt = omega arith;
  inte_lt = q;
  intp_lt = r;
  inthw_lt = omega arith;
  trans_lt = omega arith;
  perf_lt = λ i. omega arith;
  csr_lt = λ i. omega arith;
}

-- A user's hart with the machine's timer interrupt enabled and raised.
abbrev ticking : TraceMachineState
ticking = hart_at 0 0x80 0x80

ticking-IsValid : IsValid ticking
ticking-IsValid = hart_at-IsValid 0 0x80 0x80 (omega arith) (omega arith) (omega arith)

-- The same with an interrupt outside the table, that of the hypervisor's timer.
abbrev stray : TraceMachineState
stray = hart_at 0 0x40 0x40

-- A memory that reads as 0x0293, half of `addi x5, x6, 41`, everywhere, and drops what is written.
abbrev rom : Host (Unit {0})
rom = record {
  read_atomic = λ addr size space. done (0x0293, space);
  write_atomic = λ addr size v space. done (space, []);
  shift_count = λ n. n % 32;
}

rom-IsHost : IsHost rom
rom-IsHost = record { signals_fit = λ addr size v space. on_done tt }

abbrev quiet : World (Unit {0})
quiet = record { hart = hart_at 3 0 0; space = tt }

abbrev after_two : World (Unit {0})
after_two = elim (cycles rom 2 quiet) [ done r ↦ r.1 | panicked ↦ quiet ]

two_cycles : cycles rom 2 quiet ≡ done (tt, after_two)
unfolding cycles cycle fetch fetch_once execute execute_g execute_g_imm immediate_op execute_alu
    count interrupt machine_takes supervisor_takes user_takes int_mask int_mask_m int_mask_s
    int_mask_u translate_vaddr need_trans check_paddr pure ◌>>=◌ get_hart modify attempt load op_add
    read_gpr write_gpr extend_imm_type_i extend_sign_bit
two_cycles = refl

x5_after_two : after_two.hart.gpr 5 ≡ 41
unfolding cycles cycle fetch fetch_once execute execute_g execute_g_imm immediate_op execute_alu
    count interrupt machine_takes supervisor_takes user_takes int_mask int_mask_m int_mask_s
    int_mask_u translate_vaddr need_trans check_paddr pure ◌>>=◌ get_hart modify attempt load op_add
    read_gpr write_gpr extend_imm_type_i extend_sign_bit
x5_after_two = refl

cycles-IsValid_example : IsValid after_two.hart
cycles-IsValid_example =
    cycles-IsValid rom 2 quiet after_two rom-IsHost
      (hart_at-IsValid 3 0 0 (omega arith) (omega arith) (omega arith)) two_cycles

except_enter-Entered_example : Entered ticking 8 0 (except_enter ticking 8 0)
except_enter-Entered_example = except_enter-Entered ticking 8 0 ticking-IsValid

trap_return-except_enter_example : Resumes 3 ticking (trap_return (except_enter ticking 8 0) 3)
unfolding except_enter delegates_to_user delegates_to_supervisor enter_machine
trap_return-except_enter_example = trap_return-except_enter ticking 8 0 ticking-IsValid refl

ticking_interrupted : interrupt ticking ≡ done (enter_machine ticking 0x80000007 0 true 7)
unfolding interrupt machine_takes int_mask_m int_mask find_first_int_code first_int_code
ticking_interrupted = refl

interrupt-Taken_example :
    (IsQuiet ticking × (enter_machine ticking 0x80000007 0 true 7 ≡ ticking))
    ⊎ ((code : ℕ) × Taken ticking code (enter_machine ticking 0x80000007 0 true 7))
interrupt-Taken_example = interrupt-Taken ticking _ ticking-IsValid ticking_interrupted

ticking-IsListed : IsListed ticking.inte
unfolding pending
ticking-IsListed = record { width = omega arith; no_2 = refl; no_6 = refl; no_10 = refl }

interrupt_total_example : (t : TraceMachineState) × (interrupt ticking ≡ done t)
interrupt_total_example = interrupt_total ticking ticking-IsListed

stray-NoneListed : NoneListed (int_mask_m stray)
unfolding int_mask_m int_mask find_first_int_code first_int_code
stray-NoneListed = (find_first_int_code-panics 0x40).0 refl

stray_mask : int_mask_m stray ≢ 0
unfolding int_mask_m int_mask
stray_mask = omega arith

interrupt_unlisted_panics_example : interrupt stray ≡ panicked
interrupt_unlisted_panics_example =
    interrupt_unlisted_panics stray stray_mask stray-NoneListed (omega arith)

-- The write of the machine's scratch register by the machine.
abbrev machine : TraceMachineState
machine = hart_at 3 0 0

abbrev scratched : TraceMachineState
scratched = record machine { csr = update machine.csr 0x340 7 }

scratch_written : write_csr machine 0x340 7 ≡ some scratched
unfolding write_csr write_csr_file is_machine_csr_write
scratch_written = refl

scratch_read : read_csr machine 0x340 ≡ some 0
unfolding read_csr read_csr_file is_machine_csr
scratch_read = refl

read_csr-write_csr_example : read_csr scratched 0x340 ≡ some 7
read_csr-write_csr_example =
    read_csr-write_csr machine 0x340 7 scratched (omega arith) (omega arith) scratch_written

-- A user's hart under translation, and a page table that is one entry of 4 MB everywhere.
abbrev paged : World (Unit {0})
paged = record { hart = record ticking { trans = 2 ^ 31 }; space = tt }

abbrev table : Host (Unit {0})
table = record rom { read_atomic = λ addr size space. done (0x1000df, space) }

abbrev fetching : Request
fetching = record { read = false; write = false; exec = true }

page_granted : translate_vaddr table 0x123 fetching 12 1 paged ≡ done (granted 0x400123, paged)
unfolding translate_vaddr need_trans walk walk_first check_leaf check_paddr pte_denied pte_invalid
    super_paddr pure ◌>>=◌ get_hart load
page_granted = refl

translate_vaddr-Translated_example : Translated table paged fetching 0x123 (granted 0x400123) paged
translate_vaddr-Translated_example =
    translate_vaddr-Translated table 0x123 fetching 12 1 paged paged 0x400123 page_granted
