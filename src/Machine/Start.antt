-- ===== src/Machine/Start.antt =====
-- The construction of the machine (sim/sim.cc): the devices, the program and the driver of
-- trace.cc.
use revive.Common.{
  ℕ, ◌^◌, ◌<◌, ◌≡◌, refl, sym, ap, ◌∙◌, inl, inr, false, Option, none, some, [], ◌∷◌, ◌++◌, arith,
  Outcome, done, panicked, get_elem?,
}
use mathlib.Core.Path.{subst}
use revive.Hart.State.{TraceMachineState}
use revive.Device.Clint.{CoreLocalInterruptor, new_timer, new_interruptor, attach_core, startup}
use revive.Device.Clint.Divider.{HasDivider}
use revive.Device.Clint.Line.{IsNumbered, IsArmed}
use revive.Device.Uart.{new_uart}
use revive.Device.Control.{SimulationControl, new_control}
use revive.Device.Control.Pseudo.{IsValid}
use revive.Machine.Load.{File, header, load_elf}
use revive.Machine.Load.Overlay.{image, file_programs}
use revive.Machine.Load.Image.{AllHaveRoom, load_programs-Loaded}
use revive.Machine.Bus.{
  SimulatedMachine, methods, ranges, memory_range, sim_phys_mem_start, sim_phys_mem_size,
  sim_ctrl_base, sim_clint_start, sim_uart0_start,
}
use revive.Machine.Bus.Words.{memory_bytes, peek, poke}

-- The devices before the program is loaded; the pages of the memory are zero.
unfoldable pub new_machine : ℕ → SimulatedMachine
new_machine clint_div = record {
  memory = record { start = sim_phys_mem_start; store = λ i. 0 };
  control = new_control sim_ctrl_base;
  interruptor = new_interruptor sim_clint_start clint_div;
  uart = new_uart sim_uart0_start;
  term = false;
  term_code = 0;
  term_cycle = 0;
  num_cycles = 0;
}

-- `clint->attachCore(driver)` for the only driver, and the start-up of the interruptor
unfoldable pub attach_driver : SimulatedMachine → SimulatedMachine
attach_driver m = record m { interruptor = startup (attach_core m.interruptor 0) }

-- The entry and the machine; none if the program cannot be loaded, when the constructor exits.
unfoldable pub construct : ℕ → Option File → Outcome (Option (ℕ × SimulatedMachine))
construct clint_div kernel = elim (load_elf methods ranges kernel (new_machine clint_div)) [
  | done (some (entry, m, cs)) ↦ done (some (entry, attach_driver m))
  | done none ↦ done none
  | panicked ↦ panicked
]

-- What a new machine is apart from its memory.
pub record IsReady (clint_div : ℕ) (m : SimulatedMachine) : Type 0 where
  pub control_at : m.control.start ≡ sim_ctrl_base
  pub control_valid : IsValid m.control
  pub divider : HasDivider m.interruptor
  pub numbered : IsNumbered 0 m.interruptor.slots
  pub attached : get_elem? m.interruptor.slots 0 ≡ some (new_timer 0)
  pub armed : (s : TraceMachineState) → IsArmed m.interruptor.mtime (new_timer 0) s
  pub not_stopped : m.term ≡ false

-- The devices but the memory are new.
record IsNew (clint_div : ℕ) (m : SimulatedMachine) : Type 0 where
  control_new : m.control ≡ new_control sim_ctrl_base
  interruptor_new : m.interruptor ≡ new_interruptor sim_clint_start clint_div
  not_stopped : m.term ≡ false

new_machine-IsNew : (clint_div : ℕ) → IsNew clint_div (new_machine clint_div)
unfolding new_machine
new_machine-IsNew clint_div = record {
  control_new = refl;
  interruptor_new = refl;
  not_stopped = refl;
}

poke-IsNew :
    (clint_div a v : ℕ) (m : SimulatedMachine) → IsNew clint_div m → IsNew clint_div (poke m a v)
unfolding poke
poke-IsNew clint_div a v m n = record {
  control_new = n.control_new;
  interruptor_new = n.interruptor_new;
  not_stopped = n.not_stopped;
}

new_control-IsValid : IsValid (new_control sim_ctrl_base)
unfolding new_control
new_control-IsValid = record { inputs_length = refl; outputs_length = refl }

start-new_control : (new_control sim_ctrl_base).start ≡ sim_ctrl_base
unfolding new_control
start-new_control = refl

attach_driver-IsReady :
    (clint_div : ℕ) (m : SimulatedMachine)
    → 0 < clint_div
    → clint_div < 2 ^ 64
    → IsNew clint_div m
    → IsReady clint_div (attach_driver m)
unfolding attach_driver attach_core startup new_interruptor
attach_driver-IsReady clint_div m z b n =
    let div = ap (λ (c : CoreLocalInterruptor). c.mtime_div) n.interruptor_new in
    let slots = ap (λ (c : CoreLocalInterruptor). c.slots ++ new_timer 0 ∷ []) n.interruptor_new in
    record {
      control_at = ap (λ (c : SimulationControl). c.start) n.control_new ∙ start-new_control;
      control_valid = subst IsValid (sym n.control_new) new_control-IsValid;
      divider = record {
        div_pos = omega (arith, z, div);
        div_lt = omega (arith, b, div);
        cnt_lt = omega (arith, z, div);
      };
      numbered = subst (IsNumbered 0) (sym slots) (refl, tt);
      attached = ap (λ s. get_elem? s 0) slots;
      armed = λ s. inr (inl refl);
      not_stopped = n.not_stopped;
    }

-- With a divisor above 0 that fits 64 bits, and a program whose headers the main memory has room
-- for, the machine is constructed at the entry of the program: the control device is at its
-- address with its arrays, the divider counts, the only driver is attached with a comparator
-- that was never written, nothing asks it to stop, and each byte of the memory is the one that
-- the programs make of a memory of zeros.
pub construct-IsReady :
    (clint_div b : ℕ) (file : File)
    → 0 < clint_div
    → clint_div < 2 ^ 64
    → AllHaveRoom methods ranges memory_range memory_bytes file (file_programs file)
    → b < sim_phys_mem_size
    → (m : SimulatedMachine) × (construct clint_div (some file)
        ≡ done (some ((header file).elf_entry, m)))
      × IsReady clint_div m
      × (peek m b ≡ image file (file_programs file) (peek (new_machine clint_div)) b)
unfolding construct load_elf attach_driver
construct-IsReady clint_div b file z d h l =
    let elf = header file in
    let loaded =
      load_programs-Loaded methods ranges memory_range memory_bytes file elf.elf_phentsize
        elf.elf_phnum elf.elf_phoff (new_machine clint_div) h in
    let new = loaded.keeps (IsNew clint_div) (poke-IsNew clint_div) (new_machine-IsNew clint_div) in
    (
      attach_driver loaded.after,
      rw (construct, load_elf, loaded.ends) refl,
      attach_driver-IsReady clint_div loaded.after z d new,
      loaded.shows b (omega arith) (omega (arith, l)),
    )
