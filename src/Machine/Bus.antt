-- ===== src/Machine/Bus.antt =====
-- The devices of `SimulatedMachine` in its physical address space: their places are those of
-- common/include/sim_ctrl.h, and their methods are called through one bus.
pub mod Map
pub mod Words
pub mod Dump
use revive.Common.{
  ℕ, zero, suc, ◌+◌, ◌-◌, ◌*◌, ◌/◌, ◌%◌, ◌^◌, ◌≤◌, ◌<◌, bit_and, bit_or, bit_xor, ◌≡◌, refl, sym,
  ap, ◌∙◌, ◌≢◌, ◌↔◌, ◌⊎◌, inl, inr, Bool, true, false, not, xor, ◌&&◌, ◌||◌, Option, none, some,
  List, [], ◌∷◌, ◌++◌, arith, ltb, leb, ◌==◌, ◌!=◌, between, if◌then◌else◌, ==_iff, Bool-cases, u8,
  u16, u32, u64, not32, not64, field, set_field, test_bits, Outcome, done, panicked, OnSome,
  on_none, on_some, OnSome-if, OnSome-test, OnSome-get, if_holds, OnDone, on_done, on_panicked,
  OnDone-get, OnDone-test, length, get_elem?, set, get_elem?-set_self, get_elem?-set_ne,
  length-append, get_elem?-below, get_elem?-beyond, length-set,
}
use revive.Hart.State.{Signal}
use revive.Hart.Exec.{Host}
use revive.Space.Range.{AddressRange}
use revive.Space.Dispatch.{add_range}
use revive.Space.Call.{Methods, as_host}
use revive.Space.Call
use revive.Space.Memory.{MainMemory}
use revive.Space.Memory
use revive.Device.Clint.{CoreLocalInterruptor}
use revive.Device.Clint
use revive.Device.Clint.Line.{calls_to}
use revive.Device.Uart.{UniAsyncRxTx}
use revive.Device.Uart
use revive.Device.Control.{
  SimulationControl, Access, completed, panics, overruns, Request, nothing, dump_data, terminate,
}
use revive.Device.Control

-- The devices by their names in the machine.
pub data Device : Type 0 where
  main_memory sim_ctrl clint uart0 : Device

-- What the methods of the devices reach: the devices, the count of cycles, and what `terminate`
-- sets.
pub record SimulatedMachine : Type 0 where
  pub memory : MainMemory
  pub control : SimulationControl
  pub interruptor : CoreLocalInterruptor
  pub uart : UniAsyncRxTx
  pub term : Bool
  pub term_code : ℕ
  pub term_cycle : ℕ
  pub num_cycles : ℕ

abbrev pub sim_phys_mem_start : ℕ
sim_phys_mem_start = 0x0

abbrev pub sim_phys_mem_size : ℕ
sim_phys_mem_size = 0x8000000

abbrev pub sim_clint_start : ℕ
sim_clint_start = 0xe0000000

abbrev pub sim_clint_size : ℕ
sim_clint_size = 0xc000

abbrev pub sim_uart0_start : ℕ
sim_uart0_start = 0xe5000000

abbrev pub sim_uart0_size : ℕ
sim_uart0_size = 0x100

abbrev pub sim_ctrl_base : ℕ
sim_ctrl_base = 0xf0000000

abbrev pub sim_ctrl_size : ℕ
sim_ctrl_size = 0x4000

-- `terminate(code, delay)`
unfoldable pub stop_machine : SimulatedMachine → ℕ → ℕ → SimulatedMachine
stop_machine m code delay = record m {
  term = true;
  term_code = code;
  term_cycle = u64 (m.num_cycles + delay);
}

abbrev pub memory_range : AddressRange Device
memory_range = record { start = sim_phys_mem_start; size = sim_phys_mem_size; device = main_memory }

abbrev pub control_range : AddressRange Device
control_range = record { start = sim_ctrl_base; size = sim_ctrl_size; device = sim_ctrl }

abbrev pub clint_range : AddressRange Device
clint_range = record { start = sim_clint_start; size = sim_clint_size; device = clint }

abbrev pub uart0_range : AddressRange Device
uart0_range = record { start = sim_uart0_start; size = sim_uart0_size; device = uart0 }

-- The four calls of `addRange` in the constructor.
abbrev pub then_add :
    AddressRange Device
    → Outcome (List (AddressRange Device))
    → Outcome (List (AddressRange Device))
then_add r (done ranges) = add_range r ranges
then_add r panicked = panicked

unfoldable pub add_ranges : Outcome (List (AddressRange Device))
add_ranges =
    then_add uart0_range
      (then_add clint_range (then_add control_range (then_add memory_range (done []))))

-- The map that they make.
abbrev pub ranges : List (AddressRange Device)
ranges = memory_range ∷ clint_range ∷ uart0_range ∷ control_range ∷ []

-- An access beyond an array, which C++ leaves undefined, ends the model's run as a panic does.
unfoldable pub read_device : Device → ℕ → ℕ → SimulatedMachine → Outcome (ℕ × SimulatedMachine)
read_device main_memory addr size m = elim (Memory.read_atomic m.memory addr size) [
  | done v ↦ done (v, m)
  | panicked ↦ panicked
]
read_device sim_ctrl addr size m = elim (Control.read_atomic m.control addr size) [
  | completed v ↦ done (v, m)
  | panics ↦ panicked
  | overruns ↦ panicked
]
read_device clint addr size m = elim (Clint.read_atomic m.interruptor addr size) [
  | done v ↦ done (v, m)
  | panicked ↦ panicked
]
read_device uart0 addr size m = elim (Uart.read_atomic m.uart addr size) [
  | done (v, u) ↦ done (v, record m { uart = u })
  | panicked ↦ panicked
]

-- `fprintf(dumpf, "%08lx\n", word)`
unfoldable pub print_word : SimulatedMachine → ℕ → SimulatedMachine
print_word m word = record m {
  control = record (m.control) {
    dumpf = elim m.control.dumpf [ some words ↦ some (words ++ word ∷ []) | none ↦ none ];
  };
}

-- The loop of `dumpData`, of at most `fuel` words.
unfoldable pub dump_words : ℕ → ℕ → ℕ → SimulatedMachine → Outcome SimulatedMachine
dump_words zero addr end' m = done m
dump_words (suc fuel) addr end' m = elim (ltb addr end') [
  | true ↦ (elim (Call.read_atomic read_device ranges addr 4 m) [
    | done (word, m1) ↦ dump_words fuel (u64 (addr + 4)) end' (print_word m1 word)
    | panicked ↦ panicked
  ])
  | false ↦ done m
]

-- The words from an address on and below another, before the addresses wrap.
abbrev pub words_between : ℕ → ℕ → ℕ
words_between addr end' = (end' - addr + 3) / 4

unfoldable pub dump : SimulatedMachine → Outcome SimulatedMachine
dump m =
    let addr = m.control.dump_data_start in
    let end' = m.control.dump_data_end in dump_words (words_between addr end') addr end' m

unfoldable pub serve : Request → SimulatedMachine → Outcome SimulatedMachine
serve nothing m = done m
serve (terminate code) m = done (stop_machine m code 0)
serve dump_data m = dump m

unfoldable pub write_device :
    Device → ℕ → ℕ → ℕ → SimulatedMachine → Outcome (SimulatedMachine × List Signal)
write_device main_memory addr size v m = elim (Memory.write_atomic m.memory addr size v) [
  | done memory ↦ done (record m { memory = memory }, [])
  | panicked ↦ panicked
]
write_device sim_ctrl addr size v m = elim (Control.write_atomic m.control addr size v) [
  | completed (c, request) ↦ (elim (serve request (record m { control = c })) [
    | done m' ↦ done (m', [])
    | panicked ↦ panicked
  ])
  | panics ↦ panicked
  | overruns ↦ panicked
]
write_device clint addr size v m = elim (Clint.write_atomic m.interruptor addr size v) [
  | done (c, calls) ↦ done (record m { interruptor = c }, calls_to 0 calls)
  | panicked ↦ panicked
]
write_device uart0 addr size v m = elim (Uart.write_atomic m.uart addr size v) [
  | done u ↦ done (record m { uart = u }, [])
  | panicked ↦ panicked
]

abbrev pub methods : Methods Device SimulatedMachine
methods = record { read = read_device; write = write_device }

-- The bus, as the driver of the machine calls it.
abbrev pub bus : (ℕ → ℕ) → Host SimulatedMachine
bus shift_count = as_host methods ranges shift_count
