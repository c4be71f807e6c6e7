-- ===== src/Machine/Examples.antt =====
-- The theorems of the machine at a concrete one.
use revive.Common.{
  ℕ, ◌+◌, ◌≤◌, ◌<◌, ◌≡◌, refl, inl, inr, false, some, List, [], ◌∷◌, arith, ◌==◌, if◌then◌else◌,
  done,
}
use mathlib.Core.List.Memᴰ.{head}
use revive.Hart.State.{TraceMachineState}
use revive.Hart.Exec.{World}
use revive.Space.Call
use revive.Space.Memory.{load_bytes}
use revive.Space.Block.{read, write}
use revive.Space.Block.Round.{IsBlock, read-write}
use revive.Device.Clint.{CoreLocalInterruptor}
use revive.Device.Uart.{new_uart}
use revive.Device.Control.{new_control}
use revive.Machine.Load.{File, header, load_elf, program}
use revive.Machine.Load.Overlay.{image, file_programs}
use revive.Machine.Load.Image.{load_elf-image, AllHaveRoom}
use revive.Machine.Bus.{
  SimulatedMachine, methods, ranges, memory_range, sim_ctrl_base, write_device,
}
use revive.Machine.Bus.Map.{ranges-IsSpace}
use revive.Machine.Bus.Words.{memory_bytes, peek}
use revive.Machine.Run.{check, termination_received, run}
use revive.Machine.Start.{new_machine, construct, IsReady, construct-IsReady}
use revive.Machine.Run.Stops.{StopsBy, run-StopsBy}
use revive.Machine.Run.Keeps.{RunsValid, run-RunsValid}
use revive.Machine.Run.Terminate.{at_cycle, sim_ctrl_term, write_atomic-terminates}

abbrev idle_hart : TraceMachineState
idle_hart = record {
  pc = 0x1000;
  gpr = λ i. 0;
  isa = 0x4;
  priv = 3;
  status = 0;
  inte = 0;
  intp = 0;
  inthw = 0;
  trans = 0;
  perf = λ i. 0;
  csr = λ i. 0;
}

abbrev timer : CoreLocalInterruptor
timer = record { start = 0xe0000000; slots = []; mtime = 0; mtime_cnt = 0; mtime_div = 1 }

abbrev machine : SimulatedMachine
machine = record {
  memory = record { start = 0; store = λ i. 0 };
  control = new_control sim_ctrl_base;
  interruptor = timer;
  uart = new_uart 0xe5000000;
  term = false;
  term_code = 0;
  term_cycle = 0;
  num_cycles = 0;
}

abbrev world : World SimulatedMachine
world = record { hart = idle_hart; space = machine }

abbrev no_count : ℕ → ℕ
no_count n = n

run-StopsBy_example : StopsBy 5 (run no_count 5 5 0x1000 world)
run-StopsBy_example = run-StopsBy no_count 5 0x1000 world (omega arith) (omega arith)

run-RunsValid_example : RunsValid (run no_count 0 3 0x1000 world)
run-RunsValid_example = run-RunsValid no_count 0 3 0x1000 world (λ i. omega arith)

control_start : machine.control.start ≡ sim_ctrl_base
unfolding new_control
control_start = refl

write_atomic-terminates_example :
    (m' : SimulatedMachine) × (Call.write_atomic write_device ranges sim_ctrl_term 4 7 machine
      ≡ done (m', []))
    × (check 0 (at_cycle 1 m') ≡ some (termination_received 7))
write_atomic-terminates_example =
    write_atomic-terminates 0 7 machine control_start (omega arith) (inl refl)

abbrev two_bytes : List ℕ
two_bytes = 7 ∷ 300 ∷ []

abbrev memory_block :
    (addr size : ℕ)
    → addr + size ≤ 0x8000000
    → 0 < size
    → IsBlock methods ranges memory_range addr size
memory_block addr size h n = record {
  space = ranges-IsSpace;
  mapped = head refl;
  held = record { from_start = omega arith; to_end = omega (arith, h) };
  some_bytes = n;
  size_lt = omega (arith, h);
  end_lt = omega arith;
}

read-write_example :
    (m' : SimulatedMachine) × (write methods ranges 0x2000 two_bytes machine ≡ done (m', []))
    × (read methods ranges 0x2000 2 m' ≡ done (7 ∷ 44 ∷ [], m'))
read-write_example =
    read-write methods ranges memory_range memory_bytes 0x2000 two_bytes machine
      (memory_block 0x2000 2 (omega arith) (omega arith))

-- A file of one program, whose three bytes at 84 go to 0x1000.
abbrev small_file : File
small_file i =
    if i == 25
    then 0x10
    else if i == 28
    then 52
    else if i == 42
    then 32
    else if i == 44
    then 1
    else if i == 56
    then 84
    else if i == 61
    then 0x10
    else if i == 68
    then 3
    else if i == 72
    then 8
    else if i == 85
    then 99
    else 0

small_file_fits :
    AllHaveRoom methods ranges memory_range memory_bytes small_file (file_programs small_file)
unfolding header program load_bytes
small_file_fits = (
  record {
    file_fits = inr (memory_block 0x1000 3 (omega arith) (omega arith));
    memory_fits = inr (memory_block 0x1000 8 (omega arith) (omega arith));
  },
  tt,
)

load_elf-image_example :
    (m' : SimulatedMachine) × (load_elf methods ranges (some small_file) machine
      ≡ done (some ((header small_file).elf_entry, m', [])))
    × (peek m' 0x1001 ≡ image small_file (file_programs small_file) (peek machine) 0x1001)
load_elf-image_example =
    load_elf-image methods ranges memory_range memory_bytes small_file 0x1001 machine
      small_file_fits (omega arith) (omega arith)

construct-IsReady_example :
    (m : SimulatedMachine) × (construct 10 (some small_file)
      ≡ done (some ((header small_file).elf_entry, m)))
    × IsReady 10 m
    × (peek m 0x1001 ≡ image small_file (file_programs small_file) (peek (new_machine 10)) 0x1001)
construct-IsReady_example =
    construct-IsReady 10 0x1001 small_file (omega arith) (omega arith) small_file_fits (omega arith)
