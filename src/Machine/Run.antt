-- ===== src/Machine/Run.antt =====
-- `run` and `terminate` (sim/sim.cc), with the driver of sim/trace.cc.
pub mod Stops
pub mod Keeps
pub mod Terminate
use revive.Common.{
  ℕ, zero, suc, ◌+◌, ◌-◌, ◌*◌, ◌/◌, ◌%◌, ◌^◌, ◌≤◌, ◌<◌, bit_and, bit_or, bit_xor, ◌≡◌, refl, sym,
  ap, ◌∙◌, ◌≢◌, ◌↔◌, ◌⊎◌, inl, inr, Bool, true, false, not, xor, ◌&&◌, ◌||◌, Option, none, some,
  List, [], ◌∷◌, ◌++◌, arith, ltb, leb, ◌==◌, ◌!=◌, between, if◌then◌else◌, ==_iff, Bool-cases, u8,
  u16, u32, u64, not32, not64, field, set_field, test_bits, Outcome, done, panicked, OnSome,
  on_none, on_some, OnSome-if, OnSome-test, OnSome-get, if_holds, OnDone, on_done, on_panicked,
  OnDone-get, OnDone-test, OnDone-if, length, get_elem?, set, get_elem?-set_self, get_elem?-set_ne,
  length-append, get_elem?-below, get_elem?-beyond, length-set,
}
use revive.Hart.State.{TraceMachineState, reset}
use revive.Hart.Exec.{World, signals}
use revive.Hart.Cycle.{cycle}
use revive.Device.Clint.Line.{calls_to}
use revive.Device.Clint
use revive.Device.Control
use revive.Machine.Bus.{SimulatedMachine, bus}

-- Why the loop ended: the most cycles were reached, or the guest asked for it.
pub data Reason : Type 0 where
  max_cycle_reached : Reason
  termination_received : (code : ℕ) → Reason

-- How a run stands: it ended, it panicked, or it goes on when the fuel is used up.
pub data Run : Type 0 where
  ended : (reason : Reason) → World SimulatedMachine → Run
  failed : Run
  goes_on : World SimulatedMachine → Run

-- `clint->cycle(numCycles)`, whose calls reach the driver
unfoldable pub cycle_clint : World SimulatedMachine → World SimulatedMachine
cycle_clint w =
    let (c, calls) = Clint.cycle w.space.interruptor in
    record {
      hart = signals (calls_to 0 calls) w.hart;
      space = record (w.space) { interruptor = c };
    }

-- The tests at the end of the body; both drivers' and the interruptor's `cycle` return 0.
unfoldable pub check : ℕ → SimulatedMachine → Option Reason
check max_cycles m =
    if max_cycles != 0 && leb max_cycles m.num_cycles
    then some max_cycle_reached
    else if m.term && leb m.term_cycle m.num_cycles
    then some (termination_received m.term_code)
    else none

abbrev pub count_cycle : ℕ → World SimulatedMachine → World SimulatedMachine
count_cycle num_cycles w = record w {
  space = record (w.space) { num_cycles = u64 (num_cycles + 1) };
}

module _ (shift_count : ℕ → ℕ) where
  -- The body of the loop, to its tests. The count of the cycles is the loop's own.
  unfoldable pub iterate : ℕ → World SimulatedMachine → Outcome (World SimulatedMachine)
  iterate num_cycles w =
      elim (cycle (bus shift_count)
        (record w { space = record (w.space) { num_cycles = num_cycles } })) [
          | done (_, w1) ↦ done (count_cycle num_cycles (cycle_clint w1))
          | panicked ↦ panicked
        ]

  unfoldable pub loop : ℕ → ℕ → ℕ → World SimulatedMachine → Run
  loop max_cycles zero num_cycles w = goes_on w
  loop max_cycles (suc fuel) num_cycles w = elim (iterate num_cycles w) [
    | done w' ↦ (elim (check max_cycles w'.space) [
      | some reason ↦ ended reason w'
      | none ↦ loop max_cycles fuel (u64 (num_cycles + 1)) w'
    ])
    | panicked ↦ failed
  ]

  -- `simCtrl->setPseudoIn(0, 10)`, the reset and the loop from cycle 0
  unfoldable pub run : ℕ → ℕ → ℕ → World SimulatedMachine → Run
  run max_cycles fuel entry w = loop max_cycles fuel 0 record {
    hart = reset w.hart entry;
    space = record (w.space) { control = Control.set_pseudo_in w.space.control 0 10 };
  }
