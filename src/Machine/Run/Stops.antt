-- ===== src/Machine/Run/Stops.antt =====
-- The run loop ends, and why.
use revive.Common.{
  ℕ, zero, suc, ◌+◌, ◌^◌, ◌≤◌, ◌<◌, ◌≡◌, refl, inl, inr, ◌&&◌, Option, none, some, arith, leb, ◌!=◌,
  Bool-cases, u64, Outcome, done, panicked, OnDone, on_done, on_panicked,
}
use revive.Hart.Exec.{World}
use revive.Hart.Cycle.{cycle}
use revive.Machine.Bus.{SimulatedMachine, bus}
use revive.Machine.Run.{
  Reason, max_cycle_reached, Run, ended, failed, check, iterate, loop, run, cycle_clint,
  count_cycle,
}

-- A run that ended before or at the cycle `most`, in the count of the cycles of its end, or
-- panicked.
pub data StopsBy (most : ℕ) : Run → Type 0 where
  by_end :
      (reason : Reason) (w : World SimulatedMachine)
      → w.space.num_cycles ≤ most
      → check most w.space ≡ some reason
      → StopsBy most (ended reason w)
  by_panic : StopsBy most failed

-- The body counts one cycle.
record Counts (n : ℕ) (w : World SimulatedMachine) : Type 0 where
  counted : w.space.num_cycles ≡ u64 (n + 1)

-- Before the most cycles only.
check-none :
    (max_cycles : ℕ) (m : SimulatedMachine)
    → 0 < max_cycles
    → check max_cycles m ≡ none
    → m.num_cycles < max_cycles
unfolding check
check-none max_cycles m z e = elim (Bool-cases (max_cycles != 0 && leb max_cycles m.num_cycles)) [
  | inl t ↦ absurd (some_none (rw t at e))
  | inr t ↦ ground (arith, t, z)
]
  where
    some_none : some max_cycle_reached ≡ none → ⊥
    some_none e = cc

module _ (shift_count : ℕ → ℕ) (max_cycles : ℕ) where
  iterate-Counts :
      (n : ℕ) (w : World SimulatedMachine) → OnDone (Counts n) (iterate shift_count n w)
  unfolding iterate
  iterate-Counts n w = go (
      cycle (bus shift_count) record { hart = w.hart; space = record (w.space) { num_cycles = n } })
    where
      go :
          (o : Outcome (Unit {0} × World SimulatedMachine))
          → OnDone (Counts n) (elim o [
            | done (_, w1) ↦ done (count_cycle n (cycle_clint w1))
            | panicked ↦ panicked
          ])
      go (done (x, w1)) = on_done record { counted = refl }
      go panicked = on_panicked

  module _ (z : 0 < max_cycles) where
    stop_or_go :
        (n fuel : ℕ) (w : World SimulatedMachine) (next : Run) (o : Option Reason)
        → w.space.num_cycles ≤ max_cycles
        → check max_cycles w.space ≡ o
        → (o ≡ none → StopsBy max_cycles next)
        → StopsBy max_cycles (elim o [ some reason ↦ ended reason w | none ↦ next ])
    stop_or_go n fuel w next none l e h = h refl
    stop_or_go n fuel w next (some reason) l e h = by_end reason w l e

    loop-StopsBy :
        (fuel n : ℕ) (w : World SimulatedMachine)
        → n + fuel ≡ max_cycles
        → 0 < fuel
        → max_cycles < 2 ^ 64
        → StopsBy max_cycles (loop shift_count max_cycles fuel n w)
    unfolding loop
    loop-StopsBy zero n w e f b = absurd (omega (arith, f))
    loop-StopsBy (suc fuel) n w e f b =
        go (iterate shift_count n w) (iterate-Counts n w)
          (λ w' p. loop-StopsBy fuel (u64 (n + 1)) w' (omega (arith, e, b)) p b)
      where
        go :
            (o : Outcome (World SimulatedMachine))
            → OnDone (Counts n) o
            → ((w' : World SimulatedMachine)
                → 0 < fuel
                → StopsBy max_cycles (loop shift_count max_cycles fuel (u64 (n + 1)) w'))
            → StopsBy max_cycles (elim o [
              | done w' ↦ (elim (check max_cycles w'.space) [
                | some reason ↦ ended reason w'
                | none ↦ loop shift_count max_cycles fuel (u64 (n + 1)) w'
              ])
              | panicked ↦ failed
            ])
        go _ on_panicked ih = by_panic
        go _ (on_done {a = w'} c) ih =
            stop_or_go n fuel w' (loop shift_count max_cycles fuel (u64 (n + 1)) w')
              (check max_cycles w'.space) (omega (arith, c.counted, e, b)) refl
              (λ g. ih w' (omega (arith, check-none max_cycles w'.space z g, c.counted, e, b)))

-- With a number of the most cycles above 0 and below 2 ^ 64, a run panics or ends within that
-- many iterations, for a reason that the tests at the end of the loop give and with a count of
-- the cycles of at most that number; it never goes on.
pub run-StopsBy :
    (shift_count : ℕ → ℕ) (max_cycles entry : ℕ) (w : World SimulatedMachine)
    → 0 < max_cycles
    → max_cycles < 2 ^ 64
    → StopsBy max_cycles (run shift_count max_cycles max_cycles entry w)
unfolding run
run-StopsBy shift_count max_cycles entry w z b =
    loop-StopsBy shift_count max_cycles z max_cycles 0 _ (omega arith) z b
