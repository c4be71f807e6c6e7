-- ===== src/Machine/Run/Keeps.antt =====
-- The run keeps the hart well formed.
use revive.Common.{
  ℕ, zero, suc, ◌+◌, ◌^◌, ◌<◌, ◌&&◌, Option, none, some, List, [], ◌∷◌, ◌++◌, arith, ltb, leb, ◌==◌,
  u64, Outcome, done, panicked, if_holds, OnDone, on_done, on_panicked,
}
use revive.Hart.Valid.{IsValid, SignalFits, reset-IsValid}
use revive.Hart.Exec.{World}
use revive.Hart.Exec.Keeps.{AllFit, signals-IsValid, Post, Any}
use revive.Hart.Cycle.{cycle}
use revive.Hart.Cycle.Keeps.{cycle-Keeps}
use revive.Device.Clint.{
  CoreTimer, CoreLocalInterruptor, Call, cycle_slot, cycle_slots, advance, int_machine_timer,
}
use revive.Device.Clint
use revive.Device.Clint.Line.{calls_to}
use revive.Machine.Bus.{SimulatedMachine, bus}
use revive.Machine.Bus.Map.{bus-IsHost}
use revive.Machine.Run.{
  Reason, Run, ended, failed, goes_on, check, iterate, loop, run, cycle_clint, count_cycle,
}

abbrev AllCallsFit : List Call → Type 0
AllCallsFit [] = Unit
AllCallsFit (c ∷ calls) = SignalFits c.call × AllCallsFit calls

AllCallsFit-append : (a b : List Call) → AllCallsFit a → AllCallsFit b → AllCallsFit (a ++ b)
AllCallsFit-append [] b p q = q
AllCallsFit-append (c ∷ a) b p q = (p.0, AllCallsFit-append a b p.1 q)

calls_to-AllFit : (core : ℕ) (calls : List Call) → AllCallsFit calls → AllFit (calls_to core calls)
unfolding calls_to
calls_to-AllFit core [] f = tt
calls_to-AllFit core (c ∷ calls) f =
    let rest = calls_to-AllFit core calls f.1 in
    if_holds AllFit (c.to == core) _ _ (λ _. (f.0, rest)) (λ _. rest)

-- The calls of a cycle of the interruptor fit.
FitCalls : {A : Type 0} → A × List Call → Type 0
FitCalls r = AllCallsFit r.1

cycle_slot-FitCalls : (mtime : ℕ) (t : CoreTimer) → FitCalls (cycle_slot mtime t)
unfolding cycle_slot FitCalls
cycle_slot-FitCalls mtime t =
    if_holds FitCalls (t.mtimecmp_enabled && leb t.mtimecmp mtime) _ _
      (λ _. (tt, (omega arith, tt)))
      (λ _.
        if_holds FitCalls (ltb mtime t.mtimecmp) _ _ (λ _. (tt, (omega arith, tt))) (λ _. (tt, tt)))

cycle_slots-FitCalls : (mtime : ℕ) (slots : List CoreTimer) → FitCalls (cycle_slots mtime slots)
unfolding cycle_slots FitCalls
cycle_slots-FitCalls mtime [] = tt
cycle_slots-FitCalls mtime (t ∷ slots) =
    AllCallsFit-append (cycle_slot mtime t).1 (cycle_slots mtime slots).1
      (cycle_slot-FitCalls mtime t) (cycle_slots-FitCalls mtime slots)

cycle-FitCalls : (c : CoreLocalInterruptor) → FitCalls (Clint.cycle c)
unfolding Clint.cycle FitCalls
cycle-FitCalls c =
    if_holds FitCalls (c.mtime_div == 0) _ _ (λ _. tt)
      (λ _. cycle_slots-FitCalls (advance c).mtime (advance c).slots)

cycle_clint-IsValid : (w : World SimulatedMachine) → IsValid w.hart → IsValid (cycle_clint w).hart
unfolding cycle_clint FitCalls
cycle_clint-IsValid w v =
    let calls = (Clint.cycle w.space.interruptor).1 in
    signals-IsValid (calls_to 0 calls) w.hart v
      (calls_to-AllFit 0 calls (cycle-FitCalls w.space.interruptor))

abbrev HasValidHart : World SimulatedMachine → Type 0
HasValidHart w = IsValid w.hart

-- A run whose hart is well formed, wherever it stands.
pub data RunsValid : Run → Type 0 where
  valid_end :
      (reason : Reason) (w : World SimulatedMachine) → IsValid w.hart → RunsValid (ended reason w)
  valid_so_far : (w : World SimulatedMachine) → IsValid w.hart → RunsValid (goes_on w)
  no_end : RunsValid failed

module _ (shift_count : ℕ → ℕ) where
  iterate-IsValid :
      (n : ℕ) (w : World SimulatedMachine)
      → IsValid w.hart
      → OnDone HasValidHart (iterate shift_count n w)
  unfolding iterate
  iterate-IsValid n w v =
      let start : World SimulatedMachine = record {
        hart = w.hart;
        space = record (w.space) { num_cycles = n };
      } in
      go (cycle (bus shift_count) start)
        ((cycle-Keeps (bus shift_count) (bus-IsHost shift_count)).at start v)
    where
      go :
          (o : Outcome (Unit {0} × World SimulatedMachine))
          → OnDone (Post Any) o
          → OnDone HasValidHart (elim o [
            | done (_, w1) ↦ done (count_cycle n (cycle_clint w1))
            | panicked ↦ panicked
          ])
      go _ (on_done {a = r} p) = on_done (cycle_clint-IsValid r.1 p.1)
      go _ on_panicked = on_panicked

  stop_or_go-RunsValid :
      (o : Option Reason) (w : World SimulatedMachine) (next : Run)
      → IsValid w.hart
      → RunsValid next
      → RunsValid (elim o [ some reason ↦ ended reason w | none ↦ next ])
  stop_or_go-RunsValid none w next v r = r
  stop_or_go-RunsValid (some reason) w next v r = valid_end reason w v

  loop-RunsValid :
      (max_cycles fuel n : ℕ) (w : World SimulatedMachine)
      → IsValid w.hart
      → RunsValid (loop shift_count max_cycles fuel n w)
  unfolding loop
  loop-RunsValid max_cycles zero n w v = valid_so_far w v
  loop-RunsValid max_cycles (suc fuel) n w v =
      go (iterate shift_count n w) (iterate-IsValid n w v)
        (λ w' v'. loop-RunsValid max_cycles fuel (u64 (n + 1)) w' v')
    where
      go :
          (o : Outcome (World SimulatedMachine))
          → OnDone HasValidHart o
          → ((w' : World SimulatedMachine)
              → IsValid w'.hart
              → RunsValid (loop shift_count max_cycles fuel (u64 (n + 1)) w'))
          → RunsValid (elim o [
            | done w' ↦ (elim (check max_cycles w'.space) [
              | some reason ↦ ended reason w'
              | none ↦ loop shift_count max_cycles fuel (u64 (n + 1)) w'
            ])
            | panicked ↦ failed
          ])
      go _ on_panicked ih = no_end
      go _ (on_done {a = w'} v') ih =
          stop_or_go-RunsValid (check max_cycles w'.space) w'
            (loop shift_count max_cycles fuel (u64 (n + 1)) w') v' (ih w' v')

-- A run with any fuel, on the bus of the machine's devices, leaves a well-formed hart where it
-- ends and where it goes on, if the registers that the reset leaves alone held words of 32 bits.
pub run-RunsValid :
    (shift_count : ℕ → ℕ) (max_cycles fuel entry : ℕ) (w : World SimulatedMachine)
    → ((i : ℕ) → w.hart.csr i < 2 ^ 32)
    → RunsValid (run shift_count max_cycles fuel entry w)
unfolding run
run-RunsValid shift_count max_cycles fuel entry w h =
    loop-RunsValid shift_count max_cycles fuel 0 _ (reset-IsValid w.hart entry h)
