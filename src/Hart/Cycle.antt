-- ===== src/Hart/Cycle.antt =====
-- `cycle`: fetch, execute, count, take an interrupt.
pub mod Keeps
use revive.Common.{ℕ, zero, suc, ◌+◌, not, ◌==◌, ◌!=◌, if◌then◌else◌, u64}
use revive.Hart.Status.{isa_c}
use revive.Hart.State.{TraceMachineState, update}
use revive.Hart.Encode.{quad}
use revive.Hart.Trap.{interrupt}
use revive.Hart.Exec.{Host, M, fail, ◌>>=◌, ◌>>◌, get_hart, modify, attempt}
use revive.Hart.Access.{fetch}
use revive.Hart.Execute.Base.{execute_g}
use revive.Hart.Execute.Compressed.{execute_q0, execute_q1, execute_q2}

-- `state.perf[0]++; state.perf[2]++;`
unfoldable pub count : TraceMachineState → TraceMachineState
count s =
    let perf = update s.perf 0 (u64 (s.perf 0 + 1)) in
    record s { perf = update perf 2 (u64 (perf 2 + 1)) }

module _ {S : Type 0} (host : Host S) where
  unfoldable pub execute : ℕ → M S (Unit {0})
  execute instr = do
    s ← get_hart
    if quad instr == 0x3
        then execute_g host instr
        else if not (isa_c s.isa != 0)
        then fail
        else if quad instr == 0
        then execute_q0 host instr
        else if quad instr == 1
        then execute_q1 host instr
        else if quad instr == 2
        then execute_q2 host instr
        else fail

  unfoldable pub cycle : M S (Unit {0})
  cycle = do instr ← fetch host; execute instr.0; modify count; attempt interrupt

  -- `num` cycles in a row
  unfoldable pub cycles : ℕ → M S (Unit {0})
  cycles zero = modify (λ s. s)
  cycles (suc num) = do cycle; cycles num
