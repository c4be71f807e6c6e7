-- ===== src/Hart/Cycle/Keeps.antt =====
-- A cycle keeps a hart well formed.
use revive.Common.{ℕ, zero, suc, ◌+◌, ◌^◌, ◌<◌, ◌≡◌, arith, u64, done, OnDone-get}
use revive.Hart.State.{TraceMachineState, update}
use revive.Hart.Valid.{IsValid, update-lt}
use revive.Hart.State.{update}
use revive.Hart.Trap.{interrupt}
use revive.Hart.Trap.Total.{interrupt-IsValid}
use revive.Hart.Exec.{Host, World}
use revive.Hart.Exec.Keeps.{
  Keeps, Any, IsHost, Keeps-fail, Keeps-bind, Keeps-if, Keeps-get_hart, Keeps-modify, Keeps-attempt,
}
use revive.Hart.Access.Keeps.{fetch-Keeps}
use revive.Hart.Execute.Base.Keeps.{execute_g-Keeps}
use revive.Hart.Execute.Compressed.Keeps.{execute_q0-Keeps, execute_q1-Keeps, execute_q2-Keeps}
use revive.Hart.Cycle.{count, execute, cycle, cycles}

perf-IsValid :
    (s : TraceMachineState) (perf : ℕ → ℕ)
    → IsValid s
    → ((i : ℕ) → perf i < 2 ^ 64)
    → IsValid (record s { perf = perf })
perf-IsValid s perf v h = record {
  pc_lt = v.pc_lt;
  gpr_lt = v.gpr_lt;
  gpr_zero = v.gpr_zero;
  isa_lt = v.isa_lt;
  priv_le = v.priv_le;
  status_lt = v.status_lt;
  inte_lt = v.inte_lt;
  intp_lt = v.intp_lt;
  inthw_lt = v.inthw_lt;
  trans_lt = v.trans_lt;
  perf_lt = h;
  csr_lt = v.csr_lt;
}

count-IsValid : (s : TraceMachineState) → IsValid s → IsValid (count s)
unfolding count
count-IsValid s v = perf-IsValid s _ v (
    update-lt (update s.perf 0 (u64 (s.perf 0 + 1))) 2 _ (2 ^ 64)
      (update-lt s.perf 0 _ (2 ^ 64) v.perf_lt (omega arith)) (omega arith))

module _ {S : Type 0} (host : Host S) (good : IsHost host) where
  execute-Keeps : (instr : ℕ) → Keeps Any (execute host instr)
  unfolding execute
  execute-Keeps instr = Keeps-bind _ _ Keeps-get_hart λ s v.
      search
        (
          Keeps-if, Keeps-fail, execute_g-Keeps, execute_q0-Keeps, execute_q1-Keeps,
          execute_q2-Keeps,
        )
        depth 12

  pub cycle-Keeps : Keeps Any (cycle host)
  unfolding cycle
  cycle-Keeps = Keeps-bind _ _ (fetch-Keeps host) λ instr _.
      Keeps-bind _ _ (execute-Keeps instr.0) λ _ _.
        Keeps-bind _ _ (Keeps-modify count count-IsValid)
          λ _ _. Keeps-attempt interrupt interrupt-IsValid

  cycles-Keeps : (num : ℕ) → Keeps Any (cycles host num)
  unfolding cycles
  cycles-Keeps zero = Keeps-modify _ (λ s v. v)
  cycles-Keeps (suc num) = Keeps-bind _ _ cycle-Keeps (λ _ _. cycles-Keeps num)

-- With a host whose writes send only words of their width, any number of cycles that do not
-- panic takes a well-formed hart to a well-formed hart: x0 holds 0, every register fits its
-- width, and the level is at most 3.
pub cycles-IsValid :
    {S : Type 0} (host : Host S) (num : ℕ) (w w' : World S)
    → IsHost host
    → IsValid w.hart
    → cycles host num w ≡ done (tt, w')
    → IsValid w'.hart
cycles-IsValid host num w w' good v e =
    (OnDone-get (tt, w') ((cycles-Keeps host good num).at w v) e).1
