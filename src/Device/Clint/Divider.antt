-- ===== src/Device/Clint/Divider.antt =====
-- The divider of the timer: `mtime` counts every `mtime_div` cycles.
use revive.Common.{
  ℕ, zero, suc, ◌+◌, ◌*◌, ◌^◌, ◌≤◌, ◌<◌, ◌≡◌, refl, List, arith, leb, ◌==◌, u64, if_holds,
}
use revive.Device.Clint.{CoreLocalInterruptor, Call, advance, cycle}

-- The counter of the divider is below the divisor, which fits its word.
pub record HasDivider (c : CoreLocalInterruptor) : Type 0 where
  pub div_pos : 0 < c.mtime_div
  pub div_lt : c.mtime_div < 2 ^ 64
  pub cnt_lt : c.mtime_cnt < c.mtime_div

-- The cycles that a state has behind it, as the divider counts them.
abbrev pub elapsed : CoreLocalInterruptor → ℕ
elapsed c = c.mtime * c.mtime_div + c.mtime_cnt

unfoldable pub clint_cycles : ℕ → CoreLocalInterruptor → CoreLocalInterruptor
clint_cycles zero c = c
clint_cycles (suc n) c = clint_cycles n (cycle c).0

record Advanced (c c' : CoreLocalInterruptor) : Type 0 where
  divider : HasDivider c'
  counted : elapsed c' ≡ elapsed c + 1
  div_kept : c'.mtime_div ≡ c.mtime_div
  mtime_le : c'.mtime ≤ c.mtime + 1

suc-mul : (a d : ℕ) → (a + 1) * d ≡ a * d + d
suc-mul a d = grind arith

module _ (c : CoreLocalInterruptor) (h : HasDivider c) (b : c.mtime + 1 < 2 ^ 64) where
  next_mtime : u64 (c.mtime + 1) * c.mtime_div ≡ c.mtime * c.mtime_div + c.mtime_div
  next_mtime =
      let e : u64 (c.mtime + 1) ≡ c.mtime + 1 = omega arith in rw e (suc-mul c.mtime c.mtime_div)

  advance-Advanced : Advanced c (advance c)
  unfolding advance
  advance-Advanced =
      if_holds (Advanced c) (c.mtime_div == 1) _ _
        (λ e. record {
          divider = record { div_pos = h.div_pos; div_lt = h.div_lt; cnt_lt = h.cnt_lt };
          counted = ground (arith, next_mtime);
          div_kept = refl;
          mtime_le = omega arith;
        })
        (λ e.
          if_holds (Advanced c) (leb c.mtime_div (u64 (c.mtime_cnt + 1))) _ _
            (λ f. record {
              divider = record { div_pos = h.div_pos; div_lt = h.div_lt; cnt_lt = h.div_pos };
              counted = ground (arith, next_mtime);
              div_kept = refl;
              mtime_le = omega arith;
            })
            (λ f. record {
              divider = record { div_pos = h.div_pos; div_lt = h.div_lt; cnt_lt = ground arith };
              counted = ground arith;
              div_kept = refl;
              mtime_le = omega arith;
            }))

  cycle-Advanced : Advanced c (cycle c).0
  unfolding cycle
  cycle-Advanced =
      let a = advance-Advanced in
      if_holds (λ (r : CoreLocalInterruptor × List Call). Advanced c r.0) (c.mtime_div == 0) _ _
        (λ e. absurd (ground (arith, h.div_pos)))
        λ e. record {
          divider = record {
            div_pos = a.divider.div_pos;
            div_lt = a.divider.div_lt;
            cnt_lt = a.divider.cnt_lt;
          };
          counted = a.counted;
          div_kept = a.div_kept;
          mtime_le = a.mtime_le;
        }

-- With the counter of the divider below the divisor, and no wrap of the time, after `n` cycles
-- the time in cycles, its divisor times `mtime` plus the counter, has grown by `n`, and the
-- counter is below the divisor again.
pub elapsed-clint_cycles :
    (n : ℕ) (c : CoreLocalInterruptor)
    → HasDivider c
    → c.mtime + n < 2 ^ 64
    → (elapsed (clint_cycles n c) ≡ elapsed c + n) × (HasDivider (clint_cycles n c))
unfolding clint_cycles
elapsed-clint_cycles zero c h b = (omega arith, h)
elapsed-clint_cycles (suc n) c h b =
    let a = cycle-Advanced c h (omega arith) in
    let rest = elapsed-clint_cycles n (cycle c).0 a.divider (omega (arith, a.mtime_le)) in
    (omega (arith, rest.0, a.counted), rest.1)
