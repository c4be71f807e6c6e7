-- ===== src/Device/Clint/Line.antt =====
-- The lines of the timer's interrupt: a cycle raises and clears them by the comparators.
use revive.Common.{
  ℕ, zero, suc, ◌+◌, ◌-◌, ◌/◌, ◌%◌, ◌^◌, ◌≤◌, ◌<◌, bit_and, bit_or, ◌≡◌, refl, sym, ap, ◌∙◌, ◌≢◌,
  ◌↔◌, ◌⊎◌, inl, inr, true, false, ◌&&◌, some, List, [], ◌∷◌, ◌++◌, arith, ltb, leb, ◌==◌,
  if◌then◌else◌, Bool-cases, u64, not32, if_holds, get_elem?,
}
use mathlib.Core.Path.{subst}
use mathlib.Core.Option.{some-injective}
use revive.Common.Bits.Masks.{bit_and-digit, bit_or-digit}
use revive.Hart.State.{Signal, signal, TraceMachineState}
use revive.Hart.Exec.{signals}
use revive.Device.Clint.{
  CoreTimer, CoreLocalInterruptor, Call, cycle_slot, cycle_slots, advance, cycle, int_machine_timer,
}

-- The calls that one driver gets.
unfoldable pub calls_to : ℕ → List Call → List Signal
calls_to core [] = []
calls_to core (c ∷ calls) =
    if c.to == core then c.call ∷ calls_to core calls else calls_to core calls

-- The cores are those of the drivers `k`, `k + 1` and so on.
abbrev pub IsNumbered : ℕ → List CoreTimer → Type 0
IsNumbered k [] = Unit
IsNumbered k (t ∷ slots) = (t.core ≡ k) × IsNumbered (k + 1) slots

-- The line of the timer's interrupt at a hart.
abbrev pub timer_line : TraceMachineState → ℕ
timer_line s = s.inthw / 128 % 2

-- The comparator is enabled, or was never written, or has raised the line.
abbrev pub IsArmed : ℕ → CoreTimer → TraceMachineState → Type 0
IsArmed mtime t s =
    (t.mtimecmp_enabled ≡ true)
    ⊎ ((t.mtimecmp ≡ 2 ^ 64 - 1) ⊎ ((t.mtimecmp ≤ mtime) × (timer_line s ≡ 1)))

-- A hart sees the time, and the line of the comparator `t` is up when the time has reached it.
pub record ShowsTime (mtime : ℕ) (t : CoreTimer) (s : TraceMachineState) : Type 0 where
  pub line_iff : (timer_line s ≡ 1) ↔ (t.mtimecmp ≤ mtime)
  pub time_shown : s.perf 1 ≡ mtime
  pub armed : IsArmed mtime t s

fire_up : (w : ℕ) → bit_or w int_machine_timer / 128 % 2 ≡ 1
fire_up w = omega (arith, bit_or-digit 7 w 128)

clear_down : (w : ℕ) → bit_and w (not32 int_machine_timer) / 128 % 2 ≡ 0
clear_down w = omega (arith, bit_and-digit 7 w (2 ^ 32 - 1 - 128))

own_test : (k : ℕ) → (k == k) ≡ true
own_test k = ground arith

-- The signals of one comparator, whose core they go to.
module _ (mtime : ℕ) (t : CoreTimer) where
  unfoldable own_signals : List Signal
  own_signals = calls_to t.core (cycle_slot mtime t).1

  cycle_slot-ShowsTime :
      (s : TraceMachineState) (before : ℕ)
      → before ≤ mtime
      → mtime + 1 < 2 ^ 64
      → IsArmed before t s
      → ShowsTime mtime (cycle_slot mtime t).0 (signals own_signals s)
  unfolding own_signals cycle_slot calls_to signals signal
  cycle_slot-ShowsTime s before b h a =
      let P : CoreTimer × List Call → Type 0 =
        λ r. ShowsTime mtime r.0 (signals (calls_to t.core r.1) s) in
      let own = own_test t.core in
      if_holds P (t.mtimecmp_enabled && leb t.mtimecmp mtime) _ _
        (λ e. rw own record {
          line_iff = ground (arith, fire_up s.inthw);
          time_shown = omega arith;
          armed = ground (arith, fire_up s.inthw);
        })
        (λ e.
          if_holds P (ltb mtime t.mtimecmp) _ _
            (λ f. rw own record {
              line_iff = ground (arith, clear_down s.inthw);
              time_shown = omega arith;
              armed = ground (arith, a);
            })
            (λ f. rw own record {
              line_iff = ground (arith, a);
              time_shown = omega arith;
              armed = ground (arith, a);
            }))

  cycle_slot-mtimecmp : (cycle_slot mtime t).0.mtimecmp ≡ t.mtimecmp
  unfolding cycle_slot
  cycle_slot-mtimecmp = ground arith

pub calls_to-append :
    (core : ℕ) (a b : List Call) → calls_to core (a ++ b) ≡ calls_to core a ++ calls_to core b
unfolding calls_to
calls_to-append core [] b = refl
calls_to-append core (c ∷ a) b =
    let rest = calls_to-append core a b in
    elim (Bool-cases (c.to == core)) [
      | inl e ↦ rw e (ap (λ cs. c.call ∷ cs) rest)
      | inr e ↦ rw e rest
    ]

-- A comparator calls no driver but its own.
cycle_slot-others :
    (mtime core : ℕ) (t : CoreTimer)
    → (t.core == core) ≡ false
    → calls_to core (cycle_slot mtime t).1 ≡ []
unfolding cycle_slot calls_to
cycle_slot-others mtime core t e =
    let P : CoreTimer × List Call → Type 0 = λ r. calls_to core r.1 ≡ [] in
    if_holds P (t.mtimecmp_enabled && leb t.mtimecmp mtime) _ _ (λ _. rw e refl)
      (λ _. if_holds P (ltb mtime t.mtimecmp) _ _ (λ _. rw e refl) (λ _. rw e refl))

cycle_slots-below :
    (mtime k core : ℕ) (slots : List CoreTimer)
    → core < k
    → IsNumbered k slots
    → calls_to core (cycle_slots mtime slots).1 ≡ []
unfolding cycle_slots calls_to
cycle_slots-below mtime k core [] h n = refl
cycle_slots-below mtime k core (t ∷ slots) h n =
    let own = cycle_slot-others mtime core t (ground (arith, n.0)) in
    let rest = cycle_slots-below mtime (k + 1) core slots (omega (arith, h)) n.1 in
    calls_to-append core (cycle_slot mtime t).1 (cycle_slots mtime slots).1 ∙ rw (own, rest) refl

append-nil : (xs : List Signal) → xs ++ [] ≡ xs
append-nil [] = refl
append-nil (x ∷ xs) = ap (λ t. x ∷ t) (append-nil xs)

-- The driver of comparator `i` gets the calls of that comparator.
cycle_slots_at :
    (mtime k i : ℕ) (slots : List CoreTimer) (t : CoreTimer)
    → IsNumbered k slots
    → get_elem? slots i ≡ some t
    → (calls_to (k + i) (cycle_slots mtime slots).1 ≡ own_signals mtime t)
      × (get_elem? (cycle_slots mtime slots).0 i ≡ some (cycle_slot mtime t).0)
unfolding cycle_slots own_signals
cycle_slots_at mtime k i [] t n e = cc
cycle_slots_at mtime k zero (x ∷ slots) t n e =
    let p : x ≡ t = some-injective x t e in
    let rest = cycle_slots-below mtime (k + 1) k slots (omega arith) n.1 in
    let to : k + 0 ≡ k = omega arith in
    let core : k ≡ x.core = sym n.0 in
    let all =
      calls_to-append k (cycle_slot mtime x).1 (cycle_slots mtime slots).1
      ∙ rw rest (append-nil (calls_to k (cycle_slot mtime x).1)) in
    (
      subst (λ y. calls_to (k + 0) (cycle_slots mtime (x ∷ slots)).1 ≡ own_signals mtime y) p
          (rw to (all ∙ ap (λ z. calls_to z (cycle_slot mtime x).1) core)),
      ap (λ y. some (cycle_slot mtime y).0) p,
    )
cycle_slots_at mtime k (suc i) (x ∷ slots) t n e =
    let rest = cycle_slots_at mtime (k + 1) i slots t n.1 e in
    let own = cycle_slot-others mtime (k + suc i) x (ground (arith, n.0)) in
    let next : k + 1 + i ≡ k + suc i = omega arith in
    (
      calls_to-append (k + suc i) (cycle_slot mtime x).1 (cycle_slots mtime slots).1
          ∙ rw own (rw next at rest.0),
      rest.1,
    )

-- What the divider does to the time and to the comparators.
record Later (c c' : CoreLocalInterruptor) : Type 0 where
  mtime_le : c.mtime ≤ c'.mtime
  mtime_next : c'.mtime ≤ c.mtime + 1
  slots_kept : c'.slots ≡ c.slots

advance-Later : (c : CoreLocalInterruptor) → c.mtime + 1 < 2 ^ 64 → Later c (advance c)
unfolding advance
advance-Later c h =
    if_holds (Later c) (c.mtime_div == 1) _ _
      (λ _. record { mtime_le = omega arith; mtime_next = omega arith; slots_kept = refl })
      (λ _.
        if_holds (Later c) (leb c.mtime_div (u64 (c.mtime_cnt + 1))) _ _
          (λ _. record { mtime_le = omega arith; mtime_next = omega arith; slots_kept = refl })
          (λ _. record { mtime_le = omega arith; mtime_next = omega arith; slots_kept = refl }))

-- If the drivers of the interruptor are numbered in their order, the divisor is not 0 and the
-- time is 2 below its wrap, then after a cycle a hart that takes the calls to its driver sees
-- the new time, and its timer line is up exactly if the time has reached its comparator. Before
-- the cycle the comparator was enabled, or never written, or had been reached with the line up;
-- it is so again.
pub cycle-ShowsTime :
    (c : CoreLocalInterruptor) (i : ℕ) (t : CoreTimer) (s : TraceMachineState)
    → c.mtime + 2 < 2 ^ 64
    → c.mtime_div ≢ 0
    → IsNumbered 0 c.slots
    → get_elem? c.slots i ≡ some t
    → IsArmed c.mtime t s
    → (t' : CoreTimer) × (get_elem? (cycle c).0.slots i ≡ some t')
      × (t'.mtimecmp ≡ t.mtimecmp)
      × ShowsTime (cycle c).0.mtime t' (signals (calls_to i (cycle c).1) s)
unfolding cycle
cycle-ShowsTime c i t s b d n e a =
    let later = advance-Later c (omega arith) in
    let c' = advance c in
    let z : (c.mtime_div == 0) ≡ false = ground (arith, d) in
    let kept = sym later.slots_kept in
    let own =
      cycle_slots_at c'.mtime 0 i c'.slots t (subst (IsNumbered 0) kept n)
        (subst (λ slots. get_elem? slots i ≡ some t) kept e) in
    let to : 0 + i ≡ i = omega arith in
    let shows =
      cycle_slot-ShowsTime c'.mtime t s c.mtime later.mtime_le (omega (arith, later.mtime_next))
        a in
    rw z (
      (cycle_slot c'.mtime t).0,
      own.1,
      cycle_slot-mtimecmp c'.mtime t,
      subst (λ calls. ShowsTime c'.mtime (cycle_slot c'.mtime t).0 (signals calls s))
          (sym (rw to at own.0)) shows,
    )
