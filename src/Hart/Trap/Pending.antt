-- ===== src/Hart/Trap/Pending.antt =====
-- Which interrupt `interrupt` (sim/trace.cc) takes.
use mathlib.Core.Path.{subst}
use revive.Common.{
  ℕ, ◌+◌, ◌^◌, ◌≤◌, ◌<◌, bit_or, ◌≡◌, refl, sym, Bool, false, ◌*◌, ◌⊎◌, inl, inr, true, arith,
  Outcome, done, panicked, OnDone, on_done, on_panicked, OnDone-get, OnDone-test,
}
use revive.Common.Bits.{bit_or_fields}
use revive.Hart.State.{TraceMachineState}
use revive.Hart.Valid.{IsValid}
use revive.Hart.Trap.{
  enter_user, enter_supervisor, enter_machine, find_first_int_code, with_code, int_mask_m,
  int_mask_s, int_mask_u, interrupt, machine_takes, supervisor_takes, user_takes,
}
use revive.Hart.Trap.Entry.{
  Entered, enter_user-Entered, enter_supervisor-Entered, enter_machine-Entered,
}
use revive.Hart.Trap.Takeable.{
  handler, Takeable, handler-base, machine-Takeable, supervisor-Takeable, user-Takeable,
}
use revive.Hart.Trap.Priority.{rank, IsFirst, find_first_int_code-IsFirst}

-- The interrupt `code` was taken from `s` to `t`: it may be at the level of `t`, whose trap vector
-- gives the address of `t`, and no interrupt of higher priority may be, nor any at a higher level.
pub record Taken (s : TraceMachineState) (code : ℕ) (t : TraceMachineState) : Type 0 where
  pub takeable : Takeable s code t.priv
  pub entered : Entered s (2 ^ 31 + code) 0 t
  pub at_handler : t.pc ≡ handler (s.csr (0x005 + 0x100 * t.priv)) code
  pub first_code : (j : ℕ) → rank j < rank code → ¬ Takeable s j t.priv
  pub first_level : (j level : ℕ) → j < 32 → t.priv < level → ¬ Takeable s j level

-- No interrupt may be taken at any level.
abbrev pub IsQuiet : TraceMachineState → Type 0
IsQuiet s = (j level : ℕ) → j < 32 → ¬ Takeable s j level

cause_sum : (code : ℕ) → code < 12 → bit_or 0x80000000 code ≡ 2 ^ 31 + code
cause_sum code h = rw (bit_or_fields 31 1 code (omega arith))

-- Nothing may be taken and nothing was, or an interrupt was that may be.
abbrev pub Answered : TraceMachineState → TraceMachineState → Type 0
Answered s t = (IsQuiet s × (t ≡ s)) ⊎ ((code : ℕ) × Taken s code t)

ranked-lt : (j code : ℕ) → rank j < rank code → j < 32
ranked-lt j code h = ground arith

-- The levels are those of the three delegations.
Takeable-level :
    (s : TraceMachineState) (j level : ℕ) (P : ℕ → Type 0)
    → Takeable s j level
    → (Takeable s j 3 → P 3)
    → (Takeable s j 1 → P 1)
    → (Takeable s j 0 → P 0)
    → P level
Takeable-level s j level P t m p u = elim t.delegated [
  | inl (e, _) ↦ subst P (sym e) (m (subst (Takeable s j) e t))
  | inr (inl (e, _, _)) ↦ subst P (sym e) (p (subst (Takeable s j) e t))
  | inr (inr (e, _, _)) ↦ subst P (sym e) (u (subst (Takeable s j) e t))
]

module _ (s : TraceMachineState) (v : IsValid s) where
  OnDone-with_code :
      (mask : ℕ) (enter : ℕ → TraceMachineState)
      → ((code : ℕ) → IsFirst code mask → Taken s code (enter code))
      → OnDone (Answered s) (with_code (find_first_int_code mask) enter)
  OnDone-with_code mask enter h =
      go (find_first_int_code mask) (λ c e. h c (find_first_int_code-IsFirst mask c e))
    where
      go :
          (o : Outcome ℕ)
          → ((c : ℕ) → o ≡ done c → Taken s c (enter c))
          → OnDone (Answered s) (with_code o enter)
      go panicked k = on_panicked
      go (done c) k = on_done (inr (c, k c refl))

  absent : {n : ℕ} → n ≡ 0 → n ≡ 1 → ⊥
  absent e f = omega (arith, e, f)

  untaken : (b : Bool) → b ≡ false → b ≡ true → ⊥
  untaken b f t = ground (arith, f, t)

  no_machine : machine_takes s ≡ false → (j : ℕ) → j < 32 → ¬ Takeable s j 3
  no_machine g j h t = untaken _ g ((machine-Takeable s v j h).1 t).0

  no_supervisor : supervisor_takes s ≡ false → (j : ℕ) → j < 32 → ¬ Takeable s j 1
  no_supervisor g j h t = untaken _ g ((supervisor-Takeable s v j h).1 t).0

  no_user : user_takes s ≡ false → (j : ℕ) → j < 32 → ¬ Takeable s j 0
  no_user g j h t = untaken _ g ((user-Takeable s v j h).1 t).0

  machine-Taken :
      (code : ℕ)
      → machine_takes s ≡ true
      → IsFirst code (int_mask_m s)
      → Taken s code (enter_machine s (bit_or 0x80000000 code) 0 true code)
  unfolding enter_machine
  machine-Taken code g f =
      let h : code < 32 = omega (arith, f.code_lt) in
      rw (cause_sum code f.code_lt) (record {
        takeable = (machine-Takeable s v code h).0 (g, f.is_pending);
        entered = enter_machine-Entered s (2 ^ 31 + code) 0 true code v;
        at_handler = handler-base (s.csr 0x305) code (v.csr_lt 0x305);
        first_code =
            λ j r t. absent (f.above j r) ((machine-Takeable s v j (ranked-lt j code r)).1 t).1;
        first_level = λ j level k above t.
            Takeable-level s j level (λ l. 3 < l → ⊥) t (λ _ q. omega (arith, q))
              (λ _ q. omega (arith, q)) (λ _ q. omega (arith, q)) above;
      })

  supervisor-Taken :
      (code : ℕ)
      → machine_takes s ≡ false
      → supervisor_takes s ≡ true
      → IsFirst code (int_mask_s s)
      → Taken s code (enter_supervisor s (bit_or 0x80000000 code) 0 true code)
  unfolding enter_supervisor
  supervisor-Taken code m g f =
      let h : code < 32 = omega (arith, f.code_lt) in
      let level_le : s.priv ≤ 1 = unfold supervisor_takes in ground (arith, g) in
      rw (cause_sum code f.code_lt) (record {
        takeable = (supervisor-Takeable s v code h).0 (g, f.is_pending);
        entered = enter_supervisor-Entered s (2 ^ 31 + code) 0 true code v level_le;
        at_handler = handler-base (s.csr 0x105) code (v.csr_lt 0x105);
        first_code =
            λ j r t. absent (f.above j r) ((supervisor-Takeable s v j (ranked-lt j code r)).1 t).1;
        first_level = λ j level k above t.
            Takeable-level s j level (λ l. 1 < l → ⊥) t (λ t3 _. no_machine m j k t3)
              (λ _ q. omega (arith, q)) (λ _ q. omega (arith, q)) above;
      })

  user-Taken :
      (code : ℕ)
      → machine_takes s ≡ false
      → supervisor_takes s ≡ false
      → user_takes s ≡ true
      → IsFirst code (int_mask_u s)
      → Taken s code (enter_user s (bit_or 0x80000000 code) 0 true code)
  unfolding enter_user
  user-Taken code m p g f =
      let h : code < 32 = omega (arith, f.code_lt) in
      let level : s.priv ≡ 0 = unfold user_takes in ground (arith, g) in
      rw (cause_sum code f.code_lt) (record {
        takeable = (user-Takeable s v code h).0 (g, f.is_pending);
        entered = enter_user-Entered s (2 ^ 31 + code) 0 true code v level;
        at_handler = handler-base (s.csr 0x005) code (v.csr_lt 0x005);
        first_code =
            λ j r t. absent (f.above j r) ((user-Takeable s v j (ranked-lt j code r)).1 t).1;
        first_level = λ j level k above t.
            Takeable-level s j level (λ l. 0 < l → ⊥) t (λ t3 _. no_machine m j k t3)
              (λ t1 _. no_supervisor p j k t1) (λ _ q. omega (arith, q)) above;
      })

  none-IsQuiet :
      machine_takes s ≡ false → supervisor_takes s ≡ false → user_takes s ≡ false → IsQuiet s
  none-IsQuiet m p u j level k t =
      Takeable-level s j level (λ _. ⊥) t (no_machine m j k) (no_supervisor p j k) (no_user u j k)

  interrupt_answer : OnDone (Answered s) (interrupt s)
  unfolding interrupt
  interrupt_answer =
      OnDone-test (machine_takes s) _ _
        (λ g. OnDone-with_code (int_mask_m s) _ (λ code. machine-Taken code g))
        λ m.
          OnDone-test (supervisor_takes s) _ _
            (λ g. OnDone-with_code (int_mask_s s) _ (λ code. supervisor-Taken code m g))
            λ p.
              OnDone-test (user_takes s) _ _
                (λ g. OnDone-with_code (int_mask_u s) _ (λ code. user-Taken code m p g))
                (λ u. on_done (inl (none-IsQuiet m p u, refl)))

-- If `interrupt` returns from a well-formed hart, either none of the 32 interrupts may be taken
-- at any level, and the hart is left alone; or it enters one that may be, at the address that
-- the trap vector of the level gives for it, with its cause, and none of higher priority may be
-- taken at that level, nor any at a higher level. An interrupt may be taken at a level if it is
-- enabled, raised by software or by its line, and delegated to that level, which is above the
-- current one, or is it with its enable bit set; at the user level that bit is the supervisor's.
pub interrupt-Taken :
    (s t : TraceMachineState)
    → IsValid s
    → interrupt s ≡ done t
    → (IsQuiet s × (t ≡ s)) ⊎ ((code : ℕ) × Taken s code t)
interrupt-Taken s t v e = OnDone-get {P = Answered s} t (interrupt_answer s v) e
