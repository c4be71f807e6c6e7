-- ===== src/Firmware/Boot/Tables.antt =====
-- The handlers that the firmware registers.
use revive.Common.{
  ℕ, ◌-◌, ◌^◌, ◌≤◌, ◌<◌, ◌≡◌, ◌≢◌, ◌⊎◌, inl, inr, refl, ap, ◌∙◌, true, ◌||◌, none, some, arith, ltb,
  leb, Bool-cases, panicked,
}
use revive.Hart.Exec.{Host, World}
use revive.Firmware.Platform.{Compiler}
use revive.Firmware.Returns.{
  Returns, Returns-pure, Returns-bind, Returns-then, IsResponsive, Returns-io_write64,
  Returns-csr_clear-mie,
}
use revive.Firmware.Trap.{
  TrapContext, Handlers, put, find_handler, reg_mint_handler, reg_mexcept_handler, dispatch_mtrap,
}
use revive.Firmware.Trap.Dispatch.{
  interrupt_cause, find_handler-exception, find_handler-interrupt, dispatch_none, dispatch_some,
  find_handler-beyond,
}
use revive.Firmware.Timer.{timer_handler, init_timer, clint_mtime_addr}
use revive.Firmware.Ecall.{ecall_handler, init_ecall}
use revive.Firmware.Boot.{no_handlers}

-- The tables of the running firmware.
abbrev pub booted : {S : Type 0} → Host S → Compiler → Handlers S
booted host compiler = record {
  mint_handlers = put (λ _. none) 7 timer_handler;
  mexcept_handlers =
      put (put (λ _. none) 9 (ecall_handler host compiler)) 11 (ecall_handler host compiler);
}

module _ {S : Type 0} (host : Host S) (compiler : Compiler) where
  -- What the tables do with a cause: the environment calls of the supervisor and of the machine
  -- and the machine's timer have their handlers, and any other cause panics.
  pub record Dispatches (t : Handlers S) : Type 0 where
    pub calls :
        (ctxt : TrapContext)
        → (ctxt.cause ≡ 9) ⊎ (ctxt.cause ≡ 11)
        → dispatch_mtrap host compiler t ctxt ≡ ecall_handler host compiler ctxt
    pub timer :
        (ctxt : TrapContext)
        → ctxt.cause ≡ interrupt_cause 7
        → dispatch_mtrap host compiler t ctxt ≡ timer_handler ctxt
    pub others :
        (ctxt : TrapContext) (w : World S)
        → ctxt.cause < 2 ^ 32
        → ctxt.cause ≢ 9
        → ctxt.cause ≢ 11
        → ctxt.cause ≢ interrupt_cause 7
        → dispatch_mtrap host compiler t ctxt w ≡ panicked

  beyond_cases :
      (cause : ℕ)
      → (ltb cause (2 ^ 31) || leb (interrupt_cause 64) cause) ≡ true
      → (cause < 2 ^ 31) ⊎ (interrupt_cause 64 ≤ cause)
  beyond_cases cause e = elim (Bool-cases (ltb cause (2 ^ 31))) [
    | inl low ↦ inl (ground (arith, low))
    | inr high ↦ inr (ground (arith, high, e))
  ]

  call_found :
      (cause : ℕ)
      → (cause ≡ 9) ⊎ (cause ≡ 11)
      → find_handler (booted host compiler) cause ≡ some (ecall_handler host compiler)
  call_found cause (inl e) =
      ap (find_handler (booted host compiler)) e
      ∙ find_handler-exception (booted host compiler) 9 (omega arith)
  call_found cause (inr e) =
      ap (find_handler (booted host compiler)) e
      ∙ find_handler-exception (booted host compiler) 11 (omega arith)

  no_other :
      (cause : ℕ)
      → cause < 2 ^ 32
      → cause ≢ 9
      → cause ≢ 11
      → cause ≢ interrupt_cause 7
      → find_handler (booted host compiler) cause ≡ none
  no_other cause h n9 n11 n7 = elim (Bool-cases (ltb cause 64)) [
    | inl low ↦
        find_handler-exception (booted host compiler) cause (ground (arith, low))
        ∙ ground (arith, n9, n11)
    | inr high ↦ elim (Bool-cases (ltb cause (2 ^ 31) || leb (interrupt_cause 64) cause)) [
      | inl beyond ↦
          find_handler-beyond (booted host compiler) cause h (ground (arith, high))
            (beyond_cases cause beyond)
      | inr between ↦
          let code = cause - 2 ^ 31 in
          let same : cause ≡ interrupt_cause code = ground (arith, between) in
          let low : code < 64 = ground (arith, between) in
          ap (find_handler (booted host compiler)) same
          ∙ find_handler-interrupt (booted host compiler) code low
          ∙ ground (arith, n7, same)
    ]
  ]

  pub booted-Dispatches : Dispatches (booted host compiler)
  booted-Dispatches = record {
    calls = λ ctxt c.
        dispatch_some host compiler (booted host compiler) ctxt (ecall_handler host compiler)
          (call_found ctxt.cause c);
    timer = λ ctxt c. dispatch_some host compiler (booted host compiler) ctxt timer_handler (
        ap (find_handler (booted host compiler)) c
        ∙ find_handler-interrupt (booted host compiler) 7 (omega arith));
    others = λ ctxt w h n9 n11 n7.
        dispatch_none host compiler (booted host compiler) ctxt (no_other ctxt.cause h n9 n11 n7) w;
  }

module _ {S : Type 0} (Ready : S → Type 0) (host : Host S) (compiler : Compiler) where
  pub Returns-init_ecall :
      Returns Ready (init_ecall host compiler no_handlers) (λ t.
        t ≡ record (no_handlers) { mexcept_handlers = (booted host compiler).mexcept_handlers })
  unfolding init_ecall reg_mexcept_handler
  Returns-init_ecall =
      Returns-bind Ready
        (λ t. t ≡ record (no_handlers) {
          mexcept_handlers = put (λ _. none) 9 (ecall_handler host compiler);
        })
        (λ t.
          t ≡ record (no_handlers) { mexcept_handlers = (booted host compiler).mexcept_handlers })
        _ _ (Returns-pure Ready _ _ refl)
        (λ t e. Returns-pure Ready _ _ (
          ap
            (λ (t : Handlers S). record t {
              mexcept_handlers = put t.mexcept_handlers 11 (ecall_handler host compiler);
            })
            e))

  pub Returns-init_timer :
      (r : IsResponsive Ready host) (t : Handlers S)
      → t ≡ record (no_handlers) { mexcept_handlers = (booted host compiler).mexcept_handlers }
      → Returns Ready (init_timer host compiler t) (λ t'. t' ≡ booted host compiler)
  unfolding init_timer reg_mint_handler
  Returns-init_timer r t e =
      let P = λ (t' : Handlers S). t' ≡ booted host compiler in
      Returns-then Ready P _ _ (Returns-csr_clear-mie Ready (2 ^ 7)) (
        Returns-then Ready P _ _
          (Returns-io_write64 Ready host compiler clint_mtime_addr 0 r.time_low r.time_high)
          (Returns-pure Ready P _ (
            ap
              (λ (t : Handlers S). record t { mint_handlers = put t.mint_handlers 7 timer_handler })
              e)))
