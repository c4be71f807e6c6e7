-- ===== src/Firmware/Ecall/Serves.antt =====
-- How the environment calls are answered.
use revive.Common.{
  ℕ, ◌^◌, ◌<◌, ◌≡◌, ◌≢◌, ◌↔◌, refl, sym, ◌∙◌, Bool, true, false, ◌&&◌, ◌||◌, arith, leb, ◌==◌, ◌!=◌,
  if◌then◌else◌,
}
use revive.Common.Bits.{bit_and_low}
use revive.Hart.Exec.{Host}
use revive.Firmware.Platform.{Compiler, uart_getchar}
use revive.Firmware.Returns.{
  Returns, Returns-pure, Returns-bind, Returns-if, Returns-then, Anything, IsResponsive,
  Returns-uart_putchar, Returns-uart_getchar, Returns-io_write64, Returns-csr_clear-mip,
  Returns-csr_set-mie,
}
use revive.Firmware.Trap.{TrapContext}
use revive.Firmware.Timer.{set_timer_event, clint_mtimecmp_addr}
use revive.Firmware.Ecall.{
  Answer, sbi_err_not_supported, sbi_ext_base, sbi_ext_timer, sbi_ext_ipi, sbi_ext_rfence,
  sbi_ext_hsm, sbi_ext_legacy_set_timer, sbi_ext_legacy_putchar, sbi_ext_legacy_getchar, get_base,
  not_supported, set_timer, console_putchar, console_getchar, serve_call,
}

-- The calls that the firmware serves: the base functions, the two timers and the console.
abbrev pub is_served : ℕ → ℕ → Bool
is_served ext_id func_id = (ext_id == 0x10 && leb func_id 6) || ext_id == 0x54494d45 || leb ext_id 2

-- The answer says that a call is not supported exactly if it is not served.
abbrev pub Fits : Bool → Answer → Type 0
Fits served answer = (answer.1 ≡ 0) × ((answer.0 ≡ sbi_err_not_supported) ↔ (served ≡ false))

served-Fits : (b : Bool) (err : ℕ) → b ≡ true → err ≢ sbi_err_not_supported → Fits b (err, 0)
served-Fits b err e h = (refl, ((λ f. absurd (h f)), (λ f. absurd (true_false (sym e ∙ f)))))
  where
    true_false : true ≡ false → ⊥
    true_false f = cc

refused-Fits : (b : Bool) → b ≡ false → Fits b (sbi_err_not_supported, 0)
refused-Fits b e = (refl, ((λ _. e), (λ _. refl)))

module _ {S : Type 0} (Ready : S → Type 0) (b : Bool) where
  Returns-get_base : b ≡ true → Returns Ready get_base (Fits b)
  unfolding get_base
  Returns-get_base e =
      Returns-pure Ready (Fits b) (0, 0) (served-Fits b 0 e (λ f. omega (arith, f)))

  Returns-not_supported : b ≡ false → Returns Ready not_supported (Fits b)
  unfolding not_supported
  Returns-not_supported e =
      Returns-pure Ready (Fits b) (sbi_err_not_supported, 0) (refused-Fits b e)

module _ {S : Type 0} (Ready : S → Type 0) (host : Host S) (r : IsResponsive Ready host)
    (compiler : Compiler) where
  pub Returns-set_timer_event : (v : ℕ) → Returns Ready (set_timer_event host compiler v) Anything
  unfolding set_timer_event
  Returns-set_timer_event v =
      Returns-then Ready Anything _ _
        (Returns-io_write64 Ready host compiler clint_mtimecmp_addr v r.compare_low r.compare_high)
        (Returns-then Ready Anything _ _ (Returns-csr_clear-mip Ready (2 ^ 7)) (
          Returns-then Ready Anything _ _ (Returns-csr_clear-mip Ready (2 ^ 5))
            (Returns-csr_set-mie Ready (2 ^ 7))))

  module _ (ctxt : TrapContext) (b : Bool) where
    Returns-set_timer : b ≡ true → Returns Ready (set_timer host compiler ctxt) (Fits b)
    unfolding set_timer
    Returns-set_timer e =
        Returns-then Ready (Fits b) _ _ (Returns-set_timer_event _)
          (Returns-pure Ready (Fits b) (0, 0) (served-Fits b 0 e (λ f. omega (arith, f))))

    Returns-console_putchar : b ≡ true → Returns Ready (console_putchar host ctxt) (Fits b)
    unfolding console_putchar
    Returns-console_putchar e =
        Returns-then Ready (Fits b) _ _
          (Returns-if Ready Anything (ctxt.gpr 10 != 0) _ _
            (λ _. Returns-uart_putchar Ready host r (ctxt.gpr 10))
            (λ _. Returns-pure Ready Anything tt tt))
          (Returns-pure Ready (Fits b) (0, 0) (served-Fits b 0 e (λ f. omega (arith, f))))

    Returns-console_getchar : b ≡ true → Returns Ready (console_getchar host) (Fits b)
    unfolding console_getchar
    Returns-console_getchar e =
        Returns-bind Ready (λ ch. ch < 2 ^ 8) (Fits b) (uart_getchar host) _
          (Returns-uart_getchar Ready host r)
          (λ ch small.
            Returns-pure Ready (Fits b) _
              (served-Fits b _ e (ground (arith, bit_and_low 8 ch, small))))

  -- The calls by their old numbers.
  Returns-legacy :
      (ext_id : ℕ) (ctxt : TrapContext) (b : Bool)
      → b ≡ leb ext_id 2
      → Returns Ready
          (if ext_id == sbi_ext_legacy_set_timer
            then set_timer host compiler ctxt
            else if ext_id == sbi_ext_legacy_putchar
            then console_putchar host ctxt
            else if ext_id == sbi_ext_legacy_getchar
            then console_getchar host
            else not_supported)
          (Fits b)
  Returns-legacy ext_id ctxt b e =
      Returns-if Ready (Fits b) (ext_id == sbi_ext_legacy_set_timer) _ _
        (λ e1. Returns-set_timer ctxt b (ground (arith, e, e1)))
        (λ e1.
          Returns-if Ready (Fits b) (ext_id == sbi_ext_legacy_putchar) _ _
            (λ e2. Returns-console_putchar ctxt b (ground (arith, e, e2)))
            (λ e2.
              Returns-if Ready (Fits b) (ext_id == sbi_ext_legacy_getchar) _ _
                (λ e3. Returns-console_getchar ctxt b (ground (arith, e, e3)))
                (λ e3. Returns-not_supported Ready b (ground (arith, e, e1, e2, e3)))))

  pub Returns-serve_call :
      (ext_id func_id : ℕ) (ctxt : TrapContext)
      → Returns Ready
          (serve_call host compiler ext_id func_id ctxt)
          (Fits (is_served ext_id func_id))
  unfolding serve_call
  Returns-serve_call ext_id func_id ctxt =
      let b = is_served ext_id func_id in
      Returns-if Ready (Fits b) (ext_id == sbi_ext_base) _ _
        (λ e1.
          Returns-if Ready (Fits b) (leb func_id 6) _ _
            (λ e2. Returns-get_base Ready b (ground (arith, e1, e2)))
            (λ e2. Returns-not_supported Ready b (ground (arith, e1, e2))))
        (λ e1.
          Returns-if Ready (Fits b) (ext_id == sbi_ext_timer) _ _
            (λ e2. Returns-set_timer ctxt b (ground (arith, e1, e2)))
            (λ e2.
              Returns-if Ready (Fits b)
                (ext_id == sbi_ext_ipi || ext_id == sbi_ext_rfence || ext_id == sbi_ext_hsm) _ _
                (λ e3. Returns-not_supported Ready b (ground (arith, e1, e2, e3)))
                (λ e3. Returns-legacy ext_id ctxt b (ground (arith, e1, e2)))))
