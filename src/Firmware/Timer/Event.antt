-- ===== src/Firmware/Timer/Event.antt =====
-- What the timer's handler and the next event leave of the interrupts' registers.
use revive.Common.{
  ℕ, ◌/◌, ◌%◌, ◌^◌, ◌<◌, ◌≡◌, refl, ◌∙◌, false, some, arith, ltb, bit_and, bit_or, not32, done,
}
use revive.Common.Bits.Masks.{bit_and-digit, bit_or-digit}
use revive.Hart.State.{TraceMachineState}
use revive.Hart.Csr.{read_csr, write_csr}
use revive.Hart.Trap.{int_mask, int_mask_m, int_mask_s}
use revive.Hart.Exec.{Host, World, M, pure, ◌>>=◌, ◌>>◌, attempt}
use revive.Firmware.Platform.{mie, mip, csr_change, csr_set, csr_clear, io_write64, Compiler}
use revive.Firmware.Trap.{TrapContext}
use revive.Firmware.Timer.{timer_handler, set_timer_event, clint_mtimecmp_addr}

-- Bit `k`.
abbrev pub digit : ℕ → ℕ → ℕ
digit k x = x / 2 ^ k % 2

-- At the machine's level the two registers are read and written.
module _ (s : TraceMachineState) (m : s.priv ≡ 3) where
  level : ltb s.priv 3 ≡ false
  level = ground (arith, m)

  read_mie : read_csr s mie ≡ some s.inte
  unfolding read_csr
  read_mie = rw (read_csr, level) refl

  read_mip : read_csr s mip ≡ some (bit_or s.intp s.inthw)
  unfolding read_csr
  read_mip = rw (read_csr, level) refl

  module _ (v : ℕ) where
    write_mie : write_csr s mie v ≡ some (record s { inte = v })
    unfolding write_csr
    write_mie = rw (write_csr, level) refl

    write_mip : write_csr s mip v ≡ some (record s { intp = v })
    unfolding write_csr
    write_mip = rw (write_csr, level) refl

  pub csr_change-mie : (op : ℕ → ℕ) → csr_change mie op s ≡ done (record s { inte = op s.inte })
  unfolding csr_change
  csr_change-mie op = rw (csr_change, read_mie, write_mie (op s.inte)) refl

  pub csr_change-mip :
      (op : ℕ → ℕ) → csr_change mip op s ≡ done (record s { intp = op (bit_or s.intp s.inthw) })
  unfolding csr_change
  csr_change-mip op = rw (csr_change, read_mip, write_mip (op (bit_or s.intp s.inthw))) refl

-- An action that returns is followed by the rest.
pub >>=-done :
    {S A B : Type 0} (m : M S A) (f : A → M S B) (w : World S) (a : A) (w' : World S)
    → m w ≡ done (a, w')
    → (m >>= f) w ≡ f a w'
unfolding ◌>>=◌
>>=-done m f w a w' e = rw (◌>>=◌, e) refl

-- A hart with one of the two registers changed.
abbrev pub with_mie : {S : Type 0} → World S → ℕ → World S
with_mie w v = record w { hart = record (w.hart) { inte = v } }

abbrev pub with_mip : {S : Type 0} → World S → ℕ → World S
with_mip w v = record w { hart = record (w.hart) { intp = v } }

module _ {S : Type 0} (w : World S) (m : w.hart.priv ≡ 3) (mask : ℕ) where
  pub csr_clear-mie :
      csr_clear mie mask w ≡ done (tt, with_mie w (bit_and w.hart.inte (not32 mask)))
  unfolding csr_clear attempt
  csr_clear-mie = rw (attempt, csr_change-mie w.hart m (λ old. bit_and old (not32 mask))) refl

  pub csr_set-mie : csr_set mie mask w ≡ done (tt, with_mie w (bit_or w.hart.inte mask))
  unfolding csr_set attempt
  csr_set-mie = rw (attempt, csr_change-mie w.hart m (λ old. bit_or old mask)) refl

  pub csr_clear-mip :
      csr_clear mip mask w
      ≡ done (tt, with_mip w (bit_and (bit_or w.hart.intp w.hart.inthw) (not32 mask)))
  unfolding csr_clear attempt
  csr_clear-mip = rw (attempt, csr_change-mip w.hart m (λ old. bit_and old (not32 mask))) refl

  pub csr_set-mip :
      csr_set mip mask w ≡ done (tt, with_mip w (bit_or (bit_or w.hart.intp w.hart.inthw) mask))
  unfolding csr_set attempt
  csr_set-mip = rw (attempt, csr_change-mip w.hart m (λ old. bit_or old mask)) refl

-- What the handler makes of the two registers, bit by bit.
module _ (s : TraceMachineState) (inte pending : ℕ) where
  disabled :
      digit 7 (int_mask_m (record s { inte = bit_and inte (not32 (2 ^ 7)); intp = pending })) ≡ 0
  unfolding int_mask_m int_mask
  disabled =
      let enabled = bit_and inte (not32 (2 ^ 7)) in
      omega (
        arith,
        bit_and-digit 7 (bit_and enabled (bit_or pending s.inthw)) (not32 (s.csr 0x303)),
        bit_and-digit 7 enabled (bit_or pending s.inthw),
        bit_and-digit 7 inte (not32 (2 ^ 7)),
      )

  forwarded :
      digit 5 pending ≡ 1
      → digit 5 (s.csr 0x303) ≡ 1
      → digit 5 (s.csr 0x103) ≡ 0
      → s.csr 0x103 < 2 ^ 32
      → digit 5 (int_mask_s (record s { inte = bit_and inte (not32 (2 ^ 7)); intp = pending }))
        ≡ digit 5 inte
  unfolding int_mask_s int_mask
  forwarded raised delegated kept fits =
      let enabled = bit_and inte (not32 (2 ^ 7)) in
      let mask = bit_and enabled (bit_or pending s.inthw) in
      omega (
        arith,
        bit_and-digit 5 (bit_and mask (s.csr 0x303)) (not32 (s.csr 0x103)),
        bit_and-digit 5 mask (s.csr 0x303),
        bit_and-digit 5 enabled (bit_or pending s.inthw),
        bit_or-digit 5 pending s.inthw,
        bit_and-digit 5 inte (not32 (2 ^ 7)),
      )

-- The handler of the machine's timer, at the machine's level, returns with that interrupt no
-- longer pending for the machine. The supervisor's timer interrupt, if it is delegated to the
-- supervisor and no further, is raised instead, and is pending for the supervisor exactly if it
-- was enabled.
pub timer_handler_forwards :
    {S : Type 0} (w : World S) (ctxt : TrapContext)
    → w.hart.priv ≡ 3
    → digit 5 (w.hart.csr 0x303) ≡ 1
    → digit 5 (w.hart.csr 0x103) ≡ 0
    → w.hart.csr 0x103 < 2 ^ 32
    → (s : TraceMachineState) × (timer_handler ctxt w ≡ done (ctxt, record w { hart = s }))
      × (digit 7 (int_mask_m s) ≡ 0)
      × (digit 5 s.intp ≡ 1)
      × (digit 5 (int_mask_s s) ≡ digit 5 w.hart.inte)
unfolding timer_handler pure
timer_handler_forwards w ctxt m delegated kept fits =
    let w1 = with_mie w (bit_and w.hart.inte (not32 (2 ^ 7))) in
    let pending = bit_or w.hart.intp w.hart.inthw in
    let w2 = with_mip w1 (bit_or pending (2 ^ 5)) in
    let raised : digit 5 (bit_or pending (2 ^ 5)) ≡ 1 =
      omega (arith, bit_or-digit 5 pending (2 ^ 5)) in
    (
      w2.hart,
      >>=-done (csr_clear mie (2 ^ 7)) (λ _. csr_set mip (2 ^ 5) >> pure ctxt) w tt w1
            (csr_clear-mie w m (2 ^ 7))
          ∙ >>=-done (csr_set mip (2 ^ 5)) (λ _. pure ctxt) w1 tt w2 (csr_set-mip w1 m (2 ^ 5)),
      disabled w.hart w.hart.inte (bit_or pending (2 ^ 5)),
      raised,
      forwarded w.hart w.hart.inte (bit_or pending (2 ^ 5)) raised delegated kept fits,
    )

-- If the comparator's store leaves the hart at the machine's level, the next event is set with the
-- supervisor's timer interrupt no longer raised by software, the machine's enabled, and the
-- machine's raised exactly if its line of the hardware is still up.
pub set_timer_event_arms :
    {S : Type 0} (host : Host S) (compiler : Compiler) (mtimecmp : ℕ) (w w1 : World S)
    → io_write64 host compiler clint_mtimecmp_addr mtimecmp w ≡ done (tt, w1)
    → w1.hart.priv ≡ 3
    → (s : TraceMachineState) × (set_timer_event host compiler mtimecmp w
        ≡ done (tt, record w1 { hart = s }))
      × (digit 5 s.intp ≡ 0)
      × (digit 7 s.inte ≡ 1)
      × (digit 7 s.intp ≡ digit 7 w1.hart.inthw)
unfolding set_timer_event
set_timer_event_arms host compiler mtimecmp w w1 e m =
    let hw = w1.hart.inthw in
    let intp1 = bit_and (bit_or w1.hart.intp hw) (not32 (2 ^ 7)) in
    let w2 = with_mip w1 intp1 in
    let intp2 = bit_and (bit_or intp1 hw) (not32 (2 ^ 5)) in
    let w3 = with_mip w2 intp2 in
    let w4 = with_mie w3 (bit_or w3.hart.inte (2 ^ 7)) in
    (
      w4.hart,
      >>=-done (io_write64 host compiler clint_mtimecmp_addr mtimecmp)
            (λ _. csr_clear mip (2 ^ 7) >> (csr_clear mip (2 ^ 5) >> csr_set mie (2 ^ 7))) w tt w1 e
          ∙ >>=-done (csr_clear mip (2 ^ 7)) (λ _. csr_clear mip (2 ^ 5) >> csr_set mie (2 ^ 7)) w1
              tt w2 (csr_clear-mip w1 m (2 ^ 7))
          ∙ >>=-done (csr_clear mip (2 ^ 5)) (λ _. csr_set mie (2 ^ 7)) w2 tt w3
              (csr_clear-mip w2 m (2 ^ 5))
          ∙ csr_set-mie w3 m (2 ^ 7),
      omega (arith, bit_and-digit 5 (bit_or intp1 hw) (not32 (2 ^ 5))),
      omega (arith, bit_or-digit 7 w3.hart.inte (2 ^ 7)),
      omega (
        arith,
        bit_and-digit 7 (bit_or intp1 hw) (not32 (2 ^ 5)),
        bit_or-digit 7 intp1 hw,
        bit_and-digit 7 (bit_or w1.hart.intp hw) (not32 (2 ^ 7)),
      ),
    )
