-- ===== src/Firmware/Trap/Dispatch.antt =====
-- Which handler a cause reaches.
use revive.Common.{
  ℕ, ◌+◌, ◌-◌, ◌*◌, ◌/◌, ◌^◌, ◌≤◌, ◌<◌, ◌≡◌, ◌⊎◌, inl, inr, refl, true, false, none, some, List, [],
  ◌∷◌, arith, ltb, u32, Outcome, done, panicked,
}
use revive.Hart.Exec.{Host, World, M, fail, ◌>>=◌, ◌>>◌}
use revive.Firmware.Format.{Arg, number}
use revive.Firmware.Platform.{Compiler, panic, printf, sim_term}
use revive.Firmware.Trap.{TrapContext, TrapHandler, Handlers, find_handler, dispatch_mtrap, unable}

-- What always panics does so after anything else.
then_panicked :
    {S A B : Type 0} (m : M S A) (f : A → M S B)
    → ((a : A) (w : World S) → f a w ≡ panicked)
    → (w : World S) → (m >>= f) w ≡ panicked
unfolding ◌>>=◌
then_panicked {S} {A} {B} m f h w = go (m w)
  where
    go :
        (o : Outcome (A × World S))
        → (elim o [ done (a, w') ↦ f a w' | panicked ↦ panicked ]) ≡ panicked
    go (done (a, w')) = h a w'
    go panicked = refl

panic-panicked :
    {S A : Type 0} (host : Host S) (compiler : Compiler) (fmt : List ℕ) (args : List Arg)
    (w : World S)
    → panic host {A = A} compiler fmt args w ≡ panicked
unfolding panic
panic-panicked host compiler fmt args =
    then_panicked (printf host compiler fmt args) (λ _. sim_term host (2 ^ 32 - 1) >> fail)
      (λ _. then_panicked (sim_term host (2 ^ 32 - 1)) (λ _. fail) (λ _ w. unfold fail in refl))

-- A cause is an exception's code, or an interrupt's with the highest bit set.
abbrev pub interrupt_cause : ℕ → ℕ
interrupt_cause code = 2 ^ 31 + code

module _ {S : Type 0} (t : Handlers S) (code : ℕ) where
  pub find_handler-exception : code < 64 → find_handler t code ≡ t.mexcept_handlers code
  unfolding find_handler
  find_handler-exception h =
      let kept : u32 (code * 2) / 2 ≡ code = omega (arith, h) in
      let low : ltb code 64 ≡ true = ground (arith, h) in
      let no_int : code / 2 ^ 31 ≡ 0 = omega (arith, h) in rw (find_handler, kept, no_int, low) refl

  pub find_handler-interrupt :
      code < 64 → find_handler t (interrupt_cause code) ≡ t.mint_handlers code
  unfolding find_handler
  find_handler-interrupt h =
      let kept : u32 (interrupt_cause code * 2) / 2 ≡ code = omega (arith, h) in
      let low : ltb code 64 ≡ true = ground (arith, h) in
      let int : interrupt_cause code / 2 ^ 31 ≡ 1 = omega (arith, h) in
      rw (find_handler, kept, int, low) refl

-- The tables have no entry for another cause.
pub find_handler-beyond :
    {S : Type 0} (t : Handlers S) (mcause : ℕ)
    → mcause < 2 ^ 32
    → 64 ≤ mcause
    → (mcause < 2 ^ 31) ⊎ (interrupt_cause 64 ≤ mcause)
    → find_handler t mcause ≡ none
unfolding find_handler
find_handler-beyond t mcause h high (inl except) =
    let kept : u32 (mcause * 2) / 2 ≡ mcause = omega (arith, except) in
    let out : ltb mcause 64 ≡ false = ground (arith, high) in
    let no_int : mcause / 2 ^ 31 ≡ 0 = omega (arith, except) in
    rw (find_handler, kept, no_int, out) refl
find_handler-beyond t mcause h high (inr interrupt) =
    let kept : u32 (mcause * 2) / 2 ≡ mcause - 2 ^ 31 = omega (arith, interrupt, h) in
    let out : ltb (mcause - 2 ^ 31) 64 ≡ false = ground (arith, interrupt) in
    let int : mcause / 2 ^ 31 ≡ 1 = omega (arith, interrupt, h) in
    rw (find_handler, kept, int, out) refl

-- A cause with no handler panics.
pub dispatch_none :
    {S : Type 0} (host : Host S) (compiler : Compiler) (t : Handlers S) (ctxt : TrapContext)
    → find_handler t ctxt.cause ≡ none
    → (w : World S) → dispatch_mtrap host compiler t ctxt w ≡ panicked
unfolding dispatch_mtrap
dispatch_none host compiler t ctxt e w =
    rw (dispatch_mtrap, e) (panic-panicked host compiler unable (number ctxt.cause ∷ []) w)

pub dispatch_some :
    {S : Type 0} (host : Host S) (compiler : Compiler) (t : Handlers S) (ctxt : TrapContext)
    (handler : TrapHandler S)
    → find_handler t ctxt.cause ≡ some handler
    → dispatch_mtrap host compiler t ctxt ≡ handler ctxt
unfolding dispatch_mtrap
dispatch_some host compiler t ctxt handler e = rw (dispatch_mtrap, e) refl
