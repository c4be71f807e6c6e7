-- ===== src/Firmware/Returns.antt =====
-- Actions of the firmware that return at the machine's level, with a rule for each way to build
-- one, on a machine whose devices answer.
use revive.Common.{
  ℕ, ◌+◌, ◌/◌, ◌^◌, ◌<◌, ◌≡◌, refl, ◌∙◌, Bool, true, false, List, [], ◌∷◌, arith, if◌then◌else◌, u8,
  u32, done,
}
use revive.Hart.State.{TraceMachineState, Signal, signal, fire, clear, set_mtime}
use revive.Hart.Exec.{Host, World, M, pure, ◌>>=◌, ◌>>◌, load, store, signals}
use revive.Machine.Bus.{sim_uart0_start}
use revive.Firmware.Platform.{
  mie, mip, csr_set, csr_clear, io_write32, io_write64, Compiler, uart_putchar, uart_getchar,
  put_all,
}
use revive.Firmware.Timer.Event.{>>=-done, csr_clear-mie, csr_set-mie, csr_clear-mip, csr_set-mip}
use revive.Firmware.Timer.{clint_mtimecmp_addr, clint_mtime_addr}

-- The hart is at the machine's level, and the devices are ready.
abbrev pub IsReady : {S : Type 0} → (S → Type 0) → World S → Type 0
IsReady Ready w = (w.hart.priv ≡ 3) × Ready w.space

-- From any such state, the action returns in such a state, with a value that has the property.
abbrev pub Returns : {S A : Type 0} → (S → Type 0) → M S A → (A → Type 0) → Type 0
Returns {S} {A} Ready m P =
    (w : World S)
    → IsReady Ready w
    → (a : A) × (w' : World S) × (m w ≡ done (a, w')) × IsReady Ready w' × P a

module _ {S A : Type 0} (Ready : S → Type 0) where
  pub Returns-pure : (P : A → Type 0) (a : A) → P a → Returns Ready (pure a) P
  unfolding pure
  Returns-pure P a p w m = (a, w, refl, m, p)

  pub Returns-bind :
      {B : Type 0} (P : A → Type 0) (Q : B → Type 0) (m : M S A) (f : A → M S B)
      → Returns Ready m P
      → ((a : A) → P a → Returns Ready (f a) Q)
      → Returns Ready (m >>= f) Q
  Returns-bind P Q m f h k w lvl =
      let (a, w1, e, m1, p) = h w lvl in
      let (b, w2, e', m2, q) = k a p w1 m1 in (b, w2, >>=-done m f w a w1 e ∙ e', m2, q)

  pub Returns-if :
      (P : A → Type 0) (b : Bool) (x y : M S A)
      → (b ≡ true → Returns Ready x P)
      → (b ≡ false → Returns Ready y P)
      → Returns Ready (if b then x else y) P
  Returns-if P true x y h k = h refl
  Returns-if P false x y h k = k refl

abbrev pub Anything : {A : Type 0} → A → Type 0
Anything a = Unit {0}

-- An action with no value, before the rest.
pub Returns-then :
    {S B : Type 0} (Ready : S → Type 0) (Q : B → Type 0) (m : M S (Unit {0})) (k : M S B)
    → Returns Ready m Anything
    → Returns Ready k Q
    → Returns Ready (m >> k) Q
Returns-then Ready Q m k h g = Returns-bind Ready Anything Q m (λ _. k) h (λ _ _. g)

module _ {S : Type 0} (Ready : S → Type 0) (mask : ℕ) where
  pub Returns-csr_clear-mie : Returns Ready (csr_clear mie mask) Anything
  Returns-csr_clear-mie w m = (tt, _, csr_clear-mie w m.0 mask, m, tt)

  pub Returns-csr_set-mie : Returns Ready (csr_set mie mask) Anything
  Returns-csr_set-mie w m = (tt, _, csr_set-mie w m.0 mask, m, tt)

  pub Returns-csr_clear-mip : Returns Ready (csr_clear mip mask) Anything
  Returns-csr_clear-mip w m = (tt, _, csr_clear-mip w m.0 mask, m, tt)

  pub Returns-csr_set-mip : Returns Ready (csr_set mip mask) Anything
  Returns-csr_set-mip w m = (tt, _, csr_set-mip w m.0 mask, m, tt)

-- The calls of the devices leave the level alone.
signal-priv : (s : TraceMachineState) (c : Signal) → (signal s c).priv ≡ s.priv
unfolding signal
signal-priv s (fire type) = refl
signal-priv s (clear type) = refl
signal-priv s (set_mtime value) = refl

signals-priv : (cs : List Signal) (s : TraceMachineState) → (signals cs s).priv ≡ s.priv
unfolding signals
signals-priv [] s = refl
signals-priv (c ∷ cs) s = signals-priv cs (signal s c) ∙ signal-priv s c

-- The devices answer what the firmware asks of them: characters of the UART, and the words of the
-- timer and of the comparator.
abbrev pub Accepts : {S : Type 0} → (S → Type 0) → Host S → ℕ → ℕ → Type 0
Accepts {S} Ready host addr size =
    (v : ℕ) (s : S)
    → Ready s
    → (s' : S) × (cs : List Signal) × (host.write_atomic addr size v s ≡ done (s', cs)) × Ready s'

pub record IsResponsive {S : Type 0} (Ready : S → Type 0) (host : Host S) : Type 0 where
  pub putchar : Accepts Ready host sim_uart0_start 1
  pub getchar :
      (s : S)
      → Ready s
      → (v : ℕ) × (s' : S) × (host.read_atomic sim_uart0_start 1 s ≡ done (v, s')) × Ready s'
  pub compare_low : Accepts Ready host clint_mtimecmp_addr 4
  pub compare_high : Accepts Ready host (clint_mtimecmp_addr + 4) 4
  pub time_low : Accepts Ready host clint_mtime_addr 4
  pub time_high : Accepts Ready host (clint_mtime_addr + 4) 4

module _ {S : Type 0} (Ready : S → Type 0) (host : Host S) where
  pub Returns-store :
      (addr size v : ℕ)
      → Accepts Ready host addr size
      → Returns Ready (store host addr size v) Anything
  unfolding store
  Returns-store addr size v h w m =
      let (s', cs, e, ready) = h v w.space m.1 in
      (
        tt,
        record { hart = signals cs w.hart; space = s' },
        rw (store, e) refl,
        (signals-priv cs w.hart ∙ m.0, ready),
        tt,
      )

  pub Returns-io_write64 :
      (compiler : Compiler) (addr v : ℕ)
      → Accepts Ready host addr 4
      → Accepts Ready host (addr + 4) 4
      → Returns Ready (io_write64 host compiler addr v) Anything
  unfolding io_write64 io_write32
  Returns-io_write64 compiler addr v low high =
      let first = Returns-store addr 4 (u32 v) low in
      let second = Returns-store (addr + 4) 4 (u32 (v / 2 ^ 32)) high in
      Returns-if Ready Anything compiler.low_first _ _
        (λ _. Returns-then Ready Anything _ _ first second)
        (λ _. Returns-then Ready Anything _ _ second first)

  module _ (r : IsResponsive Ready host) where
    pub Returns-uart_putchar : (ch : ℕ) → Returns Ready (uart_putchar host ch) Anything
    unfolding uart_putchar
    Returns-uart_putchar ch = Returns-store sim_uart0_start 1 (u8 ch) r.putchar

    pub Returns-put_all : (text : List ℕ) → Returns Ready (put_all host text) Anything
    unfolding put_all
    Returns-put_all [] = Returns-pure Ready Anything tt tt
    Returns-put_all (c ∷ text) =
        Returns-then Ready Anything _ _ (Returns-uart_putchar c) (Returns-put_all text)

    -- A character has 8 bits.
    pub Returns-uart_getchar : Returns Ready (uart_getchar host) (λ ch. ch < 2 ^ 8)
    unfolding uart_getchar
    Returns-uart_getchar =
        Returns-bind Ready Anything (λ ch. ch < 2 ^ 8) (load host sim_uart0_start 1) _
          (λ w m.
            let (v, s', e, ready) = r.getchar w.space m.1 in
            unfold load in (v, record w { space = s' }, rw (load, e) refl, (m.0, ready), tt))
          (λ ch _. Returns-pure Ready (λ ch. ch < 2 ^ 8) (u8 ch) (omega arith))

-- From any ready state the action returns, and its value and last state have the property.
abbrev pub Ends : {S A : Type 0} → (S → Type 0) → M S A → (A → World S → Type 0) → Type 0
Ends {S} {A} Ready m Q =
    (w : World S) → IsReady Ready w → (a : A) × (w' : World S) × (m w ≡ done (a, w')) × Q a w'

-- An action that returns, before a rest that leaves the machine's level.
pub Ends-bind :
    {S A B : Type 0} (Ready : S → Type 0) (P : A → Type 0) (Q : B → World S → Type 0) (m : M S A)
    (f : A → M S B)
    → Returns Ready m P
    → ((a : A) → P a → Ends Ready (f a) Q)
    → Ends Ready (m >>= f) Q
Ends-bind Ready P Q m f h k w lvl =
    let (a, w1, e, m1, p) = h w lvl in
    let (b, w2, e', q) = k a p w1 m1 in (b, w2, >>=-done m f w a w1 e ∙ e', q)

pub Ends-then :
    {S B : Type 0} (Ready : S → Type 0) (Q : B → World S → Type 0) (m : M S (Unit {0})) (k : M S B)
    → Returns Ready m Anything
    → Ends Ready k Q
    → Ends Ready (m >> k) Q
Ends-then Ready Q m k h g = Ends-bind Ready Anything Q m (λ _. k) h (λ _ _. g)
