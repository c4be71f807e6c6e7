-- ===== src/Hart/Exec.antt =====
-- The driver's methods as actions on a hart and on what stands behind the physical address space.
pub mod Keeps
pub mod Yields
use revive.Common.{
  ℕ, zero, suc, ◌+◌, ◌-◌, ◌*◌, ◌/◌, ◌%◌, ◌^◌, ◌≤◌, ◌<◌, bit_and, bit_or, bit_xor, ◌≡◌, refl, sym,
  ap, ◌∙◌, ◌≢◌, ◌↔◌, ◌⊎◌, inl, inr, Bool, true, false, not, xor, ◌&&◌, ◌||◌, Option, none, some,
  List, [], ◌∷◌, ◌++◌, arith, ltb, leb, ◌==◌, ◌!=◌, between, if◌then◌else◌, ==_iff, Bool-cases, u8,
  u16, u32, u64, not32, not64, field, set_field, test_bits, Outcome, done, panicked, OnSome,
  on_none, on_some, OnSome-if, OnSome-test, OnSome-get, if_holds, OnDone, on_done, on_panicked,
  OnDone-get, OnDone-test,
}
use revive.Hart.State.{TraceMachineState, Signal, signal}

-- What the driver calls and does not define. `read_atomic` and `write_atomic` are those of
-- `PhysicalAddressSpace`; a write may call `fire`, `clear` or `set_mtime` of the hart.
-- `shift_count` is the count that a compiled shift uses for its operand.
pub record Host (S : Type 0) : Type 0 where
  pub read_atomic : ℕ → ℕ → S → Outcome (ℕ × S)
  pub write_atomic : ℕ → ℕ → ℕ → S → Outcome (S × List Signal)
  pub shift_count : ℕ → ℕ

pub record World (S : Type 0) : Type 0 where
  pub hart : TraceMachineState
  pub space : S

abbrev pub M : Type 0 → Type 0 → Type 0
M S A = World S → Outcome (A × World S)

-- What an access gives: a value, or the code of a fault.
pub data Access : Type 0 where
  granted faulted : ℕ → Access

-- The calls of one write, in their order.
unfoldable pub signals : List Signal → TraceMachineState → TraceMachineState
signals [] s = s
signals (c ∷ cs) s = signals cs (signal s c)

module _ {S : Type 0} where
  unfoldable pub pure : {A : Type 0} → A → M S A
  pure a w = done (a, w)

  unfoldable pub fail : {A : Type 0} → M S A
  fail w = panicked

  infixl 5 ◌>>=◌ ◌>>◌
  unfoldable pub ◌>>=◌ : {A B : Type 0} → M S A → (A → M S B) → M S B
  ◌>>=◌ m f w = elim (m w) [ done (a, w') ↦ f a w' | panicked ↦ panicked ]

  abbrev pub ◌>>◌ : {B : Type 0} → M S (Unit {0}) → M S B → M S B
  m >> k = m >>= λ _. k

  unfoldable pub get_hart : M S TraceMachineState
  get_hart w = done (w.hart, w)

  -- A step of the hart alone.
  unfoldable pub modify : (TraceMachineState → TraceMachineState) → M S (Unit {0})
  modify f w = done (tt, record w { hart = f w.hart })

  -- A step of the hart alone that may panic.
  unfoldable pub attempt : (TraceMachineState → Outcome TraceMachineState) → M S (Unit {0})
  attempt f w = elim (f w.hart) [ done s ↦ done (tt, record w { hart = s }) | panicked ↦ panicked ]

  -- `as->read_atomic` and `as->write_atomic`
  unfoldable pub load : Host S → ℕ → ℕ → M S ℕ
  load host addr size w = elim (host.read_atomic addr size w.space) [
    | done (v, space') ↦ done (v, record w { space = space' })
    | panicked ↦ panicked
  ]

  unfoldable pub store : Host S → ℕ → ℕ → ℕ → M S (Unit {0})
  store host addr size data' w = elim (host.write_atomic addr size data' w.space) [
    | done (space', cs) ↦ done (tt, record { hart = signals cs w.hart; space = space' })
    | panicked ↦ panicked
  ]
