-- ===== src/Hart/Exec/Yields.antt =====
-- Postconditions of the result of an action and of the world it leaves, from a world.
use revive.Common.{
  ◌≡◌, refl, Bool, true, false, if◌then◌else◌, Outcome, done, panicked, OnDone, on_done,
  on_panicked,
}
use revive.Hart.Exec.{World, M, pure, ◌>>=◌}

-- The result of the action has `Q`, with the world that it leaves.
abbrev pub Yields : {S A : Type 0} → (A × World S → Type 0) → M S A → World S → Type 0
Yields Q m w = OnDone Q (m w)

module _ {S : Type 0} where
  pub Yields-pure :
      {A : Type 0} {Q : A × World S → Type 0} (a : A) (w : World S) → Q (a, w) → Yields Q (pure a) w
  unfolding pure
  Yields-pure a w q = on_done q

  pub Yields-if :
      {A : Type 0} {Q : A × World S → Type 0} (b : Bool) (m n : M S A) (w : World S)
      → (b ≡ true → Yields Q m w)
      → (b ≡ false → Yields Q n w)
      → Yields Q (if b then m else n) w
  Yields-if true m n w p q = p refl
  Yields-if false m n w p q = q refl

  -- After what the first action did from that world.
  pub Yields-bind :
      {A B : Type 0} {Q : B × World S → Type 0} (m : M S A) (f : A → M S B) (w : World S)
      → ((a : A) (w' : World S) → m w ≡ done (a, w') → Yields Q (f a) w')
      → Yields Q (m >>= f) w
  unfolding ◌>>=◌
  Yields-bind {A} {B} {Q} m f w k = go (m w) k
    where
      go :
          (o : Outcome (A × World S))
          → ((a : A) (w' : World S) → o ≡ done (a, w') → OnDone Q (f a w'))
          → OnDone Q (elim o [ done (a, w') ↦ f a w' | panicked ↦ panicked ])
      go panicked h = on_panicked
      go (done (a, w')) h = h a w' refl
