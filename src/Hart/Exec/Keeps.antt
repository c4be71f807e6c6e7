-- ===== src/Hart/Exec/Keeps.antt =====
-- Postconditions of actions: `m` keeps a hart well formed, and its result has `Q`.
use revive.Common.{
  ℕ, refl, Bool, true, false, List, [], ◌∷◌, if◌then◌else◌, Outcome, done, panicked, OnDone,
  on_done, on_panicked, OnDone-get,
}
use revive.Hart.State.{TraceMachineState, Signal, signal}
use revive.Hart.Valid.{IsValid, SignalFits, signal-IsValid}
use revive.Hart.Exec.{
  Host, World, M, pure, fail, ◌>>=◌, get_hart, modify, attempt, signals, load, store,
}

-- What holds of a result and the world beside it.
abbrev pub Post : {S A : Type 0} → (A → Type 0) → A × World S → Type 0
Post Q r = Q r.0 × IsValid r.1.hart

pub record Keeps {S A : Type 0} (Q : A → Type 0) (m : M S A) : Type 0 where
  pub at : (w : World S) → IsValid w.hart → OnDone (Post Q) (m w)

abbrev pub Any : {A : Type 0} → A → Type 0
Any a = Unit

-- The signals of a write carry words of their width.
abbrev pub AllFit : List Signal → Type 0
AllFit [] = Unit
AllFit (c ∷ cs) = SignalFits c × AllFit cs

abbrev pub Sends : {S : Type 0} → (List Signal → Type 0) → S × List Signal → Type 0
Sends P r = P r.1

-- What is asked of the host: a write sends signals that fit.
pub record IsHost {S : Type 0} (host : Host S) : Type 0 where
  pub signals_fit :
      (addr size v : ℕ) (space : S) → OnDone (Sends AllFit) (host.write_atomic addr size v space)

pub signals-IsValid :
    (cs : List Signal) (s : TraceMachineState) → IsValid s → AllFit cs → IsValid (signals cs s)
unfolding signals
signals-IsValid [] s v h = v
signals-IsValid (c ∷ cs) s v h = signals-IsValid cs (signal s c) (signal-IsValid s c v h.0) h.1

module _ {S : Type 0} where
  pub Keeps-pure : {A : Type 0} {Q : A → Type 0} (a : A) → Q a → Keeps {S = S} Q (pure a)
  unfolding pure
  Keeps-pure a q = record { at = λ w v. on_done (q, v) }

  pub Keeps-fail : {A : Type 0} {Q : A → Type 0} → Keeps {S = S} Q fail
  unfolding fail
  Keeps-fail = record { at = λ w v. on_panicked }

  pub Keeps-bind :
      {A B : Type 0} {Q : A → Type 0} {R : B → Type 0} (m : M S A) (f : A → M S B)
      → Keeps Q m
      → ((a : A) → Q a → Keeps R (f a))
      → Keeps R (m >>= f)
  unfolding ◌>>=◌
  Keeps-bind {A} {B} {Q} {R} m f km kf = record { at = λ w v. go (m w) (km.at w v) }
    where
      go :
          (o : Outcome (A × World S))
          → OnDone (Post Q) o
          → OnDone (Post R) (elim o [ done (a, w') ↦ f a w' | panicked ↦ panicked ])
      go panicked p = on_panicked
      go (done (a, w')) p =
          let both : Q a × IsValid w'.hart = OnDone-get (a, w') p refl in (kf a both.0).at w' both.1

  pub Keeps-if :
      {A : Type 0} {Q : A → Type 0} (b : Bool) (m n : M S A)
      → Keeps Q m
      → Keeps Q n
      → Keeps Q (if b then m else n)
  Keeps-if true m n p q = p
  Keeps-if false m n p q = q

  pub Keeps-get_hart : Keeps {S = S} IsValid get_hart
  unfolding get_hart
  Keeps-get_hart = record { at = λ w v. on_done (v, v) }

  pub Keeps-modify :
      (f : TraceMachineState → TraceMachineState)
      → ((s : TraceMachineState) → IsValid s → IsValid (f s))
      → Keeps {S = S} Any (modify f)
  unfolding modify
  Keeps-modify f h = record { at = λ w v. on_done (tt, h w.hart v) }

  pub Keeps-attempt :
      (f : TraceMachineState → Outcome TraceMachineState)
      → ((s : TraceMachineState) → IsValid s → OnDone IsValid (f s))
      → Keeps {S = S} Any (attempt f)
  unfolding attempt
  Keeps-attempt f h = record { at = λ w v. go w (f w.hart) (h w.hart v) }
    where
      go :
          (w : World S) (o : Outcome TraceMachineState)
          → OnDone IsValid o
          → OnDone
              (Post Any)
              (elim o [ done s ↦ done (tt, record w { hart = s }) | panicked ↦ panicked ])
      go w panicked p = on_panicked
      go w (done s) p = on_done (tt, OnDone-get s p refl)

  pub Keeps-load : (host : Host S) (addr size : ℕ) → Keeps Any (load host addr size)
  unfolding load
  Keeps-load host addr size = record { at = λ w v. go w v (host.read_atomic addr size w.space) }
    where
      go :
          (w : World S)
          → IsValid w.hart
          → (o : Outcome (ℕ × S))
          → OnDone (Post Any) (elim o [
            | done (x, space') ↦ done (x, record w { space = space' })
            | panicked ↦ panicked
          ])
      go w v panicked = on_panicked
      go w v (done (x, space')) = on_done (tt, v)

  pub Keeps-store :
      (host : Host S) (addr size x : ℕ) → IsHost host → Keeps Any (store host addr size x)
  unfolding store
  Keeps-store host addr size x h = record {
    at = λ w v. go w v (host.write_atomic addr size x w.space) (h.signals_fit addr size x w.space);
  }
    where
      go :
          (w : World S)
          → IsValid w.hart
          → (o : Outcome (S × List Signal)) → OnDone (Sends AllFit) o
          → OnDone (Post Any) (elim o [
            | done (space', cs) ↦ done (tt, record { hart = signals cs w.hart; space = space' })
            | panicked ↦ panicked
          ])
      go w v panicked p = on_panicked
      go w v (done (space', cs)) p =
          on_done (tt, signals-IsValid cs w.hart v (OnDone-get (space', cs) p refl))
