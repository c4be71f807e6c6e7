-- ===== src/Common/Results.antt =====
-- Predicates on the value of a call that may fail or panic, with a rule for each way to build it.
use mathlib.Core.Path.{◌≡◌, refl, subst}
use mathlib.Core.Bool.{Bool, true, false}
use mathlib.Core.Option.{Option, none, some, some-injective}
use revive.Common.Panics.{Outcome, done, panicked}
use revive.Common.Tests.{if◌then◌else◌}

-- `P` holds of the value, if there is one.
pub data OnSome {ℓ κ} {A : Type ℓ} (P : A → Type κ) : Option A → Type (ℓ ⊔ κ) where
  on_none : OnSome P none
  on_some : {a : A} → P a → OnSome P (some a)

pub OnSome-if {ℓ κ} :
    {A : Type ℓ} {P : A → Type κ} (b : Bool) (x y : Option A)
    → OnSome P x
    → OnSome P y
    → OnSome P (if b then x else y)
OnSome-if true x y p q = p
OnSome-if false x y p q = q

pub OnSome-get {ℓ κ} :
    {A : Type ℓ} {P : A → Type κ} {o : Option A} (a : A) → OnSome P o → o ≡ some a → P a
OnSome-get a on_none e = cc
OnSome-get {P} a (on_some {a = b} p) e = subst P (some-injective b a e) p

-- The same, where the branches may use how the test came out.
pub OnSome-test {ℓ κ} :
    {A : Type ℓ} {P : A → Type κ} (b : Bool) (x y : Option A)
    → (b ≡ true → OnSome P x)
    → (b ≡ false → OnSome P y)
    → OnSome P (if b then x else y)
OnSome-test true x y p q = p refl
OnSome-test false x y p q = q refl

-- `P` holds of the value, unless the call panics.
pub data OnDone {ℓ κ} {A : Type ℓ} (P : A → Type κ) : Outcome A → Type (ℓ ⊔ κ) where
  on_panicked : OnDone P panicked
  on_done : {a : A} → P a → OnDone P (done a)

pub OnDone-if {ℓ κ} :
    {A : Type ℓ} {P : A → Type κ} (b : Bool) (x y : Outcome A)
    → OnDone P x
    → OnDone P y
    → OnDone P (if b then x else y)
OnDone-if true x y p q = p
OnDone-if false x y p q = q

pub OnDone-get {ℓ κ} :
    {A : Type ℓ} {P : A → Type κ} {o : Outcome A} (a : A) → OnDone P o → o ≡ done a → P a
OnDone-get a on_panicked e = cc
OnDone-get {P} a (on_done {a = b} p) e = subst P (cc) p

pub OnDone-test {ℓ κ} :
    {A : Type ℓ} {P : A → Type κ} (b : Bool) (x y : Outcome A)
    → (b ≡ true → OnDone P x)
    → (b ≡ false → OnDone P y)
    → OnDone P (if b then x else y)
OnDone-test true x y p q = p refl
OnDone-test false x y p q = q refl
