-- ===== src/Space/Block/Stored.antt =====
-- What the loops leave in an object that stores bytes.
use revive.Common.{
  ℕ, zero, suc, ◌+◌, ◌%◌, ◌^◌, ◌≤◌, ◌<◌, ◌≡◌, refl, ap, ◌∙◌, ◌≢◌, ◌⊎◌, inl, List, [], ◌∷◌, arith,
  u8, u64, done, length,
}
use mathlib.Core.List.{map}
use revive.Common.Bits.{bit_and_low}
use revive.Space.Call.{Methods}
use revive.Space.Block.{read_bytes, write_bytes}

-- The bytes of an object from `low` on and below `high`: reads and writes of one of them find
-- and change it.
pub record StoresBytes {D S : Type 0} (methods : Methods D S) (d : D) (low high : ℕ) : Type 0 where
  pub peek : S → ℕ → ℕ
  pub poke : S → ℕ → ℕ → S
  pub read_peek : (a : ℕ) (s : S) → low ≤ a → a < high → methods.read d a 1 s ≡ done (peek s a, s)
  pub write_poke :
      (a v : ℕ) (s : S) → low ≤ a → a < high → methods.write d a 1 v s ≡ done (poke s a v, [])
  pub peek-poke_self : (a v : ℕ) (s : S) → low ≤ a → a < high → peek (poke s a v) a ≡ v % 256
  pub peek-poke_other :
      (a b v : ℕ) (s : S)
      → low ≤ a
      → a < high
      → low ≤ b
      → b < high
      → a ≢ b
      → peek (poke s a v) b ≡ peek s b

module _ {D S : Type 0} (methods : Methods D S) (d : D) (low high : ℕ)
    (o : StoresBytes methods d low high) where
  -- The bytes that are stored from an address on, and the bytes that are put there.
  abbrev pub peeks : S → ℕ → ℕ → List ℕ
  peeks s addr zero = []
  peeks s addr (suc n) = u8 (o.peek s addr) ∷ peeks s (addr + 1) n

  abbrev pub pokes : S → ℕ → List ℕ → S
  pokes s addr [] = s
  pokes s addr (b ∷ bs) = pokes (o.poke s addr b) (addr + 1) bs

  peek-pokes :
      (b addr : ℕ) (bytes : List ℕ) (s : S)
      → low ≤ addr
      → addr + length bytes ≤ high
      → low ≤ b
      → b < high
      → (b < addr) ⊎ (addr + length bytes ≤ b)
      → o.peek (pokes s addr bytes) b ≡ o.peek s b
  peek-pokes b addr [] s l u lb ub away = refl
  peek-pokes b addr (x ∷ bytes) s l u lb ub away =
      peek-pokes b (addr + 1) bytes (o.poke s addr x) (omega (arith, l)) (omega (arith, u)) lb ub
        (ground (arith, away))
      ∙ o.peek-poke_other addr b x s l (omega (arith, u)) lb ub (λ e. omega (arith, e, away))

  -- Bytes elsewhere stay as they were.
  pub peeks-pokes_apart :
      (n a addr : ℕ) (bytes : List ℕ) (s : S)
      → low ≤ addr
      → addr + length bytes ≤ high
      → low ≤ a
      → a + n ≤ high
      → (a + n ≤ addr) ⊎ (addr + length bytes ≤ a)
      → peeks (pokes s addr bytes) a n ≡ peeks s a n
  peeks-pokes_apart zero a addr bytes s l u la ua away = refl
  peeks-pokes_apart (suc n) a addr bytes s l u la ua away =
      let first = peek-pokes a addr bytes s l u la (omega (arith, ua)) (ground (arith, away)) in
      let rest =
        peeks-pokes_apart n (a + 1) addr bytes s l u (omega (arith, la)) (omega (arith, ua))
          (ground (arith, away)) in
      rw (first, rest) refl

  pub peeks-pokes :
      (addr : ℕ) (bytes : List ℕ) (s : S)
      → low ≤ addr
      → addr + length bytes ≤ high
      → peeks (pokes s addr bytes) addr (length bytes) ≡ map u8 bytes
  peeks-pokes addr [] s l u = refl
  peeks-pokes addr (x ∷ bytes) s l u =
      let first =
        peek-pokes addr (addr + 1) bytes (o.poke s addr x) (omega (arith, l)) (omega (arith, u)) l
          (omega (arith, u)) (inl (omega arith)) in
      let put = o.peek-poke_self addr x s l (omega (arith, u)) in
      let rest =
        peeks-pokes (addr + 1) bytes (o.poke s addr x) (omega (arith, l)) (omega (arith, u)) in
      let same : u8 (o.peek (pokes (o.poke s addr x) (addr + 1) bytes) addr) ≡ u8 x =
        omega (arith, first, put) in
      rw (same, rest) refl

  module _ (h : high < 2 ^ 64) where
    pub read_bytes-peeks :
        (n addr : ℕ) (s : S)
        → low ≤ addr
        → addr + n ≤ high
        → read_bytes methods d addr n s ≡ done (peeks s addr n, s)
    unfolding read_bytes
    read_bytes-peeks zero addr s l u = refl
    read_bytes-peeks (suc n) addr s l u =
        let next : u64 (addr + 1) ≡ addr + 1 = omega (arith, u, h) in
        rw
          (
            read_bytes,
            o.read_peek addr s l (omega (arith, u)),
            next,
            read_bytes-peeks n (addr + 1) s (omega (arith, l)) (omega (arith, u)),
          )
          (ap (λ b. done (b ∷ peeks s (addr + 1) n, s)) (bit_and_low 8 (o.peek s addr)))

    pub write_bytes-pokes :
        (addr : ℕ) (bytes : List ℕ) (s : S)
        → low ≤ addr
        → addr + length bytes ≤ high
        → write_bytes methods d addr bytes s ≡ done (pokes s addr bytes, [])
    unfolding write_bytes
    write_bytes-pokes addr [] s l u = refl
    write_bytes-pokes addr (x ∷ bytes) s l u =
        let next : u64 (addr + 1) ≡ addr + 1 = omega (arith, u, h) in
        rw
          (
            write_bytes,
            o.write_poke addr x s l (omega (arith, u)),
            next,
            write_bytes-pokes (addr + 1) bytes (o.poke s addr x) (omega (arith, l))
                (omega (arith, u)),
          )
          refl
