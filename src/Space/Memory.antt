-- ===== src/Space/Memory.antt =====
-- `MainMemory` (sim/mem.cc): bytes, read and written in little-endian words of 1, 2, 4 or 8 bytes.
use revive.Common.{
  ℕ, zero, suc, ◌+◌, ◌*◌, ◌/◌, ◌%◌, ◌^◌, ◌≤◌, ◌<◌, ◌≡◌, refl, ap, ◌∙◌, ◌⊎◌, inl, inr, Bool, true,
  ◌||◌, arith, ◌==◌, if◌then◌else◌, Outcome, done, panicked, OnDone, on_done, on_panicked,
  OnDone-get, OnDone-test,
}
use revive.Space.Range.{offset_in, unaligned}

pub record MainMemory : Type 0 where
  pub start : ℕ
  pub store : ℕ → ℕ

-- `*(uintN_t *)store_addr`, `n` bytes from `offset` on
unfoldable pub load_bytes : ℕ → (ℕ → ℕ) → ℕ → ℕ
load_bytes zero store offset = 0
load_bytes (suc n) store offset = store offset + 256 * load_bytes n store (offset + 1)

unfoldable pub store_bytes : ℕ → (ℕ → ℕ) → ℕ → ℕ → ℕ → ℕ
store_bytes zero store offset data' j = store j
store_bytes (suc n) store offset data' j =
    if j == offset then data' % 256 else store_bytes n store (offset + 1) (data' / 256) j

abbrev pub is_size : ℕ → Bool
is_size size = size == 1 || size == 2 || size == 4 || size == 8

abbrev pub offset_of : MainMemory → ℕ → ℕ
offset_of m addr = offset_in m.start addr

unfoldable pub read_atomic : MainMemory → ℕ → ℕ → Outcome ℕ
read_atomic m addr size =
    if unaligned (offset_of m addr) size
    then panicked
    else if is_size size
    then done (load_bytes size m.store (offset_of m addr))
    else panicked

unfoldable pub write_atomic : MainMemory → ℕ → ℕ → ℕ → Outcome MainMemory
write_atomic m addr size data' =
    if unaligned (offset_of m addr) size
    then panicked
    else if is_size size
    then done (record m { store = store_bytes size m.store (offset_of m addr) data' })
    else panicked

-- The lowest `n` bytes of a number.
low_bytes : ℕ → ℕ → ℕ
low_bytes zero v = 0
low_bytes (suc n) v = v % 256 + 256 * low_bytes n (v / 256)

load_bytes-above :
    (n : ℕ) (a b : ℕ → ℕ) (o : ℕ)
    → ((j : ℕ) → o ≤ j → a j ≡ b j)
    → load_bytes n a o ≡ load_bytes n b o
unfolding load_bytes
load_bytes-above zero a b o h = refl
load_bytes-above (suc n) a b o h =
    omega (arith, h o (omega arith), load_bytes-above n a b (o + 1) (λ j p. h j (omega (arith, p))))

load_bytes-store_bytes :
    (n : ℕ) (store : ℕ → ℕ) (o v : ℕ) → load_bytes n (store_bytes n store o v) o ≡ low_bytes n v
unfolding load_bytes store_bytes low_bytes
load_bytes-store_bytes zero store o v = refl
load_bytes-store_bytes (suc n) store o v =
    let rest =
      load_bytes-above n (store_bytes (suc n) store o v) (store_bytes n store (o + 1) (v / 256))
        (o + 1) (λ j p. ground (arith, p)) in
    ground (arith, rest, load_bytes-store_bytes n store (o + 1) (v / 256))

low_bytes-1 : (v : ℕ) → low_bytes 1 v ≡ v % 2 ^ 8
unfolding low_bytes
low_bytes-1 v = omega arith

low_bytes-2 : (v : ℕ) → low_bytes 2 v ≡ v % 2 ^ 16
unfolding low_bytes
low_bytes-2 v = omega arith

low_bytes-4 : (v : ℕ) → low_bytes 4 v ≡ v % 2 ^ 32
unfolding low_bytes
low_bytes-4 v = omega arith

low_bytes-8 : (v : ℕ) → low_bytes 8 v ≡ v % 2 ^ 64
unfolding low_bytes
low_bytes-8 v = omega arith

-- The sizes that `switch (size)` names.
pub sizes : (size : ℕ) → is_size size ≡ true → (size ≡ 1) ⊎ ((size ≡ 2) ⊎ ((size ≡ 4) ⊎ (size ≡ 8)))
sizes size h = ground arith

low_bytes-size : (size v : ℕ) → is_size size ≡ true → low_bytes size v ≡ v % 2 ^ (8 * size)
low_bytes-size size v h = elim (sizes size h) [
  | inl e ↦ rw e (low_bytes-1 v)
  | inr (inl e) ↦ rw e (low_bytes-2 v)
  | inr (inr (inl e)) ↦ rw e (low_bytes-4 v)
  | inr (inr (inr e)) ↦ rw e (low_bytes-8 v)
]

-- If a write of some bytes is accepted, a read of them gives what was written, cut to their
-- number.
pub read_atomic-write_atomic :
    (m m' : MainMemory) (addr size v : ℕ)
    → write_atomic m addr size v ≡ done m'
    → read_atomic m' addr size ≡ done (v % 2 ^ (8 * size))
unfolding write_atomic read_atomic
read_atomic-write_atomic m m' addr size v e =
    let o = offset_of m addr in
    let P : MainMemory → Type 0 = λ m'. read_atomic m' addr size ≡ done (v % 2 ^ (8 * size)) in
    let all : OnDone P (write_atomic m addr size v) =
      OnDone-test (unaligned o size) _ _ (λ _. on_panicked)
        λ a.
          OnDone-test (is_size size) _ _
            (λ i. on_done (
              rw (a, i)
                (ap done (load_bytes-store_bytes size m.store o v ∙ low_bytes-size size v i))))
            (λ _. on_panicked) in
    OnDone-get m' all e

store_bytes-outside :
    (n : ℕ) (store : ℕ → ℕ) (o v j : ℕ)
    → (j < o) ⊎ (o + n ≤ j)
    → store_bytes n store o v j ≡ store j
unfolding store_bytes
store_bytes-outside zero store o v j h = refl
store_bytes-outside (suc n) store o v j h =
    ground (arith, h, store_bytes-outside n store (o + 1) (v / 256) j)

load_bytes-between :
    (n : ℕ) (a b : ℕ → ℕ) (o : ℕ)
    → ((j : ℕ) → o ≤ j → j < o + n → a j ≡ b j)
    → load_bytes n a o ≡ load_bytes n b o
unfolding load_bytes
load_bytes-between zero a b o h = refl
load_bytes-between (suc n) a b o h = omega (
  arith,
  h o (omega arith) (omega arith),
  load_bytes-between n a b (o + 1) (λ j p q. h j (omega (arith, p)) (omega (arith, q))),
)

-- A read whose bytes lie before or after those of an accepted write gives what it gave before
-- the write.
pub read_atomic-write_atomic_apart :
    (m m' : MainMemory) (addr size v other n : ℕ)
    → write_atomic m addr size v ≡ done m'
    → (offset_of m other + n ≤ offset_of m addr) ⊎ (offset_of m addr + size ≤ offset_of m other)
    → read_atomic m' other n ≡ read_atomic m other n
unfolding write_atomic read_atomic
read_atomic-write_atomic_apart m m' addr size v other n e apart =
    let o = offset_of m addr in
    let P : MainMemory → Type 0 = λ m'. read_atomic m' other n ≡ read_atomic m other n in
    let same =
      load_bytes-between n (store_bytes size m.store o v) m.store (offset_of m other)
        (λ j p q. store_bytes-outside size m.store o v j (omega (arith, p, q, apart))) in
    let all : OnDone P (write_atomic m addr size v) =
      OnDone-test (unaligned o size) _ _ (λ _. on_panicked)
        λ _. OnDone-test (is_size size) _ _ (λ _. on_done (rw same)) (λ _. on_panicked) in
    OnDone-get m' all e
