-- ===== src/Space/Block/Round.antt =====
-- Blocks that are written and read back through the physical address space.
use revive.Common.{
  ℕ, ◌+◌, ◌^◌, ◌≤◌, ◌<◌, ◌≡◌, ap, ◌∙◌, ◌⊎◌, some, List, [], arith, u8, done, length,
}
use mathlib.Core.List.{map, Memᴰ}
use revive.Space.Range.{AddressRange, Holds}
use revive.Space.Dispatch.{find, IsSpace, find_iff}
use revive.Space.Call.{Methods}
use revive.Space.Block.{widen, read, write}
use revive.Space.Block.Stored.{
  StoresBytes, peeks, pokes, peeks-pokes, peeks-pokes_apart, read_bytes-peeks, write_bytes-pokes,
}

pub widen_small : (n : ℕ) → n < 2 ^ 31 → widen n ≡ n
widen_small n h = ground (arith, h)

-- A range of the map whose object stores bytes, and some of its bytes.
pub record IsBlock {D S : Type 0} (methods : Methods D S) (ranges : List (AddressRange D))
    (r : AddressRange D) (addr size : ℕ) : Type 0 where
  pub space : IsSpace ranges
  pub mapped : Memᴰ r ranges
  pub held : Holds r addr size
  pub some_bytes : 0 < size
  pub size_lt : size < 2 ^ 31
  pub end_lt : r.start + r.size < 2 ^ 64

module _ {D S : Type 0} (methods : Methods D S) (ranges : List (AddressRange D))
    (r : AddressRange D) (o : StoresBytes methods r.device r.start (r.start + r.size)) where
  pub block_found :
      (addr size : ℕ) → IsBlock methods ranges r addr size → find ranges addr (widen size) ≡ some r
  block_found addr size b = rw (widen_small size b.size_lt) (
      (find_iff ranges addr size r b.space
          (omega (arith, b.held.from_start, b.held.to_end, b.end_lt, b.some_bytes)) b.some_bytes).1
        (b.mapped, b.held))

  pub read_block :
      (addr size : ℕ) (s : S)
      → IsBlock methods ranges r addr size
      → read methods ranges addr size s
        ≡ done (peeks methods r.device r.start (r.start + r.size) o s addr size, s)
  unfolding read
  read_block addr size s b =
      rw (read, block_found addr size b)
        (read_bytes-peeks methods r.device r.start (r.start + r.size) o b.end_lt size addr s
          b.held.from_start b.held.to_end)

  pub write_block :
      (addr : ℕ) (bytes : List ℕ) (s : S)
      → IsBlock methods ranges r addr (length bytes)
      → write methods ranges addr bytes s
        ≡ done (pokes methods r.device r.start (r.start + r.size) o s addr bytes, [])
  unfolding write
  write_block addr bytes s b =
      rw (write, block_found addr (length bytes) b)
        (write_bytes-pokes methods r.device r.start (r.start + r.size) o b.end_lt addr bytes s
          b.held.from_start b.held.to_end)

-- Bytes that are written to a range of the map whose object stores bytes, less than 2 ^ 31 of
-- them and all within the range, are read back, each cut to 8 bits, and neither call signals.
pub read-write :
    {D S : Type 0} (methods : Methods D S) (ranges : List (AddressRange D)) (r : AddressRange D)
    → StoresBytes methods r.device r.start (r.start + r.size)
    → (addr : ℕ) (bytes : List ℕ) (s : S) → IsBlock methods ranges r addr (length bytes)
    → (s' : S) × (write methods ranges addr bytes s ≡ done (s', []))
      × (read methods ranges addr (length bytes) s' ≡ done (map u8 bytes, s'))
read-write methods ranges r o addr bytes s b =
    let s' = pokes methods r.device r.start (r.start + r.size) o s addr bytes in
    let back =
      peeks-pokes methods r.device r.start (r.start + r.size) o addr bytes s b.held.from_start
        b.held.to_end in
    (
      s',
      write_block methods ranges r o addr bytes s b,
      read_block methods ranges r o addr (length bytes) s' b ∙ ap (λ bs. done (bs, s')) back,
    )

-- apart
pub read-write_apart :
    {D S : Type 0} (methods : Methods D S) (ranges : List (AddressRange D)) (r : AddressRange D)
    → StoresBytes methods r.device r.start (r.start + r.size)
    → (addr other n : ℕ) (bytes : List ℕ) (s : S) → IsBlock methods ranges r addr (length bytes)
    → IsBlock methods ranges r other n
    → (other + n ≤ addr) ⊎ (addr + length bytes ≤ other)
    → (s' : S) × (found : List ℕ) × (write methods ranges addr bytes s ≡ done (s', []))
      × (read methods ranges other n s ≡ done (found, s))
      × (read methods ranges other n s' ≡ done (found, s'))
read-write_apart methods ranges r o addr other n bytes s b c away =
    let high = r.start + r.size in
    let s' = pokes methods r.device r.start high o s addr bytes in
    let same =
      peeks-pokes_apart methods r.device r.start high o n other addr bytes s b.held.from_start
        b.held.to_end c.held.from_start c.held.to_end away in
    (
      s',
      peeks methods r.device r.start high o s other n,
      write_block methods ranges r o addr bytes s b,
      read_block methods ranges r o other n s c,
      read_block methods ranges r o other n s' c ∙ ap (λ bs. done (bs, s')) same,
    )
