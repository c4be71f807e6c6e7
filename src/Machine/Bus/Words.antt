-- ===== src/Machine/Bus/Words.antt =====
-- The main memory on the bus stores bytes.
use revive.Common.{ℕ, ◌+◌, ◌%◌, ◌^◌, ◌<◌, ◌≡◌, refl, ap, ◌≢◌, false, [], arith, ◌==◌, done}
use revive.Space.Range.{offset_in, unaligned_byte}
use revive.Space.Memory.{load_bytes, store_bytes, read_atomic, write_atomic}
use revive.Space.Block.Stored.{StoresBytes}
use revive.Machine.Bus.{
  main_memory, SimulatedMachine, sim_phys_mem_start, sim_phys_mem_size, read_device, write_device,
  methods,
}

-- The byte of the memory behind an address, and the change of one.
abbrev pub peek : SimulatedMachine → ℕ → ℕ
peek m a = m.memory.store (offset_in m.memory.start a)

unfoldable pub poke : SimulatedMachine → ℕ → ℕ → SimulatedMachine
poke m a v = record m {
  memory = record (m.memory) {
    store = store_bytes 1 m.memory.store (offset_in m.memory.start a) v;
  };
}

module _ (m : SimulatedMachine) (a : ℕ) where
  pub read_device-byte : read_device main_memory a 1 m ≡ done (peek m a, m)
  unfolding read_device read_atomic load_bytes
  read_device-byte =
      rw (read_device, read_atomic, unaligned_byte (offset_in m.memory.start a))
        (ap (λ v. done (v, m)) (omega arith))

  pub write_device-byte : (v : ℕ) → write_device main_memory a 1 v m ≡ done (poke m a v, [])
  unfolding write_device write_atomic poke
  write_device-byte v =
      rw (write_device, write_atomic, unaligned_byte (offset_in m.memory.start a)) refl

  pub peek-poke : (v : ℕ) → peek (poke m a v) a ≡ v % 256
  unfolding poke store_bytes
  peek-poke v = ground arith

  pub peek-poke_ne : (b v : ℕ) → a < 2 ^ 64 → b < 2 ^ 64 → a ≢ b → peek (poke m a v) b ≡ peek m b
  unfolding poke store_bytes
  peek-poke_ne b v ha hb ne =
      let other : (offset_in m.memory.start b == offset_in m.memory.start a) ≡ false =
        ground (arith, ne) in
      rw other refl

abbrev pub memory_bytes :
    StoresBytes methods main_memory sim_phys_mem_start (sim_phys_mem_start + sim_phys_mem_size)
memory_bytes = record {
  peek = peek;
  poke = poke;
  read_peek = λ a s l u. read_device-byte s a;
  write_poke = λ a v s l u. write_device-byte s a v;
  peek-poke_self = λ a v s l u. peek-poke s a v;
  peek-poke_other =
      λ a b v s l u lb ub ne. peek-poke_ne s a b v (omega (arith, u)) (omega (arith, ub)) ne;
}
