-- ===== src/Device/Control/Pseudo.antt =====
-- The pseudo inputs and outputs of `SimulationControl`: the entries that an access reaches.
use revive.Common.{
  ℕ, ◌+◌, ◌-◌, ◌*◌, ◌/◌, ◌≤◌, ◌<◌, ◌≡◌, refl, ◌∙◌, inl, inr, true, false, List, arith, ◌==◌, length,
  set, get_elem?-below, get_elem?-beyond,
}
use revive.Space.Range.{
  offset_in_lem, unaligned, unaligned_byte, unaligned_half, unaligned_word, unaligned_double,
}
use revive.Space.Memory.{store_bytes, is_size, sizes}
use revive.Device.Control.{
  Access, completed, overruns, SimulationControl, entry, set_entry, in_entries,
  num_pseudo_io_entries, read_at, read_atomic, Request, nothing, write_input, write_output,
  write_store, ◌>>=◌, write_at, write_atomic,
}

-- The arrays have their 32 entries.
pub record IsValid (c : SimulationControl) : Type 0 where
  pub inputs_length : length c.pseudo_inputs ≡ num_pseudo_io_entries
  pub outputs_length : length c.pseudo_outputs ≡ num_pseudo_io_entries

abbrev pub input_offset : ℕ → ℕ → ℕ
input_offset size idx = 0x2000 + size * idx

abbrev pub output_offset : ℕ → ℕ → ℕ
output_offset size idx = 0x3000 + size * idx

-- `(offset - base) / size`
entry_index : (size idx : ℕ) → is_size size ≡ true → size * idx / size ≡ idx
entry_index size idx e = elim (sizes size e) [
  | inl h ↦ rw h (omega arith)
  | inr (inl h) ↦ rw h (omega arith)
  | inr (inr (inl h)) ↦ rw h (omega arith)
  | inr (inr (inr h)) ↦ rw h (omega arith)
]

aligned : (size idx : ℕ) → is_size size ≡ true → unaligned (input_offset size idx) size ≡ false
aligned size idx e = elim (sizes size e) [
  | inl h ↦ rw h (unaligned_byte (0x2000 + 1 * idx))
  | inr (inl h) ↦ rw (h, unaligned_half (0x2000 + 2 * idx)) (ground arith)
  | inr (inr (inl h)) ↦ rw (h, unaligned_word (0x2000 + 4 * idx)) (ground arith)
  | inr (inr (inr h)) ↦ rw (h, unaligned_double (0x2000 + 8 * idx)) (ground arith)
]

module _ {A : Type 0} where
  set_entry-below :
      (xs : List A) (i : ℕ) (v : A) → i < length xs → set_entry xs i v ≡ completed (set xs i v)
  set_entry-below xs i v h = rw ((get_elem?-below xs i h).1, set_entry) refl

  set_entry-beyond : (xs : List A) (i : ℕ) (v : A) → length xs ≤ i → set_entry xs i v ≡ overruns
  set_entry-beyond xs i v h = rw (get_elem?-beyond xs i h, set_entry) refl

module _ (c : SimulationControl) (size idx v : ℕ) (z : is_size size ≡ true)
    (h : size * idx < 256) where
  input_index : (input_offset size idx - 0x2000) / size ≡ idx
  input_index =
      let from : input_offset size idx - 0x2000 ≡ size * idx = omega arith in
      rw from (entry_index size idx z)

  output_index : (output_offset size idx - 0x3000) / size ≡ idx
  output_index =
      let from : output_offset size idx - 0x3000 ≡ size * idx = omega arith in
      rw from (entry_index size idx z)

  write_input-below :
      idx < length c.pseudo_inputs
      → write_input c (input_offset size idx) size v
        ≡ completed (record c { pseudo_inputs = set c.pseudo_inputs idx v })
  unfolding write_input
  write_input-below b =
      let at : in_entries 0x2000 (input_offset size idx) ≡ true = ground (arith, h) in
      rw (at, input_index, (get_elem?-below c.pseudo_inputs idx b).1, input_index) refl

  write_input-beyond :
      length c.pseudo_inputs ≤ idx → write_input c (input_offset size idx) size v ≡ overruns
  unfolding write_input
  write_input-beyond b =
      let at : in_entries 0x2000 (input_offset size idx) ≡ true = ground (arith, h) in
      rw (at, input_index, get_elem?-beyond c.pseudo_inputs idx b) refl

  write_output-below :
      idx < length c.pseudo_outputs
      → write_output c (output_offset size idx) size v
        ≡ completed (record c {
          pseudo_outputs = set c.pseudo_outputs idx record { size = size; value = v };
        })
  unfolding write_output
  write_output-below b =
      let at : in_entries 0x3000 (output_offset size idx) ≡ true = ground (arith, h) in
      rw (at, output_index, (get_elem?-below c.pseudo_outputs idx b).1, output_index) refl

  write_output-beyond :
      length c.pseudo_outputs ≤ idx → write_output c (output_offset size idx) size v ≡ overruns
  unfolding write_output
  write_output-beyond b =
      let at : in_entries 0x3000 (output_offset size idx) ≡ true = ground (arith, h) in
      rw (at, output_index, get_elem?-beyond c.pseudo_outputs idx b) refl

  read_at-input : read_at c (input_offset size idx) size ≡ entry c.pseudo_inputs idx
  unfolding read_at
  read_at-input =
      let at : in_entries 0x2000 (input_offset size idx) ≡ true = ground (arith, h) in
      let not_stdin : (input_offset size idx == 0x1000) ≡ false = ground arith in
      rw (aligned size idx z, not_stdin, at, input_index) refl

-- Beyond the commands, a write is the two tests of the arrays and the store.
abbrev in_arrays : SimulationControl → ℕ → ℕ → ℕ → Access (SimulationControl × Request)
in_arrays c offset size v = write_input c offset size v >>= λ c1.
    write_output c1 offset size v >>= λ c2.
    write_store c2 offset size v >>= λ c3. completed (c3, nothing)

write_at-array :
    (c : SimulationControl) (offset size v : ℕ)
    → 0x2000 ≤ offset
    → write_at c offset size v ≡ in_arrays c offset size v
unfolding write_at
write_at-array c offset size v h =
    let other : (k : ℕ) → k < 0x2000 → (offset == k) ≡ false = λ k b. ground (arith, h, b) in
    rw
      (
        other 0x1004 (omega arith),
        other 0x1008 (omega arith),
        other 0x100c (omega arith),
        other 0x1010 (omega arith),
        other 0x1014 (omega arith),
        other 0x1018 (omega arith),
      )
      refl

module _ (c : SimulationControl) (size idx v : ℕ) (z : is_size size ≡ true)
    (h : size * idx < 256) where
  -- A write to an entry, as far as the arrays have one.
  pub write_atomic-input_below :
      idx < length c.pseudo_inputs
      → write_atomic c (c.start + input_offset size idx) size v
        ≡ completed (
          record c {
            pseudo_inputs = set c.pseudo_inputs idx v;
            store = store_bytes size c.store (input_offset size idx) v;
          },
          nothing,
        )
  unfolding write_atomic write_output write_store ◌>>=◌
  write_atomic-input_below b =
      let outside : in_entries 0x3000 (input_offset size idx) ≡ false = ground (arith, h) in
      let o = input_offset size idx in
      rw (offset_in_lem c.start o (omega (arith, h))) (
        write_at-array c o size v (omega arith)
        ∙ rw (write_input-below c size idx v z h b, outside, z) refl)

  pub write_atomic-input_beyond :
      length c.pseudo_inputs ≤ idx
      → write_atomic c (c.start + input_offset size idx) size v ≡ overruns
  unfolding write_atomic ◌>>=◌
  write_atomic-input_beyond b =
      let o = input_offset size idx in
      rw (offset_in_lem c.start o (omega (arith, h)))
        (write_at-array c o size v (omega arith) ∙ rw (write_input-beyond c size idx v z h b) refl)

  pub write_atomic-output_below :
      idx < length c.pseudo_outputs
      → write_atomic c (c.start + output_offset size idx) size v
        ≡ completed (
          record c {
            pseudo_outputs = set c.pseudo_outputs idx record { size = size; value = v };
            store = store_bytes size c.store (output_offset size idx) v;
          },
          nothing,
        )
  unfolding write_atomic write_input write_store ◌>>=◌
  write_atomic-output_below b =
      let outside : in_entries 0x2000 (output_offset size idx) ≡ false = ground arith in
      let o = output_offset size idx in
      rw (offset_in_lem c.start o (omega (arith, h))) (
        write_at-array c o size v (omega arith)
        ∙ rw (outside, write_output-below c size idx v z h b, z) refl)

  pub write_atomic-output_beyond :
      length c.pseudo_outputs ≤ idx
      → write_atomic c (c.start + output_offset size idx) size v ≡ overruns
  unfolding write_atomic write_input ◌>>=◌
  write_atomic-output_beyond b =
      let outside : in_entries 0x2000 (output_offset size idx) ≡ false = ground arith in
      let o = output_offset size idx in
      rw (offset_in_lem c.start o (omega (arith, h))) (
        write_at-array c o size v (omega arith)
        ∙ rw (outside, write_output-beyond c size idx v z h b) refl)

  pub read_atomic-input :
      read_atomic c (c.start + input_offset size idx) size ≡ entry c.pseudo_inputs idx
  unfolding read_atomic
  read_atomic-input =
      let o = input_offset size idx in
      rw (offset_in_lem c.start o (omega (arith, h))) (read_at-input c size idx v z h)
