-- ===== src/Device/Control/Entries.antt =====
-- The pseudo inputs and outputs: which entries a write reaches, and what is read and displayed.
use revive.Common.{
  ℕ, zero, suc, ◌+◌, ◌*◌, ◌≤◌, ◌<◌, ◌≡◌, refl, sym, ap, ◌∙◌, ◌↔◌, ◌⊎◌, inl, inr, true, some, List,
  [], ◌∷◌, arith, ◌!=◌, if_holds, length, get_elem?, set, get_elem?-set_self, get_elem?-below,
  length-set,
}
use mathlib.Core.Option.{some-injective}
use mathlib.Core.Path.{subst}
use mathlib.Core.List.{Memᴰ}
use mathlib.Core.List.Memᴰ.{head, tail}
use revive.Space.Memory.{store_bytes, is_size, sizes}
use revive.Device.Control.{
  completed, overruns, PseudoOutput, SimulationControl, entry, num_pseudo_io_entries, read_atomic,
  nothing, write_atomic, displayed, display_pseudo_out,
}
use revive.Device.Control.Pseudo.{
  IsValid, input_offset, output_offset, write_atomic-input_below, write_atomic-input_beyond,
  write_atomic-output_below, write_atomic-output_beyond, read_atomic-input,
}

completed_overruns : {A : Type 0} (a : A) → completed a ≡ overruns → ⊥
completed_overruns a e = cc

entries_fit : (size idx : ℕ) → is_size size ≡ true → idx < 32 → size * idx < 256
entries_fit size idx z b = elim (sizes size z) [
  | inl h ↦ rw h (omega (arith, b))
  | inr (inl h) ↦ rw h (omega (arith, b))
  | inr (inr (inl h)) ↦ rw h (omega (arith, b))
  | inr (inr (inr h)) ↦ rw h (omega (arith, b))
]

-- A write of 1, 2, 4 or 8 bytes to one of the 32 pseudo inputs, counted in steps of the size,
-- asks nothing of the machine and keeps the arrays' lengths, and a read of that size gives the
-- value back whole.
pub read_atomic-write_atomic_input :
    (c : SimulationControl) (size idx v : ℕ)
    → IsValid c
    → is_size size ≡ true
    → idx < num_pseudo_io_entries
    → (c' : SimulationControl) × (write_atomic c (c.start + input_offset size idx) size v
        ≡ completed (c', nothing))
      × (read_atomic c' (c.start + input_offset size idx) size ≡ completed v)
      × IsValid c'
read_atomic-write_atomic_input c size idx v i z b =
    let h = entries_fit size idx z b in
    let below : idx < length c.pseudo_inputs = omega (arith, b, i.inputs_length) in
    let w = write_atomic-input_below c size idx v z h below in
    let c' = record c {
      pseudo_inputs = set c.pseudo_inputs idx v;
      store = store_bytes size c.store (input_offset size idx) v;
    } in
    let found = get_elem?-below c.pseudo_inputs idx below in
    (
      c',
      w,
      read_atomic-input c' size idx v z h
          ∙ rw (get_elem?-set_self c.pseudo_inputs idx found.0 v found.1, entry) refl,
      record {
        inputs_length = length-set c.pseudo_inputs idx v ∙ i.inputs_length;
        outputs_length = i.outputs_length;
      },
    )

-- A write of 1, 2, 4 or 8 bytes to a place of the pseudo inputs' or outputs' 256 bytes, counted
-- in steps of the size, runs over the end of the array exactly from place 32 on.
pub write_atomic-overruns :
    (c : SimulationControl) (size idx v : ℕ)
    → IsValid c
    → is_size size ≡ true
    → size * idx < 256
    → ((write_atomic c (c.start + input_offset size idx) size v ≡ overruns)
        ↔ (num_pseudo_io_entries ≤ idx))
      × ((write_atomic c (c.start + output_offset size idx) size v ≡ overruns)
          ↔ (num_pseudo_io_entries ≤ idx))
write_atomic-overruns c size idx v i z h =
    let sides : (idx < 32) ⊎ (32 ≤ idx) = ground arith in
    elim sides [
      | inl b ↦
          let input =
            write_atomic-input_below c size idx v z h (omega (arith, b, i.inputs_length)) in
          let output =
            write_atomic-output_below c size idx v z h (omega (arith, b, i.outputs_length)) in
          (
            (
              (λ e. absurd (completed_overruns _ (sym input ∙ e))),
              (λ l. absurd (omega (arith, b, l))),
            ),
            (
              (λ e. absurd (completed_overruns _ (sym output ∙ e))),
              (λ l. absurd (omega (arith, b, l))),
            ),
          )
      | inr b ↦ (
        (
          (λ _. b),
          (λ _. write_atomic-input_beyond c size idx v z h (omega (arith, b, i.inputs_length))),
        ),
        (
          (λ _. b),
          (λ _. write_atomic-output_beyond c size idx v z h (omega (arith, b, i.outputs_length))),
        ),
      )
    ]

displayed_at :
    (i idx : ℕ) (o : PseudoOutput) (outputs : List PseudoOutput)
    → get_elem? outputs idx ≡ some o
    → (o.size != 0) ≡ true
    → Memᴰ (i + idx, o) (displayed i outputs)
unfolding displayed
displayed_at i idx o [] e n = cc
displayed_at i zero o (x ∷ outputs) e n =
    let p = some-injective x o e in
    let n' : (x.size != 0) ≡ true = subst (λ (y : PseudoOutput). (y.size != 0) ≡ true) (sym p) n in
    let same : i + 0 ≡ i = omega arith in
    rw n' (head (ap (λ k. (k, o)) same ∙ ap (λ y. (i, y)) (sym p)))
displayed_at i (suc idx) o (x ∷ outputs) e n =
    let next : i + 1 + idx ≡ i + suc idx = omega arith in
    let rest : Memᴰ (i + suc idx, o) (displayed (i + 1) outputs) =
      subst (λ k. Memᴰ (k, o) (displayed (i + 1) outputs)) next
        (displayed_at (i + 1) idx o outputs e n) in
    if_holds (Memᴰ (i + suc idx, o)) (x.size != 0) _ _ (λ _. tail rest) (λ _. rest)

size_pos : (size : ℕ) → is_size size ≡ true → (size != 0) ≡ true
size_pos size z = ground arith

-- out
pub display_pseudo_out-write_atomic :
    (c : SimulationControl) (size idx v : ℕ)
    → IsValid c
    → is_size size ≡ true
    → idx < num_pseudo_io_entries
    → (c' : SimulationControl) × (write_atomic c (c.start + output_offset size idx) size v
        ≡ completed (c', nothing))
      × Memᴰ (idx, record { size = size; value = v }) (display_pseudo_out c')
      × IsValid c'
unfolding display_pseudo_out
display_pseudo_out-write_atomic c size idx v i z b =
    let h = entries_fit size idx z b in
    let o : PseudoOutput = record { size = size; value = v } in
    let below : idx < length c.pseudo_outputs = omega (arith, b, i.outputs_length) in
    let c' = record c {
      pseudo_outputs = set c.pseudo_outputs idx o;
      store = store_bytes size c.store (output_offset size idx) v;
    } in
    let found = get_elem?-below c.pseudo_outputs idx below in
    let written = get_elem?-set_self c.pseudo_outputs idx found.0 o found.1 in
    let from : 0 + idx ≡ idx = omega arith in
    (
      c',
      write_atomic-output_below c size idx v z h below,
      subst (λ k. Memᴰ (k, o) (displayed 0 c'.pseudo_outputs)) from
          (displayed_at 0 idx o c'.pseudo_outputs written (size_pos size z)),
      record {
        inputs_length = i.inputs_length;
        outputs_length = length-set c.pseudo_outputs idx o ∙ i.outputs_length;
      },
    )
