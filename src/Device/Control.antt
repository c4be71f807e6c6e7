-- ===== src/Device/Control.antt =====
-- `SimulationControl` (sim/ctrl.cc, sim/include/ctrl.hh): the guest's commands to the simulator.
pub mod Pseudo
pub mod Entries
use revive.Common.{
  ℕ, zero, suc, ◌+◌, ◌-◌, ◌*◌, ◌/◌, ◌%◌, ◌^◌, ◌≤◌, ◌<◌, bit_and, bit_or, bit_xor, ◌≡◌, refl, sym,
  ap, ◌∙◌, ◌≢◌, ◌↔◌, ◌⊎◌, inl, inr, Bool, true, false, not, xor, ◌&&◌, ◌||◌, Option, none, some,
  List, [], ◌∷◌, ◌++◌, arith, ltb, leb, ◌==◌, ◌!=◌, between, if◌then◌else◌, ==_iff, Bool-cases, u8,
  u16, u32, u64, not32, not64, field, set_field, test_bits, Outcome, done, panicked, OnSome,
  on_none, on_some, OnSome-if, OnSome-test, OnSome-get, if_holds, OnDone, on_done, on_panicked,
  OnDone-get, OnDone-test, length, get_elem?, set, get_elem?-set_self, get_elem?-set_ne,
  length-append,
}
use revive.Space.Range.{offset_in, unaligned}
use revive.Space.Memory.{load_bytes, store_bytes, is_size}

-- How an access ends: with a value, in `panic`, or beyond the end of an array, which C++ leaves
-- undefined.
pub data Access (A : Type 0) : Type 0 where
  completed : (value : A) → Access A
  panics overruns : Access A

pub record PseudoOutput : Type 0 where
  pub size : ℕ
  pub value : ℕ

-- `outf` and `dumpf` are the characters and the words printed to a file, if it is open.
pub record SimulationControl : Type 0 where
  pub start : ℕ
  pub outf : Option (List ℕ)
  pub dumpf : Option (List ℕ)
  pub store : ℕ → ℕ
  pub dump_data_start : ℕ
  pub dump_data_end : ℕ
  pub pseudo_inputs : List ℕ
  pub pseudo_outputs : List PseudoOutput

abbrev pub num_pseudo_io_entries : ℕ
num_pseudo_io_entries = 32

abbrev replicate : {A : Type 0} → ℕ → A → List A
replicate zero x = []
replicate (suc n) x = x ∷ replicate n x

unfoldable pub new_control : ℕ → SimulationControl
new_control start = record {
  start = start;
  outf = none;
  dumpf = none;
  store = λ i. 0;
  dump_data_start = 0;
  dump_data_end = 0;
  pseudo_inputs = replicate num_pseudo_io_entries 0;
  pseudo_outputs = replicate num_pseudo_io_entries record { size = 0; value = 0 };
}

-- `offset >= base && offset < base + sizeof(uint64_t) * numPseudoIOEntries`
abbrev pub in_entries : ℕ → ℕ → Bool
in_entries base offset = leb base offset && ltb offset (base + 8 * num_pseudo_io_entries)

-- The entry of an array of the pseudo inputs or outputs.
abbrev pub entry : {A : Type 0} → List A → ℕ → Access A
entry entries idx = elim (get_elem? entries idx) [ some v ↦ completed v | none ↦ overruns ]

abbrev pub set_entry : {A : Type 0} → List A → ℕ → A → Access (List A)
set_entry entries idx v = elim (get_elem? entries idx) [
  | some w ↦ completed (set entries idx v)
  | none ↦ overruns
]

unfoldable pub read_at : SimulationControl → ℕ → ℕ → Access ℕ
read_at c offset size =
    if unaligned offset size
    then panics
    else if offset == 0x1000
    then completed 0
    else if in_entries 0x2000 offset
    then entry c.pseudo_inputs ((offset - 0x2000) / size)
    else if is_size size
    then completed (load_bytes size c.store offset)
    else panics

unfoldable pub read_atomic : SimulationControl → ℕ → ℕ → Access ℕ
read_atomic c addr size = read_at c (offset_in c.start addr) size

-- What a write asks of the machine: nothing, to terminate, or the words of a dump.
pub data Request : Type 0 where
  nothing dump_data : Request
  terminate : (code : ℕ) → Request

-- `fprintf(outf, "%c", (char)data)`
abbrev pub put_char : SimulationControl → ℕ → SimulationControl
put_char c data' = record c {
  outf = elim c.outf [ some text ↦ some (text ++ u8 data' ∷ []) | none ↦ none ];
}

-- The two tests that follow the commands, and the store.
unfoldable pub write_input : SimulationControl → ℕ → ℕ → ℕ → Access SimulationControl
write_input c offset size data' =
    if in_entries 0x2000 offset
    then (elim (set_entry c.pseudo_inputs ((offset - 0x2000) / size) data') [
      | completed inputs ↦ completed (record c { pseudo_inputs = inputs })
      | panics ↦ panics
      | overruns ↦ overruns
    ])
    else completed c

unfoldable pub write_output : SimulationControl → ℕ → ℕ → ℕ → Access SimulationControl
write_output c offset size data' =
    if in_entries 0x3000 offset
    then (elim (set_entry c.pseudo_outputs ((offset - 0x3000) / size)
        record { size = size; value = data' }) [
          | completed outputs ↦ completed (record c { pseudo_outputs = outputs })
          | panics ↦ panics
          | overruns ↦ overruns
        ])
    else completed c

unfoldable pub write_store : SimulationControl → ℕ → ℕ → ℕ → Access SimulationControl
write_store c offset size data' =
    if is_size size
    then completed (record c { store = store_bytes size c.store offset data' })
    else panics

infixl 5 ◌>>=◌
unfoldable pub ◌>>=◌ : {A B : Type 0} → Access A → (A → Access B) → Access B
◌>>=◌ (completed a) f = f a
◌>>=◌ panics f = panics
◌>>=◌ overruns f = overruns

unfoldable pub write_at : SimulationControl → ℕ → ℕ → ℕ → Access (SimulationControl × Request)
write_at c offset size data' =
    if offset == 0x1004
    then completed (put_char c data', nothing)
    else if offset == 0x1008
    then completed (put_char c data', nothing)
    else if offset == 0x100c
    then completed (c, terminate (u32 data'))
    else if offset == 0x1010
    then completed (record c { dump_data_start = data' }, nothing)
    else if offset == 0x1014
    then completed (record c { dump_data_end = data' }, nothing)
    else if offset == 0x1018
    then completed (c, dump_data)
    else do
      c1 ← write_input c offset size data'
      c2 ← write_output c1 offset size data'
      c3 ← write_store c2 offset size data'
      completed (c3, nothing)

unfoldable pub write_atomic : SimulationControl → ℕ → ℕ → ℕ → Access (SimulationControl × Request)
write_atomic c addr size data' = write_at c (offset_in c.start addr) size data'

unfoldable pub set_pseudo_in : SimulationControl → ℕ → ℕ → SimulationControl
set_pseudo_in c idx value =
    if ltb idx num_pseudo_io_entries
    then record c { pseudo_inputs = set c.pseudo_inputs idx value }
    else c

-- The lines that are displayed at the end: the outputs that were written, with their indices.
unfoldable pub displayed : ℕ → List PseudoOutput → List (ℕ × PseudoOutput)
displayed i [] = []
displayed i (o ∷ outputs) =
    let rest = displayed (i + 1) outputs in if o.size != 0 then (i, o) ∷ rest else rest

unfoldable pub display_pseudo_out : SimulationControl → List (ℕ × PseudoOutput)
display_pseudo_out c = displayed 0 c.pseudo_outputs
