-- ===== src/Machine/Load/Image.antt =====
-- The memory after a file is loaded: the programs' bytes over what was there.
use revive.Common.{
  ℕ, zero, suc, ◌+◌, ◌≤◌, ◌<◌, ◌≡◌, refl, sym, ◌∙◌, ◌⊎◌, inl, inr, false, ◌&&◌, some, List, [], ◌∷◌,
  arith, ltb, leb, ◌!=◌, if◌then◌else◌, Bool-cases, Outcome, done, if_holds,
}
use mathlib.Core.Path.{subst}
use revive.Hart.State.{Signal}
use revive.Space.Range.{AddressRange}
use revive.Space.Call.{Methods}
use revive.Space.Block.{write, memset, set_bytes}
use revive.Space.Block.Stored.{StoresBytes}
use revive.Space.Block.Round.{IsBlock, block_found, write_block}
use revive.Machine.Load.{
  File, Elf32Program, header, program, file_bytes, then_call, load_program, load_programs, load_elf,
}
use revive.Machine.Load.Overlay.{
  overlay, image, programs, file_programs, length-file_bytes, image_equal, put, peek-put, put-keeps,
}

module _ {D S : Type 0} (methods : Methods D S) (ranges : List (AddressRange D))
    (r : AddressRange D) (o : StoresBytes methods r.device r.start (r.start + r.size))
    (file : File) where
  -- What a header asks of the map: it has no bytes in the file, or the range holds them; the
  -- same of the memory.
  pub record HasRoom (p : Elf32Program) : Type 0 where
    pub file_fits :
        (p.program_filesz ≡ 0) ⊎ IsBlock methods ranges r p.program_vaddr p.program_filesz
    pub memory_fits :
        (p.program_memsz ≡ 0) ⊎ IsBlock methods ranges r p.program_vaddr p.program_memsz

  abbrev pub AllHaveRoom : List Elf32Program → Type 0
  AllHaveRoom [] = Unit
  AllHaveRoom (p ∷ ps) = HasRoom p × AllHaveRoom ps

  -- The memory is cleared by a call that clears nothing.
  memset-nothing :
      (addr size : ℕ) (s : S)
      → IsBlock methods ranges r addr size
      → memset methods ranges addr 0 size s ≡ done (s, [])
  unfolding memset set_bytes
  memset-nothing addr size s b = rw (memset, block_found methods ranges r o addr size b) refl

  -- The state that a part of the loader ends in: what its bytes are, and what it keeps.
  pub record Loaded (ps : List Elf32Program) (s : S) (loaded : Outcome (S × List Signal))
      : Type 1 where
    pub after : S
    pub ends : loaded ≡ done (after, [])
    pub keeps : (I : S → Type 0) → ((a v : ℕ) (x : S) → I x → I (o.poke x a v)) → I s → I after
    pub shows :
        (b : ℕ) → r.start ≤ b → b < r.start + r.size → o.peek after b ≡ image file ps (o.peek s) b

  clear_nothing :
      (p : Elf32Program) (s : S)
      → HasRoom p
      → (if p.program_memsz != 0
          then memset methods ranges p.program_vaddr 0 p.program_memsz s
          else done (s, []))
        ≡ done (s, [])
  clear_nothing p s h =
      if_holds (λ x. x ≡ done (s, [])) (p.program_memsz != 0) _ _
        (λ t. elim h.memory_fits [
          | inl e ↦ absurd (ground (arith, e, t))
          | inr b ↦ memset-nothing p.program_vaddr p.program_memsz s b
        ])
        (λ _. refl)

  copied : (p : Elf32Program) → S → Outcome (S × List Signal)
  copied p s =
      if p.program_filesz != 0
      then write methods ranges p.program_vaddr (file_bytes file p.program_offset p.program_filesz)
          s
      else done (s, [])

  -- The bytes of the file are put where the header says.
  copy_program : (p : Elf32Program) (s : S) → HasRoom p → Loaded (p ∷ []) s (copied p s)
  unfolding copied
  copy_program p s h = elim (Bool-cases (p.program_filesz != 0)) [
    | inl t ↦ elim h.file_fits [
      | inl e ↦ absurd (ground (arith, e, t))
      | inr b ↦
          let bytes = file_bytes file p.program_offset p.program_filesz in
          let same = sym (length-file_bytes file p.program_offset p.program_filesz) in
          rw t record {
            after = put methods ranges r o file s p.program_vaddr bytes;
            ends =
                write_block methods ranges r o p.program_vaddr bytes s
                  (subst (IsBlock methods ranges r p.program_vaddr) same b);
            keeps = λ I h i. put-keeps methods ranges r o file I h bytes p.program_vaddr s i;
            shows = λ a la ua.
                peek-put methods ranges r o file p.program_filesz p.program_offset p.program_vaddr a
                  s b.held.from_start b.held.to_end la ua;
          }
    ]
    | inr f ↦
        let zero_size : p.program_filesz ≡ 0 = ground arith in
        rw f record {
          after = s;
          ends = refl;
          keeps = λ I h i. i;
          shows = λ a la ua.
              let out : (leb p.program_vaddr a && ltb a (p.program_vaddr + p.program_filesz))
                  ≡ false =
                ground (arith, zero_size) in
              rw out refl;
        }
  ]

  call_then :
      (first : Outcome (S × List Signal)) (next : S → Outcome (S × List Signal)) (s1 s' : S)
      → first ≡ done (s1, [])
      → next s1 ≡ done (s', [])
      → then_call methods ranges first next ≡ done (s', [])
  call_then first next s1 s' e1 e2 = rw (e1, then_call, e2) refl

  load_program-Loaded :
      (p : Elf32Program) (s : S)
      → HasRoom p
      → Loaded (p ∷ []) s (load_program methods ranges file p s)
  unfolding load_program copied
  load_program-Loaded p s h =
      let c = copy_program p s h in
      record {
        after = c.after;
        ends =
            call_then
              (if p.program_memsz != 0
                then memset methods ranges p.program_vaddr 0 p.program_memsz s
                else done (s, []))
              (copied p) s c.after (clear_nothing p s h) c.ends;
        keeps = c.keeps;
        shows = c.shows;
      }

  pub load_programs-Loaded :
      (phentsize n prog : ℕ) (s : S)
      → AllHaveRoom (programs file phentsize n prog)
      → Loaded
          (programs file phentsize n prog)
          s
          (load_programs methods ranges file phentsize n prog s)
  unfolding load_programs
  load_programs-Loaded phentsize zero prog s h = record {
    after = s;
    ends = refl;
    keeps = λ I h i. i;
    shows = λ b l u. refl;
  }
  load_programs-Loaded phentsize (suc n) prog s h =
      let p = program file prog in
      let first = load_program-Loaded p s h.0 in
      let rest = load_programs-Loaded phentsize n (prog + phentsize) first.after h.1 in
      record {
        after = rest.after;
        ends = rw (load_programs, first.ends, rest.ends) refl;
        keeps = λ I k i. rest.keeps I k (first.keeps I k i);
        shows = λ b l u.
            rest.shows b l u
            ∙ image_equal file (programs file phentsize n (prog + phentsize)) (o.peek first.after)
                (overlay file p.program_offset p.program_filesz p.program_vaddr (o.peek s)) b
                (first.shows b l u);
      }

-- If a range of the map, whose object stores bytes, holds the bytes of every program header, the
-- loader returns the entry of the header, and a byte of the range is the one that the programs
-- make of it, each putting the bytes of the file that it names over what was there, in their
-- order. No other byte of the range changes: those of the memory size beyond the file size are
-- not cleared.
pub load_elf-image :
    {D S : Type 0} (methods : Methods D S) (ranges : List (AddressRange D)) (r : AddressRange D)
    (o : StoresBytes methods r.device r.start (r.start + r.size)) (file : File) (b : ℕ) (s : S)
    → AllHaveRoom methods ranges r o file (file_programs file)
    → r.start ≤ b
    → b < r.start + r.size
    → (s' : S) × (load_elf methods ranges (some file) s
        ≡ done (some ((header file).elf_entry, s', [])))
      × (o.peek s' b ≡ image file (file_programs file) (o.peek s) b)
unfolding load_elf
load_elf-image methods ranges r o file b s h l u =
    let elf = header file in
    let loaded =
      load_programs-Loaded methods ranges r o file elf.elf_phentsize elf.elf_phnum elf.elf_phoff s
        h in
    (loaded.after, rw (load_elf, loaded.ends) refl, loaded.shows b l u)
