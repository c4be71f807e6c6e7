-- ===== src/Machine/Load.antt =====
-- `loadElf` (sim/load.cc).
pub mod Overlay
pub mod Image
use revive.Common.{
  ℕ, zero, suc, ◌+◌, ◌-◌, ◌*◌, ◌/◌, ◌%◌, ◌^◌, ◌≤◌, ◌<◌, bit_and, bit_or, bit_xor, ◌≡◌, refl, sym,
  ap, ◌∙◌, ◌≢◌, ◌↔◌, ◌⊎◌, inl, inr, Bool, true, false, not, xor, ◌&&◌, ◌||◌, Option, none, some,
  List, [], ◌∷◌, ◌++◌, arith, ltb, leb, ◌==◌, ◌!=◌, between, if◌then◌else◌, ==_iff, Bool-cases, u8,
  u16, u32, u64, not32, not64, field, set_field, test_bits, Outcome, done, panicked, OnSome,
  on_none, on_some, OnSome-if, OnSome-test, OnSome-get, if_holds, OnDone, on_done, on_panicked,
  OnDone-get, OnDone-test, length, get_elem?, set, get_elem?-set_self, get_elem?-set_ne,
  length-append, get_elem?-below, get_elem?-beyond, length-set,
}
use revive.Hart.State.{Signal}
use revive.Space.Range.{AddressRange}
use revive.Space.Call.{Methods}
use revive.Space.Memory.{load_bytes}
use revive.Space.Block.{write, memset}

-- What stands in memory from `file_data` on: the bytes of the file, and behind them whatever is
-- there, since no read of the code is tested against `file_len`.
abbrev pub File : Type 0
File = ℕ → ℕ

-- The numbers of the header; `elf_ident` is the first 16 bytes.
pub record Elf32Header : Type 0 where
  pub elf_ident : File
  pub elf_type : ℕ
  pub elf_machine : ℕ
  pub elf_version : ℕ
  pub elf_entry : ℕ
  pub elf_phoff : ℕ
  pub elf_shoff : ℕ
  pub elf_flags : ℕ
  pub elf_ehsize : ℕ
  pub elf_phentsize : ℕ
  pub elf_phnum : ℕ
  pub elf_shentsize : ℕ
  pub elf_shnum : ℕ
  pub elf_shstrndx : ℕ

pub record Elf32Program : Type 0 where
  pub program_type : ℕ
  pub program_offset : ℕ
  pub program_vaddr : ℕ
  pub program_paddr : ℕ
  pub program_filesz : ℕ
  pub program_memsz : ℕ
  pub program_flags : ℕ
  pub program_align : ℕ

-- `(Elf32Header *)file_data`, of the packed layout
unfoldable pub header : File → Elf32Header
header file = record {
  elf_ident = file;
  elf_type = load_bytes 2 file 16;
  elf_machine = load_bytes 2 file 18;
  elf_version = load_bytes 4 file 20;
  elf_entry = load_bytes 4 file 24;
  elf_phoff = load_bytes 4 file 28;
  elf_shoff = load_bytes 4 file 32;
  elf_flags = load_bytes 4 file 36;
  elf_ehsize = load_bytes 2 file 40;
  elf_phentsize = load_bytes 2 file 42;
  elf_phnum = load_bytes 2 file 44;
  elf_shentsize = load_bytes 2 file 46;
  elf_shnum = load_bytes 2 file 48;
  elf_shstrndx = load_bytes 2 file 50;
}

-- The program header at an offset of the file.
unfoldable pub program : File → ℕ → Elf32Program
program file prog = record {
  program_type = load_bytes 4 file prog;
  program_offset = load_bytes 4 file (prog + 4);
  program_vaddr = load_bytes 4 file (prog + 8);
  program_paddr = load_bytes 4 file (prog + 12);
  program_filesz = load_bytes 4 file (prog + 16);
  program_memsz = load_bytes 4 file (prog + 20);
  program_flags = load_bytes 4 file (prog + 24);
  program_align = load_bytes 4 file (prog + 28);
}

-- `n` bytes of the file from `offset` on
abbrev pub file_bytes : File → ℕ → ℕ → List ℕ
file_bytes file offset zero = []
file_bytes file offset (suc n) = file offset ∷ file_bytes file (offset + 1) n

module _ {D S : Type 0} (methods : Methods D S) (ranges : List (AddressRange D)) where
  -- One call after another, with the signals of both.
  abbrev pub then_call :
      Outcome (S × List Signal) → (S → Outcome (S × List Signal)) → Outcome (S × List Signal)
  then_call first next = elim first [
    | done (s1, cs) ↦ (elim (next s1) [
      | done (s', cs') ↦ done (s', cs ++ cs')
      | panicked ↦ panicked
    ])
    | panicked ↦ panicked
  ]

  -- The body of the loop over the program headers.
  unfoldable pub load_program : File → Elf32Program → S → Outcome (S × List Signal)
  load_program file p s =
      let target = p.program_vaddr in
      then_call
        (if p.program_memsz != 0
          then memset methods ranges target 0 p.program_memsz s
          else done (s, []))
        λ s1.
          if p.program_filesz != 0
          then write methods ranges target (file_bytes file p.program_offset p.program_filesz) s1
          else done (s1, [])

  -- The headers from the offset `prog` on, of which `n` are left.
  unfoldable pub load_programs : File → ℕ → ℕ → ℕ → S → Outcome (S × List Signal)
  load_programs file phentsize zero prog s = done (s, [])
  load_programs file phentsize (suc n) prog s =
      then_call (load_program file (program file prog) s)
        λ s1. load_programs file phentsize n (prog + phentsize) s1

  -- The entry, and the memory; none without a file's name.
  unfoldable pub load_elf : Option File → S → Outcome (Option (ℕ × S × List Signal))
  load_elf none s = done none
  load_elf (some file) s =
      let elf = header file in
      elim (load_programs file elf.elf_phentsize elf.elf_phnum elf.elf_phoff s) [
        | done (s', cs) ↦ done (some (elf.elf_entry, s', cs))
        | panicked ↦ panicked
      ]
