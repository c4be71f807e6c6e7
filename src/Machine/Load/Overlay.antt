-- ===== src/Machine/Load/Overlay.antt =====
-- The bytes of a file over a memory, and the same bytes as they are written.
use revive.Common.{
  ℕ, zero, suc, ◌+◌, ◌-◌, ◌≤◌, ◌<◌, ◌≡◌, refl, ◌∙◌, ◌⊎◌, inl, inr, true, false, ◌&&◌, List, [], ◌∷◌,
  arith, ltb, leb, if◌then◌else◌, Bool-cases, u8, length,
}
use revive.Space.Range.{AddressRange}
use revive.Space.Call.{Methods}
use revive.Space.Block.Stored.{StoresBytes, pokes}
use revive.Machine.Load.{File, Elf32Program, header, program, file_bytes}

-- `n` bytes of the file from `offset` on, over a memory at `addr`.
abbrev pub overlay : File → ℕ → ℕ → ℕ → (ℕ → ℕ) → ℕ → ℕ
overlay file offset n addr memory b =
    if leb addr b && ltb b (addr + n) then u8 (file (offset + (b - addr))) else memory b

-- What a list of programs makes of a memory: each puts its bytes of the file over it.
abbrev pub image : File → List Elf32Program → (ℕ → ℕ) → ℕ → ℕ
image file [] memory = memory
image file (p ∷ programs) memory =
    image file programs (overlay file p.program_offset p.program_filesz p.program_vaddr memory)

-- The programs of `n` headers from the offset `prog` on.
abbrev pub programs : File → ℕ → ℕ → ℕ → List Elf32Program
programs file phentsize zero prog = []
programs file phentsize (suc n) prog =
    program file prog ∷ programs file phentsize n (prog + phentsize)

abbrev pub file_programs : File → List Elf32Program
file_programs file =
    let elf = header file in programs file elf.elf_phentsize elf.elf_phnum elf.elf_phoff

pub length-file_bytes : (file : File) (offset n : ℕ) → length (file_bytes file offset n) ≡ n
length-file_bytes file offset zero = refl
length-file_bytes file offset (suc n) = omega (arith, length-file_bytes file (offset + 1) n)

pub image_equal :
    (file : File) (ps : List Elf32Program) (m1 m2 : ℕ → ℕ) (b : ℕ)
    → m1 b ≡ m2 b
    → image file ps m1 b ≡ image file ps m2 b
image_equal file [] m1 m2 b e = e
image_equal file (p ∷ ps) m1 m2 b e =
    image_equal file ps (overlay file p.program_offset p.program_filesz p.program_vaddr m1)
      (overlay file p.program_offset p.program_filesz p.program_vaddr m2) b
      (elim (Bool-cases (leb p.program_vaddr b && ltb b (p.program_vaddr + p.program_filesz))) [
        | inl t ↦ rw t refl
        | inr f ↦ rw f e
      ])

module _ {D S : Type 0} (methods : Methods D S) (ranges : List (AddressRange D))
    (r : AddressRange D) (o : StoresBytes methods r.device r.start (r.start + r.size))
    (file : File) where
  abbrev pub put : S → ℕ → List ℕ → S
  put = pokes methods r.device r.start (r.start + r.size) o

  pub peek-put :
      (n offset addr b : ℕ) (s : S)
      → r.start ≤ addr
      → addr + n ≤ r.start + r.size
      → r.start ≤ b
      → b < r.start + r.size
      → o.peek (put s addr (file_bytes file offset n)) b ≡ overlay file offset n addr (o.peek s) b
  peek-put zero offset addr b s l u lb ub =
      let out : (leb addr b && ltb b (addr + 0)) ≡ false = ground arith in rw out refl
  peek-put (suc n) offset addr b s l u lb ub =
      let x = file offset in
      let after = o.peek (o.poke s addr x) in
      let rest =
        peek-put n (offset + 1) (addr + 1) b (o.poke s addr x) (omega (arith, l)) (omega (arith, u))
          lb ub in
      let sides : (b < addr) ⊎ ((b ≡ addr) ⊎ (addr < b)) = ground arith in
      rest ∙ elim sides [
        | inl h ↦
            let out : (leb (addr + 1) b && ltb b (addr + 1 + n)) ≡ false = ground (arith, h) in
            let out' : (leb addr b && ltb b (addr + suc n)) ≡ false = ground (arith, h) in
            rw (out, out')
              (o.peek-poke_other addr b x s l (omega (arith, u)) lb ub (λ e. omega (arith, e, h)))
        | inr (inl h) ↦
            let out : (leb (addr + 1) b && ltb b (addr + 1 + n)) ≡ false = ground (arith, h) in
            let here : (leb addr b && ltb b (addr + suc n)) ≡ true = ground (arith, h) in
            let at : offset + (b - addr) ≡ offset = omega (arith, h) in
            rw (out, here, at, h) (o.peek-poke_self addr x s l (omega (arith, u)))
        | inr (inr h) ↦
            let same : (leb addr b && ltb b (addr + suc n))
                ≡ (leb (addr + 1) b && ltb b (addr + 1 + n)) =
              ground (arith, h) in
            let at : offset + 1 + (b - (addr + 1)) ≡ offset + (b - addr) = omega (arith, h) in
            elim (Bool-cases (leb (addr + 1) b && ltb b (addr + 1 + n))) [
              | inl t ↦ rw (same, t, at) refl
              | inr f ↦
                  rw (same, f)
                    (o.peek-poke_other addr b x s l (omega (arith, u)) lb ub
                      (λ e. omega (arith, e, h)))
            ]
      ]

  -- What every change of a byte keeps.
  pub put-keeps :
      (I : S → Type 0)
      → ((a v : ℕ) (x : S) → I x → I (o.poke x a v))
      → (bytes : List ℕ) (addr : ℕ) (s : S) → I s
      → I (put s addr bytes)
  put-keeps I h [] addr s i = i
  put-keeps I h (b ∷ bytes) addr s i =
      put-keeps I h bytes (addr + 1) (o.poke s addr b) (h addr b s i)
