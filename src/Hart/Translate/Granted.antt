-- ===== src/Hart/Translate/Granted.antt =====
-- What a translation that is granted has read and checked.
use revive.Common.{
  ℕ, ◌+◌, ◌-◌, ◌*◌, ◌/◌, ◌%◌, ◌^◌, bit_and, ◌≡◌, Bool, true, false, not, ◌&&◌, ◌||◌, arith, ◌!=◌,
  u32, done, if_holds, OnDone-get,
}
use revive.Common.Bits.{bit_and_low}
use revive.Hart.State.{TraceMachineState}
use revive.Hart.Exec.{Host, World, Access, granted, faulted, pure, ◌>>=◌, get_hart}
use revive.Hart.Exec.Yields.{Yields, Yields-pure, Yields-if, Yields-bind}
use revive.Hart.Translate.{
  Request, pte_valid, pte_read, pte_exec, pte_access, pte_dirty, pte_ppn, check_leaf, check_paddr,
  pte_denied, pte_invalid, need_trans, super_paddr, page_paddr, walk_second, walk_first, walk,
  translate_vaddr,
}
use revive.Hart.Status.{atp_ppn}
use revive.Hart.Exec.{load}
use revive.Hart.Translate.Entries.{Permits, page_offset, super_offset, leaf-Permits}

-- Where the tables hold the entry of an address: the root table, by its ten highest bits, and the
-- table that an entry points on to, by the next ten.
abbrev pub root_entry : TraceMachineState → ℕ → ℕ
root_entry s vaddr = atp_ppn s.trans * 2 ^ 12 + vaddr / 2 ^ 22 % 2 ^ 10 * 4

abbrev pub next_entry : ℕ → ℕ → ℕ
next_entry entry vaddr = pte_ppn entry * 2 ^ 12 + vaddr / 2 ^ 12 % 2 ^ 10 * 4

-- A valid entry that names a page, which can be read or executed, or the next table.
pub record IsEntry (leaf : Bool) (entry : ℕ) : Type 0 where
  pub valid : pte_valid entry ≡ true
  pub kind : pte_read entry || pte_exec entry ≡ leaf

-- The tables hold, for an address, the entry of a page of `2 ^ bits` bytes, as the loads read them
-- one after the other: that of 4 MB in the root table, that of 4 KB in the table it points on to.
pub data Holds {S : Type 0} (host : Host S) (w : World S) (vaddr : ℕ)
    : (bits entry : ℕ) → World S → Type 0 where
  in_root :
      (word : ℕ) (w' : World S)
      → load host (root_entry w.hart vaddr) 4 w ≡ done (word, w')
      → Holds host w vaddr 22 (u32 word) w'
  in_next :
      (word1 word2 : ℕ) (w1 w' : World S)
      → load host (root_entry w.hart vaddr) 4 w ≡ done (word1, w1)
      → IsEntry false (u32 word1)
      → load host (next_entry (u32 word1) vaddr) 4 w1 ≡ done (word2, w')
      → Holds host w vaddr 12 (u32 word2) w'

-- `paddr` is what the entry of a page of `2 ^ bits` bytes makes of `vaddr`.
pub record Maps (s : TraceMachineState) (request : Request) (vaddr paddr bits entry : ℕ)
    : Type 0 where
  pub leaf : IsEntry true entry
  pub permits : Permits s request entry
  pub aligned : pte_ppn entry % 2 ^ (bits - 12) ≡ 0
  pub offset : paddr % 2 ^ bits ≡ vaddr % 2 ^ bits
  pub frame : paddr / 2 ^ bits ≡ pte_ppn entry / 2 ^ (bits - 12)

-- The address was granted as it is, or the entry that the tables hold for it maps it.
pub data Translated {S : Type 0} (host : Host S) (w : World S) (request : Request) (vaddr : ℕ)
    : Access → World S → Type 0 where
  mapped :
      (paddr bits entry : ℕ) (w' : World S)
      → need_trans w.hart ≡ true
      → Holds host w vaddr bits entry w'
      → Maps w.hart request vaddr paddr bits entry
      → Translated host w request vaddr (granted paddr) w'
  untranslated : need_trans w.hart ≡ false → Translated host w request vaddr (granted vaddr) w
  refused : (fault : ℕ) (w' : World S) → Translated host w request vaddr (faulted fault) w'

bits-IsEntry :
    (entry : ℕ) (leaf : Bool)
    → pte_invalid entry ≡ false
    → pte_read entry || pte_exec entry ≡ leaf
    → IsEntry leaf entry
unfolding pte_invalid
bits-IsEntry entry leaf i l = record { valid = valid_of (pte_valid entry) _ i; kind = l }
  where
    valid_of : (v b : Bool) → not v || b ≡ false → v ≡ true
    valid_of v b h = ground arith

or_false : (a b : Bool) → a || b ≡ false → (a ≡ false) × (b ≡ false)
or_false a b h = ground arith

read_or_exec : (v r x : Bool) → v || (not r && not x) ≡ false → r || x ≡ true
read_or_exec v r x h = ground arith

zero_of_test : (n : ℕ) → (n != 0) ≡ false → n ≡ 0
zero_of_test n h = ground arith

module _ {S : Type 0} (host : Host S) (w : World S) (request : Request)
    (vaddr page_fault access_fault : ℕ) (n : need_trans w.hart ≡ true) where
  -- The loads ended at this entry, which is that of a page.
  module _ (entry : ℕ) (w' : World S) (i : pte_invalid entry ≡ false)
      (l : pte_read entry || pte_exec entry ≡ true) where
    leaf-Translated :
        (paddr : ℕ)
        → (Permits w.hart request entry → Translated host w request vaddr (granted paddr) w')
        → Translated host w request vaddr
            (check_leaf w.hart request entry paddr page_fault access_fault)
            w'
    unfolding check_leaf check_paddr
    leaf-Translated paddr k =
        if_holds (λ x. Translated host w request vaddr x w')
          (not (pte_access entry) || (not (pte_dirty entry) && request.write)) _ _
          (λ _. refused page_fault w')
          λ a.
            if_holds (λ x. Translated host w request vaddr x w') (pte_denied w.hart request entry) _
              _ (λ _. refused page_fault w') (λ d. k (leaf-Permits w.hart request entry i a d))

    page-Translated :
        Holds host w vaddr 12 entry w'
        → Translated host w request vaddr
            (check_leaf w.hart request entry (page_paddr entry vaddr) page_fault access_fault)
            w'
    page-Translated held = leaf-Translated _ λ p. mapped _ 12 entry w' n held (record {
      leaf = bits-IsEntry entry true i l;
      permits = p;
      aligned = omega arith;
      offset = omega (arith, page_offset entry vaddr);
      frame = omega (arith, page_offset entry vaddr);
    })

    superpage-Translated :
        Holds host w vaddr 22 entry w'
        → bit_and (pte_ppn entry) 0x3ff ≡ 0
        → Translated host w request vaddr
            (check_leaf w.hart request entry (super_paddr entry vaddr) page_fault access_fault)
            w'
    superpage-Translated held h = leaf-Translated _ λ p. mapped _ 22 entry w' n held (record {
      leaf = bits-IsEntry entry true i l;
      permits = p;
      aligned = omega (arith, h, bit_and_low 10 (pte_ppn entry));
      offset = omega (arith, super_offset entry vaddr h);
      frame = omega (arith, super_offset entry vaddr h);
    })

  abbrev Answers : Access × World S → Type 0
  Answers r = Translated host w request vaddr r.0 r.1

  walk_second-Translated :
      (word1 : ℕ) (w1 : World S)
      → load host (root_entry w.hart vaddr) 4 w ≡ done (word1, w1)
      → IsEntry false (u32 word1)
      → Yields Answers
          (walk_second host w.hart request (u32 word1) vaddr page_fault access_fault)
          w1
  unfolding walk_second check_paddr
  walk_second-Translated word1 w1 e points = Yields-bind _ _ w1 λ word2 w' e'.
      let entry = u32 word2 in
      let index : bit_and (vaddr / 2 ^ 12) 0x3ff ≡ vaddr / 2 ^ 12 % 2 ^ 10 =
        bit_and_low 10 (vaddr / 2 ^ 12) in
      let held : Holds host w vaddr 12 entry w' =
        in_next word1 word2 w1 w' e points (rw index at e') in
      Yields-pure _ w' (
        if_holds (λ x. Translated host w request vaddr x w')
          (pte_invalid entry || (not (pte_read entry) && not (pte_exec entry))) _ _
          (λ _. refused page_fault w')
          (λ i. page-Translated entry w' (or_false _ _ i).0 (read_or_exec _ _ _ i) held))

  walk_first-Translated :
      Yields Answers
        (walk_first host w.hart request (root_entry w.hart vaddr) vaddr page_fault access_fault)
        w
  unfolding walk_first
  walk_first-Translated = Yields-bind _ _ w λ word w' e.
      let entry = u32 word in
      Yields-if (pte_invalid entry) _ _ w' (λ _. Yields-pure _ w' (refused page_fault w'))
        λ i.
          Yields-if (pte_read entry || pte_exec entry) _ _ w'
            (λ l.
              Yields-if (bit_and (pte_ppn entry) 0x3ff != 0) _ _ w'
                (λ _. Yields-pure _ w' (refused page_fault w'))
                (λ h.
                  Yields-pure _ w'
                    (superpage-Translated entry w' i l (in_root word w' e) (zero_of_test _ h))))
            (λ l. walk_second-Translated word w' e (bits-IsEntry entry false i l))

  walk-Translated : Yields Answers (walk host w.hart request vaddr page_fault access_fault) w
  unfolding walk check_paddr
  walk-Translated =
      let index : bit_and (vaddr / 2 ^ 22) 0x3ff ≡ vaddr / 2 ^ 22 % 2 ^ 10 =
        bit_and_low 10 (vaddr / 2 ^ 22) in
      rw index walk_first-Translated

-- An address that a translation grants is the virtual address, where no translation is needed,
-- and else the place in the frame of the entry that the loads of the tables gave for it: that of
-- a page of 4 MB in the root table, by the ten highest bits of the address, or that of a page of
-- 4 KB in the table that the root's valid entry points on to, by the next ten. The entry is
-- valid, can be read or executed, has an aligned frame, and permits the request with the level
-- and the status of the hart.
pub translate_vaddr-Translated :
    {S : Type 0} (host : Host S) (vaddr : ℕ) (request : Request) (page_fault access_fault : ℕ)
    (w w' : World S) (paddr : ℕ)
    → translate_vaddr host vaddr request page_fault access_fault w ≡ done (granted paddr, w')
    → Translated host w request vaddr (granted paddr) w'
unfolding translate_vaddr get_hart ◌>>=◌ check_paddr
translate_vaddr-Translated host vaddr request page_fault access_fault w w' paddr e =
    OnDone-get {P = λ r. Translated host w request vaddr r.0 r.1} (granted paddr, w')
      (Yields-if {Q = λ r. Translated host w request vaddr r.0 r.1} (need_trans w.hart)
        (walk host w.hart request vaddr page_fault access_fault) (pure (granted vaddr)) w
        (λ n. walk-Translated host w request vaddr page_fault access_fault n)
        (λ n. Yields-pure _ w (untranslated n)))
      e
