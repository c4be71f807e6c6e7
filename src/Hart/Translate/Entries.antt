-- ===== src/Hart/Translate/Entries.antt =====
-- What the tests of an entry of a page table (sim/trace.cc) check, and the address that it gives.
use revive.Common.{
  ℕ, ◌+◌, ◌*◌, ◌/◌, ◌%◌, ◌^◌, bit_and, ◌≡◌, ◌≢◌, ◌⊎◌, inl, inr, Bool, true, false, not, ◌&&◌, ◌||◌,
  arith, ◌==◌, ◌!=◌, ==_iff, u64,
}
use revive.Common.Bits.{bit_and_low, bit_or_fields}
use revive.Hart.Status.{sum, mxr}
use revive.Hart.State.{TraceMachineState, priv_user, priv_supervisor}
use revive.Hart.Translate.{
  Request, pte_valid, pte_read, pte_write, pte_exec, pte_user, pte_access, pte_dirty, pte_ppn,
  pte_denied, pte_invalid, super_paddr, page_paddr,
}

-- The entry of a page lets the request through, at the level and with the status bits of `s`.
pub record Permits (s : TraceMachineState) (request : Request) (entry : ℕ) : Type 0 where
  pub valid : pte_valid entry ≡ true
  pub accessed : pte_access entry ≡ true
  pub writable : request.write ≡ true → (pte_write entry ≡ true) × (pte_dirty entry ≡ true)
  pub executable : request.exec ≡ true → pte_exec entry ≡ true
  pub readable :
      request.read ≡ true → (pte_read entry ≡ true) ⊎ ((mxr s.status ≢ 0) × (pte_exec entry ≡ true))
  pub for_user : s.priv ≡ priv_user → pte_user entry ≡ true
  pub for_supervisor : s.priv ≡ priv_supervisor → pte_user entry ≡ true → sum s.status ≢ 0

-- What the tests say of a request with the entry and the level they were passed at.
record Passed
    (valid read write exec user access dirty wants_r wants_w wants_x is_u is_s sums mxrs : Bool)
    : Type 0 where
  valid_ok : valid ≡ true
  access_ok : access ≡ true
  write_ok : wants_w ≡ true → (write ≡ true) × (dirty ≡ true)
  exec_ok : wants_x ≡ true → exec ≡ true
  read_ok : wants_r ≡ true → (read ≡ true) ⊎ ((mxrs ≡ true) × (exec ≡ true))
  user_ok : is_u ≡ true → user ≡ true
  supervisor_ok : is_s ≡ true → user ≡ true → sums ≡ true

-- The tests of the code on any Booleans.
tests-Passed :
    (valid read write exec user access dirty wants_r wants_w wants_x is_u is_s sums mxrs : Bool)
    → not valid || (not read && write) ≡ false
    → not access || (not dirty && wants_w) ≡ false
    → (is_u && not user)
        || (is_s && user && not sums)
        || (wants_r && not read && (not mxrs || not exec))
        || (wants_x && not exec)
        || (wants_w && not write)
      ≡ false
    → Passed valid read write exec user access dirty wants_r wants_w wants_x is_u is_s sums mxrs
tests-Passed valid read write exec user access dirty wants_r wants_w wants_x is_u is_s sums mxrs i a
      d =
    record {
      valid_ok = ground arith;
      access_ok = ground arith;
      write_ok = λ w. ground arith;
      exec_ok = λ w. ground arith;
      read_ok = λ w. ground arith;
      user_ok = λ w. ground arith;
      supervisor_ok = λ w u. ground arith;
    }

pub page_offset :
    (entry vaddr : ℕ) → page_paddr entry vaddr ≡ pte_ppn entry * 2 ^ 12 + vaddr % 2 ^ 12
unfolding page_paddr
page_offset entry vaddr =
    let e : u64 (pte_ppn entry * 2 ^ 12) ≡ pte_ppn entry * 2 ^ 12 = omega arith in
    rw (e, bit_and_low 12 vaddr) (bit_or_fields 12 (pte_ppn entry) (vaddr % 2 ^ 12) (omega arith))

pub super_offset :
    (entry vaddr : ℕ)
    → bit_and (pte_ppn entry) 0x3ff ≡ 0
    → super_paddr entry vaddr ≡ pte_ppn entry / 2 ^ 10 * 2 ^ 22 + vaddr % 2 ^ 22
unfolding super_paddr
super_offset entry vaddr h =
    let e : u64 (pte_ppn entry * 2 ^ 12) ≡ pte_ppn entry / 2 ^ 10 * 2 ^ 22 =
      omega (arith, h, bit_and_low 10 (pte_ppn entry)) in
    rw (e, bit_and_low 22 vaddr)
      (bit_or_fields 22 (pte_ppn entry / 2 ^ 10) (vaddr % 2 ^ 22) (omega arith))

pub leaf-Permits :
    (s : TraceMachineState) (request : Request) (entry : ℕ)
    → pte_invalid entry ≡ false
    → not (pte_access entry) || (not (pte_dirty entry) && request.write) ≡ false
    → pte_denied s request entry ≡ false
    → Permits s request entry
unfolding pte_invalid pte_denied
leaf-Permits s request entry i a d =
    let p =
      tests-Passed (pte_valid entry) (pte_read entry) (pte_write entry) (pte_exec entry)
        (pte_user entry) (pte_access entry) (pte_dirty entry) request.read request.write
        request.exec (s.priv == priv_user) (s.priv == priv_supervisor) (sum s.status != 0)
        (mxr s.status != 0) i a d in
    record {
      valid = p.valid_ok;
      accessed = p.access_ok;
      writable = p.write_ok;
      executable = p.exec_ok;
      readable = λ r. elim (p.read_ok r) [ inl q ↦ inl q | inr (m, x) ↦ inr (holds m, x) ];
      for_user = λ u. p.user_ok ((==_iff _ _).1 u);
      for_supervisor = λ u e. holds (p.supervisor_ok ((==_iff _ _).1 u) e);
    }
  where
    holds : {n : ℕ} → (n != 0) ≡ true → n ≢ 0
    holds h = ground arith
