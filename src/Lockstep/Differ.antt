-- ===== src/Lockstep/Differ.antt =====
-- What the lockstep checker tells apart.
use revive.Common.{
  ℕ, ◌≤◌, ◌≡◌, refl, sym, ap, ◌∙◌, ◌↔◌, inl, inr, Bool, true, false, ◌&&◌, some, List, ◌∷◌, arith,
  ◌!=◌, if◌then◌else◌, Bool-cases,
}
use revive.Lockstep.{
  SimDriver, SimTrace, Scanner, read_pc, write_back, parse_wb, parse_line, parse_trace, same_reg,
  diff_trace, drive_step,
}

-- A line of a commit log: an address, and whether it writes a register, which and what.
pub record IsLine {L : Type 0} (scanner : Scanner L) (line : L) (pc wb_valid wb_reg wb_value : ℕ)
    : Type 0 where
  pub has_pc : scanner.scan_pc line ≡ read_pc pc
  pub has_wb : scanner.scan_wb line ≡ some (wb_valid, wb_reg, wb_value)
  pub is_flag : wb_valid ≤ 1

-- The register that a line writes; 0 if it writes none.
abbrev pub target : ℕ → ℕ → ℕ
target wb_valid wb_reg = if wb_valid != 0 then wb_reg else 0

writes : ℕ → ℕ → Bool
writes wb_valid wb_reg = wb_valid != 0 && wb_reg != 0

write_back-target :
    (t u : SimTrace) (v1 r1 x1 v2 r2 x2 : ℕ)
    → v1 ≤ 1
    → v2 ≤ 1
    → t.pc ≡ u.pc
    → (diff_trace (write_back t v1 r1 x1) (write_back u v2 r2 x2) ≡ false)
      ↔ (target v1 r1 ≡ target v2 r2)
unfolding diff_trace write_back same_reg writes
write_back-target t u v1 r1 x1 v2 r2 x2 b1 b2 e =
    let same_pc : (t.pc != u.pc) ≡ false = ground (arith, e) in
    elim (Bool-cases (writes v1 r1)) [
      | inl w1 ↦ elim (Bool-cases (writes v2 r2)) [
        | inl w2 ↦
            rw (diff_trace, same_pc, write_back, w1, w2)
              ((λ h. ground (arith, h, w1, w2, b1, b2)), (λ h. ground (arith, h, w1, w2, b1, b2)))
        | inr w2 ↦
            rw (diff_trace, same_pc, write_back, w1, w2)
              ((λ h. ground (arith, h, w1, w2, b1, b2)), (λ h. ground (arith, h, w1, w2, b1, b2)))
      ]
      | inr w1 ↦ elim (Bool-cases (writes v2 r2)) [
        | inl w2 ↦
            rw (diff_trace, same_pc, write_back, w1, w2)
              ((λ h. ground (arith, h, w1, w2, b1, b2)), (λ h. ground (arith, h, w1, w2, b1, b2)))
        | inr w2 ↦
            rw (diff_trace, same_pc, write_back, w1, w2)
              ((λ h. ground (arith, h, w1, w2, b1, b2)), (λ h. ground (arith, h, w1, w2, b1, b2)))
      ]
    ]

diff_pc : (t u : SimTrace) → diff_trace t u ≡ false → t.pc ≡ u.pc
unfolding diff_trace
diff_pc t u e = elim (Bool-cases (t.pc != u.pc)) [
  | inl w ↦ absurd (true_false (rw w at e))
  | inr w ↦ ground (arith, w)
]
  where
    true_false : true ≡ false → ⊥
    true_false h = cc

parse_trace-line :
    {L : Type 0} (scanner : Scanner L) (line : L) (rest : List L) (pc v r x : ℕ) (s : SimDriver L)
    (t : SimTrace)
    → s.lines ≡ line ∷ rest
    → IsLine scanner line pc v r x
    → (parse_trace scanner s t).2 ≡ write_back (record t { pc = pc; last_pc = t.pc }) v r x
unfolding parse_trace parse_line parse_wb write_back
parse_trace-line scanner line rest pc v r x s t e l =
    rw (parse_trace, e, parse_line, l.has_pc, parse_wb, l.has_wb) refl

-- If both simulators have a next line, the checker finds no difference exactly if the addresses
-- are the same and so are the registers that are written, 0 for none; the values that are
-- written do not matter.
pub drive_step_iff :
    {L : Type 0} (scanner : Scanner L) (rtl isa : SimDriver L × SimTrace) (l1 l2 : L)
    (rest1 rest2 : List L) (pc1 v1 r1 x1 pc2 v2 r2 x2 : ℕ)
    → rtl.0.lines ≡ l1 ∷ rest1
    → isa.0.lines ≡ l2 ∷ rest2
    → IsLine scanner l1 pc1 v1 r1 x1
    → IsLine scanner l2 pc2 v2 r2 x2
    → ((drive_step scanner rtl isa).0 ≡ false) ↔ ((pc1 ≡ pc2) × (target v1 r1 ≡ target v2 r2))
unfolding drive_step write_back
drive_step_iff scanner rtl isa l1 l2 rest1 rest2 pc1 v1 r1 x1 pc2 v2 r2 x2 e1 e2 h1 h2 =
    let t1 = record (rtl.1) { pc = pc1; last_pc = rtl.1.pc } in
    let t2 = record (isa.1) { pc = pc2; last_pc = isa.1.pc } in
    let p1 = parse_trace-line scanner l1 rest1 pc1 v1 r1 x1 rtl.0 rtl.1 e1 h1 in
    let p2 = parse_trace-line scanner l2 rest2 pc2 v2 r2 x2 isa.0 isa.1 e2 h2 in
    let told : (drive_step scanner rtl isa).0
        ≡ diff_trace (write_back t1 v1 r1 x1) (write_back t2 v2 r2 x2) =
      ap (λ a. diff_trace a (parse_trace scanner isa.0 isa.1).2) p1
      ∙ ap (diff_trace (write_back t1 v1 r1 x1)) p2 in
    (
      (λ d.
          let same = diff_pc (write_back t1 v1 r1 x1) (write_back t2 v2 r2 x2) (sym told ∙ d) in
          (
            same,
            (write_back-target t1 t2 v1 r1 x1 v2 r2 x2 h1.is_flag h2.is_flag same).0 (sym told ∙ d),
          )),
      (λ d. told ∙ (write_back-target t1 t2 v1 r1 x1 v2 r2 x2 h1.is_flag h2.is_flag d.0).1 d.1),
    )
