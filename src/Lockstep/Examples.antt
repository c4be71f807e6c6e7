-- ===== src/Lockstep/Examples.antt =====
-- The lockstep checker at two concrete lines.
use revive.Common.{ℕ, ◌≡◌, refl, ◌↔◌, false, none, some, [], ◌∷◌, arith}
use revive.Lockstep.{SimDriver, SimTrace, Scanner, read_pc, drive_step}
use revive.Lockstep.Differ.{IsLine, target, drive_step_iff}

-- A line is its four numbers.
abbrev Line : Type 0
Line = ℕ × ℕ × ℕ × ℕ

abbrev scanner : Scanner Line
scanner = record { scan_pc = λ l. read_pc l.0; scan_wb = λ l. some (l.1, l.2, l.3) }

abbrev start_pc : ℕ
start_pc = 0x1000

abbrev line_of : ℕ → Line
line_of value = (start_pc, 1, 5, value)

abbrev driver : ℕ → SimDriver Line × SimTrace
driver value = (
  record { lines = line_of value ∷ []; num_instrs = 0; last_num_instrs = 0 },
  record { pc = 0; reg = none; value = 0; last_pc = 0 },
)

is_line : (value : ℕ) → IsLine scanner (line_of value) start_pc 1 5 value
is_line value = record { has_pc = refl; has_wb = refl; is_flag = omega arith }

drive_step_iff_example :
    ((drive_step scanner (driver 7) (driver 8)).0 ≡ false)
    ↔ ((start_pc ≡ start_pc) × (target 1 5 ≡ target 1 5))
drive_step_iff_example =
    drive_step_iff scanner (driver 7) (driver 8) (line_of 7) (line_of 8) [] [] start_pc 1 5 7
      start_pc 1 5 8 refl refl (is_line 7) (is_line 8)
