-- ===== src/Firmware/Ecall/Answers.antt =====
-- What an environment call leaves of the program that made it.
use revive.Common.{ℕ, ◌+◌, ◌≡◌, ◌≢◌, ◌↔◌, refl, false, List, [], ◌∷◌, arith, ◌==◌, u32, done}
use revive.Hart.Exec.{Host, World}
use revive.Firmware.Format.{number, vprintf, returned}
use revive.Firmware.Format.Pieces.{Piece, literal, numeral, word, shown_all, counted_all, ArePieces}
use revive.Firmware.Format.Render.{vprintf-pieces}
use revive.Firmware.Platform.{Compiler, printf, print_result}
use revive.Firmware.Returns.{
  Returns, IsReady, Returns-pure, Returns-bind, Returns-if, Returns-then, Anything, IsResponsive,
  Returns-put_all,
}
use revive.Firmware.Trap.{TrapContext}
use revive.Firmware.Ecall.{
  Answer, sbi_err_not_supported, unimplemented, serve_call, answer_call, ecall_handler,
}
use revive.Firmware.Ecall.Serves.{is_served, Fits, Returns-serve_call}

-- Characters that stand for themselves, before more pieces.
abbrev literals : List ℕ → List Piece → List Piece
literals [] ps = ps
literals (c ∷ cs) ps = literal c ∷ literals cs ps

-- The pieces of the complaint about a call that is not supported.
abbrev complaint : ℕ → ℕ → List Piece
complaint ext_id func_id =
    literals
      (b'[' ∷ b'S' ∷ b'B' ∷ b'I' ∷ b']' ∷ b' ' ∷ b'U' ∷ b'n' ∷ b'i' ∷ b'm' ∷ b'p' ∷ b'l' ∷ b' '
        ∷ b'e' ∷ b'x' ∷ b't' ∷ b':' ∷ b' ' ∷ [])
      (numeral word b'x' ext_id
        ∷ literals (b',' ∷ b' ' ∷ b'f' ∷ b'u' ∷ b'n' ∷ b'c' ∷ b':' ∷ b' ' ∷ [])
            (numeral word b'x' func_id ∷ literal b'\n' ∷ []))

complaint-ArePieces : (a b : ℕ) → ArePieces (complaint a b)
complaint-ArePieces a b = search tt

module _ {S : Type 0} (Ready : S → Type 0) (host : Host S) (r : IsResponsive Ready host)
    (compiler : Compiler) where
  Returns-complaint :
      (ext_id func_id : ℕ)
      → Returns Ready
          (printf host compiler unimplemented (number ext_id ∷ number func_id ∷ []))
          Anything
  unfolding printf print_result
  Returns-complaint ext_id func_id =
      let ps = complaint ext_id func_id in
      let printed : vprintf compiler.beyond unimplemented (number ext_id ∷ number func_id ∷ [])
          ≡ returned (shown_all compiler.beyond ps) (counted_all ps) =
        vprintf-pieces compiler.beyond ps (complaint-ArePieces ext_id func_id) in
      rw printed (Returns-put_all Ready host r (shown_all compiler.beyond ps))

-- What the handler leaves of the context: the address behind the call, the answer in a0 and a1,
-- and the rest of the registers as they were.
pub record IsAnswered (before after : TrapContext) : Type 0 where
  pub resumes : after.pc ≡ u32 (before.pc + 4)
  pub no_value : after.gpr 11 ≡ 0
  pub refuses :
      (after.gpr 10 ≡ sbi_err_not_supported) ↔ (is_served (before.gpr 17) (before.gpr 16) ≡ false)
  pub keeps : (i : ℕ) → i ≢ 10 → i ≢ 11 → after.gpr i ≡ before.gpr i
  pub keeps_status : after.status ≡ before.status

answer_call-IsAnswered :
    (ctxt : TrapContext) (answer : Answer)
    → Fits (is_served (ctxt.gpr 17) (ctxt.gpr 16)) answer
    → IsAnswered ctxt (answer_call ctxt answer)
unfolding answer_call
answer_call-IsAnswered ctxt (err, value) (zero_value, refusal) = record {
  resumes = refl;
  no_value = zero_value;
  refuses = refusal;
  keeps = λ i h k. ground (arith, h, k);
  keeps_status = refl;
}

-- On a machine whose devices answer, an environment call that is handled at the machine's level
-- returns: the address is the one behind the call, a1 holds 0, and every register but a0 and a1
-- and the status are as they were. The error in a0 says that the call is not supported exactly
-- if it is none of those that are served: the base functions 0 to 6, the timer by its number or
-- its old one, and the console.
pub ecall_handler-IsAnswered :
    {S : Type 0} (Ready : S → Type 0) (host : Host S) (r : IsResponsive Ready host)
    (compiler : Compiler) (ctxt : TrapContext) (w : World S)
    → IsReady Ready w
    → (after : TrapContext) × (w' : World S) × (ecall_handler host compiler ctxt w
        ≡ done (after, w'))
      × IsReady Ready w'
      × IsAnswered ctxt after
unfolding ecall_handler
ecall_handler-IsAnswered Ready host r compiler ctxt =
    let b = is_served (ctxt.gpr 17) (ctxt.gpr 16) in
    Returns-bind Ready (Fits b) (IsAnswered ctxt)
      (serve_call host compiler (ctxt.gpr 17) (ctxt.gpr 16) ctxt) _
      (Returns-serve_call Ready host r compiler (ctxt.gpr 17) (ctxt.gpr 16) ctxt)
      (λ answer fits.
        Returns-then Ready (IsAnswered ctxt) _ _
          (Returns-if Ready Anything (answer.0 == sbi_err_not_supported) _ _
            (λ _. Returns-complaint Ready host r compiler (ctxt.gpr 17) (ctxt.gpr 16))
            (λ _. Returns-pure Ready Anything tt tt))
          (Returns-pure Ready (IsAnswered ctxt) (answer_call ctxt answer)
            (answer_call-IsAnswered ctxt answer fits)))
