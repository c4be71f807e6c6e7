-- ===== src/Device/Uart/Refine.antt =====
-- The rings of the UART behave as bounded queues.
use revive.Common.{ℕ, suc, ◌+◌, ◌^◌, ◌<◌, ◌≡◌, refl, Option, List, [], ◌∷◌, arith, done, length}
use mathlib.Core.Path.{subst}
use revive.Device.Uart.{UniAsyncRxTx, new_uart}
use revive.Device.Uart.Queues.{Event, step, run, Queues, act, acts, no_characters}
use revive.Device.Uart.Window.{Shows}
use revive.Device.Uart.Simulate.{Represents, step-Simulated}

run-step :
    (e : Event) (events : List Event) (u u1 u' : UniAsyncRxTx) (o : Option ℕ) (os : List (Option ℕ))
    → step e u ≡ done (o, u1)
    → run events u1 ≡ done (os, u')
    → run (e ∷ events) u ≡ done (o ∷ os, u')
unfolding run
run-step e events u u1 u' o os h1 h2 = rw (h1, h2, run) refl

run-Represents :
    (events : List Event) (n : ℕ) (u : UniAsyncRxTx) (q : Queues)
    → Represents n u q
    → n + length events < 2 ^ 64
    → (u' : UniAsyncRxTx) × (run events u ≡ done ((acts events q).0, u'))
      × Represents (n + length events) u' (acts events q).1
unfolding run acts
run-Represents [] n u q r b =
    let none_more : n ≡ n + 0 = omega arith in (u, refl, subst (λ k. Represents k u q) none_more r)
run-Represents (e ∷ events) n u q r b =
    let s = step-Simulated n u q r (omega (arith, b)) e in
    let rest = run-Represents events (n + 1) s.after (act e q).1 s.represents (omega (arith, b)) in
    let all : n + 1 + length events ≡ n + suc (length events) = omega arith in
    (
      rest.0,
      run-step e events u s.after rest.0 (act e q).0 (acts events (act e q).1).0 s.ends rest.1,
      subst (λ k. Represents k rest.0 (acts events (act e q).1).1) all rest.2,
    )

-- From the start, any sequence of less than 2 ^ 64 events (writes and reads of the data register
-- by the guest, characters that the host has for the guest or takes from it) gives the outputs
-- that two queues of at most 16384 characters give, and leaves a UART that holds what they hold:
-- a character for the host that finds its queue full makes the oldest one go, and a character
-- for the guest that does waits.
pub run-acts :
    (events : List Event) (start : ℕ)
    → length events < 2 ^ 64
    → (u' : UniAsyncRxTx) × (run events (new_uart start) ≡ done ((acts events no_characters).0, u'))
      × Represents (length events) u' (acts events no_characters).1
unfolding new_uart
run-acts events start b =
    let empty : Shows (λ i. 0) 0 0 [] = record {
      rd_le = omega arith;
      room = omega arith;
      shown = refl;
    } in
    let r : Represents 0 (new_uart start) no_characters = record {
      rx = empty;
      tx = empty;
      rx_wr_le = omega arith;
      tx_wr_le = omega arith;
      printed_eq = refl;
    } in
    let all : 0 + length events ≡ length events = omega arith in
    let result = run-Represents events 0 (new_uart start) no_characters r (omega (arith, b)) in
    (
      result.0,
      result.1,
      subst (λ k. Represents k result.0 (acts events no_characters).1) all result.2,
    )
