-- ===== src/Device/Uart/Queues.antt =====
-- The runs of the UART, and the bounded queues that it promises.
use revive.Common.{
  ℕ, Bool, Option, none, some, List, [], ◌∷◌, ◌++◌, leb, ◌!=◌, if◌then◌else◌, u8, Outcome, done,
  panicked, length,
}
use revive.Device.Uart.{
  UniAsyncRxTx, read_atomic, write_atomic, async_rx, async_tx, print, buf_size,
}

-- The guest writes or reads the data register, the host has a character of its pipe or takes one.
pub data Event : Type 0 where
  guest_write : (size data' : ℕ) → Event
  guest_read : (size : ℕ) → Event
  host_receive : (ch : ℕ) → Event
  host_send : Event

unfoldable pub step : Event → UniAsyncRxTx → Outcome (Option ℕ × UniAsyncRxTx)
step (guest_write size data') u = elim (write_atomic u u.start size data') [
  | done u' ↦ done (none, u')
  | panicked ↦ panicked
]
step (guest_read size) u = elim (read_atomic u u.start size) [
  | done (ch, u') ↦ done (some ch, u')
  | panicked ↦ panicked
]
step (host_receive ch) u = elim (async_rx u ch) [
  | none ↦ done (none, u)
  | some u' ↦ done (some ch, u')
]
step host_send u = elim (async_tx u) [ none ↦ done (none, u) | some (ch, u') ↦ done (some ch, u') ]

-- The outputs of a run, in their order.
unfoldable pub run : List Event → UniAsyncRxTx → Outcome (List (Option ℕ) × UniAsyncRxTx)
run [] u = done ([], u)
run (e ∷ events) u = elim (step e u) [
  | done (o, u1) ↦ (elim (run events u1) [
    | done (os, u') ↦ done (o ∷ os, u')
    | panicked ↦ panicked
  ])
  | panicked ↦ panicked
]

-- What the UART promises: two queues of at most `buf_size` characters and what was printed.
pub record Queues : Type 0 where
  pub incoming : List ℕ
  pub outgoing : List ℕ
  pub printed : Option (List ℕ)

abbrev pub is_full : List ℕ → Bool
is_full xs = leb buf_size (length xs)

abbrev pub drop_oldest : List ℕ → List ℕ
drop_oldest [] = []
drop_oldest (x ∷ xs) = xs

-- The oldest character makes place for a new one.
abbrev pub push : List ℕ → ℕ → List ℕ
push xs ch = (if is_full xs then drop_oldest xs else xs) ++ ch ∷ []

unfoldable pub act : Event → Queues → Option ℕ × Queues
act (guest_write size data') q =
    (none, record q { outgoing = push q.outgoing (u8 data'); printed = print q.printed (u8 data') })
act (guest_read size) q = elim q.incoming [
  | [] ↦ (some 0, q)
  | ch ∷ rest ↦ (some ch, record q { incoming = rest })
]
act (host_receive ch) q =
    if is_full q.incoming
    then (none, q)
    else if ch != 0
    then (some ch, record q { incoming = q.incoming ++ ch ∷ [] })
    else (some ch, q)
act host_send q = elim q.outgoing [
  | [] ↦ (none, q)
  | ch ∷ rest ↦ (some ch, record q { outgoing = rest })
]

unfoldable pub acts : List Event → Queues → List (Option ℕ) × Queues
acts [] q = ([], q)
acts (e ∷ events) q = let (o, q1) = act e q in let (os, q') = acts events q1 in (o ∷ os, q')

abbrev pub no_characters : Queues
no_characters = record { incoming = []; outgoing = []; printed = none }
