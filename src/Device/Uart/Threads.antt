-- ===== src/Device/Uart/Threads.antt =====
-- The guest's writes against the thread `asyncTx`, interleaved: each step is one access of one
-- thread to the ring or its indices, but for the two loads of a comparison, which are one step.
use revive.Common.{
  ℕ, suc, ◌+◌, ◌%◌, ◌^◌, ◌≤◌, ◌<◌, ◌≡◌, refl, ap, true, false, List, [], ◌∷◌, ◌++◌, arith, leb,
  ◌==◌,
}
use mathlib.Core.Path.{subst}
use revive.Device.Uart.{UniAsyncRxTx, new_uart, buf_size, tx_full, tx_drop, tx_store, tx_advance}

-- Where the guest is in `write_atomic`: between writes, about to drop, to store, to count a
-- character.
pub data Writer : Type 0 where
  idle : Writer
  dropping storing counting : (ch : ℕ) → Writer

-- Where `asyncTx` is: about to test, to load the character, to count it, to write it to the pipe.
pub data Sender : Type 0 where
  testing loading : Sender
  counting_sent sending : (ch : ℕ) → Sender

pub record Threads : Type 0 where
  pub uart : UniAsyncRxTx
  pub writer : Writer
  pub sender : Sender
  pub piped : List ℕ

abbrev pub tx_rd : Threads → ℕ
tx_rd s = s.uart.txbuf_idx_rd

abbrev pub tx_wr : Threads → ℕ
tx_wr s = s.uart.txbuf_idx_wr

pub data Step : Threads → Threads → Type 0 where
  write_full :
      (s : Threads) (ch : ℕ)
      → s.writer ≡ idle
      → tx_full s.uart ≡ true
      → Step s (record s { writer = dropping ch })
  write_room :
      (s : Threads) (ch : ℕ)
      → s.writer ≡ idle
      → tx_full s.uart ≡ false
      → Step s (record s { writer = storing ch })
  drop_char :
      (s : Threads) (ch : ℕ)
      → s.writer ≡ dropping ch
      → Step s (record s { uart = tx_drop s.uart; writer = storing ch })
  store_char :
      (s : Threads) (ch : ℕ)
      → s.writer ≡ storing ch
      → Step s (record s { uart = tx_store s.uart ch; writer = counting ch })
  count_char :
      (s : Threads) (ch : ℕ)
      → s.writer ≡ counting ch
      → Step s (record s { uart = tx_advance s.uart; writer = idle })
  test_filled :
      (s : Threads)
      → s.sender ≡ testing
      → leb (tx_wr s) (tx_rd s) ≡ false
      → Step s (record s { sender = loading })
  load_char :
      (s : Threads)
      → s.sender ≡ loading
      → Step s (record s { sender = counting_sent (s.uart.txbuf (tx_rd s % buf_size)) })
  count_sent :
      (s : Threads) (ch : ℕ)
      → s.sender ≡ counting_sent ch
      → Step s (record s { uart = tx_drop s.uart; sender = sending ch })
  send_char :
      (s : Threads) (ch : ℕ)
      → s.sender ≡ sending ch
      → Step s (record s { sender = testing; piped = s.piped ++ ch ∷ [] })

-- A run of so many steps.
pub data Steps (s : Threads) : ℕ → Threads → Type 0 where
  start_here : Steps s 0 s
  then_step : {n : ℕ} {t u : Threads} → Steps s n t → Step t u → Steps s (suc n) u

unfoldable pub begin : ℕ → Threads
begin start = record { uart = new_uart start; writer = idle; sender = testing; piped = [] }

-- 1 when the sender has found a character that it has not counted yet.
abbrev pub taking : Sender → ℕ
taking testing = 0
taking loading = 1
taking (counting_sent ch) = 1
taking (sending ch) = 0

-- 1 between the drop, or the finding of room, and the count of the new character.
abbrev pub putting : Writer → ℕ
putting idle = 0
putting (dropping ch) = 0
putting (storing ch) = 1
putting (counting ch) = 1

-- The reader is at most one character ahead of the writer, and only while one is being put;
-- the ring has room for what is put.
pub record InOrder (n : ℕ) (s : Threads) : Type 0 where
  pub reader : tx_rd s + taking s.sender ≤ tx_wr s + putting s.writer
  pub room : tx_wr s + putting s.writer ≤ tx_rd s + buf_size
  pub counted : tx_wr s + putting s.writer ≤ n

Step-InOrder :
    (n : ℕ) (s s' : Threads) → InOrder n s → n + 1 < 2 ^ 64 → Step s s' → InOrder (n + 1) s'
unfolding tx_drop tx_store tx_advance
Step-InOrder n s s' i b (write_full _ ch e f) =
    let at = ap putting e in
    record {
      reader = omega (arith, i.reader, i.room, i.counted, at);
      room = omega (arith, i.reader, i.room, i.counted, at);
      counted = omega (arith, i.counted, at);
    }
Step-InOrder n s s' i b (write_room _ ch e f) =
    let at = ap putting e in
    record {
      reader = ground (arith, i.reader, i.room, i.counted, at, f);
      room = ground (arith, i.reader, i.room, i.counted, at, f);
      counted = omega (arith, i.counted, at);
    }
Step-InOrder n s s' i b (drop_char _ ch e) =
    let at = ap putting e in
    record {
      reader = omega (arith, i.reader, i.room, i.counted, at);
      room = omega (arith, i.reader, i.room, i.counted, at);
      counted = omega (arith, i.counted, at);
    }
Step-InOrder n s s' i b (store_char _ ch e) =
    let at = ap putting e in
    record {
      reader = omega (arith, i.reader, i.room, i.counted, at);
      room = omega (arith, i.reader, i.room, i.counted, at);
      counted = omega (arith, i.counted, at);
    }
Step-InOrder n s s' i b (count_char _ ch e) =
    let at = ap putting e in
    record {
      reader = omega (arith, i.reader, i.room, i.counted, at);
      room = omega (arith, i.reader, i.room, i.counted, at);
      counted = omega (arith, i.counted, at);
    }
Step-InOrder n s s' i b (test_filled _ e f) =
    let at = ap taking e in
    record {
      reader = ground (arith, i.reader, i.room, i.counted, at, f);
      room = ground (arith, i.reader, i.room, i.counted, at, f);
      counted = omega (arith, i.counted, at);
    }
Step-InOrder n s s' i b (load_char _ e) =
    let at = ap taking e in
    record {
      reader = omega (arith, i.reader, i.room, i.counted, at);
      room = omega (arith, i.reader, i.room, i.counted, at);
      counted = omega (arith, i.counted, at);
    }
Step-InOrder n s s' i b (count_sent _ ch e) =
    let at = ap taking e in
    record {
      reader = omega (arith, i.reader, i.room, i.counted, at);
      room = omega (arith, i.reader, i.room, i.counted, at);
      counted = omega (arith, i.counted, at);
    }
Step-InOrder n s s' i b (send_char _ ch e) =
    let at = ap taking e in
    record {
      reader = omega (arith, i.reader, i.room, i.counted, at);
      room = omega (arith, i.reader, i.room, i.counted, at);
      counted = omega (arith, i.counted, at);
    }

begin-InOrder : (start : ℕ) → InOrder 0 (begin start)
unfolding begin new_uart
begin-InOrder start = record { reader = omega arith; room = omega arith; counted = omega arith }

-- However the steps of a guest's writes and of the sending thread interleave, in a run of less
-- than 2 ^ 64 steps from the start, the reading index passes the writing index by at most the
-- character that is being put, the ring has room for it, and the indices do not wrap.
pub Steps-InOrder : (start n : ℕ) (s : Threads) → Steps (begin start) n s → n < 2 ^ 64 → InOrder n s
Steps-InOrder start _ _ start_here b = begin-InOrder start
Steps-InOrder start _ _ (then_step {n = n} {t = t} {u = u} r st) b =
    let more : n + 1 ≡ suc n = omega arith in
    subst (λ k. InOrder k u) more
      (Step-InOrder n t u (Steps-InOrder start n t r (omega (arith, b))) (omega (arith, b)) st)

-- store
pub store_keeps_pending :
    (start n ch j : ℕ) (s : Threads)
    → Steps (begin start) n s
    → n < 2 ^ 64
    → s.writer ≡ storing ch
    → tx_rd s ≤ j
    → j < tx_wr s
    → (tx_store s.uart ch).txbuf (j % buf_size) ≡ s.uart.txbuf (j % buf_size)
unfolding tx_store
store_keeps_pending start n ch j s r b e l h =
    let i = Steps-InOrder start n s r b in
    let other : (tx_wr s % buf_size == j % buf_size) ≡ false =
      ground (arith, i.room, ap putting e) in
    rw other refl
