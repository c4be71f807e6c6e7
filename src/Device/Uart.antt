-- ===== src/Device/Uart.antt =====
-- `UniAsyncRxTx` (sim/uart.cc, sim/include/uart.hh): two rings between the guest and the host's
-- pipes.
pub mod Window
pub mod Queues
pub mod Simulate
pub mod Refine
pub mod Threads
use revive.Common.{
  ℕ, zero, suc, ◌+◌, ◌-◌, ◌*◌, ◌/◌, ◌%◌, ◌^◌, ◌≤◌, ◌<◌, bit_and, bit_or, bit_xor, ◌≡◌, refl, sym,
  ap, ◌∙◌, ◌≢◌, ◌↔◌, ◌⊎◌, inl, inr, Bool, true, false, not, xor, ◌&&◌, ◌||◌, Option, none, some,
  List, [], ◌∷◌, ◌++◌, arith, ltb, leb, ◌==◌, ◌!=◌, between, if◌then◌else◌, ==_iff, Bool-cases, u8,
  u16, u32, u64, not32, not64, field, set_field, test_bits, Outcome, done, panicked, OnSome,
  on_none, on_some, OnSome-if, OnSome-test, OnSome-get, if_holds, OnDone, on_done, on_panicked,
  OnDone-get, OnDone-test, length, get_elem?, set, get_elem?-set_self, get_elem?-set_ne,
  length-append,
}
use revive.Hart.State.{update}
use revive.Space.Range.{offset_in, unaligned}

-- `outf` is what was printed to the output file, if one is open.
pub record UniAsyncRxTx : Type 0 where
  pub start : ℕ
  pub outf : Option (List ℕ)
  pub rxbuf : ℕ → ℕ
  pub rxbuf_idx_rd : ℕ
  pub rxbuf_idx_wr : ℕ
  pub txbuf : ℕ → ℕ
  pub txbuf_idx_rd : ℕ
  pub txbuf_idx_wr : ℕ

abbrev pub uart_data : ℕ
uart_data = 0

-- `RXBUF_SIZE` and `TXBUF_SIZE`
abbrev pub buf_size : ℕ
buf_size = 16384

unfoldable pub new_uart : ℕ → UniAsyncRxTx
new_uart start = record {
  start = start;
  outf = none;
  rxbuf = λ i. 0;
  rxbuf_idx_rd = 0;
  rxbuf_idx_wr = 0;
  txbuf = λ i. 0;
  txbuf_idx_rd = 0;
  txbuf_idx_wr = 0;
}

unfoldable pub read_atomic : UniAsyncRxTx → ℕ → ℕ → Outcome (ℕ × UniAsyncRxTx)
read_atomic u addr size =
    let offset = offset_in u.start addr in
    if unaligned offset size
    then panicked
    else if offset == uart_data
    then (if leb u.rxbuf_idx_wr u.rxbuf_idx_rd
        then done (0, u)
        else done (
          u.rxbuf (u.rxbuf_idx_rd % buf_size),
          record u { rxbuf_idx_rd = u64 (u.rxbuf_idx_rd + 1) },
        ))
    else done (0, u)

-- `fprintf(outf, "%c", ch)`
abbrev pub print : Option (List ℕ) → ℕ → Option (List ℕ)
print none ch = none
print (some text) ch = some (text ++ ch ∷ [])

-- `txbufIdxWr - txbufIdxRd >= TXBUF_SIZE`, of 64 bits
abbrev pub tx_full : UniAsyncRxTx → Bool
tx_full u = leb buf_size (u64 (u.txbuf_idx_wr + 2 ^ 64 - u.txbuf_idx_rd))

unfoldable pub tx_drop : UniAsyncRxTx → UniAsyncRxTx
tx_drop u = record u { txbuf_idx_rd = u64 (u.txbuf_idx_rd + 1) }

unfoldable pub tx_store : UniAsyncRxTx → ℕ → UniAsyncRxTx
tx_store u ch = record u { txbuf = update u.txbuf (u.txbuf_idx_wr % buf_size) ch }

unfoldable pub tx_advance : UniAsyncRxTx → UniAsyncRxTx
tx_advance u = record u { txbuf_idx_wr = u64 (u.txbuf_idx_wr + 1) }

unfoldable pub write_atomic : UniAsyncRxTx → ℕ → ℕ → ℕ → Outcome UniAsyncRxTx
write_atomic u addr size data' =
    let offset = offset_in u.start addr in
    if unaligned offset size
    then panicked
    else if offset == uart_data
    then (let ch = u8 data' in
        let printed = record u { outf = print u.outf ch } in
        let room = if tx_full printed then tx_drop printed else printed in
        done (tx_advance (tx_store room ch)))
    else done u

-- One character from the pipe in `asyncRx`: none while the ring is full, when the thread sleeps and
-- tries again; a zero is dropped.
unfoldable pub async_rx : UniAsyncRxTx → ℕ → Option UniAsyncRxTx
async_rx u ch =
    if leb buf_size (u64 (u.rxbuf_idx_wr + 2 ^ 64 - u.rxbuf_idx_rd))
    then none
    else if ch != 0
    then some (record u {
      rxbuf = update u.rxbuf (u.rxbuf_idx_wr % buf_size) ch;
      rxbuf_idx_wr = u64 (u.rxbuf_idx_wr + 1);
    })
    else some u

-- One round of `asyncTx`: the character for the pipe; none while the ring is empty, when the
-- thread sleeps.
unfoldable pub async_tx : UniAsyncRxTx → Option (ℕ × UniAsyncRxTx)
async_tx u =
    if leb u.txbuf_idx_wr u.txbuf_idx_rd
    then none
    else some
        (u.txbuf (u.txbuf_idx_rd % buf_size), record u { txbuf_idx_rd = u64 (u.txbuf_idx_rd + 1) })
