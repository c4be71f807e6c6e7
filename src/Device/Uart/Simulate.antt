-- ===== src/Device/Uart/Simulate.antt =====
-- One event of the UART and of the queues that it promises.
use revive.Common.{
  ℕ, ◌+◌, ◌-◌, ◌%◌, ◌^◌, ◌≤◌, ◌<◌, ◌≡◌, refl, ap, ◌∙◌, inl, inr, true, false, Option, some, List,
  [], ◌∷◌, ◌++◌, arith, ◌!=◌, if◌then◌else◌, Bool-cases, u8, u64, Outcome, done, length,
}
use mathlib.Core.Path.{subst}
use revive.Common.Bits.{zero-bit_and}
use revive.Hart.State.{update}
use revive.Space.Range.{offset_in, unaligned}
use revive.Device.Uart.{
  UniAsyncRxTx, read_atomic, write_atomic, async_rx, async_tx, tx_drop, tx_store, tx_advance, print,
  buf_size,
}
use revive.Device.Uart.Queues.{
  Event, guest_write, guest_read, host_receive, host_send, step, Queues, is_full, drop_oldest, push,
  act,
}
use revive.Device.Uart.Window.{
  Shows, Shows-length, Shows-put, Shows-take, full_test, empty_test, filled_test,
}

-- The ring after a write, whose oldest character made place if there was none.
module _ (buf : ℕ → ℕ) (rd wr ch : ℕ) (b : wr + 1 < 2 ^ 64) where
  Shows-push_full :
      (xs : List ℕ)
      → Shows buf rd wr xs
      → is_full xs ≡ true
      → Shows
          (update buf (wr % buf_size) ch)
          (u64 (rd + 1))
          (u64 (wr + 1))
          (drop_oldest xs ++ ch ∷ [])
  Shows-push_full [] s e = absurd (ground arith)
  Shows-push_full (x ∷ xs) s e =
      let rest = (Shows-take buf rd wr b x xs s).1 in
      let fits : length xs < buf_size = omega (arith, Shows-length buf rd wr (x ∷ xs) s, s.room) in
      Shows-put buf (u64 (rd + 1)) wr b xs ch rest fits

  Shows-push :
      (xs : List ℕ)
      → Shows buf rd wr xs
      → Shows
          (update buf (wr % buf_size) ch)
          (if is_full xs then u64 (rd + 1) else rd)
          (u64 (wr + 1))
          (push xs ch)
  Shows-push xs s = elim (Bool-cases (is_full xs)) [
    | inl e ↦ rw e (Shows-push_full xs s e)
    | inr e ↦ rw e (Shows-put buf rd wr b xs ch s (ground arith))
  ]

-- The UART holds these queues, and each of its indices has grown at most `n` times.
pub record Represents (n : ℕ) (u : UniAsyncRxTx) (q : Queues) : Type 0 where
  pub rx : Shows u.rxbuf u.rxbuf_idx_rd u.rxbuf_idx_wr q.incoming
  pub tx : Shows u.txbuf u.txbuf_idx_rd u.txbuf_idx_wr q.outgoing
  pub rx_wr_le : u.rxbuf_idx_wr ≤ n
  pub tx_wr_le : u.txbuf_idx_wr ≤ n
  pub printed_eq : u.outf ≡ q.printed

-- The data register is at the start of the range, where an access of any size is aligned.
offset_start : (start : ℕ) → offset_in start start ≡ 0
offset_start start = omega arith

aligned_start : (size : ℕ) → unaligned 0 size ≡ false
unfolding unaligned
aligned_start size = rw (zero-bit_and (u64 (size + 2 ^ 64 - 1))) refl

module _ (n : ℕ) (u : UniAsyncRxTx) (q : Queues) (r : Represents n u q) (b : n + 1 < 2 ^ 64) where
  pub record Simulated (o : Outcome (Option ℕ × UniAsyncRxTx)) (a : Option ℕ × Queues)
      : Type 0 where
    pub after : UniAsyncRxTx
    pub ends : o ≡ done (a.0, after)
    pub represents : Represents (n + 1) after a.1

  rx_fits : u.rxbuf_idx_wr + 1 < 2 ^ 64
  rx_fits = omega (arith, r.rx_wr_le)

  tx_fits : u.txbuf_idx_wr + 1 < 2 ^ 64
  tx_fits = omega (arith, r.tx_wr_le)

  later : Represents (n + 1) u q
  later = record {
    rx = r.rx;
    tx = r.tx;
    rx_wr_le = omega (arith, r.rx_wr_le);
    tx_wr_le = omega (arith, r.tx_wr_le);
    printed_eq = r.printed_eq;
  }

  host_receive-Simulated : (ch : ℕ) → Simulated (step (host_receive ch) u) (act (host_receive ch) q)
  unfolding step act async_rx
  host_receive-Simulated ch =
      let full = full_test u.rxbuf u.rxbuf_idx_rd u.rxbuf_idx_wr rx_fits q.incoming r.rx in
      elim (Bool-cases (is_full q.incoming)) [
        | inl e ↦
            rw (full ∙ e, e, step, act, async_rx)
              record { after = u; ends = refl; represents = later }
        | inr e ↦ elim (Bool-cases (ch != 0)) [
          | inl f ↦
              rw (full ∙ e, e, f, step, act, async_rx)
                record {
                  after = _;
                  ends = refl;
                  represents = record {
                    rx =
                        Shows-put u.rxbuf u.rxbuf_idx_rd u.rxbuf_idx_wr rx_fits q.incoming ch r.rx
                          (ground arith);
                    tx = r.tx;
                    rx_wr_le = omega (arith, r.rx_wr_le);
                    tx_wr_le = omega (arith, r.tx_wr_le);
                    printed_eq = r.printed_eq;
                  };
                }
          | inr f ↦
              rw (full ∙ e, e, f, step, act, async_rx)
                record { after = u; ends = refl; represents = later }
        ]
      ]

  guest_read_case :
      (size : ℕ) (xs : List ℕ)
      → q.incoming ≡ xs
      → Simulated (step (guest_read size) u) (act (guest_read size) q)
  unfolding step act read_atomic
  guest_read_case size [] e =
      let at = offset_start u.start in
      let plain = aligned_start size in
      let none_left =
        empty_test u.rxbuf u.rxbuf_idx_rd u.rxbuf_idx_wr rx_fits
          (subst (Shows u.rxbuf u.rxbuf_idx_rd u.rxbuf_idx_wr) e r.rx) in
      rw (at, plain, none_left, e, step, act, read_atomic)
        record { after = u; ends = refl; represents = later }
  guest_read_case size (x ∷ xs) e =
      let at = offset_start u.start in
      let plain = aligned_start size in
      let rx = subst (Shows u.rxbuf u.rxbuf_idx_rd u.rxbuf_idx_wr) e r.rx in
      let some_left = filled_test u.rxbuf u.rxbuf_idx_rd u.rxbuf_idx_wr rx_fits x xs rx in
      let taken = Shows-take u.rxbuf u.rxbuf_idx_rd u.rxbuf_idx_wr rx_fits x xs rx in
      rw (at, plain, some_left, e, step, act, read_atomic)
        record {
          after = _;
          ends =
              ap (λ c. done (some c, record u { rxbuf_idx_rd = u64 (u.rxbuf_idx_rd + 1) })) taken.0;
          represents = record {
            rx = taken.1;
            tx = r.tx;
            rx_wr_le = omega (arith, r.rx_wr_le);
            tx_wr_le = omega (arith, r.tx_wr_le);
            printed_eq = r.printed_eq;
          };
        }

  host_send_case : (xs : List ℕ) → q.outgoing ≡ xs → Simulated (step host_send u) (act host_send q)
  unfolding step act async_tx
  host_send_case [] e =
      let none_left =
        empty_test u.txbuf u.txbuf_idx_rd u.txbuf_idx_wr tx_fits
          (subst (Shows u.txbuf u.txbuf_idx_rd u.txbuf_idx_wr) e r.tx) in
      rw (none_left, e, step, act, async_tx) record { after = u; ends = refl; represents = later }
  host_send_case (x ∷ xs) e =
      let tx = subst (Shows u.txbuf u.txbuf_idx_rd u.txbuf_idx_wr) e r.tx in
      let some_left = filled_test u.txbuf u.txbuf_idx_rd u.txbuf_idx_wr tx_fits x xs tx in
      let taken = Shows-take u.txbuf u.txbuf_idx_rd u.txbuf_idx_wr tx_fits x xs tx in
      rw (some_left, e, step, act, async_tx)
        record {
          after = _;
          ends =
              ap (λ c. done (some c, record u { txbuf_idx_rd = u64 (u.txbuf_idx_rd + 1) })) taken.0;
          represents = record {
            rx = r.rx;
            tx = taken.1;
            rx_wr_le = omega (arith, r.rx_wr_le);
            tx_wr_le = omega (arith, r.tx_wr_le);
            printed_eq = r.printed_eq;
          };
        }

  guest_write-Simulated :
      (size v : ℕ) → Simulated (step (guest_write size v) u) (act (guest_write size v) q)
  unfolding step act write_atomic tx_drop tx_store tx_advance
  guest_write-Simulated size v =
      let at = offset_start u.start in
      let plain = aligned_start size in
      let full = full_test u.txbuf u.txbuf_idx_rd u.txbuf_idx_wr tx_fits q.outgoing r.tx in
      let tx = Shows-push u.txbuf u.txbuf_idx_rd u.txbuf_idx_wr (u8 v) tx_fits q.outgoing r.tx in
      elim (Bool-cases (is_full q.outgoing)) [
        | inl e ↦
            rw (at, plain, full ∙ e, e, step, act, write_atomic)
              record {
                after = _;
                ends = refl;
                represents = record {
                  rx = r.rx;
                  tx = rw e at tx;
                  rx_wr_le = omega (arith, r.rx_wr_le);
                  tx_wr_le = omega (arith, r.tx_wr_le);
                  printed_eq = ap (λ o. print o (u8 v)) r.printed_eq;
                };
              }
        | inr e ↦
            rw (at, plain, full ∙ e, e, step, act, write_atomic)
              record {
                after = _;
                ends = refl;
                represents = record {
                  rx = r.rx;
                  tx = rw e at tx;
                  rx_wr_le = omega (arith, r.rx_wr_le);
                  tx_wr_le = omega (arith, r.tx_wr_le);
                  printed_eq = ap (λ o. print o (u8 v)) r.printed_eq;
                };
              }
      ]

  pub step-Simulated : (e : Event) → Simulated (step e u) (act e q)
  step-Simulated (guest_write size v) = guest_write-Simulated size v
  step-Simulated (guest_read size) = guest_read_case size q.incoming refl
  step-Simulated (host_receive ch) = host_receive-Simulated ch
  step-Simulated host_send = host_send_case q.outgoing refl
