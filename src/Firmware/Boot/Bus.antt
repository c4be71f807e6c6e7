-- ===== src/Firmware/Boot/Bus.antt =====
-- The bus of the machine's devices answers the firmware.
use revive.Common.{
  ℕ, ◌+◌, ◌*◌, ◌%◌, ◌^◌, ◌≤◌, ◌<◌, ◌≡◌, refl, ◌∙◌, Bool, true, false, Option, some, List, [], arith,
  leb, ◌==◌, ◌!=◌, if◌then◌else◌, done, inl, inr, Bool-cases, none, get_elem?, set,
}
use revive.Space.Range.{
  in_range, offset_in, offset_in_lem, unaligned, unaligned_byte, unaligned_word,
}
use revive.Space.Dispatch.{find}
use revive.Space.Call
use revive.Device.Uart.{UniAsyncRxTx}
use revive.Device.Uart
use revive.Device.Clint.{
  CoreLocalInterruptor, CoreTimer, Call, write_mtimecmp, write_mtime, write_at, change_slot,
  set_mtimecmp,
}
use revive.Device.Clint
use revive.Device.Clint.Line.{calls_to}
use revive.Machine.Bus.{
  SimulatedMachine, clint_range, uart0_range, ranges, write_device, read_device, bus,
  sim_clint_start, sim_uart0_start, memory_range, sim_phys_mem_start, sim_phys_mem_size,
}
use revive.Space.Memory
use revive.Space.Memory.{store_bytes}
use revive.Firmware.Boot.{Image}
use revive.Firmware.Boot.Entry.{ClearsBss}
use revive.Firmware.Returns.{Accepts, IsResponsive}
use revive.Firmware.Timer.Comparator.{half_found}
use revive.Firmware.Timer.{clint_mtime_addr}

-- The interruptor and the memory stand at their addresses.
abbrev pub Ready : SimulatedMachine → Type 0
Ready m = (m.interruptor.start ≡ sim_clint_start) × (m.memory.start ≡ sim_phys_mem_start)

uart_found : find ranges sim_uart0_start 1 ≡ some uart0_range
unfolding find in_range
uart_found = refl

-- Both branches give a value.
if_done {ℓ} :
    {A : Type ℓ} (b : Bool) (x y : A) → (a : A) × ((if b then done x else done y) ≡ done a)
if_done true x y = (x, refl)
if_done false x y = (y, refl)

uart_writes :
    (u : UniAsyncRxTx) (addr v : ℕ) → (u' : UniAsyncRxTx) × (Uart.write_atomic u addr 1 v ≡ done u')
unfolding Uart.write_atomic
uart_writes u addr v =
    rw (Uart.write_atomic, unaligned_byte (offset_in u.start addr))
      (if_done (offset_in u.start addr == Uart.uart_data) _ u)

-- A read of one byte gives 0 or the character at the head of the ring.
uart_reads :
    (u : UniAsyncRxTx) (addr : ℕ) → (r : ℕ × UniAsyncRxTx) × (Uart.read_atomic u addr 1 ≡ done r)
unfolding Uart.read_atomic
uart_reads u addr =
    rw (Uart.read_atomic, unaligned_byte (offset_in u.start addr))
      (elim (Bool-cases (offset_in u.start addr == Uart.uart_data)) [
        | inl e ↦ rw e (if_done (leb u.rxbuf_idx_wr u.rxbuf_idx_rd) (0, u) _)
        | inr e ↦ rw e ((0, u), refl)
      ])

-- A write to the interruptor leaves it where it stands.
change_slot-start :
    (c : CoreLocalInterruptor) (idx v pos : ℕ) → (write_mtimecmp c idx v pos).0.start ≡ c.start
unfolding write_mtimecmp change_slot
change_slot-start c idx v pos = go (get_elem? c.slots idx)
  where
    go :
        (o : Option CoreTimer)
        → (elim o as (λ _. CoreLocalInterruptor × List Call) [
          | none ↦ (c, [])
          | some t ↦
              let (t', calls) = set_mtimecmp v pos t in
              (record c { slots = set c.slots idx t' }, calls)
        ]).0.start
          ≡ c.start
    go none = refl
    go (some t) = refl

-- A store of the firmware to the interruptor, at the place of one of its registers.
clint-Accepts :
    (shift_count : ℕ → ℕ) (offset : ℕ)
    → find ranges (sim_clint_start + offset) 4 ≡ some clint_range
    → offset < 2 ^ 64
    → ((c : CoreLocalInterruptor) (v : ℕ)
        → (c' : CoreLocalInterruptor) × (calls : List Call) × (write_at c offset 4 v
            ≡ done (c', calls))
          × (c'.start ≡ c.start))
    → Accepts Ready (bus shift_count) (sim_clint_start + offset) 4
unfolding Call.write_atomic write_device Clint.write_atomic
clint-Accepts shift_count offset found b writes v m ready =
    let c = m.interruptor in
    let (c', calls, e, same) = writes c v in
    let place : offset_in c.start (sim_clint_start + offset) ≡ offset =
      rw (ready.0) (offset_in_lem sim_clint_start offset b) in
    (
      record m { interruptor = c' },
      calls_to 0 calls,
      rw (Call.write_atomic, found, write_device, Clint.write_atomic, place, e) refl,
      (same ∙ ready.0, ready.1),
    )

mtime_found : find ranges clint_mtime_addr 4 ≡ some clint_range
unfolding find in_range
mtime_found = refl

mtime_high_found : find ranges (clint_mtime_addr + 4) 4 ≡ some clint_range
unfolding find in_range
mtime_high_found = refl

-- The bus answers while they do.
pub bus-IsResponsive : (shift_count : ℕ → ℕ) → IsResponsive Ready (bus shift_count)
unfolding Call.write_atomic Call.read_atomic write_device read_device write_at unaligned write_mtime
bus-IsResponsive shift_count = record {
  putchar = λ v m ready.
      let (u, e) = uart_writes m.uart sim_uart0_start v in
      (record m { uart = u }, [], rw (Call.write_atomic, uart_found, write_device, e) refl, ready);
  getchar = λ m ready.
      let ((v, u), e) = uart_reads m.uart sim_uart0_start in
      (v, record m { uart = u }, rw (Call.read_atomic, uart_found, read_device, e) refl, ready);
  compare_low =
      clint-Accepts shift_count 0x4000 (half_found 0 (omega arith)) (omega arith)
        λ c v. (_, _, refl, change_slot-start c 0 v 1);
  compare_high =
      clint-Accepts shift_count 0x4004 (half_found 1 (omega arith)) (omega arith)
        λ c v. (_, _, refl, change_slot-start c 0 v 2);
  time_low = clint-Accepts shift_count 0xbff8 mtime_found (omega arith) λ c v. (_, _, refl, refl);
  time_high =
      clint-Accepts shift_count 0xbffc mtime_high_found (omega arith) λ c v. (_, _, refl, refl);
}

memory_found : (a : ℕ) → a + 4 ≤ sim_phys_mem_size → find ranges a 4 ≡ some memory_range
unfolding find in_range
memory_found a h =
    let inside : in_range memory_range a 4 ≡ true = ground (arith, h) in rw inside refl

-- Aligned words of the main memory may hold the zeroed data.
pub bus-ClearsBss :
    (shift_count : ℕ → ℕ) (image : Image)
    → image.bss_start % 4 ≡ 0
    → image.bss_end + 4 ≤ sim_phys_mem_size
    → ClearsBss Ready (bus shift_count) image
unfolding Call.write_atomic write_device Memory.write_atomic
bus-ClearsBss shift_count image h b k inside v m ready =
    let a = image.bss_start + 4 * k in
    let memory = record (m.memory) {
      store = store_bytes 4 m.memory.store (offset_in m.memory.start a) v;
    } in
    let aligned : (offset_in m.memory.start a % 4 != 0) ≡ false =
      rw (ready.1) (ground (arith, h, inside, b)) in
    (
      record m { memory = memory },
      [],
      rw
          (
            Call.write_atomic,
            memory_found a (omega (arith, inside, b)),
            write_device,
            Memory.write_atomic,
            unaligned_word (offset_in m.memory.start a),
            aligned,
          )
          refl,
      ready,
    )
