-- ===== src/Machine/Bus/Dump.antt =====
-- The loop of `dumpData` ends.
use revive.Common.{
  ℕ, zero, suc, ◌+◌, ◌^◌, ◌≤◌, ◌≡◌, refl, sym, inl, inr, false, arith, ltb, Bool-cases, u64,
  Outcome, done, panicked,
}
use revive.Space.Call
use revive.Machine.Bus.{
  SimulatedMachine, read_device, ranges, print_word, dump_words, words_between, dump,
}

-- After the last word, whatever the fuel.
dump_words-end :
    (fuel addr end' : ℕ) (m : SimulatedMachine)
    → words_between addr end' ≡ 0
    → dump_words fuel addr end' m ≡ done m
unfolding dump_words
dump_words-end zero addr end' m e = refl
dump_words-end (suc fuel) addr end' m e =
    let last : ltb addr end' ≡ false = ground (arith, e) in rw (dump_words, last) refl

fuel_irrelevant :
    (f g addr end' : ℕ) (m : SimulatedMachine)
    → end' + 4 ≤ 2 ^ 64
    → words_between addr end' ≤ f
    → words_between addr end' ≤ g
    → dump_words f addr end' m ≡ dump_words g addr end' m
unfolding dump_words
fuel_irrelevant zero g addr end' m h p q = sym (dump_words-end g addr end' m (omega (arith, p)))
fuel_irrelevant (suc f) zero addr end' m h p q =
    dump_words-end (suc f) addr end' m (omega (arith, q))
fuel_irrelevant (suc f) (suc g) addr end' m h p q = elim (Bool-cases (ltb addr end')) [
  | inl t ↦
      let next : u64 (addr + 4) ≡ addr + 4 = ground (arith, h, t) in
      rw (dump_words, t)
        (go (Call.read_atomic read_device ranges addr 4 m) (λ m1.
          fuel_irrelevant f g (u64 (addr + 4)) end' m1 h (ground (arith, p, t))
            (ground (arith, q, t))))
  | inr t ↦ rw (dump_words, t) refl
]
  where
    go :
        (o : Outcome (ℕ × SimulatedMachine))
        → ((m1 : SimulatedMachine)
            → dump_words f (u64 (addr + 4)) end' m1 ≡ dump_words g (u64 (addr + 4)) end' m1)
        → elim o [
          | done (word, m1) ↦ dump_words f (u64 (addr + 4)) end' (print_word m1 word)
          | panicked ↦ panicked
        ]
          ≡ elim o [
            | done (word, m1) ↦ dump_words g (u64 (addr + 4)) end' (print_word m1 word)
            | panicked ↦ panicked
          ]
    go (done (word, m1)) same = same (print_word m1 word)
    go panicked same = refl

-- If the end of the dump is 4 below the wrap, the loop of the dump has ended with the words
-- between its start and its end: with more fuel the result is the same.
pub dump_words-enough :
    (fuel : ℕ) (m : SimulatedMachine)
    → m.control.dump_data_end + 4 ≤ 2 ^ 64
    → words_between m.control.dump_data_start m.control.dump_data_end ≤ fuel
    → dump_words fuel m.control.dump_data_start m.control.dump_data_end m ≡ dump m
unfolding dump
dump_words-enough fuel m h f =
    fuel_irrelevant fuel (words_between m.control.dump_data_start m.control.dump_data_end)
      m.control.dump_data_start m.control.dump_data_end m h f (omega arith)
