-- ===== src/Engine/Repeat.antt =====
-- The loop over a repeated block transfer in `cpu_step` of src/cpu.c ends.
use commodore_900_emulator.Base.{
  ℕ, zero, suc, ◌+◌, ◌*◌, ◌≤◌, ◌<◌, ◌≡◌, refl, sym, ◌∙◌, arith, Bool, true, false, u16,
  if◌then◌else◌, if_cases,
}
use commodore_900_emulator.Cpu.{CtrlWord, InstrClass, rw16, nib1, addr_add, is_seg}
use commodore_900_emulator.Engine.State.{Machine, Run, pure, ◌>>=◌, skip, get_cpu, put_pc}
use commodore_900_emulator.Engine.Execute.{execute}
use commodore_900_emulator.Engine.Step.{
  take_warning, count_insn, clear_repeat, preempted, trap_at, repeat_body, repeat_loop, perform,
}
use commodore_900_emulator.Engine.Count.{
  Before, Counting, Countable, execute-Counting, count_insn-Counting, take_warning-Counting,
}

-- Rounds that go on alike.
if_agree :
    (b : Bool) (x y z : Run) (m : Machine)
    → y m ≡ z m
    → (if b then x else y) m ≡ (if b then x else z) m
if_agree true x y z m e = refl
if_agree false x y z m e = e

if_same :
    (b : Bool) (x y z : Run) (m : Machine)
    → (b ≡ true → x m ≡ y m)
    → (if b then x else z) m ≡ (if b then y else z) m
if_same true x y z m e = e refl
if_same false x y z m e = refl

-- The count before a round and after it.
counted : (k : ℕ) → suc k < 65536 → u16 (suc k + 0xFFFF) ≡ k
counted k small = ground arith

module _ (w : CtrlWord) (start : ℕ) (seg : Bool) (ops : ℕ → ℕ)
    (transfer : w.exec ≡ InstrClass.block_transfer) (far : Countable seg ops) where
  round-agree :
      (j k : ℕ) (x y : Run) (m : Machine)
      → u16 (j + 0xFFFF) ≡ k
      → Before seg ops (nib1 (ops 1)) j m
      → ((m' : Machine) → Counting seg ops (nib1 (ops 1)) k m' → x m' ≡ y m')
      → repeat_body w start x m ≡ repeat_body w start y m
  unfolding repeat_body get_cpu ◌>>=◌
  round-agree j k x y m down h agree =
      let m1 = (execute w m).1 in
      let m2 = (count_insn m1).1 in
      let done = execute-Counting w seg ops j k m transfer down far h in
      if_agree _ (trap_at start) x y (take_warning m2).1 (
        agree _ (
          take_warning-Counting seg ops (nib1 (ops 1)) k m2
            (count_insn-Counting seg ops (nib1 (ops 1)) k m1 done)))

  -- With nothing left, the loop is over.
  loop-over :
      (f : ℕ) (m : Machine) → Counting seg ops (nib1 (ops 1)) 0 m → repeat_loop f w start m ≡ skip m
  unfolding repeat_loop get_cpu pure ◌>>=◌
  loop-over zero m h = refl
  loop-over (suc f) m h =
      if_same m.cpu.repeat_pending _ skip skip m (λ on. absurd (omega (arith, (h.left on).0)))
      ∙ if_cases (λ (x : Run). x m ≡ skip m) m.cpu.repeat_pending (λ _. refl) (λ _. refl)

  loops-agree :
      (n f g : ℕ) (m : Machine)
      → n ≤ f
      → n ≤ g
      → n < 65536
      → Counting seg ops (nib1 (ops 1)) n m
      → repeat_loop f w start m ≡ repeat_loop g w start m
  unfolding repeat_loop get_cpu clear_repeat pure ◌>>=◌ rw16
  loops-agree zero f g m lf lg small h = loop-over f m h ∙ sym (loop-over g m h)
  loops-agree (suc n) zero g m lf lg small h = absurd (omega arith)
  loops-agree (suc n) (suc f) zero m lf lg small h = absurd (omega arith)
  loops-agree (suc n) (suc f) (suc g) m lf lg small h =
      if_same m.cpu.repeat_pending _ _ skip m (λ on.
        let m1 = (clear_repeat m).1 in
        if_agree (preempted m1.cpu) (put_pc start) _ _ m1 (
          round-agree (suc n) n (repeat_loop f w start) (repeat_loop g w start) m1 (counted n small)
            (record { mode = h.mode; opcode = h.opcode; count = (h.left on).1; pending = refl })
            (λ m'. loops-agree n f g m' (omega arith) (omega arith) (omega arith))))

-- A block transfer, LDI, LDD, LDIR or LDDR, whose count register is neither of the two registers that it
-- moves its pointers in, the pointers themselves or in segmented mode the odd registers of their pairs,
-- comes to its end within 65535 further rounds, whatever its count of 16 bits, 0 included, and whatever it copies,
-- also over faults, write warnings and interrupts: the fuel beyond that changes nothing.
pub perform-ends :
    (w : CtrlWord) (start need f g : ℕ) (m : Machine)
    → w.exec ≡ InstrClass.block_transfer
    → Countable (is_seg m.cpu) m.cpu.opcode
    → m.cpu.repeat_pending ≡ false
    → 65535 ≤ f
    → 65535 ≤ g
    → perform f w start need m ≡ perform g w start need m
unfolding perform put_pc get_cpu ◌>>=◌ rw16 repeat_body
perform-ends w start need f g m transfer far quiet lf lg =
    let ops = m.cpu.opcode in
    let seg = is_seg m.cpu in
    let m1 = (put_pc (addr_add start (need * 2)) m).1 in
    let k = u16 (rw16 m.cpu (nib1 (ops 1)) + 0xFFFF) in
    let small : k < 65536 = ground arith in
    round-agree w (addr_add start (need * 2)) seg ops transfer far (rw16 m.cpu (nib1 (ops 1))) k
      (repeat_loop f w start) (repeat_loop g w start) m1 refl
      (record { mode = refl; opcode = refl; count = refl; pending = quiet })
      (λ m' h.
        loops-agree w start seg ops transfer far k f g m' (omega arith) (omega arith) small h)
