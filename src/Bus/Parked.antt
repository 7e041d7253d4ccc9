-- ===== src/Bus/Parked.antt =====
-- When the park watch ends a run, and when it does not.
use commodore_900_emulator.Base.{
  ℕ, zero, suc, ◌+◌, ◌<◌, ◌≡◌, ◌≢◌, refl, sym, ◌∙◌, arith, Bool, true, false, ltb, ◌==◌, ==_iff,
  ◌&&◌, u64, all_below, all_below_eq,
}
use commodore_900_emulator.Bus.Park.{
  ParkWatch, Guest, park_init, park_step, park_look, is_same, take_signature,
}

-- The watch after `n` iterations with the guest as it is.
unfoldable pub park_after : ℕ → Guest → ℕ → ParkWatch
unfolding park_init
park_after budget g zero = park_init budget
park_after budget g (suc n) = (park_step (park_after budget g n) g).0

record IsParked (p : ParkWatch) (budget n : ℕ) : Type 0 where
  count : p.loops ≡ n
  budget_kept : p.budget ≡ budget
  settled : 0 < n → p.was_halted ≡ true
  signed : 0 < n → p.valid ≡ true
  fresh : n ≡ 0 → p.was_halted ≡ false
  unsigned : n ≡ 0 → p.valid ≡ false

step-IsParked :
    (p : ParkWatch) (g : Guest) (budget n : ℕ)
    → g.halted ≡ true
    → n + 1 < 18446744073709551616
    → IsParked p budget n
    → IsParked (park_step p g).0 budget (suc n) × ((park_step p g).1 ≡ ltb budget (n + 1))
unfolding park_step park_look is_same take_signature
step-IsParked p g budget zero h lt q =
    let f = q.fresh refl in let v = q.unsigned refl in rw (h, f, v) (ground (arith, q.budget_kept))
step-IsParked p g budget (suc n) h lt q =
    let f = q.settled (omega arith) in
    let v = q.signed (omega arith) in rw (h, f) (rw v (ground (arith, q.budget_kept, q.count)))

after-IsParked :
    (budget : ℕ) (g : Guest) (n : ℕ)
    → g.halted ≡ true
    → n < 18446744073709551616
    → IsParked (park_after budget g n) budget n
unfolding park_after
after-IsParked budget g zero h lt = record {
  count = refl;
  budget_kept = refl;
  settled = λ e. absurd (omega arith);
  signed = λ e. absurd (omega arith);
  fresh = λ e. refl;
  unsigned = λ e. refl;
}
after-IsParked budget g (suc n) h lt =
    (step-IsParked (park_after budget g n) g budget n h (omega arith)
      (after-IsParked budget g n h (omega arith))).0

-- A guest that stays halted with the same registers, console activity, scripted input and prompts
-- is called parked at the first iteration past the budget and at no earlier one, for counts below
-- 2 ^ 64.
pub park_step-ends :
    (budget : ℕ) (g : Guest) (n : ℕ)
    → g.halted ≡ true
    → n + 1 < 18446744073709551616
    → (park_step (park_after budget g n) g).1 ≡ ltb budget (n + 1)
park_step-ends budget g n h lt =
    (step-IsParked (park_after budget g n) g budget n h lt
      (after-IsParked budget g n h (omega arith))).1

-- The guest has the registers, PC and FCW of the signature, and no console activity, scripted input or
-- prompt since.
pub record Unmoved (p : ParkWatch) (g : Guest) : Type 0 where
  pub taken : p.valid ≡ true
  pub pc : g.pc ≡ p.pc
  pub fcw : g.fcw ≡ p.fcw
  pub regs : (i : ℕ) → i < 16 → g.regs i ≡ p.regs i
  pub tx : g.last_tx_insn ≡ p.tx
  pub inq : g.inq_pos ≡ p.inq
  pub seq : g.prompt_seq ≡ p.seq

both : (x y : Bool) → (x && y) ≡ true → (x ≡ true) × (y ≡ true)
both x y e = ground arith

equal : {x y : ℕ} → (x == y) ≡ true → x ≡ y
equal {x} {y} = (==_iff x y).0

true≢false : true ≢ false
true≢false e = cc

same-Unmoved : (p : ParkWatch) (g : Guest) → is_same p g ≡ true → Unmoved p g
unfolding is_same
same-Unmoved p g e =
    let (e5, seq) = both _ (g.prompt_seq == p.seq) e in
    let (e4, inq) = both _ (g.inq_pos == p.inq) e5 in
    let (e3, tx) = both _ (g.last_tx_insn == p.tx) e4 in
    let (e2, regs) = both _ (all_below 16 (λ i. g.regs i == p.regs i)) e3 in
    let (e1, fcw) = both _ (g.fcw == p.fcw) e2 in
    let (taken, pc) = both p.valid (g.pc == p.pc) e1 in
    record {
      taken = taken;
      pc = equal pc;
      fcw = equal fcw;
      regs = all_below_eq 16 g.regs p.regs regs;
      tx = equal tx;
      inq = equal inq;
      seq = equal seq;
    }

all_equal :
    (n : ℕ) (f g : ℕ → ℕ) → ((i : ℕ) → i < n → f i ≡ g i) → all_below n (λ i. f i == g i) ≡ true
unfolding all_below
all_equal zero f g h = refl
all_equal (suc n) f g h =
    let rest = all_equal n f g (λ i lt. h i (omega arith)) in
    rw ((==_iff (f n) (g n)).1 (h n (omega arith)), rest) refl

Unmoved-is_same : (p : ParkWatch) (g : Guest) → Unmoved p g → is_same p g ≡ true
unfolding is_same
Unmoved-is_same p g u =
    let r = all_equal 16 g.regs p.regs u.regs in
    simp (
      u.taken,
      (==_iff g.pc p.pc).1 u.pc,
      (==_iff g.fcw p.fcw).1 u.fcw,
      r,
      (==_iff g.last_tx_insn p.tx).1 u.tx,
      (==_iff g.inq_pos p.inq).1 u.inq,
      (==_iff g.prompt_seq p.seq).1 u.seq,
    )

-- What a halt leaves: a signature that the guest has, and the count, which goes on if the guest had the
-- old one and starts over if not.
pub record Looked (p : ParkWatch) (g : Guest) (p' : ParkWatch) (ends : Bool) : Type 0 where
  pub signature : Unmoved p' g
  pub goes_on : Unmoved p g → p'.loops ≡ u64 (p.loops + 1)
  pub starts_over : ¬ Unmoved p g → p'.loops ≡ 1
  pub verdict : ends ≡ ltb p.budget p'.loops

-- What else the watch and the guest hold has no part in it.
kept :
    (p : ParkWatch) (g : Guest) (n a : ℕ) (w h : Bool)
    → Unmoved p g
    → Unmoved
        (record p { loops = n; awake = a; was_halted = w; valid = true })
        (record g { halted = h })
kept p g n a w h u = record {
  taken = refl;
  pc = u.pc;
  fcw = u.fcw;
  regs = u.regs;
  tx = u.tx;
  inq = u.inq;
  seq = u.seq;
}

before :
    (p : ParkWatch) (g : Guest) (w h : Bool)
    → Unmoved (record p { was_halted = w }) (record g { halted = h })
    → Unmoved p g
before p g w h u = record {
  taken = u.taken;
  pc = u.pc;
  fcw = u.fcw;
  regs = u.regs;
  tx = u.tx;
  inq = u.inq;
  seq = u.seq;
}

look-Looked :
    (p : ParkWatch) (g : Guest) (b : Bool)
    → g.halted ≡ true
    → p.was_halted ≡ false
    → is_same p g ≡ b
    → Looked p g (park_step p g).0 (park_step p g).1
unfolding park_step park_look take_signature
look-Looked p g true h first e =
    let u = same-Unmoved p g e in
    rw (h, first)
      (rw e (
        rw u.taken (record {
          signature = kept p g _ 0 true true u;
          goes_on = λ _. refl;
          starts_over = λ moved. absurd (moved (kept p g p.loops p.awake false true u));
          verdict = refl;
        })))
look-Looked p g false h first e =
    rw (h, first)
      (rw e (record {
        signature = record {
          taken = refl;
          pc = refl;
          fcw = refl;
          regs = λ i lt. refl;
          tx = refl;
          inq = refl;
          seq = refl;
        };
        goes_on =
            λ u. absurd (true≢false (sym (Unmoved-is_same p g (before p g false true u)) ∙ e));
        starts_over = λ _. refl;
        verdict = refl;
      }))

-- The iteration in which a guest halts, or halts again after it was woken: afterwards the signature is the
-- guest's. If the guest has kept every part of the old one, its sixteen registers, PC, FCW, console
-- activity, scripted input and prompts, the count goes on; if any part moved, or there was none, the count
-- starts over at 1. The run ends exactly if the count is past the budget.
pub park_step-Looked :
    (p : ParkWatch) (g : Guest)
    → g.halted ≡ true
    → p.was_halted ≡ false
    → Looked p g (park_step p g).0 (park_step p g).1
park_step-Looked p g h first = look-Looked p g (is_same p g) h first refl
