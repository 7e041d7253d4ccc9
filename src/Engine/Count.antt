-- ===== src/Engine/Count.antt =====
-- What a round of a block transfer, `exec_block_transfer` of src/cpu.c, does to its count.
use commodore_900_emulator.Base.{
  ℕ, ◌+◌, ◌<◌, ◌≡◌, ◌≢◌, sym, ap, ◌∙◌, subst, arith, Bool, true, false, not, ◌&&◌, ◌==◌, bit_and,
  bit_or, u16, update_self, update_ne, if◌then◌else◌, if_cases, if_keeps, has, has-or, has-and,
  complement, ◌^◌,
}
use commodore_900_emulator.Alu.{Width, f_pv}
use commodore_900_emulator.Cpu.{CtrlWord, InstrClass, rw16, ww16, is_seg, nib1, nib2}
use commodore_900_emulator.Engine.State.{
  Machine, Exec, Run, pure, ◌>>=◌, get_cpu, put_word, flag_if, repeat, add_to_addr_reg,
}
use commodore_900_emulator.Engine.Access.{
  translate, load8, load16, store8, store16, mem_r8, mem_r16, mem_w8, mem_w16,
}
use commodore_900_emulator.Engine.Block.{
  src_field, dst_field, cnt_field, delta, count_down, repeat_if, element, put_element,
  exec_block_transfer,
}
use commodore_900_emulator.Engine.Execute.{execute, execute_class}
use commodore_900_emulator.Engine.Step.{take_warning, count_insn}
use commodore_900_emulator.Engine.Keeps.{Keeps, pure-Keeps, get_cpu-Keeps, if-Keeps, bind-Keeps}

true≢false : true ≢ false
true≢false e = cc

-- The register that the pointer `r` goes up or down in, which in segmented mode is the offset of its
-- pair, is not the register `cnt`.
unfoldable pub Apart : Bool → ℕ → ℕ → Type 0
Apart seg r cnt = bit_and (if seg then bit_or r 1 else r) 0x0F ≢ bit_and cnt 0x0F

-- Before a round: `k` elements are left.
pub record Before (seg : Bool) (ops : ℕ → ℕ) (cnt k : ℕ) (m : Machine) : Type 0 where
  pub opcode : m.cpu.opcode ≡ ops
  pub count : rw16 m.cpu cnt ≡ k
  pub mode : is_seg m.cpu ≡ seg
  pub pending : m.cpu.repeat_pending ≡ false

-- After it: a further round is asked for only if elements are left, and then it is `k` of them.
pub record Counting (seg : Bool) (ops : ℕ → ℕ) (cnt k : ℕ) (m : Machine) : Type 0 where
  pub mode : is_seg m.cpu ≡ seg
  pub opcode : m.cpu.opcode ≡ ops
  pub left : m.cpu.repeat_pending ≡ true → (0 < k) × (rw16 m.cpu cnt ≡ k)

-- `x` leads from `P` to `Q`.
record Leads {A : Type 0} (P Q : Machine → Type 0) (x : Exec A) : Type 0 where
  at : (m : Machine) → P m → Q (x m).1

module _ {A B : Type 0} {P Q : Machine → Type 0} where
  bind-Leads :
      (x : Exec A) (f : A → Exec B) → Keeps P x → ((a : A) → Leads P Q (f a)) → Leads P Q (x >>= f)
  unfolding ◌>>=◌
  bind-Leads x f h k = record { at = λ m p. let (a, m') = x m in (k a).at m' (h.at m p) }

module _ (seg : Bool) (ops : ℕ → ℕ) (cnt k : ℕ) where
  translate-Before :
      (a : ℕ) (is_write is_fetch : Bool)
      → Keeps (Before seg ops cnt k) (translate a is_write is_fetch)
  unfolding translate rw16
  translate-Before a is_write is_fetch = record {
    at = λ m h. record { opcode = h.opcode; count = h.count; mode = h.mode; pending = h.pending };
  }

  load8-Before : (p : ℕ) → Keeps (Before seg ops cnt k) (load8 p)
  unfolding load8
  load8-Before p = record { at = λ m h. h }

  load16-Before : (p : ℕ) → Keeps (Before seg ops cnt k) (load16 p)
  unfolding load16
  load16-Before p = record { at = λ m h. h }

  store8-Before : (p v : ℕ) → Keeps (Before seg ops cnt k) (store8 p v)
  unfolding store8
  store8-Before p v = record {
    at = λ m h. record { opcode = h.opcode; count = h.count; mode = h.mode; pending = h.pending };
  }

  store16-Before : (p v : ℕ) → Keeps (Before seg ops cnt k) (store16 p v)
  unfolding store16
  store16-Before p v = record {
    at = λ m h. record { opcode = h.opcode; count = h.count; mode = h.mode; pending = h.pending };
  }

ruleset Before_rules = (
  pure-Keeps, get_cpu-Keeps, if-Keeps, bind-Keeps, translate-Before, load8-Before, load16-Before,
  store8-Before, store16-Before,
)

module _ (seg : Bool) (ops : ℕ → ℕ) (cnt k : ℕ) where
  element-Before : (w : Width) (r : ℕ) → Keeps (Before seg ops cnt k) (element w r)
  unfolding element mem_r8 mem_r16
  element-Before w r = search Before_rules depth 8

  put_element-Before : (w : Width) (r v : ℕ) → Keeps (Before seg ops cnt k) (put_element w r v)
  unfolding put_element mem_w8 mem_w16
  put_element-Before w r v = search Before_rules depth 8

  pointer-Before : (r d : ℕ) → Apart seg r cnt → Keeps (Before seg ops cnt k) (add_to_addr_reg r d)
  unfolding add_to_addr_reg rw16 ww16 Apart
  pointer-Before r d far = record {
    at = λ m h.
        let o : ℕ = if is_seg m.cpu then bit_or r 1 else r in
        let other : bit_and o 0x0F ≢ bit_and cnt 0x0F =
          subst (λ b. Apart b r cnt) (sym h.mode) far in
        record {
          opcode = h.opcode;
          count = update_ne m.cpu.regs (bit_and o 0x0F) (bit_and cnt 0x0F) _ other ∙ h.count;
          mode = h.mode;
          pending = h.pending;
        };
  }

  -- The repetition stops when the count is 0.
  repeat_if-Counting :
      (m : Machine) (b : Bool) (n : ℕ)
      → is_seg m.cpu ≡ seg
      → m.cpu.opcode ≡ ops
      → m.cpu.repeat_pending ≡ false
      → rw16 m.cpu cnt ≡ k
      → n ≡ k
      → Counting seg ops cnt k (repeat_if (b && not (n == 0)) m).1
  unfolding repeat_if repeat pure rw16
  repeat_if-Counting m b n mode same quiet count e =
      if_cases (λ (x : Run). Counting seg ops cnt k (x m).1) (b && not (n == 0))
        (λ on. record { mode = mode; opcode = same; left = λ _. (ground arith, count) })
        (λ _. record {
          mode = mode;
          opcode = same;
          left = λ on. absurd (true≢false (sym on ∙ quiet));
        })

  -- A flag of the low byte leaves the mode.
  flag_if-mode :
      (f : ℕ) (b : Bool)
      → has (if b then bit_or f f_pv else bit_and f (complement 32 f_pv)) (2 ^ 15) ≡ has f (2 ^ 15)
  flag_if-mode f true = has-or 15 f f_pv ∙ ground arith
  flag_if-mode f false = has-and 15 f (complement 32 f_pv) ∙ ground arith

  finish-Leads :
      (j : ℕ) (rept : Bool)
      → u16 (j + 0xFFFF) ≡ k
      → Leads
          (Before seg ops cnt j)
          (Counting seg ops cnt k)
          (count_down cnt >>= λ n. flag_if f_pv (n == 0) >>= λ _. repeat_if (rept && not (n == 0)))
  unfolding count_down get_cpu put_word flag_if pure ◌>>=◌ rw16 ww16
  finish-Leads j rept down = record {
    at = λ m h.
        let n = u16 (rw16 m.cpu cnt + 0xFFFF) in
        let e : n ≡ k = ap (λ x. u16 (x + 0xFFFF)) h.count ∙ down in
        repeat_if-Counting _ rept n (flag_if-mode m.cpu.fcw (n == 0) ∙ h.mode) h.opcode h.pending
          (update_self m.cpu.regs (bit_and cnt 0x0F) (u16 n) ∙ (ground arith)) e;
  }

-- The pointers of a block transfer are apart from its count, by the words of the instruction.
pub record Countable (seg : Bool) (ops : ℕ → ℕ) : Type 0 where
  pub src : Apart seg (nib2 (ops 0)) (nib1 (ops 1))
  pub dst : Apart seg (nib2 (ops 1)) (nib1 (ops 1))

exec_block_transfer-Counting :
    (w : CtrlWord) (seg : Bool) (j k : ℕ) (m : Machine)
    → u16 (j + 0xFFFF) ≡ k
    → Apart seg (src_field m.cpu) (cnt_field m.cpu)
    → Apart seg (dst_field m.cpu) (cnt_field m.cpu)
    → Before seg m.cpu.opcode (cnt_field m.cpu) j m
    → Counting seg m.cpu.opcode (cnt_field m.cpu) k (exec_block_transfer w m).1
unfolding exec_block_transfer get_cpu ◌>>=◌
exec_block_transfer-Counting w seg j k m down src dst h =
    let ops = m.cpu.opcode in
    let cnt = cnt_field m.cpu in
    (bind-Leads {P = Before seg ops cnt j} {Q = Counting seg ops cnt k}
        (element w.width (src_field m.cpu)) _
        (element-Before seg ops cnt j w.width (src_field m.cpu))
        (λ v. bind-Leads _ _ (put_element-Before seg ops cnt j w.width (dst_field m.cpu) v) (λ _.
          bind-Leads _ _ (pointer-Before seg ops cnt j (src_field m.cpu) (delta w) src) (λ _.
            bind-Leads _ _ (pointer-Before seg ops cnt j (dst_field m.cpu) (delta w) dst)
              (λ _. finish-Leads seg ops cnt k j w.block_rept down))))).at
      m h

pub count_insn-Counting :
    (seg : Bool) (ops : ℕ → ℕ) (cnt k : ℕ) (m : Machine)
    → Counting seg ops cnt k m
    → Counting seg ops cnt k (count_insn m).1
unfolding count_insn rw16
count_insn-Counting seg ops cnt k m h = record { mode = h.mode; opcode = h.opcode; left = h.left }

pub take_warning-Counting :
    (seg : Bool) (ops : ℕ → ℕ) (cnt k : ℕ) (m : Machine)
    → Counting seg ops cnt k m
    → Counting seg ops cnt k (take_warning m).1
unfolding take_warning rw16
take_warning-Counting seg ops cnt k m h =
    if_keeps (Counting seg ops cnt k) m.board.mmu.warn_pending
      (record { mode = h.mode; opcode = h.opcode; left = h.left }) h

pub execute-Counting :
    (w : CtrlWord) (seg : Bool) (ops : ℕ → ℕ) (j k : ℕ) (m : Machine)
    → w.exec ≡ InstrClass.block_transfer
    → u16 (j + 0xFFFF) ≡ k
    → Countable seg ops
    → Before seg ops (nib1 (ops 1)) j m
    → Counting seg ops (nib1 (ops 1)) k (execute w m).1
unfolding execute execute_class
execute-Counting w seg ops j k m e down far h =
    subst (λ (c : InstrClass). Counting seg ops (nib1 (ops 1)) k (execute_class c w m).1) (sym e)
      (subst
        (λ (o : ℕ → ℕ).
          Countable seg o
          → Before seg o (nib1 (o 1)) j m
          → Counting seg o (nib1 (o 1)) k (exec_block_transfer w m).1)
        h.opcode (λ f b. exec_block_transfer-Counting w seg j k m down f.src f.dst b) far h)
