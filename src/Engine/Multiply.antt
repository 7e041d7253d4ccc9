-- ===== src/Engine/Multiply.antt =====
-- `exec_mul` of src/cpu.c: the register pair that MULT leaves.
use native.Mathlib.Nat.{mul-le-mul}
use commodore_900_emulator.Base.{
  ℕ, suc, ◌*◌, ◌%◌, ◌^◌, ◌≤◌, ◌<◌, ◌≡◌, refl, ap, ◌∙◌, arith, Bool, true, false, has, or_if, ◌↔◌,
  sym, ltb, bit_and, bit_and_mask, bit_or, u16, u32, if_cases,
}
use commodore_900_emulator.Base.Int.{ℤ, pos, negsuc, ◌*ℤ◌, signed, wrap}
use commodore_900_emulator.Alu.{Width, f_c, f_s, f_z}
use commodore_900_emulator.Cpu.{Cpu, CtrlWord, SrcSel, rl, wl, rw16, nib2, nib3, apply_flags}
use commodore_900_emulator.Cpu.Merge.{apply_flags-bit}
use commodore_900_emulator.Cpu.Views.{rl-wl, pair_even}
use commodore_900_emulator.Engine.State.{Machine, ◌>>=◌, get_cpu, put_long, put_flags}
use commodore_900_emulator.Engine.Product.{operand, product_flags, czsv, exec_mul}
use commodore_900_emulator.Engine.Quotient.{InRange, range_test, inside, outside, signed-wrap}

abbrev half : ℕ
half = 0x8000

signed-InRange : (v : ℕ) → InRange half (signed half (u16 v))
signed-InRange v =
    let lt : v % 65536 < 65536 = omega arith in
    if_cases (InRange half) (ltb (u16 v) half) (λ on. (ground arith, ground arith))
      (λ off. (ground arith, ground arith))

-- The product of two words of 16 bits fits 32 bits.
product-InRange : (a b : ℤ) → InRange half a → InRange half b → InRange 0x80000000 (a *ℤ b)
unfolding ◌*ℤ◌
product-InRange (pos x) (pos y) (al, ah) (bl, bh) =
    let k : x * y ≤ half * half =
      mul-le-mul {n₁ = x} {m₁ = y} {n₂ = half} {m₂ = half} (ground arith) (ground arith) in
    (ground arith, ground arith)
product-InRange (pos x) (negsuc y) (al, ah) (bl, bh) =
    let k : x * suc y ≤ half * half =
      mul-le-mul {n₁ = x} {m₁ = suc y} {n₂ = half} {m₂ = half} (ground arith) (ground arith) in
    (ground arith, ground arith)
product-InRange (negsuc x) (pos y) (al, ah) (bl, bh) =
    let k : suc x * y ≤ half * half =
      mul-le-mul {n₁ = suc x} {m₁ = y} {n₂ = half} {m₂ = half} (ground arith) (ground arith) in
    (ground arith, ground arith)
product-InRange (negsuc x) (negsuc y) (al, ah) (bl, bh) =
    let k : suc x * suc y ≤ half * half =
      mul-le-mul {n₁ = suc x} {m₁ = suc y} {n₂ = half} {m₂ = half} (ground arith) (ground arith) in
    (ground arith, ground arith)

wrap-u32 : (p : ℤ) → u32 (wrap (2 ^ 32) p) ≡ wrap (2 ^ 32) p
wrap-u32 (pos n) = ground arith
wrap-u32 (negsuc n) = ground arith

pair_small : (op : ℕ) → bit_and (nib3 op) 0x0E < 16
pair_small op =
    let lt : nib3 op < 16 = omega (arith, bit_and_mask 4 op) in
    omega (arith, pair_even (nib3 op) lt)

bool_false : {x : Bool} (b : Bool) → x ≡ b → ¬ (b ≡ true) → x ≡ false
bool_false true e off = absurd (off refl)
bool_false false e off = e

-- The carry of a product is the test of its range.
carry_bit : (b c d : Bool) → has (or_if b f_c (or_if c f_s (or_if d f_z 0))) (2 ^ 7) ≡ b
carry_bit true true true = refl
carry_bit true true false = refl
carry_bit true false true = refl
carry_bit true false false = refl
carry_bit false true true = refl
carry_bit false true false = refl
carry_bit false false true = refl
carry_bit false false false = refl

module _ (c : Cpu) (r : ℕ) (p : ℤ) where
  -- The processor after a product `p` in the pair `r`.
  multiplied : Cpu
  unfolding wl apply_flags product_flags
  multiplied =
      apply_flags (wl c r (wrap (2 ^ 32) p))
        (record { value = 0; flags = product_flags half (2 ^ 32) p; mask = czsv })

  multiplied-carry : has multiplied.fcw (2 ^ 7) ≡ range_test half p
  unfolding multiplied product_flags range_test
  multiplied-carry =
      apply_flags-bit (wl c r (wrap (2 ^ 32) p))
        (record { value = 0; flags = product_flags half (2 ^ 32) p; mask = czsv }) 7 (omega arith)
        (omega arith)
      ∙ carry_bit _ _ _

  multiplied-value : r < 16 → InRange 0x80000000 p → signed 0x80000000 (rl multiplied r) ≡ p
  unfolding multiplied apply_flags rl
  multiplied-value small range =
      ap (signed 0x80000000) ((rl-wl c r 0 (wrap (2 ^ 32) p) small (omega arith)).0 ∙ wrap-u32 p)
      ∙ signed-wrap 0x80000000 p (omega arith) range

-- The pair `r` holds the product `p`, and C says whether it needs more than a word.
pub record IsProduct (c : Cpu) (r : ℕ) (p : ℤ) : Type 0 where
  pub value : signed 0x80000000 (rl c r) ≡ p
  pub carry : (has c.fcw f_c ≡ false) ↔ InRange 0x8000 p

-- MULT of two registers: the long in the destination pair, read as a signed number, is the product of
-- the low word of the pair and the word of the source, both read as signed numbers, for all values, and
-- C is clear exactly when the product fits a signed word.
pub exec_mul-IsProduct :
    (w : CtrlWord) (m : Machine)
    → IsProduct
        (exec_mul (record w { width = Width.word; src2 = SrcSel.src_reg }) m).1.cpu
        (bit_and (nib3 (m.cpu.opcode 0)) 0x0E)
        (signed 0x8000 (u16 (rw16 m.cpu (bit_or (nib3 (m.cpu.opcode 0)) 1)))
          *ℤ signed 0x8000 (u16 (rw16 m.cpu (nib2 (m.cpu.opcode 0)))))
unfolding exec_mul operand get_cpu put_long put_flags multiplied ◌>>=◌
exec_mul-IsProduct w m =
    let r = bit_and (nib3 (m.cpu.opcode 0)) 0x0E in
    let a = signed 0x8000 (u16 (rw16 m.cpu (bit_or (nib3 (m.cpu.opcode 0)) 1))) in
    let b = signed 0x8000 (u16 (rw16 m.cpu (nib2 (m.cpu.opcode 0)))) in
    let p = a *ℤ b in
    record {
      value =
          multiplied-value m.cpu r p (pair_small (m.cpu.opcode 0))
            (product-InRange a b (signed-InRange _) (signed-InRange _));
      carry = (
        λ off. inside half p (sym (multiplied-carry m.cpu r p) ∙ off),
        λ fits.
            bool_false (range_test half p) (multiplied-carry m.cpu r p)
              (λ on. outside half p on fits),
      );
    }
