-- ===== src/Engine/Product.antt =====
-- `exec_mul` and `exec_div` of src/cpu.c. C leaves one quotient undefined, that of the least dividend by
-- -1, and the code divides before it looks at the range.
use commodore_900_emulator.Base.{
  ℕ, ◌+◌, ◌-◌, ◌*◌, ◌/◌, ◌^◌, Bool, true, false, ◌||◌, bit_and, bit_or, or_if, if◌then◌else◌, u16,
  u32, shl, leb, ◌==◌,
}
use commodore_900_emulator.Base.Int.{
  ℤ, pos, negsuc, signed, ◌*ℤ◌, quot, rem, lt_ℤ, is_zero, is_neg, wrap,
}
use commodore_900_emulator.Alu.{Width, word, long, f_c, f_z, f_s, f_pv}
use commodore_900_emulator.Cpu.{
  Cpu, CtrlWord, SrcSel, src_reg, src_imm, rw16, rl, rq, nib2, nib3, usrc_addr,
}
use commodore_900_emulator.Engine.State.{
  Exec, Run, ◌>>=◌, ◌>>◌, get_cpu, put_word, put_long, put_quad, put_flags, lose,
}
use commodore_900_emulator.Engine.Access.{mem_read_w}

-- `F_C|F_Z|F_S|F_PV`
abbrev pub czsv : ℕ
czsv = 0xF0

abbrev pub is_word : Width → Bool
is_word word = true
is_word _ = false

-- The long of `opcode[1]` and `opcode[2]`.
abbrev pub imm_long : Cpu → ℕ
imm_long c = bit_or (shl (c.opcode 1) 16) (c.opcode 2)

-- The multiplier or the divisor by its select; `wide` is the width that memory is read with.
unfoldable pub operand : SrcSel → CtrlWord → Width → Exec ℕ
unfolding get_cpu mem_read_w ◌>>=◌
operand src_reg w wide = get_cpu (λ c.
    if is_word w.width then rw16 c (nib2 (c.opcode 0)) else rl c (bit_and (nib2 (c.opcode 0)) 0x0E))
operand src_imm w wide = get_cpu (λ c. if is_word w.width then c.opcode 1 else imm_long c)
operand _ w wide = get_cpu (λ c. usrc_addr c w) >>= λ a. mem_read_w a wide

-- Z, S and C of a product whose operands have the sign bit `h` and whose word has `n` values.
unfoldable pub product_flags : ℕ → ℕ → ℤ → ℕ
product_flags h n p =
    or_if (lt_ℤ p (negsuc (h - 1)) || lt_ℤ (pos (h - 1)) p) f_c
      (or_if (leb (n / 2) (wrap n p)) f_s (or_if (is_zero p) f_z 0))

unfoldable pub exec_mul : CtrlWord → Run
unfolding get_cpu operand put_long put_quad put_flags ◌>>=◌
exec_mul w = do
  op ← get_cpu (λ c. c.opcode 0)
  low ← get_cpu (λ c.
      if is_word w.width
      then rw16 c (bit_or (nib3 op) 1)
      else rl c (bit_and (bit_or (nib3 op) 2) 0x0E))
  m ← operand w.src2 w w.width
  let p =
      if is_word w.width
      then signed 0x8000 (u16 low) *ℤ signed 0x8000 (u16 m)
      else signed 0x80000000 (u32 low) *ℤ signed 0x80000000 (u32 m)
  if is_word w.width
      then put_long (bit_and (nib3 op) 0x0E) (wrap (2 ^ 32) p)
      else put_quad (bit_and (nib3 op) 0x0C) (wrap (2 ^ 64) p)
  put_flags (record {
    value = 0;
    flags =
        if is_word w.width
        then product_flags 0x8000 (2 ^ 32) p
        else product_flags 0x80000000 (2 ^ 64) p;
    mask = czsv;
  })

-- The outcome of a division: the flags, and the quotient and the remainder if they are stored; or a
-- quotient that the type of the dividend does not hold, which C leaves undefined.
pub data Division : Type 0 where
  refused : ℕ → Division
  stored : ℕ → ℤ → ℤ → Division
  undefined_quotient : Division

-- The division to a quotient of the sign bit `h`; the dividend has twice the width, and its sign bit is
-- `2 * h * h`.
unfoldable pub divide : ℕ → ℤ → ℤ → Division
unfolding quot rem
divide h a b =
    let q = quot a b in
    let r = rem a b in
    if is_zero b
    then refused (bit_or f_z f_pv)
    else if lt_ℤ (pos (2 * h * h - 1)) q
    then undefined_quotient
    else if lt_ℤ q (negsuc (2 * h - 1)) || lt_ℤ (pos (2 * h - 1)) q
    then refused f_pv
    else if lt_ℤ q (negsuc (h - 1)) || lt_ℤ (pos (h - 1)) q
    then stored (or_if (wrap (2 * h) q == 0) f_z (or_if (is_neg q) f_s (bit_or f_c f_pv))) q r
    else stored (or_if (is_neg q) f_s (or_if (is_zero q) f_z 0)) q r

-- The quotient goes to the high register of the group, the remainder to the low one.
unfoldable pub put_division : Width → ℕ → Division → Run
unfolding put_word put_long put_flags ◌>>=◌
put_division w dst (refused f) = put_flags (record { value = 0; flags = f; mask = czsv })
put_division w dst undefined_quotient = lose
put_division word dst (stored f q r) = do
  put_word (bit_and dst 0x0E + 1) (wrap (2 ^ 16) q)
  put_word (bit_and dst 0x0E) (wrap (2 ^ 16) r)
  put_flags (record { value = 0; flags = f; mask = czsv })
put_division _ dst (stored f q r) = do
  put_long (bit_and dst 0x0C + 2) (wrap (2 ^ 32) q)
  put_long (bit_and dst 0x0C) (wrap (2 ^ 32) r)
  put_flags (record { value = 0; flags = f; mask = czsv })

unfoldable pub exec_div : CtrlWord → Run
unfolding get_cpu operand divide put_division ◌>>=◌
exec_div w = do
  op ← get_cpu (λ c. c.opcode 0)
  a ← get_cpu (λ c.
      if is_word w.width
      then signed 0x80000000 (rl c (bit_and (nib3 op) 0x0E))
      else signed (2 ^ 63) (rq c (bit_and (nib3 op) 0x0C)))
  d ← operand w.src2 w (if is_word w.width then word else long)
  let o =
      if is_word w.width
      then divide 0x8000 a (signed 0x8000 (u16 d))
      else divide 0x80000000 a (signed 0x80000000 (u32 d))
  put_division w.width (nib3 op) o
