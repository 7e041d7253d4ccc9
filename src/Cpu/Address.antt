-- ===== src/Cpu/Address.antt =====
-- The address helpers of src/cpu.c. An address in internal form is `segment << 16 | offset`; in a
-- register pair it is `bit 31 | segment << 24 | offset`.
use commodore_900_emulator.Base.{
  ℕ, ◌+◌, ◌-◌, ◌^◌, Bool, bit_and, bit_or, has, if◌then◌else◌, u16, u32, shl, shr,
}
use commodore_900_emulator.Cpu.State.{Cpu, fcw_seg, fcw_sn}
use commodore_900_emulator.Cpu.Registers.{rw16, ww16, rl}

-- `SEG(c)` and `SYSMODE(c)`
abbrev pub is_seg : Cpu → Bool
is_seg c = has c.fcw fcw_seg

abbrev pub sys_mode : Cpu → Bool
sys_mode c = has c.fcw fcw_sn

unfoldable pub seg_addr : ℕ → ℕ
seg_addr v = bit_or (shr (bit_and v 0x7F000000) 8) (bit_and v 0xFFFF)

unfoldable pub make_seg : ℕ → ℕ
make_seg a = bit_or (bit_or (shl (bit_and a 0x007F0000) 8) 0x80000000) (bit_and a 0xFFFF)

unfoldable pub addr_add : ℕ → ℕ → ℕ
addr_add a n = bit_or (bit_and a 0xFFFF0000) (bit_and (u32 (a + n)) 0xFFFF)

unfoldable pub addr_sub : ℕ → ℕ → ℕ
addr_sub a n = bit_or (bit_and a 0xFFFF0000) (bit_and (u32 (a + 2 ^ 32 - n)) 0xFFFF)

unfoldable pub addr_from_reg : Cpu → ℕ → ℕ
addr_from_reg c r =
    if is_seg c then seg_addr (rl c (bit_and r 0x0E)) else bit_or (bit_and c.pc 0x7F0000) (rw16 c r)

unfoldable pub addr_to_reg : Cpu → ℕ → ℕ → Cpu
addr_to_reg c r a =
    if is_seg c
    then (let e = bit_and r 0x0E in
        ww16 (ww16 c e (u16 (bit_and (shr a 8) 0x7F00))) (e + 1) (u16 a))
    else ww16 c r (u16 a)

-- The nibbles of an opcode word.
abbrev pub nib1 : ℕ → ℕ
nib1 op = bit_and (shr op 8) 0x0F

abbrev pub nib2 : ℕ → ℕ
nib2 op = bit_and (shr op 4) 0x0F

abbrev pub nib3 : ℕ → ℕ
nib3 op = bit_and op 0x0F

unfoldable pub seg_addr_op : Cpu → ℕ → ℕ
seg_addr_op c idx =
    if is_seg c
    then (let w1 = c.opcode idx in
        let seg = shl (bit_and w1 0x7F00) 8 in
        if has w1 0x8000 then bit_or seg (c.opcode (idx + 1)) else bit_or seg (bit_and w1 0xFF))
    else bit_or (bit_and c.pc 0x7F0000) (c.opcode idx)
