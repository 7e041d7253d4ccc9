-- ===== src/Cpu/Handlers.antt =====
-- The operand helpers of src/cpu.c that need no memory, and `exec_shift`.
use commodore_900_emulator.Base.{
  ℕ, ◌+◌, ◌-◌, Bool, true, false, ◌&&◌, ◌==◌, bit_and, bit_or, has, ltb, if◌then◌else◌, u8, u16,
  u32, shl, shr,
}
use commodore_900_emulator.Alu.{AluOp, Width, byte, word, long, alu_exec}
use commodore_900_emulator.Cpu.State.{Cpu}
use commodore_900_emulator.Cpu.Registers.{rb, wb, rw16, ww16, rl, wl}
use commodore_900_emulator.Cpu.Address.{
  nib1, nib2, nib3, is_seg, addr_add, addr_sub, addr_from_reg, seg_addr_op,
}
use commodore_900_emulator.Cpu.Flags.{apply_flags}
use commodore_900_emulator.Cpu.Control.{
  CtrlWord, RegSel, nib1_sel, nib2_sel, nib3_sel, SrcSel, src_reg, src_imm, src_one, src_two,
  src_nib3_cnt, src_zero, src_imm2, src_nib3_bit, src_nib3_cnt_plus1, src_op_lo_byte, src_ir,
  src_da, src_x, src_pc_rel, src_based, src_bx, DstSel, dst_ir, dst_da, dst_x, dst_pc_rel,
  dst_based, dst_bx,
}

unfoldable pub reg_read : Cpu → ℕ → Width → ℕ
unfolding rb rl rw16
reg_read c r byte = rb c r
reg_read c r long = rl c (bit_and r 0x0E)
reg_read c r word = rw16 c r

unfoldable pub reg_write : Cpu → ℕ → Width → ℕ → Cpu
unfolding wb wl ww16
reg_write c r byte v = wb c r (u8 v)
reg_write c r long v = wl c (bit_and r 0x0E) (u32 v)
reg_write c r word v = ww16 c r (u16 v)

abbrev pub unib : Cpu → RegSel → ℕ
unib c nib2_sel = nib2 (c.opcode 0)
unib c nib1_sel = nib1 (c.opcode 0)
unib c nib3_sel = nib3 (c.opcode 0)

unfoldable pub ureg_read : Cpu → RegSel → Width → ℕ
unfolding reg_read
ureg_read c s w = reg_read c (unib c s) w

unfoldable pub ureg_write : Cpu → RegSel → ℕ → Width → Cpu
unfolding reg_write
ureg_write c s v w = reg_write c (unib c s) w v

-- `disp` is a signed word.
unfoldable pub displaced : ℕ → ℕ → ℕ
unfolding addr_add addr_sub
displaced base disp = if ltb disp 0x8000 then addr_add base disp else addr_sub base (0x10000 - disp)

abbrev pub imm_value : Cpu → Width → ℕ
imm_value c byte = shr (c.opcode 1) 8
imm_value c long = bit_or (shl (c.opcode 1) 16) (c.opcode 2)
imm_value c word = c.opcode 1

-- The last word of an instruction with an address.
abbrev pub imm2_value : Cpu → Width → ℕ
imm2_value c w =
    let idx = if c.seg_w1 && is_seg c && has (c.opcode 1) 0x8000 then 3 else 2 in
    narrow w (c.opcode idx)
  where
    narrow : Width → ℕ → ℕ
    narrow byte x = shr x 8
    narrow _ x = x

unfoldable pub uread_src2 : Cpu → CtrlWord → ℕ
unfolding ureg_read
uread_src2 c w = go w.src2
  where
    go : SrcSel → ℕ
    go src_reg = ureg_read c w.src2_nib w.width
    go src_imm = imm_value c w.width
    go src_one = 1
    go src_two = 2
    go src_nib3_cnt = let n = nib3 (c.opcode 0) in if n == 0 then 16 else n
    go src_zero = 0
    go src_imm2 = imm2_value c w.width
    go src_nib3_bit = nib3 (c.opcode 0)
    go src_nib3_cnt_plus1 = nib3 (c.opcode 0) + 1
    go src_op_lo_byte = u8 (c.opcode 0)
    go _ = 0

-- The base register that `nib` names, with the index register of `opcode[1]`.
abbrev pub indexed : Cpu → RegSel → ℕ
indexed c nib = addr_add (addr_from_reg c (unib c nib)) (rw16 c (bit_and (shr (c.opcode 1) 8) 0x0F))

unfoldable pub usrc_addr : Cpu → CtrlWord → ℕ
unfolding addr_from_reg seg_addr_op displaced
usrc_addr c w = go w.src2
  where
    go : SrcSel → ℕ
    go src_ir = addr_from_reg c (unib c w.src2_nib)
    go src_da = seg_addr_op c 1
    go src_x = addr_add (seg_addr_op c 1) (rw16 c (unib c w.src2_nib))
    go src_pc_rel = displaced c.pc (u16 (c.opcode 1))
    go src_based = displaced (addr_from_reg c (unib c w.src2_nib)) (u16 (c.opcode 1))
    go src_bx = indexed c w.src2_nib
    go _ = 0

unfoldable pub udst_addr : Cpu → CtrlWord → ℕ
unfolding addr_from_reg seg_addr_op displaced
udst_addr c w = go w.dst
  where
    go : DstSel → ℕ
    go dst_ir = addr_from_reg c (unib c w.dst_nib)
    go dst_da = seg_addr_op c 1
    go dst_x = addr_add (seg_addr_op c 1) (rw16 c (unib c w.dst_nib))
    go dst_pc_rel = displaced c.pc (u16 (c.opcode 1))
    go dst_based = displaced (addr_from_reg c (unib c w.dst_nib)) (u16 (c.opcode 1))
    go dst_bx = indexed c w.dst_nib
    go _ = 0

abbrev pub src_is_mem : SrcSel → Bool
src_is_mem src_ir = true
src_is_mem src_da = true
src_is_mem src_x = true
src_is_mem src_pc_rel = true
src_is_mem src_based = true
src_is_mem src_bx = true
src_is_mem _ = false

abbrev pub dst_is_mem : DstSel → Bool
dst_is_mem dst_ir = true
dst_is_mem dst_da = true
dst_is_mem dst_x = true
dst_is_mem dst_pc_rel = true
dst_is_mem dst_based = true
dst_is_mem dst_bx = true
dst_is_mem _ = false

-- The count word: static in `opcode[1]`, or in the register that it names.
unfoldable pub shift_count : Cpu → SrcSel → ℕ
unfolding rw16
shift_count c src_reg = rw16 c (bit_and (shr (c.opcode 1) 8) 0x0F)
shift_count c _ = u16 (c.opcode 1)

-- A negative count shifts the other way.
abbrev pub reversed : AluOp → AluOp
reversed AluOp.sla = AluOp.sra
reversed _ = AluOp.srl

-- The count as a signed word decides the operation, its magnitude the number of places.
unfoldable pub exec_shift : Cpu → CtrlWord → Cpu
unfolding reg_read reg_write shift_count alu_exec apply_flags
exec_shift c w =
    let dst = nib2 (c.opcode 0) in
    let count = shift_count c w.count in
    let negative = ltb 0x7FFF count in
    let op = if negative then reversed w.alu_op else w.alu_op in
    let n = if negative then 0x10000 - count else count in
    let r = alu_exec op (reg_read c dst w.width) n false w.width in
    apply_flags (reg_write c dst w.width r.value) r
