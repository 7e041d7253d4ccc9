-- ===== src/Engine/Execute.antt =====
-- `execute` of src/cpu.c, with the instruction classes that it handles itself.
use commodore_900_emulator.Base.{
  ℕ, ◌+◌, ◌^◌, Bool, true, false, not, ◌&&◌, bit_and, bit_or, bit_xor, complement, has,
  if◌then◌else◌, u8, u16, shl, shr, nat, ◌==◌,
}
use commodore_900_emulator.Base.Int.{signed, wrap}
use commodore_900_emulator.Alu.{AluOp, Width, byte, word, long, alu_exec, f_c, f_z, f_s, f_h}
use commodore_900_emulator.Cpu.{
  Cpu, CtrlWord, InstrClass, FcwOpKind, set_flags, clear_flags, toggle_flags, load_lo, store_lo,
  SrcSel, src_pc_rel, src_da, src_x, src_based, src_bx, MpOpKind, mp_bit, mp_req, rb, rw16, rl,
  unib, nib1, nib2, nib3, displaced, addr_add, addr_from_reg, seg_addr_op, cond_true, exec_shift,
}
use commodore_900_emulator.Engine.State.{
  Run, pure, ◌>>=◌, ◌>>◌, skip, get_cpu, change_cpu, put_word, put_byte, put_long, put_quad,
  put_addr, put_flags, flag_if, request, privileged,
}
use commodore_900_emulator.Engine.Unified.{exec_unified, exec_branch}
use commodore_900_emulator.Engine.Stack.{exec_stack, exec_exchange}
use commodore_900_emulator.Engine.Product.{exec_mul, exec_div}
use commodore_900_emulator.Engine.System.{exec_ldm, exec_io, exec_ldctl, exec_ldps, exec_iret}
use commodore_900_emulator.Engine.Block.{
  exec_translate, exec_block_transfer, exec_block_compare, exec_block_string, exec_block_io,
}

unfoldable pub set_fcw : (ℕ → ℕ) → Run
set_fcw f = change_cpu (λ c. record c { fcw = f c.fcw })

-- ClsFcwOp, after the test of the privilege.
unfoldable pub change_flags : FcwOpKind → ℕ → Run
unfolding set_fcw get_cpu put_byte ◌>>=◌
change_flags set_flags mask = set_fcw (λ f. bit_or f mask)
change_flags clear_flags mask = set_fcw (λ f. bit_and f (complement 32 mask))
change_flags toggle_flags mask = set_fcw (λ f. bit_xor f mask)
change_flags load_lo mask = get_cpu (λ c. rb c (nib2 (c.opcode 0))) >>= λ v.
    set_fcw (λ f. bit_or (bit_and f (complement 32 0x00FC)) (bit_and v 0x00FC))
change_flags store_lo mask = get_cpu (λ c. nib2 (c.opcode 0)) >>= λ r.
    get_cpu (λ c. bit_and (u8 c.fcw) 0xFC) >>= λ v. put_byte r v

abbrev pub sets_or_clears : FcwOpKind → Bool
sets_or_clears set_flags = true
sets_or_clears clear_flags = true
sets_or_clears _ = false

unfoldable pub exec_fcw_op : CtrlWord → Run
unfolding change_flags privileged
exec_fcw_op w =
    if sets_or_clears w.fcw_op && has w.fcw_mask (complement 32 0x00FC)
    then privileged (change_flags w.fcw_op w.fcw_mask)
    else change_flags w.fcw_op w.fcw_mask

-- ClsExts: the low half of a register group, read as a signed number, into the whole group.
unfoldable pub extend : Width → ℕ → Run
unfolding get_cpu put_word put_long put_quad ◌>>=◌
extend byte r = get_cpu (λ c. u8 (rw16 c r)) >>= λ v. put_word r (wrap (2 ^ 16) (signed 0x80 v))
extend word r = get_cpu (λ c. rw16 c (bit_and r 0x0E + 1)) >>= λ v.
    put_long (bit_and r 0x0E) (wrap (2 ^ 32) (signed 0x8000 v))
extend long r = get_cpu (λ c. rl c (bit_and r 0x0C + 2)) >>= λ v.
    put_quad (bit_and r 0x0C) (wrap (2 ^ 64) (signed 0x80000000 v))

unfoldable pub exec_exts : CtrlWord → Run
unfolding get_cpu extend ◌>>=◌
exec_exts w = get_cpu (λ c. nib2 (c.opcode 0)) >>= λ r. extend w.width r

-- A change of a byte register, or of a word register.
unfoldable pub change_reg : Width → ℕ → (ℕ → ℕ) → Run
unfolding get_cpu put_byte put_word ◌>>=◌
change_reg byte r f = get_cpu (λ c. rb c r) >>= λ v. put_byte r (f v)
change_reg _ r f = get_cpu (λ c. rw16 c r) >>= λ v. put_word r (f v)

unfoldable pub exec_tcc : CtrlWord → Run
unfolding get_cpu cond_true change_reg pure ◌>>=◌
exec_tcc w = do
  op ← get_cpu (λ c. c.opcode 0)
  holds ← get_cpu (λ c. cond_true c (nib3 op))
  if holds then change_reg w.width (nib2 op) (λ v. bit_or v 1) else skip

unfoldable pub exec_dab : Run
unfolding get_cpu alu_exec put_byte put_flags ◌>>=◌
exec_dab = do
  dst ← get_cpu (λ c. nib2 (c.opcode 0))
  v ← get_cpu (λ c. rb c dst)
  fcw ← get_cpu (λ c. c.fcw)
  let r = alu_exec AluOp.dab v (nat (has fcw f_h)) (has fcw f_c) byte
  put_byte dst r.value
  put_flags r

unfoldable pub lea_addr : CtrlWord → Cpu → ℕ
unfolding displaced
lea_addr w c = go w.src2
  where
    go : SrcSel → ℕ
    go src_pc_rel = displaced c.pc (u16 (c.opcode 1))
    go src_da = seg_addr_op c 1
    go src_x = addr_add (seg_addr_op c 1) (rw16 c (unib c w.src2_nib))
    go src_based = displaced (addr_from_reg c (unib c w.src2_nib)) (u16 (c.opcode 1))
    go src_bx = addr_add (addr_from_reg c (unib c w.src2_nib)) (rw16 c (nib1 (c.opcode 1)))
    go _ = 0

unfoldable pub exec_lea : CtrlWord → Run
unfolding get_cpu lea_addr put_addr ◌>>=◌
exec_lea w = do a ← get_cpu (lea_addr w); dst ← get_cpu (λ c. nib3 (c.opcode 0)); put_addr dst a

abbrev pub rotates_left : AluOp → Bool
rotates_left AluOp.rl = true
rotates_left _ = false

-- The new source and destination bytes.
unfoldable pub rotate_digits : Bool → ℕ → ℕ → ℕ × ℕ
rotate_digits left sv dv =
    if left
    then (u8 (bit_or (shl sv 4) (bit_and dv 0x0F)), bit_or (bit_and dv 0xF0) (shr sv 4))
    else (bit_or (shr sv 4) (shl (bit_and dv 0x0F) 4), bit_or (bit_and dv 0xF0) (bit_and sv 0x0F))

unfoldable pub exec_bcd_rotate : CtrlWord → Run
unfolding get_cpu rotate_digits put_byte flag_if ◌>>=◌
exec_bcd_rotate w = do
  op ← get_cpu (λ c. c.opcode 0)
  sv ← get_cpu (λ c. rb c (nib2 op))
  dv ← get_cpu (λ c. rb c (nib3 op))
  let new = rotate_digits (rotates_left w.alu_op) sv dv
  put_byte (nib2 op) new.0
  put_byte (nib3 op) new.1
  flag_if f_z (new.1 == 0)

-- The bit of weight `m` of a register.
unfoldable pub bit_op : AluOp → Width → ℕ → ℕ → Run
unfolding get_cpu change_reg flag_if pure ◌>>=◌
bit_op AluOp.bit byte r m = get_cpu (λ c. rb c r) >>= λ v. flag_if f_z (not (has v m))
bit_op AluOp.bit _ r m = get_cpu (λ c. rw16 c r) >>= λ v. flag_if f_z (not (has v m))
bit_op AluOp.set w r m = change_reg w r (λ v. bit_or v m)
bit_op AluOp.res w r m = change_reg w r (λ v. bit_and v (complement 32 m))
bit_op _ w r m = skip

-- The mask of the bit number that a register holds.
abbrev pub index_mask : Width → ℕ
index_mask byte = 0x07
index_mask _ = 0x0F

unfoldable pub exec_bit_dynamic : CtrlWord → Run
unfolding get_cpu bit_op ◌>>=◌
exec_bit_dynamic w = do
  rs ← get_cpu (λ c. rw16 c (nib3 (c.opcode 0)))
  rd ← get_cpu (λ c. nib1 (c.opcode 1))
  bit_op w.alu_op w.width rd (2 ^ bit_and (u8 rs) (index_mask w.width))

unfoldable pub multi_micro : MpOpKind → Run
unfolding set_fcw pure
multi_micro mp_bit = set_fcw (λ f. bit_or f f_s)
multi_micro mp_req = set_fcw (λ f. bit_or (bit_or (bit_and f (complement 32 f_z)) f_s) f_z)
multi_micro _ = skip

unfoldable pub stop : Run
stop = change_cpu (λ c. record c { halted = true })

unfoldable pub execute_class : InstrClass → CtrlWord → Run
unfolding exec_shift multi_micro stop request privileged
execute_class InstrClass.unified w = exec_unified w
execute_class InstrClass.fcw_op w = exec_fcw_op w
execute_class InstrClass.exts w = exec_exts w
execute_class InstrClass.stack w = exec_stack w
execute_class InstrClass.branch w = exec_branch w
execute_class InstrClass.tcc w = exec_tcc w
execute_class InstrClass.dab w = exec_dab
execute_class InstrClass.exchange w = exec_exchange w
execute_class InstrClass.lea w = exec_lea w
execute_class InstrClass.bcd_rotate w = exec_bcd_rotate w
execute_class InstrClass.bit_dynamic w = exec_bit_dynamic w
execute_class InstrClass.io w = exec_io w
execute_class InstrClass.ldctl w = exec_ldctl
execute_class InstrClass.shift w = change_cpu (λ c. exec_shift c w)
execute_class InstrClass.block_transfer w = exec_block_transfer w
execute_class InstrClass.block_compare w = exec_block_compare w
execute_class InstrClass.block_string w = exec_block_string w
execute_class InstrClass.block_io w = exec_block_io w
execute_class InstrClass.ldm w = exec_ldm w
execute_class InstrClass.multi_proc w = privileged (multi_micro w.mp_op)
execute_class InstrClass.mul w = exec_mul w
execute_class InstrClass.div w = exec_div w
execute_class InstrClass.ldps w = exec_ldps w
execute_class InstrClass.halt w = privileged stop
execute_class InstrClass.sys_call w = request 0x02
execute_class InstrClass.iret w = exec_iret
execute_class InstrClass.translate w = exec_translate w

unfoldable pub execute : CtrlWord → Run
unfolding execute_class
execute w = execute_class w.exec w
