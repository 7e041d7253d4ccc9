-- ===== src/Engine/Unified.antt =====
-- `exec_unified` and `exec_branch` of src/cpu.c.
use commodore_900_emulator.Base.{
  ℕ, ◌+◌, ◌-◌, ◌*◌, Bool, true, false, not, bit_and, bit_or, has, ◌==◌, if◌then◌else◌, u8, u16, shl,
  shr,
}
use commodore_900_emulator.Base.Int.{ℤ, pos, negsuc, signed}
use commodore_900_emulator.Alu.{f_c, alu_exec}
use commodore_900_emulator.Cpu.{
  Cpu, CtrlWord, DstSel, dst_reg, dst_flags_only, BranchMode, jp_da, jp_x, jp_ir, jr, call_da,
  call_x, call_ir, calr, calr12, ret, djnz, is_seg, rb, rw16, nib1, nib2, nib3, src_is_mem,
  dst_is_mem, uread_src2, usrc_addr, udst_addr, ureg_read, ureg_write, cond_true, addr_add,
  addr_sub, addr_from_reg, seg_addr, seg_addr_op, make_seg,
}
use commodore_900_emulator.Engine.State.{
  Exec, Run, pure, ◌>>=◌, ◌>>◌, skip, get_cpu, change_cpu, put_word, put_byte, put_pc, put_flags,
}
use commodore_900_emulator.Engine.Access.{mem_read_w, mem_write_w, push_word, pop_word}

abbrev pub is_flags_only : DstSel → Bool
is_flags_only dst_flags_only = true
is_flags_only _ = false

abbrev pub is_dst_reg : DstSel → Bool
is_dst_reg dst_reg = true
is_dst_reg _ = false

unfoldable pub put_reg : CtrlWord → ℕ → Run
unfolding ureg_write
put_reg w v = change_cpu (λ c. ureg_write c w.dst_nib v w.width)

-- The ALU on `a` and `b`, its flags merged.
unfoldable pub operate : CtrlWord → ℕ → ℕ → Exec ℕ
unfolding get_cpu put_flags pure ◌>>=◌
operate w a b = do
  carry ← get_cpu (λ c. has c.fcw f_c)
  let r = alu_exec w.alu_op a b carry w.width
  put_flags r
  pure r.value

-- Case 4, with the second operand `b`: the first is the register of `src1_nib`.
unfoldable pub compute : CtrlWord → ℕ → Run
unfolding get_cpu operate put_reg pure ◌>>=◌
compute w b = do
  a ← get_cpu (λ c. ureg_read c w.src1_nib w.width)
  r ← operate w a b
  if is_dst_reg w.dst then put_reg w r else skip

-- Cases 1 and 2: memory is the first operand, the count the second.
unfoldable pub on_memory : CtrlWord → ℕ → ℕ → Run
unfolding get_cpu operate compute mem_write_w pure ◌>>=◌
on_memory w sa b = do
  cnt ← get_cpu (λ c. uread_src2 c (record w { src2 = w.count }))
  if dst_is_mem w.dst
      then (operate w b cnt >>= λ r. mem_write_w sa r w.width)
      else if is_flags_only w.dst
      then (operate w b cnt >>= λ _. skip)
      else compute w b

unfoldable pub exec_unified : CtrlWord → Run
unfolding get_cpu on_memory compute mem_read_w mem_write_w ◌>>=◌
exec_unified w =
    if src_is_mem w.src2
    then (do sa ← get_cpu (λ c. usrc_addr c w); b ← mem_read_w sa w.width; on_memory w sa b)
    else if dst_is_mem w.dst
    then (do
      b ← get_cpu (λ c. uread_src2 c w)
      da ← get_cpu (λ c. udst_addr c w)
      mem_write_w da b w.width)
    else (do b ← get_cpu (λ c. uread_src2 c w); compute w b)

-- `rel_pc`
abbrev pub rel_pc : ℕ → ℤ → ℕ
rel_pc pc (pos n) = addr_add pc n
rel_pc pc (negsuc n) = addr_sub pc (n + 1)

-- `d * 2` and `-d * 2`
abbrev pub doubled : ℤ → ℤ
doubled (pos n) = pos (n * 2)
doubled (negsuc n) = negsuc (n * 2 + 1)

abbrev pub doubled_neg : ℤ → ℤ
doubled_neg (pos n) = if n == 0 then pos 0 else negsuc (n * 2 - 1)
doubled_neg (negsuc n) = pos ((n + 1) * 2)

-- The return address on the stack, and the target in the PC.
unfoldable pub call_to : ℕ → Run
unfolding get_cpu push_word put_pc pure ◌>>=◌
call_to t = do
  pc ← get_cpu (λ c. c.pc)
  seg ← get_cpu is_seg
  push_word (u16 pc)
  if seg then push_word (shr (make_seg pc) 16) else skip
  put_pc t

unfoldable pub jump_if : Bool → ℕ → Run
unfolding put_pc pure
jump_if b t = if b then put_pc t else skip

-- The return address off the stack, into the PC.
unfoldable pub pop_pc_seg : Run
unfolding pop_word put_pc ◌>>=◌
pop_pc_seg = do hi ← pop_word; lo ← pop_word; put_pc (seg_addr (bit_or (shl hi 16) lo))

unfoldable pub pop_pc : Run
unfolding get_cpu pop_word pop_pc_seg put_pc ◌>>=◌
pop_pc = do
  seg ← get_cpu is_seg
  pc ← get_cpu (λ c. c.pc)
  if seg then pop_pc_seg else (pop_word >>= λ lo. put_pc (bit_or (bit_and pc 0x7F0000) lo))

-- DJNZ and DBJNZ: the register less one, and whether it is not zero.
unfoldable pub decrement : ℕ → Bool → Exec Bool
unfolding get_cpu put_word put_byte pure ◌>>=◌
decrement reg is_word = do
  w ← get_cpu (λ c. u16 (rw16 c reg + 0xFFFF))
  b ← get_cpu (λ c. u8 (rb c reg + 0xFF))
  let v = if is_word then w else b
  if is_word then put_word reg w else put_byte reg b
  pure (not (v == 0))

unfoldable pub branch : BranchMode → Cpu → Run
unfolding cond_true call_to jump_if pop_pc decrement put_pc pure ◌>>=◌
branch jp_da c = jump_if (cond_true c (nib3 (c.opcode 0))) (seg_addr_op c 1)
branch jp_x c =
    jump_if (cond_true c (nib3 (c.opcode 0)))
      (addr_add (seg_addr_op c 1) (rw16 c (nib2 (c.opcode 0))))
branch jp_ir c = jump_if (cond_true c (nib3 (c.opcode 0))) (addr_from_reg c (nib2 (c.opcode 0)))
branch jr c =
    jump_if (cond_true c (nib1 (c.opcode 0)))
      (rel_pc c.pc (doubled (signed 0x80 (bit_and (c.opcode 0) 0xFF))))
branch call_da c = call_to (seg_addr_op c 1)
branch call_x c = call_to (addr_add (seg_addr_op c 1) (rw16 c (nib2 (c.opcode 0))))
branch call_ir c = call_to (addr_from_reg c (nib2 (c.opcode 0)))
branch calr c = call_to (rel_pc c.pc (doubled (signed 0x80 (bit_and (c.opcode 0) 0xFF))))
branch calr12 c = call_to (rel_pc c.pc (doubled_neg (signed 0x800 (bit_and (c.opcode 0) 0x0FFF))))
branch djnz c = do
  nz ← decrement (nib1 (c.opcode 0)) (has (c.opcode 0) 0x0080)
  jump_if nz (addr_sub c.pc (shl (bit_and (c.opcode 0) 0x7F) 1))
branch ret c = if cond_true c (nib3 (c.opcode 0)) then pop_pc else skip

unfoldable pub exec_branch : CtrlWord → Run
unfolding get_cpu branch ◌>>=◌
exec_branch w = do c ← get_cpu (λ c. c); branch w.br_mode c
