-- ===== src/Engine/Stack.antt =====
-- `exec_stack` and `exec_exchange` of src/cpu.c.
use commodore_900_emulator.Base.{ℕ, ◌+◌, Bool, true, false, bit_and, if◌then◌else◌}
use commodore_900_emulator.Alu.{Width, byte}
use commodore_900_emulator.Cpu.{
  CtrlWord, SrcSel, src_ir, src_da, src_x, DstSel, dst_ir, StackMode, push, pop, push_l, pop_l,
  push_src, pop_dst, push_l_src, pop_l_dst, push_imm, rb, rw16, nib2, nib3, addr_add, addr_from_reg,
  seg_addr_op, usrc_addr, udst_addr,
}
use commodore_900_emulator.Engine.State.{Exec, Run, pure, ◌>>=◌, ◌>>◌, get_cpu, put_word, put_byte}
use commodore_900_emulator.Engine.Access.{
  mem_r8, mem_r16, mem_w8, mem_w16, predecrement, postincrement,
}

abbrev pub is_src_ir : SrcSel → Bool
is_src_ir src_ir = true
is_src_ir _ = false

abbrev pub is_dst_ir : DstSel → Bool
is_dst_ir dst_ir = true
is_dst_ir _ = false

-- A long, high word first.
unfoldable pub store_pair : ℕ → ℕ → ℕ → Run
unfolding mem_w16 ◌>>=◌
store_pair a hi lo = do mem_w16 a hi; mem_w16 (addr_add a 2) lo

unfoldable pub load_pair : ℕ → Exec (ℕ × ℕ)
unfolding mem_r16 pure ◌>>=◌
load_pair a = do hi ← mem_r16 a; lo ← mem_r16 (addr_add a 2); pure (hi, lo)

-- `op` is the first opcode word; a register that is pushed is read after the pointer has moved.
unfoldable pub stack_op : StackMode → CtrlWord → ℕ → Run
unfolding get_cpu put_word mem_r16 mem_w16 predecrement postincrement store_pair load_pair ◌>>=◌
stack_op push w op = do
  a ← predecrement (nib2 op) 2
  v ← get_cpu (λ c. rw16 c (nib3 op))
  mem_w16 a v
stack_op pop w op = do a ← postincrement (nib2 op) 2; v ← mem_r16 a; put_word (nib3 op) v
stack_op push_l w op = do
  a ← predecrement (nib2 op) 4
  hi ← get_cpu (λ c. rw16 c (bit_and (nib3 op) 0x0E))
  mem_w16 a hi
  lo ← get_cpu (λ c. rw16 c (bit_and (nib3 op) 0x0E + 1))
  mem_w16 (addr_add a 2) lo
stack_op pop_l w op = do
  a ← postincrement (nib2 op) 4
  v ← load_pair a
  put_word (bit_and (nib3 op) 0x0E) v.0
  put_word (bit_and (nib3 op) 0x0E + 1) v.1
stack_op push_src w op = do
  s ← get_cpu (λ c. usrc_addr c w)
  v ← mem_r16 s
  a ← predecrement (nib2 op) 2
  mem_w16 a v
stack_op pop_dst w op = do
  a ← postincrement (nib2 op) 2
  v ← mem_r16 a
  d ← get_cpu (λ c. udst_addr c w)
  mem_w16 d v
stack_op push_l_src w op = do
  s ←
      get_cpu
        (λ c. if is_src_ir w.src2 then addr_from_reg c (bit_and (nib3 op) 0x0E) else usrc_addr c w)
  v ← load_pair s
  a ← predecrement (nib2 op) 4
  store_pair a v.0 v.1
stack_op pop_l_dst w op = do
  a ← postincrement (nib2 op) 4
  v ← load_pair a
  d ←
      get_cpu
        (λ c. if is_dst_ir w.dst then addr_from_reg c (bit_and (nib3 op) 0x0E) else udst_addr c w)
  store_pair d v.0 v.1
stack_op push_imm w op = do a ← predecrement (nib2 op) 2; v ← get_cpu (λ c. c.opcode 1); mem_w16 a v

unfoldable pub exec_stack : CtrlWord → Run
unfolding get_cpu stack_op ◌>>=◌
exec_stack w = do op ← get_cpu (λ c. c.opcode 0); stack_op w.stk_mode w op

-- A register and memory change places.
unfoldable pub swap_memory : Width → ℕ → ℕ → Run
unfolding get_cpu mem_r8 mem_r16 mem_w8 mem_w16 put_word put_byte ◌>>=◌
swap_memory byte ma b = do mv ← mem_r8 ma; rv ← get_cpu (λ c. rb c b); put_byte b mv; mem_w8 ma rv
swap_memory _ ma b = do mv ← mem_r16 ma; rv ← get_cpu (λ c. rw16 c b); put_word b mv; mem_w16 ma rv

-- Two registers change places.
unfoldable pub swap_registers : Width → ℕ → ℕ → Run
unfolding get_cpu put_word put_byte ◌>>=◌
swap_registers byte a b = do
  va ← get_cpu (λ c. rb c a)
  vb ← get_cpu (λ c. rb c b)
  put_byte a vb
  put_byte b va
swap_registers _ a b = do
  va ← get_cpu (λ c. rw16 c a)
  vb ← get_cpu (λ c. rw16 c b)
  put_word a vb
  put_word b va

unfoldable pub exchange : SrcSel → Width → ℕ → Run
unfolding get_cpu swap_memory swap_registers ◌>>=◌
exchange src_ir w op = do ma ← get_cpu (λ c. addr_from_reg c (nib2 op)); swap_memory w ma (nib3 op)
exchange src_da w op = do ma ← get_cpu (λ c. seg_addr_op c 1); swap_memory w ma (nib3 op)
exchange src_x w op = do
  ma ← get_cpu (λ c. addr_add (seg_addr_op c 1) (rw16 c (nib2 op)))
  swap_memory w ma (nib3 op)
exchange _ w op = swap_registers w (nib2 op) (nib3 op)

unfoldable pub exec_exchange : CtrlWord → Run
unfolding get_cpu exchange ◌>>=◌
exec_exchange w = do op ← get_cpu (λ c. c.opcode 0); exchange w.src2 w.width op
