-- ===== src/Engine/HandlerKeeps.antt =====
-- What the handlers of the unprivileged instructions of src/cpu.c keep.
use commodore_900_emulator.Base.{ℕ, ◌<◌, Bool, arith}
use commodore_900_emulator.Alu.{Width, byte, word, long}
use commodore_900_emulator.Alu.Masks.{alu_exec-mask}
use commodore_900_emulator.Cpu.{
  Cpu, CtrlWord, StackMode, push, pop, push_l, pop_l, push_src, pop_dst, push_l_src, pop_l_dst,
  push_imm, SrcSel, BranchMode, jp_da, jp_x, jp_ir, jr, call_da, call_x, call_ir, calr, calr12, ret,
  djnz,
}
use commodore_900_emulator.Engine.State.{Machine}
use commodore_900_emulator.Engine.Unified.{
  put_reg, operate, compute, on_memory, exec_unified, call_to, jump_if, pop_pc_seg, pop_pc,
  decrement, branch, exec_branch,
}
use commodore_900_emulator.Engine.Stack.{
  store_pair, load_pair, stack_op, exec_stack, swap_memory, swap_registers, exchange, exec_exchange,
}
use commodore_900_emulator.Engine.Product.{
  czsv, operand, exec_mul, Division, refused, stored, undefined_quotient, put_division, exec_div,
}
use commodore_900_emulator.Engine.Keeps.{Keeps, Stable}
use commodore_900_emulator.Engine.AccessKeeps.{stack_Keeps}

pub czsv-small : czsv < 256
czsv-small = omega arith

module _ {P : Machine → Type 0} (s : Stable P) where
  pub operate-Keeps : (w : CtrlWord) (a b : ℕ) → Keeps P (operate w a b)
  unfolding operate
  operate-Keeps w a b = search (stack_Keeps, alu_exec-mask) depth 8

  pub put_reg-Keeps : (w : CtrlWord) (v : ℕ) → Keeps P (put_reg w v)
  unfolding put_reg
  put_reg-Keeps w v = s.register w v

  pub call_to-Keeps : (t : ℕ) → Keeps P (call_to t)
  unfolding call_to
  call_to-Keeps t = search stack_Keeps depth 8

  pub jump_if-Keeps : (b : Bool) (t : ℕ) → Keeps P (jump_if b t)
  unfolding jump_if
  jump_if-Keeps b t = search stack_Keeps depth 8

  pub pop_pc_seg-Keeps : Keeps P pop_pc_seg
  unfolding pop_pc_seg
  pop_pc_seg-Keeps = search stack_Keeps depth 8

  pub decrement-Keeps : (r : ℕ) (b : Bool) → Keeps P (decrement r b)
  unfolding decrement
  decrement-Keeps r b = search stack_Keeps depth 8

  pub store_pair-Keeps : (a hi lo : ℕ) → Keeps P (store_pair a hi lo)
  unfolding store_pair
  store_pair-Keeps a hi lo = search stack_Keeps depth 8

  pub load_pair-Keeps : (a : ℕ) → Keeps P (load_pair a)
  unfolding load_pair
  load_pair-Keeps a = search stack_Keeps depth 8

pub ruleset part_Keeps = (
  stack_Keeps, operate-Keeps, put_reg-Keeps, call_to-Keeps, jump_if-Keeps, pop_pc_seg-Keeps,
  decrement-Keeps, store_pair-Keeps, load_pair-Keeps,
)

module _ {P : Machine → Type 0} (s : Stable P) where
  pub compute-Keeps : (w : CtrlWord) (b : ℕ) → Keeps P (compute w b)
  unfolding compute
  compute-Keeps w b = search part_Keeps depth 8

  pub pop_pc-Keeps : Keeps P pop_pc
  unfolding pop_pc
  pop_pc-Keeps = search part_Keeps depth 8

  pub on_memory-Keeps : (w : CtrlWord) (a b : ℕ) → Keeps P (on_memory w a b)
  unfolding on_memory
  on_memory-Keeps w a b = search (part_Keeps, compute-Keeps) depth 8

  pub exec_unified-Keeps : (w : CtrlWord) → Keeps P (exec_unified w)
  unfolding exec_unified
  exec_unified-Keeps w = search (part_Keeps, compute-Keeps, on_memory-Keeps) depth 8

  pub branch-Keeps : (b : BranchMode) (c : Cpu) → Keeps P (branch b c)
  unfolding branch
  branch-Keeps jp_da c = search part_Keeps
  branch-Keeps jp_x c = search part_Keeps
  branch-Keeps jp_ir c = search part_Keeps
  branch-Keeps jr c = search part_Keeps
  branch-Keeps call_da c = search part_Keeps
  branch-Keeps call_x c = search part_Keeps
  branch-Keeps call_ir c = search part_Keeps
  branch-Keeps calr c = search part_Keeps
  branch-Keeps calr12 c = search part_Keeps
  branch-Keeps djnz c = search part_Keeps
  branch-Keeps ret c = search (part_Keeps, pop_pc-Keeps)

  pub exec_branch-Keeps : (w : CtrlWord) → Keeps P (exec_branch w)
  unfolding exec_branch
  exec_branch-Keeps w = search (part_Keeps, branch-Keeps)

  pub stack_op-Keeps : (k : StackMode) (w : CtrlWord) (op : ℕ) → Keeps P (stack_op k w op)
  unfolding stack_op
  stack_op-Keeps push w op = search part_Keeps depth 10
  stack_op-Keeps pop w op = search part_Keeps depth 10
  stack_op-Keeps push_l w op = search part_Keeps depth 10
  stack_op-Keeps pop_l w op = search part_Keeps depth 10
  stack_op-Keeps push_src w op = search part_Keeps depth 10
  stack_op-Keeps pop_dst w op = search part_Keeps depth 10
  stack_op-Keeps push_l_src w op = search part_Keeps depth 10
  stack_op-Keeps pop_l_dst w op = search part_Keeps depth 10
  stack_op-Keeps push_imm w op = search part_Keeps depth 10

  pub exec_stack-Keeps : (w : CtrlWord) → Keeps P (exec_stack w)
  unfolding exec_stack
  exec_stack-Keeps w = search (part_Keeps, stack_op-Keeps)

  pub swap_memory-Keeps : (w : Width) (a r : ℕ) → Keeps P (swap_memory w a r)
  unfolding swap_memory
  swap_memory-Keeps byte a r = search part_Keeps depth 8
  swap_memory-Keeps word a r = search part_Keeps depth 8
  swap_memory-Keeps long a r = search part_Keeps depth 8

  pub swap_registers-Keeps : (w : Width) (a b : ℕ) → Keeps P (swap_registers w a b)
  unfolding swap_registers
  swap_registers-Keeps byte a b = search part_Keeps depth 8
  swap_registers-Keeps word a b = search part_Keeps depth 8
  swap_registers-Keeps long a b = search part_Keeps depth 8

  pub exchange-Keeps : (k : SrcSel) (w : Width) (op : ℕ) → Keeps P (exchange k w op)
  unfolding exchange
  exchange-Keeps SrcSel.src_none w op = search (part_Keeps, swap_registers-Keeps)
  exchange-Keeps SrcSel.src_reg w op = search (part_Keeps, swap_registers-Keeps)
  exchange-Keeps SrcSel.src_imm w op = search (part_Keeps, swap_registers-Keeps)
  exchange-Keeps SrcSel.src_ir w op = search (part_Keeps, swap_memory-Keeps)
  exchange-Keeps SrcSel.src_da w op = search (part_Keeps, swap_memory-Keeps)
  exchange-Keeps SrcSel.src_x w op = search (part_Keeps, swap_memory-Keeps)
  exchange-Keeps SrcSel.src_one w op = search (part_Keeps, swap_registers-Keeps)
  exchange-Keeps SrcSel.src_two w op = search (part_Keeps, swap_registers-Keeps)
  exchange-Keeps SrcSel.src_nib3_cnt w op = search (part_Keeps, swap_registers-Keeps)
  exchange-Keeps SrcSel.src_zero w op = search (part_Keeps, swap_registers-Keeps)
  exchange-Keeps SrcSel.src_imm2 w op = search (part_Keeps, swap_registers-Keeps)
  exchange-Keeps SrcSel.src_pc_rel w op = search (part_Keeps, swap_registers-Keeps)
  exchange-Keeps SrcSel.src_based w op = search (part_Keeps, swap_registers-Keeps)
  exchange-Keeps SrcSel.src_bx w op = search (part_Keeps, swap_registers-Keeps)
  exchange-Keeps SrcSel.src_nib3_bit w op = search (part_Keeps, swap_registers-Keeps)
  exchange-Keeps SrcSel.src_nib3_cnt_plus1 w op = search (part_Keeps, swap_registers-Keeps)
  exchange-Keeps SrcSel.src_op_lo_byte w op = search (part_Keeps, swap_registers-Keeps)

  pub exec_exchange-Keeps : (w : CtrlWord) → Keeps P (exec_exchange w)
  unfolding exec_exchange
  exec_exchange-Keeps w = search (part_Keeps, exchange-Keeps)

  pub operand-Keeps : (k : SrcSel) (w : CtrlWord) (wide : Width) → Keeps P (operand k w wide)
  unfolding operand
  operand-Keeps SrcSel.src_none w wide = search part_Keeps
  operand-Keeps SrcSel.src_reg w wide = search part_Keeps
  operand-Keeps SrcSel.src_imm w wide = search part_Keeps
  operand-Keeps SrcSel.src_ir w wide = search part_Keeps
  operand-Keeps SrcSel.src_da w wide = search part_Keeps
  operand-Keeps SrcSel.src_x w wide = search part_Keeps
  operand-Keeps SrcSel.src_one w wide = search part_Keeps
  operand-Keeps SrcSel.src_two w wide = search part_Keeps
  operand-Keeps SrcSel.src_nib3_cnt w wide = search part_Keeps
  operand-Keeps SrcSel.src_zero w wide = search part_Keeps
  operand-Keeps SrcSel.src_imm2 w wide = search part_Keeps
  operand-Keeps SrcSel.src_pc_rel w wide = search part_Keeps
  operand-Keeps SrcSel.src_based w wide = search part_Keeps
  operand-Keeps SrcSel.src_bx w wide = search part_Keeps
  operand-Keeps SrcSel.src_nib3_bit w wide = search part_Keeps
  operand-Keeps SrcSel.src_nib3_cnt_plus1 w wide = search part_Keeps
  operand-Keeps SrcSel.src_op_lo_byte w wide = search part_Keeps

  pub put_division-Keeps : (w : Width) (r : ℕ) (d : Division) → Keeps P (put_division w r d)
  unfolding put_division
  put_division-Keeps byte r (refused f) = search (part_Keeps, czsv-small)
  put_division-Keeps word r (refused f) = search (part_Keeps, czsv-small)
  put_division-Keeps long r (refused f) = search (part_Keeps, czsv-small)
  put_division-Keeps byte r undefined_quotient = s.lost
  put_division-Keeps word r undefined_quotient = s.lost
  put_division-Keeps long r undefined_quotient = s.lost
  put_division-Keeps byte r (stored f q m) = search (part_Keeps, czsv-small) depth 8
  put_division-Keeps word r (stored f q m) = search (part_Keeps, czsv-small) depth 8
  put_division-Keeps long r (stored f q m) = search (part_Keeps, czsv-small) depth 8

  pub exec_mul-Keeps : (w : CtrlWord) → Keeps P (exec_mul w)
  unfolding exec_mul
  exec_mul-Keeps w = search (part_Keeps, operand-Keeps, czsv-small) depth 12

  pub exec_div-Keeps : (w : CtrlWord) → Keeps P (exec_div w)
  unfolding exec_div
  exec_div-Keeps w = search (part_Keeps, operand-Keeps, put_division-Keeps) depth 12
