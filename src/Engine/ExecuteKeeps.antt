-- ===== src/Engine/ExecuteKeeps.antt =====
-- What `execute` of src/cpu.c keeps: the invariant has to stand the actions of `Stable` and the
-- privileged instructions.
use commodore_900_emulator.Base.{ℕ, ◌<◌, arith}
use commodore_900_emulator.Alu.{AluOp, Width, byte, word, long, f_z}
use commodore_900_emulator.Alu.Masks.{alu_exec-mask}
use commodore_900_emulator.Cpu.{CtrlWord, InstrClass}
use commodore_900_emulator.Engine.State.{Machine, privileged}
use commodore_900_emulator.Engine.System.{exec_io, exec_ldctl, exec_ldps, exec_iret}
use commodore_900_emulator.Engine.Block.{exec_block_io}
use commodore_900_emulator.Engine.Execute.{
  exec_fcw_op, extend, exec_exts, change_reg, exec_tcc, exec_dab, exec_lea, exec_bcd_rotate, bit_op,
  exec_bit_dynamic, multi_micro, stop, execute_class, execute,
}
use commodore_900_emulator.Engine.Keeps.{Keeps, Stable}
use commodore_900_emulator.Engine.AccessKeeps.{stack_Keeps}
use commodore_900_emulator.Engine.HandlerKeeps.{
  exec_unified-Keeps, exec_branch-Keeps, exec_stack-Keeps, exec_exchange-Keeps, exec_mul-Keeps,
  exec_div-Keeps,
}
use commodore_900_emulator.Engine.BlockKeeps.{
  exec_ldm-Keeps, exec_translate-Keeps, exec_block_transfer-Keeps, exec_block_compare-Keeps,
  exec_block_string-Keeps,
}

z-small : f_z < 256
z-small = omega arith

module _ {P : Machine → Type 0} (s : Stable P) where
  extend-Keeps : (w : Width) (r : ℕ) → Keeps P (extend w r)
  unfolding extend
  extend-Keeps byte r = search stack_Keeps
  extend-Keeps word r = search stack_Keeps
  extend-Keeps long r = search stack_Keeps

  change_reg-Keeps : (w : Width) (r : ℕ) (f : ℕ → ℕ) → Keeps P (change_reg w r f)
  unfolding change_reg
  change_reg-Keeps byte r f = search stack_Keeps
  change_reg-Keeps word r f = search stack_Keeps
  change_reg-Keeps long r f = search stack_Keeps

  exec_tcc-Keeps : (w : CtrlWord) → Keeps P (exec_tcc w)
  unfolding exec_tcc
  exec_tcc-Keeps w = search (stack_Keeps, change_reg-Keeps) depth 8

  exec_dab-Keeps : Keeps P exec_dab
  unfolding exec_dab
  exec_dab-Keeps = search (stack_Keeps, alu_exec-mask) depth 10

  exec_bcd_rotate-Keeps : (w : CtrlWord) → Keeps P (exec_bcd_rotate w)
  unfolding exec_bcd_rotate
  exec_bcd_rotate-Keeps w = search (stack_Keeps, z-small) depth 10

  bit_op-Keeps : (op : AluOp) (w : Width) (r m : ℕ) → Keeps P (bit_op op w r m)
  unfolding bit_op
  bit_op-Keeps AluOp.add w r m = search stack_Keeps
  bit_op-Keeps AluOp.adc w r m = search stack_Keeps
  bit_op-Keeps AluOp.sub w r m = search stack_Keeps
  bit_op-Keeps AluOp.sbc w r m = search stack_Keeps
  bit_op-Keeps AluOp.and w r m = search stack_Keeps
  bit_op-Keeps AluOp.or w r m = search stack_Keeps
  bit_op-Keeps AluOp.xor w r m = search stack_Keeps
  bit_op-Keeps AluOp.com1 w r m = search stack_Keeps
  bit_op-Keeps AluOp.neg w r m = search stack_Keeps
  bit_op-Keeps AluOp.test w r m = search stack_Keeps
  bit_op-Keeps AluOp.cp w r m = search stack_Keeps
  bit_op-Keeps AluOp.inc w r m = search stack_Keeps
  bit_op-Keeps AluOp.dec w r m = search stack_Keeps
  bit_op-Keeps AluOp.sla w r m = search stack_Keeps
  bit_op-Keeps AluOp.sra w r m = search stack_Keeps
  bit_op-Keeps AluOp.sll w r m = search stack_Keeps
  bit_op-Keeps AluOp.srl w r m = search stack_Keeps
  bit_op-Keeps AluOp.rl w r m = search stack_Keeps
  bit_op-Keeps AluOp.rr w r m = search stack_Keeps
  bit_op-Keeps AluOp.rlc w r m = search stack_Keeps
  bit_op-Keeps AluOp.rrc w r m = search stack_Keeps
  bit_op-Keeps AluOp.dab w r m = search stack_Keeps
  bit_op-Keeps AluOp.exts w r m = search stack_Keeps
  bit_op-Keeps AluOp.ld w r m = search stack_Keeps
  bit_op-Keeps AluOp.bit byte r m = search (stack_Keeps, z-small)
  bit_op-Keeps AluOp.bit word r m = search (stack_Keeps, z-small)
  bit_op-Keeps AluOp.bit long r m = search (stack_Keeps, z-small)
  bit_op-Keeps AluOp.set w r m = search change_reg-Keeps
  bit_op-Keeps AluOp.res w r m = search change_reg-Keeps
  bit_op-Keeps AluOp.tset w r m = search stack_Keeps

  exec_bit_dynamic-Keeps : (w : CtrlWord) → Keeps P (exec_bit_dynamic w)
  unfolding exec_bit_dynamic
  exec_bit_dynamic-Keeps w = search (stack_Keeps, bit_op-Keeps) depth 8

  exec_exts-Keeps : (w : CtrlWord) → Keeps P (exec_exts w)
  unfolding exec_exts
  exec_exts-Keeps w = search (stack_Keeps, extend-Keeps) depth 8

  exec_lea-Keeps : (w : CtrlWord) → Keeps P (exec_lea w)
  unfolding exec_lea
  exec_lea-Keeps w = search stack_Keeps depth 8

-- The privileged instructions, and a word that changes flags.
pub record Guarded (P : Machine → Type 0) (w : CtrlWord) : Type 0 where
  pub fcw_op : Keeps P (exec_fcw_op w)
  pub io : Keeps P (exec_io w)
  pub ldctl : Keeps P exec_ldctl
  pub block_io : Keeps P (exec_block_io w)
  pub multi_proc : Keeps P (privileged (multi_micro w.mp_op))
  pub ldps : Keeps P (exec_ldps w)
  pub halt : Keeps P (privileged stop)
  pub iret : Keeps P exec_iret

module _ {P : Machine → Type 0} (s : Stable P) (w : CtrlWord) (g : Guarded P w) where
  execute_class-Keeps : (k : InstrClass) → Keeps P (execute_class k w)
  unfolding execute_class
  execute_class-Keeps InstrClass.unified = exec_unified-Keeps s w
  execute_class-Keeps InstrClass.fcw_op = g.fcw_op
  execute_class-Keeps InstrClass.exts = exec_exts-Keeps s w
  execute_class-Keeps InstrClass.stack = exec_stack-Keeps s w
  execute_class-Keeps InstrClass.branch = exec_branch-Keeps s w
  execute_class-Keeps InstrClass.tcc = exec_tcc-Keeps s w
  execute_class-Keeps InstrClass.dab = exec_dab-Keeps s
  execute_class-Keeps InstrClass.exchange = exec_exchange-Keeps s w
  execute_class-Keeps InstrClass.lea = exec_lea-Keeps s w
  execute_class-Keeps InstrClass.bcd_rotate = exec_bcd_rotate-Keeps s w
  execute_class-Keeps InstrClass.bit_dynamic = exec_bit_dynamic-Keeps s w
  execute_class-Keeps InstrClass.io = g.io
  execute_class-Keeps InstrClass.ldctl = g.ldctl
  execute_class-Keeps InstrClass.shift = s.shifted w
  execute_class-Keeps InstrClass.block_transfer = exec_block_transfer-Keeps s w
  execute_class-Keeps InstrClass.block_compare = exec_block_compare-Keeps s w
  execute_class-Keeps InstrClass.block_string = exec_block_string-Keeps s w
  execute_class-Keeps InstrClass.block_io = g.block_io
  execute_class-Keeps InstrClass.ldm = exec_ldm-Keeps s w
  execute_class-Keeps InstrClass.multi_proc = g.multi_proc
  execute_class-Keeps InstrClass.mul = exec_mul-Keeps s w
  execute_class-Keeps InstrClass.div = exec_div-Keeps s w
  execute_class-Keeps InstrClass.ldps = g.ldps
  execute_class-Keeps InstrClass.halt = g.halt
  execute_class-Keeps InstrClass.sys_call = s.requested 0x02
  execute_class-Keeps InstrClass.iret = g.iret
  execute_class-Keeps InstrClass.translate = exec_translate-Keeps s w

  pub execute-Keeps : Keeps P (execute w)
  unfolding execute
  execute-Keeps = execute_class-Keeps w.exec
