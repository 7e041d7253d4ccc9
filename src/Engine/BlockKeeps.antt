-- ===== src/Engine/BlockKeeps.antt =====
-- What LDM and the unprivileged block instructions of src/cpu.c keep.
use commodore_900_emulator.Base.{ℕ, zero, suc, ◌<◌, arith, Bool, true, false}
use commodore_900_emulator.Alu.{Width, f_z, f_pv}
use commodore_900_emulator.Alu.Masks.{alu_exec-mask}
use commodore_900_emulator.Cpu.{CtrlWord}
use commodore_900_emulator.Engine.State.{Machine, Run}
use commodore_900_emulator.Engine.System.{for_each, ldm_one, exec_ldm}
use commodore_900_emulator.Engine.Block.{
  count_down, repeat_if, element, put_element, translate_back, exec_translate, exec_block_transfer,
  compared, finish_compare, exec_block_compare, exec_block_string,
}
use commodore_900_emulator.Engine.Keeps.{Keeps, Stable}
use commodore_900_emulator.Engine.AccessKeeps.{stack_Keeps}

z-small : f_z < 256
z-small = omega arith

pv-small : f_pv < 256
pv-small = omega arith

zpv-small : 0x50 < 256
zpv-small = omega arith

module _ {P : Machine → Type 0} (s : Stable P) where
  pub for_each-Keeps : (n : ℕ) (f : ℕ → Run) → ((i : ℕ) → Keeps P (f i)) → Keeps P (for_each n f)
  unfolding for_each
  for_each-Keeps zero f h = search stack_Keeps
  for_each-Keeps (suc n) f h = let before = for_each-Keeps n f h in search stack_Keeps

  pub ldm_one-Keeps : (b : Bool) (a r i : ℕ) → Keeps P (ldm_one b a r i)
  unfolding ldm_one
  ldm_one-Keeps b a r i = search stack_Keeps depth 8

  pub exec_ldm-Keeps : (w : CtrlWord) → Keeps P (exec_ldm w)
  unfolding exec_ldm
  exec_ldm-Keeps w = search (stack_Keeps, for_each-Keeps, ldm_one-Keeps) depth 8

  pub count_down-Keeps : (r : ℕ) → Keeps P (count_down r)
  unfolding count_down
  count_down-Keeps r = search stack_Keeps depth 8

  pub repeat_if-Keeps : (b : Bool) → Keeps P (repeat_if b)
  unfolding repeat_if
  repeat_if-Keeps b = search stack_Keeps

  pub element-Keeps : (w : Width) (r : ℕ) → Keeps P (element w r)
  unfolding element
  element-Keeps w r = search stack_Keeps depth 8

  pub put_element-Keeps : (w : Width) (r v : ℕ) → Keeps P (put_element w r v)
  unfolding put_element
  put_element-Keeps w r v = search stack_Keeps depth 8

  pub compared-Keeps : (w : CtrlWord) (a b : ℕ) → Keeps P (compared w a b)
  unfolding compared
  compared-Keeps w a b = search (stack_Keeps, alu_exec-mask) depth 8

ruleset part_Keeps = (
  stack_Keeps, count_down-Keeps, repeat_if-Keeps, element-Keeps, put_element-Keeps, compared-Keeps,
  z-small, pv-small, zpv-small,
)

module _ {P : Machine → Type 0} (s : Stable P) where
  pub finish_compare-Keeps : (w : CtrlWord) (r : ℕ) (b : Bool) → Keeps P (finish_compare w r b)
  unfolding finish_compare
  finish_compare-Keeps w r b = search part_Keeps depth 8

  pub exec_block_compare-Keeps : (w : CtrlWord) → Keeps P (exec_block_compare w)
  unfolding exec_block_compare
  exec_block_compare-Keeps w = search (part_Keeps, finish_compare-Keeps) depth 15

  pub exec_block_string-Keeps : (w : CtrlWord) → Keeps P (exec_block_string w)
  unfolding exec_block_string
  exec_block_string-Keeps w = search (part_Keeps, finish_compare-Keeps) depth 15

  pub exec_block_transfer-Keeps : (w : CtrlWord) → Keeps P (exec_block_transfer w)
  unfolding exec_block_transfer
  exec_block_transfer-Keeps w = search part_Keeps depth 15

  pub translate_back-Keeps :
      (b rept : Bool) (dst cnt d v : ℕ) → Keeps P (translate_back b rept dst cnt d v)
  unfolding translate_back
  translate_back-Keeps true rept dst cnt d v = search part_Keeps depth 12
  translate_back-Keeps false rept dst cnt d v = search part_Keeps depth 12

  pub exec_translate-Keeps : (w : CtrlWord) → Keeps P (exec_translate w)
  unfolding exec_translate
  exec_translate-Keeps w = search (part_Keeps, translate_back-Keeps) depth 15
