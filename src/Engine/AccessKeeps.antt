-- ===== src/Engine/AccessKeeps.antt =====
-- What the memory accesses and the stack of src/cpu.c keep.
use commodore_900_emulator.Base.{ℕ}
use commodore_900_emulator.Alu.{Width, byte, word, long}
use commodore_900_emulator.Engine.State.{Machine}
use commodore_900_emulator.Engine.Access.{
  ifetch16, mem_r16, mem_r8, mem_w16, mem_w8, mem_read_w, mem_write_w, predecrement, postincrement,
  push_word, pop_word,
}
use commodore_900_emulator.Engine.Keeps.{Keeps, Stable, Keeps_rules}

module _ {P : Machine → Type 0} (s : Stable P) where
  pub ifetch16-Keeps : (a : ℕ) → Keeps P (ifetch16 a)
  unfolding ifetch16
  ifetch16-Keeps a = search Keeps_rules

  pub mem_r16-Keeps : (a : ℕ) → Keeps P (mem_r16 a)
  unfolding mem_r16
  mem_r16-Keeps a = search Keeps_rules

  pub mem_r8-Keeps : (a : ℕ) → Keeps P (mem_r8 a)
  unfolding mem_r8
  mem_r8-Keeps a = search Keeps_rules

  pub mem_w16-Keeps : (a v : ℕ) → Keeps P (mem_w16 a v)
  unfolding mem_w16
  mem_w16-Keeps a v = search Keeps_rules

  pub mem_w8-Keeps : (a v : ℕ) → Keeps P (mem_w8 a v)
  unfolding mem_w8
  mem_w8-Keeps a v = search Keeps_rules

pub ruleset bus_Keeps =
    (Keeps_rules, ifetch16-Keeps, mem_r16-Keeps, mem_r8-Keeps, mem_w16-Keeps, mem_w8-Keeps)

module _ {P : Machine → Type 0} (s : Stable P) where
  pub mem_read_w-Keeps : (a : ℕ) (w : Width) → Keeps P (mem_read_w a w)
  unfolding mem_read_w
  mem_read_w-Keeps a byte = search bus_Keeps
  mem_read_w-Keeps a long = search bus_Keeps
  mem_read_w-Keeps a word = search bus_Keeps

  pub mem_write_w-Keeps : (a v : ℕ) (w : Width) → Keeps P (mem_write_w a v w)
  unfolding mem_write_w
  mem_write_w-Keeps a v byte = search bus_Keeps
  mem_write_w-Keeps a v long = search bus_Keeps
  mem_write_w-Keeps a v word = search bus_Keeps

  pub predecrement-Keeps : (r n : ℕ) → Keeps P (predecrement r n)
  unfolding predecrement
  predecrement-Keeps r n = search bus_Keeps depth 8

  pub postincrement-Keeps : (r n : ℕ) → Keeps P (postincrement r n)
  unfolding postincrement
  postincrement-Keeps r n = search bus_Keeps depth 8

  pub push_word-Keeps : (v : ℕ) → Keeps P (push_word v)
  unfolding push_word
  push_word-Keeps v = search bus_Keeps depth 12

  pub pop_word-Keeps : Keeps P pop_word
  unfolding pop_word
  pop_word-Keeps = search bus_Keeps depth 12

pub ruleset stack_Keeps = (
  bus_Keeps, mem_read_w-Keeps, mem_write_w-Keeps, predecrement-Keeps, postincrement-Keeps,
  push_word-Keeps, pop_word-Keeps,
)
