-- ===== src/Engine/Keeps.antt =====
-- Invariants of actions: a rule for each way to build an action of src/cpu.c, and the actions that an
-- invariant has to stand by itself.
use commodore_900_emulator.Base.{ℕ, ◌<◌, Bool, true, false, if◌then◌else◌}
use commodore_900_emulator.Alu.{AluResult}
use commodore_900_emulator.Cpu.{Cpu, CtrlWord, ureg_write, exec_shift}
use commodore_900_emulator.Engine.State.{
  Machine, Exec, pure, ◌>>=◌, get_cpu, change_cpu, put_word, put_byte, put_long, put_quad, put_addr,
  put_pc, put_flags, flag_if, request, repeat, add_to_addr_reg, lose,
}
use commodore_900_emulator.Engine.Access.{translate, load8, load16, store8, store16}

-- `x` leaves `P` as it found it.
pub record Keeps {A : Type 0} (P : Machine → Type 0) (x : Exec A) : Type 0 where
  pub at : (m : Machine) → P m → P (x m).1

module _ {A : Type 0} {P : Machine → Type 0} where
  pub pure-Keeps : (a : A) → Keeps P (pure a)
  unfolding pure
  pure-Keeps a = record { at = λ m h. h }

  pub get_cpu-Keeps : (f : Cpu → A) → Keeps P (get_cpu f)
  unfolding get_cpu
  get_cpu-Keeps f = record { at = λ m h. h }

  pub if-Keeps : (b : Bool) (x y : Exec A) → Keeps P x → Keeps P y → Keeps P (if b then x else y)
  if-Keeps true x y h k = h
  if-Keeps false x y h k = k

module _ {A B : Type 0} {P : Machine → Type 0} where
  pub bind-Keeps :
      (x : Exec A) (f : A → Exec B) → Keeps P x → ((a : A) → Keeps P (f a)) → Keeps P (x >>= f)
  unfolding ◌>>=◌
  bind-Keeps x f h k = record { at = λ m p. let (a, m') = x m in (k a).at m' (h.at m p) }

-- The actions that an instruction of either mode is built from.
pub record Stable (P : Machine → Type 0) : Type 0 where
  pub word : (r v : ℕ) → Keeps P (put_word r v)
  pub byte : (r v : ℕ) → Keeps P (put_byte r v)
  pub long : (r v : ℕ) → Keeps P (put_long r v)
  pub quad : (r v : ℕ) → Keeps P (put_quad r v)
  pub addr : (r a : ℕ) → Keeps P (put_addr r a)
  pub pointer : (r d : ℕ) → Keeps P (add_to_addr_reg r d)
  pub register :
      (w : CtrlWord) (v : ℕ) → Keeps P (change_cpu (λ c. ureg_write c w.dst_nib v w.width))
  pub pc : (a : ℕ) → Keeps P (put_pc a)
  pub flags : (r : AluResult) → r.mask < 256 → Keeps P (put_flags r)
  pub flag : (f : ℕ) (b : Bool) → f < 256 → Keeps P (flag_if f b)
  pub requested : (bit : ℕ) → Keeps P (request bit)
  pub repeated : Keeps P repeat
  pub lost : Keeps P lose
  pub shifted : (w : CtrlWord) → Keeps P (change_cpu (λ c. exec_shift c w))
  pub translated : (a : ℕ) (is_write is_fetch : Bool) → Keeps P (translate a is_write is_fetch)
  pub loaded8 : (p : ℕ) → Keeps P (load8 p)
  pub loaded16 : (p : ℕ) → Keeps P (load16 p)
  pub stored8 : (p v : ℕ) → Keeps P (store8 p v)
  pub stored16 : (p v : ℕ) → Keeps P (store16 p v)

module _ {P : Machine → Type 0} (s : Stable P) where
  pub put_word-Keeps : (r v : ℕ) → Keeps P (put_word r v)
  put_word-Keeps = s.word

  pub put_byte-Keeps : (r v : ℕ) → Keeps P (put_byte r v)
  put_byte-Keeps = s.byte

  pub put_long-Keeps : (r v : ℕ) → Keeps P (put_long r v)
  put_long-Keeps = s.long

  pub put_quad-Keeps : (r v : ℕ) → Keeps P (put_quad r v)
  put_quad-Keeps = s.quad

  pub put_addr-Keeps : (r a : ℕ) → Keeps P (put_addr r a)
  put_addr-Keeps = s.addr

  pub add_to_addr_reg-Keeps : (r d : ℕ) → Keeps P (add_to_addr_reg r d)
  add_to_addr_reg-Keeps = s.pointer

  pub put_pc-Keeps : (a : ℕ) → Keeps P (put_pc a)
  put_pc-Keeps = s.pc

  pub put_flags-Keeps : (r : AluResult) → r.mask < 256 → Keeps P (put_flags r)
  put_flags-Keeps = s.flags

  pub flag_if-Keeps : (f : ℕ) (b : Bool) → f < 256 → Keeps P (flag_if f b)
  flag_if-Keeps = s.flag

  pub request-Keeps : (bit : ℕ) → Keeps P (request bit)
  request-Keeps = s.requested

  pub repeat-Keeps : Keeps P repeat
  repeat-Keeps = s.repeated

  pub lose-Keeps : Keeps P lose
  lose-Keeps = s.lost

  pub translate-Keeps : (a : ℕ) (is_write is_fetch : Bool) → Keeps P (translate a is_write is_fetch)
  translate-Keeps = s.translated

  pub load8-Keeps : (p : ℕ) → Keeps P (load8 p)
  load8-Keeps = s.loaded8

  pub load16-Keeps : (p : ℕ) → Keeps P (load16 p)
  load16-Keeps = s.loaded16

  pub store8-Keeps : (p v : ℕ) → Keeps P (store8 p v)
  store8-Keeps = s.stored8

  pub store16-Keeps : (p v : ℕ) → Keeps P (store16 p v)
  store16-Keeps = s.stored16

pub ruleset Keeps_rules = (
  pure-Keeps, get_cpu-Keeps, if-Keeps, bind-Keeps, put_word-Keeps, put_byte-Keeps, put_long-Keeps,
  put_quad-Keeps, put_addr-Keeps, add_to_addr_reg-Keeps, put_pc-Keeps, put_flags-Keeps,
  flag_if-Keeps, request-Keeps, repeat-Keeps, lose-Keeps, translate-Keeps, load8-Keeps,
  load16-Keeps, store8-Keeps, store16-Keeps,
)
