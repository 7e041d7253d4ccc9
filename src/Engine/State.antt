-- ===== src/Engine/State.antt =====
-- The machine that the processor of src/cpu.c works on, and actions on it.
use commodore_900_emulator.Base.{
  ℕ, ◌+◌, Bool, true, bit_and, bit_or, if◌then◌else◌, u8, u16, complement,
}
use commodore_900_emulator.Alu.{AluResult}
use commodore_900_emulator.Cpu.{
  Cpu, ww16, rw16, wb, wl, wq, is_seg, sys_mode, addr_to_reg, apply_flags, change_fcw, irq_trap,
}
use commodore_900_emulator.Bus.{Board}
use commodore_900_emulator.Bus.Memory.{Memory}

-- `Disk` of src/emu.h. The image file behind `fp` is `size` bytes, `bytes k` the one at offset `k`.
pub record Disk : Type 0 where
  pub bytes : ℕ → ℕ
  pub size : ℕ
  pub sectors : ℕ
  pub present : Bool

-- The parts of `Machine` of src/emu.h that an instruction can reach. `undefined` is no part of it: it is
-- set once the C code has done what C leaves undefined, and the other fields mean nothing from then on.
pub record Machine : Type 0 where
  pub cpu : Cpu
  pub board : Board
  pub memory : Memory
  pub disk : Disk
  pub floppy : Disk
  pub hdc_cmdblk : ℕ
  pub disk_vi : Bool
  pub undefined : Bool

-- A piece of C code: what it returns, and the machine that it leaves.
abbrev pub Exec : Type 0 → Type 0
Exec A = Machine → A × Machine

abbrev pub Run : Type 0
Run = Exec (Unit {0})

unfoldable pub pure : {A : Type 0} → A → Exec A
pure a m = (a, m)

infixl 5 ◌>>=◌ ◌>>◌
unfoldable pub ◌>>=◌ : {A B : Type 0} → Exec A → (A → Exec B) → Exec B
◌>>=◌ x f m = let (a, m') = x m in f a m'

abbrev pub ◌>>◌ : {B : Type 0} → Run → Exec B → Exec B
x >> y = x >>= λ _. y

abbrev pub skip : Run
skip = pure tt

-- A read of the processor, and a change of it.
unfoldable pub get_cpu : {A : Type 0} → (Cpu → A) → Exec A
get_cpu f m = (f m.cpu, m)

abbrev pub change_cpu : (Cpu → Cpu) → Run
change_cpu f m = (tt, record m { cpu = f m.cpu })

-- `ww(c, r, v)`, `wb`, `wl` and `wq`: the value is cast to the width.
unfoldable pub put_word : ℕ → ℕ → Run
unfolding ww16
put_word r v = change_cpu (λ c. ww16 c r (u16 v))

unfoldable pub put_byte : ℕ → ℕ → Run
unfolding wb
put_byte r v = change_cpu (λ c. wb c r (u8 v))

unfoldable pub put_long : ℕ → ℕ → Run
unfolding wl
put_long r v = change_cpu (λ c. wl c r v)

unfoldable pub put_quad : ℕ → ℕ → Run
unfolding wq
put_quad r v = change_cpu (λ c. wq c r v)

unfoldable pub put_addr : ℕ → ℕ → Run
unfolding addr_to_reg
put_addr r a = change_cpu (λ c. addr_to_reg c r a)

unfoldable pub put_pc : ℕ → Run
put_pc a = change_cpu (λ c. record c { pc = a })

unfoldable pub put_flags : AluResult → Run
unfolding apply_flags
put_flags r = change_cpu (λ c. apply_flags c r)

-- `if (b) c->fcw |= bits; else c->fcw &= ~bits;`
unfoldable pub flag_if : ℕ → Bool → Run
flag_if bits b =
    change_cpu
      (λ c. record c { fcw = if b then bit_or c.fcw bits else bit_and c.fcw (complement 32 bits) })

-- `c->irq_req |= bit`, `c->repeat_pending = true` and `c->fault = true`
unfoldable pub request : ℕ → Run
request bit = change_cpu (λ c. record c { irq_req = bit_or c.irq_req bit })

unfoldable pub repeat : Run
repeat = change_cpu (λ c. record c { repeat_pending = true })

unfoldable pub raise_fault : Run
raise_fault = change_cpu (λ c. record c { fault = true })

-- The C code does what C leaves undefined.
unfoldable pub lose : Run
lose m = (tt, record m { undefined = true })

unfoldable pub install_fcw : ℕ → Run
unfolding change_fcw
install_fcw nf = change_cpu (λ c. change_fcw c (u16 nf))

-- `add_to_addr_reg`, for a delta that is a word in two's complement.
unfoldable pub add_to_addr_reg : ℕ → ℕ → Run
unfolding ww16 rw16
add_to_addr_reg r d =
    change_cpu (λ c. let o = if is_seg c then bit_or r 1 else r in ww16 c o (u16 (rw16 c o + d)))

-- `if (!check_priv(c)) return;` before `x`.
unfoldable pub privileged : Run → Run
privileged x m =
    if sys_mode m.cpu
    then x m
    else (tt, record m { cpu = record m.cpu { irq_req = bit_or m.cpu.irq_req irq_trap } })
