-- ===== src/Cpu/Registers.antt =====
-- The register file of src/cpu.c: byte, word, long and quad views of sixteen words.
use commodore_900_emulator.Base.{
  ℕ, ◌+◌, ◌-◌, bit_and, bit_or, ltb, if◌then◌else◌, u8, u16, shl, shr, update,
}
use commodore_900_emulator.Cpu.State.{Cpu}

unfoldable pub rb : Cpu → ℕ → ℕ
rb c r = if ltb r 8 then u8 (shr (c.regs r) 8) else u8 (c.regs (r - 8))

unfoldable pub wb : Cpu → ℕ → ℕ → Cpu
wb c r v =
    if ltb r 8
    then record c { regs = update c.regs r (bit_or (u16 (shl v 8)) (bit_and (c.regs r) 0x00FF)) }
    else record c { regs = update c.regs (r - 8) (bit_or (bit_and (c.regs (r - 8)) 0xFF00) v) }

unfoldable pub rw16 : Cpu → ℕ → ℕ
rw16 c r = c.regs (bit_and r 0x0F)

unfoldable pub ww16 : Cpu → ℕ → ℕ → Cpu
ww16 c r v = record c { regs = update c.regs (bit_and r 0x0F) v }

unfoldable pub rl : Cpu → ℕ → ℕ
rl c r = let r' = bit_and r 0x0E in bit_or (shl (c.regs r') 16) (c.regs (r' + 1))

unfoldable pub wl : Cpu → ℕ → ℕ → Cpu
wl c r v =
    let r' = bit_and r 0x0E in
    record c { regs = update (update c.regs r' (u16 (shr v 16))) (r' + 1) (u16 v) }

unfoldable pub rq : Cpu → ℕ → ℕ
rq c r =
    let r' = bit_and r 0x0C in
    bit_or
      (bit_or (bit_or (shl (c.regs r') 48) (shl (c.regs (r' + 1)) 32)) (shl (c.regs (r' + 2)) 16))
      (c.regs (r' + 3))

unfoldable pub wq : Cpu → ℕ → ℕ → Cpu
wq c r v =
    let r' = bit_and r 0x0C in
    record c {
      regs =
          update
            (update (update (update c.regs r' (u16 (shr v 48))) (r' + 1) (u16 (shr v 32))) (r' + 2)
              (u16 (shr v 16)))
            (r' + 3) (u16 v);
    }
