-- ===== src/Cpu/Flags.antt =====
-- `apply_flags` and `cond_true` of src/cpu.c.
use commodore_900_emulator.Base.{
  ℕ, Bool, true, false, not, ◌&&◌, ◌||◌, bne, bit_and, bit_or, has, ◌==◌, if◌then◌else◌, complement,
}
use commodore_900_emulator.Alu.{f_c, f_z, f_s, f_pv, AluResult}
use commodore_900_emulator.Cpu.State.{Cpu}

unfoldable pub merge_flags : ℕ → AluResult → ℕ
merge_flags fcw r = bit_or (bit_and fcw (complement 32 r.mask)) (bit_and r.flags r.mask)

unfoldable pub apply_flags : Cpu → AluResult → Cpu
unfolding merge_flags
apply_flags c r = record c { fcw = merge_flags c.fcw r }

-- The sixteen condition codes over the four flags that they read.
unfoldable pub cond_code : ℕ → Bool → Bool → Bool → Bool → Bool
cond_code cc c z s v =
    if cc == 0x0
    then false
    else if cc == 0x1
    then bne s v
    else if cc == 0x2
    then bne s v || z
    else if cc == 0x3
    then c || z
    else if cc == 0x4
    then v
    else if cc == 0x5
    then s
    else if cc == 0x6
    then z
    else if cc == 0x7
    then c
    else if cc == 0x8
    then true
    else if cc == 0x9
    then not (bne s v)
    else if cc == 0xA
    then not (bne s v) && not z
    else if cc == 0xB
    then not c && not z
    else if cc == 0xC
    then not v
    else if cc == 0xD
    then not s
    else if cc == 0xE
    then not z
    else not c

unfoldable pub cond_true : Cpu → ℕ → Bool
unfolding cond_code
cond_true c cc =
    cond_code (bit_and cc 0x0F) (has c.fcw f_c) (has c.fcw f_z) (has c.fcw f_s) (has c.fcw f_pv)
