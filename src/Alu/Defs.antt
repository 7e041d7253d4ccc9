-- ===== src/Alu/Defs.antt =====
-- The types and flag bits of src/emu.h that the ALU uses, and the flag helpers of src/alu.c.
use commodore_900_emulator.Base.{
  ℕ, zero, suc, ◌+◌, ◌-◌, bit_and, ◌==◌, if◌then◌else◌, u8, u16, u32, shl, shr, has, or_if,
}

-- The flag bits of the FCW.
abbrev pub f_c : ℕ
f_c = 0x80

abbrev pub f_z : ℕ
f_z = 0x40

abbrev pub f_s : ℕ
f_s = 0x20

abbrev pub f_pv : ℕ
f_pv = 0x10

abbrev pub f_da : ℕ
f_da = 0x08

abbrev pub f_h : ℕ
f_h = 0x04

-- `com1` is OpCom, the one's complement.
pub data AluOp : Type 0 where
  add adc sub sbc and or xor com1 neg test cp inc dec sla sra sll srl rl rr : AluOp
  rlc rrc dab exts ld bit set res tset : AluOp

pub data Width : Type 0 where
  byte word long : Width

pub record AluResult : Type 0 where
  pub value : ℕ
  pub flags : ℕ
  pub mask : ℕ

-- `while (v) { n += v & 1; v >>= 1; }`, on fuel.
unfoldable pub popcount_loop : ℕ → ℕ → ℕ → ℕ
popcount_loop zero v n = n
popcount_loop (suc fuel) v n =
    let rest = popcount_loop fuel (shr v 1) (n + bit_and v 1) in if v == 0 then n else rest

-- A byte has eight bits, so that eight rounds are enough.
unfoldable pub popcount8 : ℕ → ℕ
unfolding popcount_loop
popcount8 v = popcount_loop 8 v 0

unfoldable pub lflags_byte : ℕ → ℕ
unfolding popcount8
lflags_byte v =
    or_if (bit_and (popcount8 v) 1 == 0) f_pv (or_if (has v 0x80) f_s (or_if (v == 0) f_z 0))

unfoldable pub lflags_word : ℕ → ℕ
unfolding popcount8
lflags_word v =
    or_if (bit_and (popcount8 (u8 v)) 1 == 0) f_pv (or_if (has v 0x8000) f_s (or_if (v == 0) f_z 0))

unfoldable pub lflags_long : ℕ → ℕ
lflags_long v = or_if (has v 0x80000000) f_s (or_if (v == 0) f_z 0)

abbrev pub nbits_of : Width → ℕ
nbits_of byte = 8
nbits_of word = 16
nbits_of long = 32

-- `(1ull << nb) - 1`; the operand widths stay below 64.
abbrev pub width_mask : Width → ℕ
width_mask w = shl 1 (nbits_of w) - 1

-- A cast to the operand width: `uint8_t`, `uint16_t` or `uint32_t`.
abbrev pub cast : Width → ℕ → ℕ
cast byte v = u8 v
cast word v = u16 v
cast long v = u32 v

abbrev lflags : Width → ℕ → ℕ
lflags byte v = lflags_byte (u8 v)
lflags word v = lflags_word (u16 v)
lflags long v = lflags_long (u32 v)

unfoldable pub logic : ℕ → Width → ℕ → AluResult
logic v w m = record { value = v; flags = lflags w v; mask = m }
