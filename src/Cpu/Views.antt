-- ===== src/Cpu/Views.antt =====
-- The word and long views of the register file: what a write of a register pair leaves in them.
use commodore_900_emulator.Base.{
  ℕ, ◌+◌, ◌*◌, ◌/◌, ◌<◌, ◌≡◌, refl, arith, bit_and, ◌==◌, if◌then◌else◌, u16, u32, shr,
  bit_or_fields, all_below, all_below_eq,
}
use commodore_900_emulator.Cpu.State.{Cpu}
use commodore_900_emulator.Cpu.Registers.{rw16, rl, wl}

pub pair_even : (r : ℕ) → r < 16 → bit_and r 0x0E ≡ r / 2 * 2
unfolding all_below
pair_even r lt = all_below_eq 16 (λ r. bit_and r 0x0E) (λ r. r / 2 * 2) refl r lt

same_word : (r : ℕ) → r < 16 → bit_and r 0x0F ≡ r
unfolding all_below
same_word r lt = all_below_eq 16 (λ r. bit_and r 0x0F) (λ r. r) refl r lt

-- A long that is written to a register pair is read back from it modulo 2 ^ 32, its high word stands
-- in the even register of the pair, its low word in the odd one, and the other registers are as they
-- were.
pub rl-wl :
    (c : Cpu) (r s v : ℕ)
    → r < 16
    → s < 16
    → (rl (wl c r v) r ≡ u32 v)
      × (rw16 (wl c r v) s ≡ (
          if r / 2 * 2 + 1 == s
          then u16 v
          else if r / 2 * 2 == s
          then u16 (shr v 16)
          else c.regs s))
unfolding rl wl rw16
rl-wl c r s v rlt slt =
    rw (pair_even r rlt, same_word s slt)
      (ground (arith, bit_or_fields 16 (u16 (shr v 16)) (u16 v) (omega arith)), refl)
