-- ===== src/Cpu/Merge.antt =====
-- `apply_flags` changes the flags of the mask and no other bit of the FCW.
use commodore_900_emulator.Base.{
  ℕ, ◌^◌, ◌<◌, ◌≡◌, arith, Bool, true, false, not, ◌&&◌, ◌||◌, has, complement, bit_and, has-or,
  has-and, has-complement, if◌then◌else◌,
}
use commodore_900_emulator.Alu.{AluResult}
use commodore_900_emulator.Cpu.State.{Cpu}
use commodore_900_emulator.Cpu.Flags.{apply_flags}

choose : (f m g : Bool) → ((f && not m) || (g && m)) ≡ (if m then g else f)
choose f true g = ground arith
choose f false g = ground arith

-- Every bit `k` of the FCW after `apply_flags` is the ALU's flag where the mask holds the bit, and the
-- old bit where it does not, for any mask of 32 bits.
pub apply_flags-bit :
    (c : Cpu) (r : AluResult) (k : ℕ)
    → r.mask < 2 ^ 32
    → k < 32
    → has (apply_flags c r).fcw (2 ^ k)
      ≡ (if has r.mask (2 ^ k) then has r.flags (2 ^ k) else has c.fcw (2 ^ k))
unfolding apply_flags
apply_flags-bit c r k small lt =
    rw
      (
        has-or k (bit_and c.fcw (complement 32 r.mask)) (bit_and r.flags r.mask),
        has-and k c.fcw (complement 32 r.mask),
        has-and k r.flags r.mask,
        has-complement k 32 r.mask small lt,
      )
      (choose (has c.fcw (2 ^ k)) (has r.mask (2 ^ k)) (has r.flags (2 ^ k)))
