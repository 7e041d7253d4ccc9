-- ===== src/Base/Words.antt =====
-- Casts to the fixed widths, shifts, masks and flag words, as C writes them.
use Prim.Native.Nat.{ℕ, ◌-◌, ◌*◌, ◌/◌, ◌%◌, ◌^◌, bit_and, bit_or}
use mathlib.Core.Bool.{Bool, not}
use commodore_900_emulator.Base.Tests.{◌==◌, if◌then◌else◌}

abbrev pub u8 : ℕ → ℕ
u8 n = n % 256

abbrev pub u16 : ℕ → ℕ
u16 n = n % 65536

-- Two words.
abbrev pub u32 : ℕ → ℕ
u32 n = n % 4294967296

abbrev pub u64 : ℕ → ℕ
u64 n = n % 18446744073709551616

-- `~x` in a word of `k` bits.
abbrev pub complement : ℕ → ℕ → ℕ
complement k x = 2 ^ k - 1 - x % 2 ^ k

-- `x << k` before any cast, and `x >> k` of an unsigned word.
abbrev pub shl : ℕ → ℕ → ℕ
shl x k = x * 2 ^ k

abbrev pub shr : ℕ → ℕ → ℕ
shr x k = x / 2 ^ k

-- `(x & m) != 0`
abbrev pub has : ℕ → ℕ → Bool
has x m = not (bit_and x m == 0)

-- `if (b) f |= m;`
abbrev pub or_if : Bool → ℕ → ℕ → ℕ
or_if b m f = if b then bit_or f m else f
