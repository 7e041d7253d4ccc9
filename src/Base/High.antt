-- ===== src/Base/High.antt =====
-- The bits of a word from some place up, under the bit operations.
use native.Mathlib.Nat.{mod-eq_of_lt}
use commodore_900_emulator.Base.Bits.{bit_or-zero, bit_and-zero, bit_and_mask, div-two-pow-suc}
use commodore_900_emulator.Base.Step.{bit_and_step, bit_or_step, bit_xor_step}
use commodore_900_emulator.Base.Words.{complement}
use Prim.Native.Nat.{ℕ, zero, suc, ◌-◌, ◌/◌, ◌%◌, ◌^◌, ◌≤◌, ◌<◌, bit_and, bit_or, bit_xor, differ}
use mathlib.Core.Path.{◌≡◌, refl, ap, ◌∙◌}
use native.Mathlib.Omega.{arith}

div_one : (x : ℕ) → x / 1 ≡ x
div_one x = omega arith

differ_digit : (x y : ℕ) → x < 2 → y < 2 → differ x y < 2
differ_digit zero zero p q = omega arith
differ_digit zero (suc zero) p q = omega arith
differ_digit (suc zero) zero p q = omega arith
differ_digit (suc zero) (suc zero) p q = omega arith
differ_digit zero (suc (suc y)) p q = absurd (omega arith)
differ_digit (suc zero) (suc (suc y)) p q = absurd (omega arith)
differ_digit (suc (suc x)) y p q = absurd (omega arith)

differ_zero : (x : ℕ) → x < 2 → differ x 0 ≡ x
differ_zero zero p = refl
differ_zero (suc zero) p = refl
differ_zero (suc (suc x)) p = absurd (omega arith)

-- A word beside a zero under `^`.
bit_xor-zero_fuel : (n x : ℕ) → x ≤ n → bit_xor x 0 ≡ x
bit_xor-zero_fuel zero zero h = refl
bit_xor-zero_fuel zero (suc x) h = absurd (omega arith)
bit_xor-zero_fuel (suc n) zero h = refl
bit_xor-zero_fuel (suc n) (suc x) h = omega (
  arith,
  bit_xor_step (suc x) 0,
  bit_xor-zero_fuel n (suc x / 2) (omega arith),
  differ_zero (suc x % 2) (omega arith),
)

bit_or_high_digits : (k a b : ℕ) → bit_or a b / 2 ^ k ≡ bit_or (a / 2 ^ k) (b / 2 ^ k)
bit_or_high_digits zero a b = rw (div_one a, div_one b, div_one (bit_or a b)) refl
bit_or_high_digits (suc k) a b =
    let half : bit_or a b / 2 ≡ bit_or (a / 2) (b / 2) = omega (arith, bit_or_step a b) in
    rw (← div-two-pow-suc k (bit_or a b), ← div-two-pow-suc k a, ← div-two-pow-suc k b, half)
      (bit_or_high_digits k (a / 2) (b / 2))

bit_and_high_digits : (k a b : ℕ) → bit_and a b / 2 ^ k ≡ bit_and (a / 2 ^ k) (b / 2 ^ k)
bit_and_high_digits zero a b = rw (div_one a, div_one b, div_one (bit_and a b)) refl
bit_and_high_digits (suc k) a b =
    let half : bit_and a b / 2 ≡ bit_and (a / 2) (b / 2) = omega (arith, bit_and_step a b) in
    rw (← div-two-pow-suc k (bit_and a b), ← div-two-pow-suc k a, ← div-two-pow-suc k b, half)
      (bit_and_high_digits k (a / 2) (b / 2))

bit_xor_high_digits : (k a b : ℕ) → bit_xor a b / 2 ^ k ≡ bit_xor (a / 2 ^ k) (b / 2 ^ k)
bit_xor_high_digits zero a b = rw (div_one a, div_one b, div_one (bit_xor a b)) refl
bit_xor_high_digits (suc k) a b =
    let half : bit_xor a b / 2 ≡ bit_xor (a / 2) (b / 2) =
      omega (arith, bit_xor_step a b, differ_digit (a % 2) (b % 2) (omega arith) (omega arith)) in
    rw (← div-two-pow-suc k (bit_xor a b), ← div-two-pow-suc k a, ← div-two-pow-suc k b, half)
      (bit_xor_high_digits k (a / 2) (b / 2))

low : (g : ℕ) → g < 256 → g / 256 ≡ 0
low g h = omega arith

ones : (g : ℕ) → g < 256 → complement 32 g / 256 ≡ 2 ^ 24 - 1
ones g h = omega arith

-- The high byte of a word of 16 bits, under what sets, clears and toggles low bits.
pub high_or : (f g : ℕ) → g < 256 → bit_or f g / 256 ≡ f / 256
high_or f g h = bit_or_high_digits 8 f g ∙ rw (low g h) (bit_or-zero (f / 256))

pub high_xor : (f g : ℕ) → g < 256 → bit_xor f g / 256 ≡ f / 256
high_xor f g h =
    bit_xor_high_digits 8 f g ∙ rw (low g h) (bit_xor-zero_fuel (f / 256) (f / 256) (omega arith))

pub high_clear : (f g : ℕ) → f < 65536 → g < 256 → bit_and f (complement 32 g) / 256 ≡ f / 256
high_clear f g small h =
    bit_and_high_digits 8 f (complement 32 g)
    ∙ rw (ones g h) (bit_and_mask 24 (f / 256) ∙ mod-eq_of_lt (omega arith))

pub high_and : (f g : ℕ) → g < 256 → bit_and f g < 256
high_and f g h =
    omega
      (arith, bit_and_high_digits 8 f g, bit_and-zero (f / 256), ap (bit_and (f / 256)) (low g h))

-- A word of 16 bits with no bit outside the flags lies below 256.
pub low_of_mask : (x : ℕ) → x < 65536 → bit_and x (complement 32 0xFC) ≡ 0 → x < 256
low_of_mask x small e = omega (
  arith,
  bit_and_high_digits 8 x (complement 32 0xFC),
  ap (λ (t : ℕ). t / 256) e,
  bit_and_mask 24 (x / 256),
)
