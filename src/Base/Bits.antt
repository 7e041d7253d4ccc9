-- ===== src/Base/Bits.antt =====
-- The masks, shifts and single-bit tests that C code writes, as arithmetic, at every width.
use Prim.Native.Nat.{ℕ, zero, suc, ◌+◌, ◌*◌, ◌-◌, ◌/◌, ◌%◌, ◌^◌, ◌≤◌, ◌<◌}
use Prim.Native.Nat.{bit_and, bit_or, bit_xor}
use mathlib.Core.Path.{◌≡◌, refl, ap, ◌≡⟨◌⟩◌, ◌∎}
use native.Mathlib.Nat.{
  pow-suc, one-le-pow, mul_comm, div-div-eq-div-mul, add-mul-mod_self_right, mod-eq_of_lt, mod-lt,
  div-add-mod',
}
use native.Mathlib.Omega.{arith}
use commodore_900_emulator.Base.Step.{bit_and_step, bit_or_step}

-- A word beside a zero, for both operations at once.
beside_zero : (bound x : ℕ) → x ≤ bound → (bit_or x 0 ≡ x) × (bit_and x 0 ≡ 0)
beside_zero bound zero fits = (refl, refl)
beside_zero zero (suc x) fits = absurd (omega arith)
beside_zero (suc bound) (suc x) fits =
    let (joined, masked) = beside_zero bound (suc x / 2) (omega arith) in
    (omega (arith, bit_or_step (suc x) 0, joined), omega (arith, bit_and_step (suc x) 0, masked))

pub bit_or-zero : (x : ℕ) → bit_or x 0 ≡ x
bit_or-zero x = (beside_zero x x (omega arith)).0

pub bit_and-zero : (x : ℕ) → bit_and x 0 ≡ 0
bit_and-zero x = (beside_zero x x (omega arith)).1

bit_or_comm_fuel : (n a b : ℕ) → a ≤ n → b ≤ n → bit_or a b ≡ bit_or b a
bit_or_comm_fuel zero zero zero p q = refl
bit_or_comm_fuel zero zero (suc b) p q = absurd (omega arith)
bit_or_comm_fuel zero (suc a) b p q = absurd (omega arith)
bit_or_comm_fuel (suc n) a b p q = omega (
  arith,
  bit_or_step a b,
  bit_or_step b a,
  bit_or_comm_fuel n (a / 2) (b / 2) (omega arith) (omega arith),
)

pub bit_or_comm : (a b : ℕ) → bit_or a b ≡ bit_or b a
bit_or_comm a b = bit_or_comm_fuel (a + b) a b (omega arith) (omega arith)

-- One place further up, a field weighs twice as much.
pub field_up : (hi k : ℕ) → 2 * (hi * 2 ^ k) ≡ hi * 2 ^ suc k
field_up hi k = omega (arith, ap (λ (weight : ℕ). hi * weight) (pow-suc 2 k))

-- A field shifted over `k` bits joins a field that fits them as a sum.
pub bit_or_fields : (k hi lo : ℕ) → lo < 2 ^ k → bit_or (hi * 2 ^ k) lo ≡ hi * 2 ^ k + lo
bit_or_fields zero hi lo below = ground (arith, bit_or-zero hi)
bit_or_fields (suc k) hi lo below =
    let rest = bit_or_fields k hi (lo / 2) (omega arith) in
    ground (arith, field_up hi k, bit_or_step (hi * 2 ^ suc k) lo, rest)

-- The same, with the low field on the left, as `|=` builds it.
pub bit_or_high : (k q r : ℕ) → r < 2 ^ k → bit_or r (q * 2 ^ k) ≡ r + q * 2 ^ k
bit_or_high k q r fits = omega (arith, bit_or_comm r (q * 2 ^ k), bit_or_fields k q r fits)

bit_and_fields : (k q r : ℕ) → r < 2 ^ k → bit_and (q * 2 ^ k + r) (2 ^ k - 1) ≡ r
bit_and_fields zero q r fits = rw bit_and-zero (omega arith)
bit_and_fields (suc k) q r fits = ground (
  arith,
  bit_and_step (q * 2 ^ suc k + r) (2 ^ suc k - 1),
  field_up q k,
  pow-suc 2 k,
  bit_and_fields k q (r / 2) (omega arith),
)

-- A mask of `k` low bits is the remainder by `2 ^ k`.
pub bit_and_mask : (k a : ℕ) → bit_and a (2 ^ k - 1) ≡ a % 2 ^ k
bit_and_mask k a = ground (arith, one-le-pow k 2, bit_and_fields k (a / 2 ^ k) (a % 2 ^ k))

pub bit_and-one : (a : ℕ) → bit_and a 1 ≡ a % 2
bit_and-one a = omega (arith, bit_and_step a 1, bit_and-zero (a / 2))

pub div-two-pow-suc : (k a : ℕ) → a / 2 / 2 ^ k ≡ a / 2 ^ suc k
div-two-pow-suc k a = rw (pow-suc, mul_comm (2 ^ k) 2) (div-div-eq-div-mul a 2 (2 ^ k))

-- A mask of one bit takes that bit.
pub bit_and_bit : (k a : ℕ) → bit_and a (2 ^ k) ≡ a / 2 ^ k % 2 * 2 ^ k
bit_and_bit zero a = omega (arith, bit_and-one a)
bit_and_bit (suc k) a = ground (
  arith,
  bit_and_step a (2 ^ suc k),
  pow-suc 2 k,
  bit_and_bit k (a / 2),
  div-two-pow-suc k a,
  field_up (a / 2 ^ suc k % 2) k,
)

-- The full adder: the sum digit and the majority carry of three one-bit numbers.
pub bit_xor_digits : (x y c : ℕ) → x < 2 → y < 2 → c < 2 → bit_xor (bit_xor x y) c ≡ (x + y + c) % 2
bit_xor_digits zero zero zero p q r = refl
bit_xor_digits zero zero (suc zero) p q r = refl
bit_xor_digits zero (suc zero) zero p q r = refl
bit_xor_digits zero (suc zero) (suc zero) p q r = refl
bit_xor_digits (suc zero) zero zero p q r = refl
bit_xor_digits (suc zero) zero (suc zero) p q r = refl
bit_xor_digits (suc zero) (suc zero) zero p q r = refl
bit_xor_digits (suc zero) (suc zero) (suc zero) p q r = refl
bit_xor_digits x y c p q r = absurd (omega arith)

pub majority_digits :
    (x y c : ℕ)
    → x < 2
    → y < 2
    → c < 2
    → bit_or (bit_or (bit_and x y) (bit_and y c)) (bit_and x c) ≡ (x + y + c) / 2
majority_digits zero zero zero p q r = refl
majority_digits zero zero (suc zero) p q r = refl
majority_digits zero (suc zero) zero p q r = refl
majority_digits zero (suc zero) (suc zero) p q r = refl
majority_digits (suc zero) zero zero p q r = refl
majority_digits (suc zero) zero (suc zero) p q r = refl
majority_digits (suc zero) (suc zero) zero p q r = refl
majority_digits (suc zero) (suc zero) (suc zero) p q r = refl
majority_digits x y c p q r = absurd (omega arith)

pub two-pow_pos : (k : ℕ) → 0 < 2 ^ k
two-pow_pos k = one-le-pow k 2 (omega arith)

-- One more digit of a remainder.
pub mod-two-pow-suc : (k a : ℕ) → a % 2 ^ suc k ≡ a % 2 ^ k + a / 2 ^ k % 2 * 2 ^ k
mod-two-pow-suc k a =
    a % 2 ^ suc k
    ≡⟨ rw (pow-suc 2 k) (ap (λ (t : ℕ). t % (2 ^ k * 2)) whole) ⟩
      (low + high * (2 ^ k * 2)) % (2 ^ k * 2)
    ≡⟨ add-mul-mod_self_right low high (2 ^ k * 2) ⟩ low % (2 ^ k * 2)
    ≡⟨ mod-eq_of_lt small ⟩ low ∎
  where
    low : ℕ
    low = a % 2 ^ k + a / 2 ^ k % 2 * 2 ^ k

    high : ℕ
    high = a / 2 ^ k / 2

    digit : (d : ℕ) → d < 2 → d * 2 ^ k ≤ 2 ^ k
    digit zero h = omega arith
    digit (suc zero) h = omega arith
    digit (suc (suc d)) h = absurd (omega arith)

    whole : a ≡ low + high * (2 ^ k * 2)
    whole =
        omega
          (arith, div-add-mod' a (2 ^ k), ap (λ (t : ℕ). t * 2 ^ k) (div-add-mod' (a / 2 ^ k) 2))

    small : low < 2 ^ k * 2
    small = omega (arith, digit (a / 2 ^ k % 2) (omega arith), mod-lt a {m = 2 ^ k} (two-pow_pos k))
