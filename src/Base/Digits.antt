-- ===== src/Base/Digits.antt =====
-- The bit operations digit by digit, and single-bit tests through them.
use Prim.Native.Nat.{ℕ, zero, suc, ◌*◌, ◌-◌, ◌/◌, ◌%◌, ◌^◌, ◌<◌}
use Prim.Native.Nat.{min, max, differ, bit_and, bit_or, bit_xor}
use mathlib.Core.Path.{◌≡◌, refl, ap, sym}
use mathlib.Core.Bool.{not, ◌&&◌, ◌||◌}
use native.Mathlib.Nat.{pow-suc, mod-eq_of_lt}
use native.Mathlib.Omega.{arith}
use commodore_900_emulator.Base.Step.{bit_and_step, bit_or_step, bit_xor_step}
use commodore_900_emulator.Base.Tests.{◌==◌, bne}
use commodore_900_emulator.Base.Words.{has, complement}
use commodore_900_emulator.Base.Bits.{div-two-pow-suc, bit_and_bit, two-pow_pos}

abbrev pub digit : ℕ → ℕ → ℕ
digit k x = x / 2 ^ k % 2

digit-suc : (k x : ℕ) → digit (suc k) x ≡ digit k (x / 2)
digit-suc k x = ap (λ (t : ℕ). t % 2) (sym (div-two-pow-suc k x))

digit-lt : (k x : ℕ) → digit k x < 2
digit-lt k x = omega arith

min_digits : (x y : ℕ) → x < 2 → y < 2 → min x y < 2
min_digits x y p q = omega arith

pub bit_or_digit : (k a b : ℕ) → digit k (bit_or a b) ≡ max (digit k a) (digit k b)
bit_or_digit zero a b = omega (arith, bit_or_step a b)
bit_or_digit (suc k) a b =
    let half : bit_or a b / 2 ≡ bit_or (a / 2) (b / 2) = omega (arith, bit_or_step a b) in
    rw (digit-suc k (bit_or a b), digit-suc k a, digit-suc k b, half)
      (bit_or_digit k (a / 2) (b / 2))

pub bit_and_digit : (k a b : ℕ) → digit k (bit_and a b) ≡ min (digit k a) (digit k b)
bit_and_digit zero a b = omega (arith, bit_and_step a b)
bit_and_digit (suc k) a b =
    let half : bit_and a b / 2 ≡ bit_and (a / 2) (b / 2) = omega (arith, bit_and_step a b) in
    rw (digit-suc k (bit_and a b), digit-suc k a, digit-suc k b, half)
      (bit_and_digit k (a / 2) (b / 2))

-- A test of bit `k` looks at digit `k`.
pub has_digit : (k x : ℕ) → has x (2 ^ k) ≡ not (digit k x == 0)
has_digit k x = rw (bit_and_bit k x) (weigh (digit k x) (2 ^ k) (digit-lt k x) (two-pow_pos k))
  where
    weigh : (d p : ℕ) → d < 2 → 0 < p → not (d * p == 0) ≡ not (d == 0)
    weigh zero p h q = ground arith
    weigh (suc zero) p h q = ground arith
    weigh (suc (suc d)) p h q = absurd (omega arith)

or_test : (x y : ℕ) → x < 2 → y < 2 → not (max x y == 0) ≡ (not (x == 0) || not (y == 0))
or_test zero zero p q = refl
or_test zero (suc zero) p q = refl
or_test (suc zero) zero p q = refl
or_test (suc zero) (suc zero) p q = refl
or_test x y p q = absurd (omega arith)

and_test : (x y : ℕ) → x < 2 → y < 2 → not (min x y == 0) ≡ (not (x == 0) && not (y == 0))
and_test zero zero p q = refl
and_test zero (suc zero) p q = refl
and_test (suc zero) zero p q = refl
and_test (suc zero) (suc zero) p q = refl
and_test x y p q = absurd (omega arith)

-- A bit of `a | b`, and of `a & b`.
pub has-or : (k a b : ℕ) → has (bit_or a b) (2 ^ k) ≡ (has a (2 ^ k) || has b (2 ^ k))
has-or k a b =
    rw (has_digit k (bit_or a b), has_digit k a, has_digit k b, bit_or_digit k a b)
      (or_test (digit k a) (digit k b) (digit-lt k a) (digit-lt k b))

pub has-and : (k a b : ℕ) → has (bit_and a b) (2 ^ k) ≡ (has a (2 ^ k) && has b (2 ^ k))
has-and k a b =
    rw (has_digit k (bit_and a b), has_digit k a, has_digit k b, bit_and_digit k a b)
      (and_test (digit k a) (digit k b) (digit-lt k a) (digit-lt k b))

differ_digits : (x y : ℕ) → x < 2 → y < 2 → differ x y < 2
differ_digits zero zero p q = omega arith
differ_digits zero (suc zero) p q = omega arith
differ_digits (suc zero) zero p q = omega arith
differ_digits (suc zero) (suc zero) p q = omega arith
differ_digits x y p q = absurd (omega arith)

div_one : (x : ℕ) → x / 1 ≡ x
div_one x = omega arith

pub bit_xor_digit : (k a b : ℕ) → digit k (bit_xor a b) ≡ differ (digit k a) (digit k b)
bit_xor_digit zero a b =
    let small = differ_digits (a % 2) (b % 2) (omega arith) (omega arith) in
    let low : bit_xor a b % 2 ≡ differ (a % 2) (b % 2) = omega (arith, bit_xor_step a b) in
    rw (div_one (bit_xor a b), div_one a, div_one b) low
bit_xor_digit (suc k) a b =
    let small = differ_digits (a % 2) (b % 2) (omega arith) (omega arith) in
    let half : bit_xor a b / 2 ≡ bit_xor (a / 2) (b / 2) = omega (arith, bit_xor_step a b) in
    rw (digit-suc k (bit_xor a b), digit-suc k a, digit-suc k b, half)
      (bit_xor_digit k (a / 2) (b / 2))

xor_test : (x y : ℕ) → x < 2 → y < 2 → not (differ x y == 0) ≡ bne (not (x == 0)) (not (y == 0))
xor_test zero zero p q = refl
xor_test zero (suc zero) p q = refl
xor_test (suc zero) zero p q = refl
xor_test (suc zero) (suc zero) p q = refl
xor_test x y p q = absurd (omega arith)

pub has-xor : (k a b : ℕ) → has (bit_xor a b) (2 ^ k) ≡ bne (has a (2 ^ k)) (has b (2 ^ k))
has-xor k a b =
    rw (has_digit k (bit_xor a b), has_digit k a, has_digit k b, bit_xor_digit k a b)
      (xor_test (digit k a) (digit k b) (digit-lt k a) (digit-lt k b))

complement_digit : (k n x : ℕ) → x < 2 ^ n → k < n → digit k (2 ^ n - 1 - x) ≡ 1 - digit k x
complement_digit k zero x h p = absurd (omega arith)
complement_digit zero (suc n) x h p =
    rw (div_one (2 ^ suc n - 1 - x), div_one x) (omega (arith, pow-suc 2 n, two-pow_pos n))
complement_digit (suc k) (suc n) x h p =
    let half : (2 ^ suc n - 1 - x) / 2 ≡ 2 ^ n - 1 - x / 2 =
      omega (arith, pow-suc 2 n, two-pow_pos n) in
    rw (digit-suc k (2 ^ suc n - 1 - x), digit-suc k x, half)
      (complement_digit k n (x / 2) (omega (arith, pow-suc 2 n)) (omega arith))

not_test : (d : ℕ) → d < 2 → not (1 - d == 0) ≡ not (not (d == 0))
not_test zero h = refl
not_test (suc zero) h = refl
not_test (suc (suc d)) h = absurd (omega arith)

-- A bit of `~x`.
pub has-complement :
    (k n x : ℕ) → x < 2 ^ n → k < n → has (complement n x) (2 ^ k) ≡ not (has x (2 ^ k))
has-complement k n x h p =
    rw (mod-eq_of_lt h, has_digit k (2 ^ n - 1 - x), has_digit k x, complement_digit k n x h p)
      (not_test (digit k x) (digit-lt k x))
