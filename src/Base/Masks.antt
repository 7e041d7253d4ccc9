-- ===== src/Base/Masks.antt =====
-- `&` over `|`, and what masks with no common bit leave.
use Prim.Native.Nat.{ℕ, zero, suc, ◌+◌, ◌/◌, ◌%◌, ◌^◌, ◌≤◌}
use Prim.Native.Nat.{min, max, bit_and, bit_or, bit_and-bitwise}
use mathlib.Core.Path.{◌≡◌, refl, ap, sym, ◌∙◌}
use mathlib.Core.Bool.{Bool, true, false, not, ◌&&◌}
use native.Mathlib.Omega.{arith}
use commodore_900_emulator.Base.Step.{bit_and_step, bit_or_step}
use commodore_900_emulator.Base.Bits.{bit_or-zero}
use commodore_900_emulator.Base.Digits.{has-and}
use commodore_900_emulator.Base.Tests.{◌==◌, ==_iff}
use commodore_900_emulator.Base.Words.{has}

pub zero-bit_and : (m : ℕ) → bit_and 0 m ≡ 0
zero-bit_and m = bit_and-bitwise 0 m

and-or_fuel :
    (n a b m : ℕ) → a ≤ n → b ≤ n → bit_and (bit_or a b) m ≡ bit_or (bit_and a m) (bit_and b m)
and-or_fuel zero zero zero m p q = rw (zero-bit_and m)
and-or_fuel zero zero (suc b) m p q = absurd (omega arith)
and-or_fuel zero (suc a) b m p q = absurd (omega arith)
and-or_fuel (suc n) a b m p q =
    let or_high : bit_or a b / 2 ≡ bit_or (a / 2) (b / 2) = omega (arith, bit_or_step a b) in
    let or_low : bit_or a b % 2 ≡ max (a % 2) (b % 2) = omega (arith, bit_or_step a b) in
    let a_high : bit_and a m / 2 ≡ bit_and (a / 2) (m / 2) = omega (arith, bit_and_step a m) in
    let a_low : bit_and a m % 2 ≡ min (a % 2) (m % 2) = omega (arith, bit_and_step a m) in
    let b_high : bit_and b m / 2 ≡ bit_and (b / 2) (m / 2) = omega (arith, bit_and_step b m) in
    let b_low : bit_and b m % 2 ≡ min (b % 2) (m % 2) = omega (arith, bit_and_step b m) in
    rw
      (
        bit_and_step (bit_or a b) m,
        bit_or_step (bit_and a m) (bit_and b m),
        or_high,
        or_low,
        a_high,
        a_low,
        b_high,
        b_low,
        and-or_fuel n (a / 2) (b / 2) (m / 2) (omega arith) (omega arith),
      )
      (omega arith)

pub and-or : (a b m : ℕ) → bit_and (bit_or a b) m ≡ bit_or (bit_and a m) (bit_and b m)
and-or a b m = and-or_fuel (a + b) a b m (omega arith) (omega arith)

-- Bits outside a mask do not show through it.
pub and-or_outside : (a b m : ℕ) → bit_and b m ≡ 0 → bit_and (bit_or a b) m ≡ bit_and a m
and-or_outside a b m e = rw (and-or a b m, e) (bit_or-zero (bit_and a m))

-- A word with no bit of a mask has none of the mask's bits.
pub has_outside :
    (k x m : ℕ) → has m (2 ^ k) ≡ true → (bit_and x m == 0) ≡ true → has x (2 ^ k) ≡ false
has_outside k x m inside clear = plain (has x (2 ^ k)) (
    sym (has-and k x m)
    ∙ (ap (λ (t : ℕ). has t (2 ^ k)) ((==_iff (bit_and x m) 0).0 clear)
        ∙ ap (λ (t : ℕ). not (t == 0)) (zero-bit_and (2 ^ k))))
  where
    plain : (b : Bool) → (b && has m (2 ^ k)) ≡ false → b ≡ false
    plain true e = sym inside ∙ e
    plain false e = refl
