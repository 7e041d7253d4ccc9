-- ===== src/Base/Step.antt =====
-- The lowest binary digit of `&`, `|` and `^`, split off, and the operation on the rest.
use Prim.Native.Nat.{
  ℕ, zero, suc, ◌+◌, ◌*◌, ◌/◌, ◌%◌, ◌≤◌, min, max, differ, digits, bitwise, bit_and, bit_or,
  bit_xor, bit_and-bitwise, bit_or-bitwise, bit_xor-bitwise,
}
use native.Mathlib.Nat.{le_refl}
use native.Mathlib.Omega.{arith}
use mathlib.Core.Path.{◌≡◌, refl}

-- `last` is the operation beside a zero, `pair` the one on two digits. Any two bounds on the number
-- of digits that `x` fits in give the same result.
module _ (last : ℕ → ℕ) (pair : ℕ → ℕ → ℕ) where
  enough : (x y k l : ℕ) → x ≤ k → x ≤ l → digits last pair k x y ≡ digits last pair l x y
  enough zero y zero zero in_k in_l = refl
  enough zero y zero (suc l) in_k in_l = refl
  enough zero y (suc k) zero in_k in_l = refl
  enough zero y (suc k) (suc l) in_k in_l = refl
  enough (suc x) y zero l in_k in_l = absurd (omega arith)
  enough (suc x) y (suc k) zero in_k in_l = absurd (omega arith)
  enough (suc x) y (suc k) (suc l) in_k in_l =
      let rest = enough (suc x / 2) (y / 2) k l (omega arith) (omega arith) in rw rest

  split :
      (x y : ℕ)
      → bitwise last pair (suc x) y
        ≡ pair (suc x % 2) (y % 2) + 2 * bitwise last pair (suc x / 2) (y / 2)
  split x y =
      let half = suc x / 2 in
      let rest = enough half (y / 2) x half (omega arith) (le_refl half) in omega (arith, rest)

pub bit_and_step : (x y : ℕ) → bit_and x y ≡ min (x % 2) (y % 2) + 2 * bit_and (x / 2) (y / 2)
bit_and_step zero y = simp bit_and-bitwise (omega arith)
bit_and_step (suc x) y = simp bit_and-bitwise (split (λ _. 0) min x y)

pub bit_or_step : (x y : ℕ) → bit_or x y ≡ max (x % 2) (y % 2) + 2 * bit_or (x / 2) (y / 2)
bit_or_step zero y = simp bit_or-bitwise (omega arith)
bit_or_step (suc x) y = simp bit_or-bitwise (split (λ r. r) max x y)

pub bit_xor_step : (x y : ℕ) → bit_xor x y ≡ differ (x % 2) (y % 2) + 2 * bit_xor (x / 2) (y / 2)
bit_xor_step zero y = simp bit_xor-bitwise (beside_zero (y % 2) (omega arith))
  where
    beside_zero : (d : ℕ) → y ≡ d + 2 * (y / 2) → y ≡ differ 0 d + 2 * (y / 2)
    beside_zero d e = e
bit_xor_step (suc x) y = simp bit_xor-bitwise (split (λ r. r) differ x y)
