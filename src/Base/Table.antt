-- ===== src/Base/Table.antt =====
-- Facts about small ranges, checked at every value by evaluation.
use Prim.Native.Nat.{ℕ, zero, suc, ◌<◌}
use mathlib.Core.Path.{◌≡◌}
use mathlib.Core.Bool.{Bool, true, ◌&&◌}
use native.Mathlib.Omega.{arith}
use commodore_900_emulator.Base.Tests.{◌==◌, ==_iff}

unfoldable pub all_below : ℕ → (ℕ → Bool) → Bool
all_below zero p = true
all_below (suc n) p = p n && all_below n p

-- What a check of all numbers below `top` says of each.
pub all_below_sound : (p : ℕ → Bool) (top x : ℕ) → x < top → all_below top p ≡ true → p x ≡ true
unfolding all_below
all_below_sound p zero x below checked = absurd (omega arith)
all_below_sound p (suc top) x below checked = ground (arith, all_below_sound p top x)

-- Two functions that agree at every value below `n`.
pub all_below_eq :
    (n : ℕ) (f g : ℕ → ℕ) → all_below n (λ x. f x == g x) ≡ true → (x : ℕ) → x < n → f x ≡ g x
all_below_eq n f g h x lt = (==_iff (f x) (g x)).0 (all_below_sound (λ x. f x == g x) n x lt h)
