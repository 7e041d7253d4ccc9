-- ===== src/Base/Loop.antt =====
-- `for (i = 0; i < n; i++) s = body(i, s);`, and updates of an array held as a function.
use Prim.Native.Nat.{ℕ, zero, suc, ◌<◌}
use mathlib.Core.Path.{◌≡◌}
use mathlib.Core.Logic.{◌≢◌}
use native.Mathlib.Omega.{arith}
use commodore_900_emulator.Base.Tests.{◌==◌, if◌then◌else◌}

unfoldable pub for_loop {ℓ} : {S : Type ℓ} → ℕ → (ℕ → S → S) → S → S
for_loop zero body s = s
for_loop (suc n) body s = body n (for_loop n body s)

-- The rule for a counted loop: an invariant indexed by the rounds done.
pub for_loop_inv {ℓ κ} :
    {S : Type ℓ} (P : ℕ → S → Type κ) (n : ℕ) (body : ℕ → S → S) (s : S)
    → ((i : ℕ) (t : S) → i < n → P i t → P (suc i) (body i t))
    → P 0 s
    → P n (for_loop n body s)
unfolding for_loop
for_loop_inv P zero body s keep h = h
for_loop_inv P (suc n) body s keep h =
    keep n _ (omega arith) (for_loop_inv P n body s (λ i t lt. keep i t (omega arith)) h)

abbrev pub update {ℓ} : {A : Type ℓ} → (ℕ → A) → ℕ → A → ℕ → A
update f i a j = if i == j then a else f j

pub update_self {ℓ} : {A : Type ℓ} (f : ℕ → A) (i : ℕ) (a : A) → update f i a i ≡ a
update_self f i a = ground arith

pub update_ne {ℓ} : {A : Type ℓ} (f : ℕ → A) (i j : ℕ) (a : A) → i ≢ j → update f i a j ≡ f j
update_ne f i j a ne = ground arith
