-- ===== src/Bus/Border.antt =====
-- The borders of a mark, and the longest of them that the fall-back finds.
use commodore_900_emulator.Base.{
  ℕ, zero, suc, ◌+◌, ◌-◌, ◌≤◌, ◌<◌, ◌≡◌, refl, sym, ◌∙◌, ap, arith, Bool, true, false,
  if◌then◌else◌, dec_lt,
}
use mathlib.Core.Bool.{true≢false}
use commodore_900_emulator.Bus.Mark.{memeq, fall_back}

memeq_sound : (mark : ℕ → ℕ) (d k i : ℕ) → memeq mark d k ≡ true → i < k → mark i ≡ mark (d + i)
unfolding memeq
memeq_sound mark d zero i e lt = absurd (omega arith)
memeq_sound mark d (suc k) i e lt = ground (arith, memeq_sound mark d k i)

memeq_complete :
    (mark : ℕ → ℕ) (d k : ℕ) → ((i : ℕ) → i < k → mark i ≡ mark (d + i)) → memeq mark d k ≡ true
unfolding memeq
memeq_complete mark d zero same = refl
memeq_complete mark d (suc k) same =
    let below = memeq_complete mark d k (λ i lt. same i (omega arith)) in
    let here = same k (omega arith) in ground (arith, below, here)

-- A proper border of the first `pos` characters of the mark, and the longest below `top`.
pub record IsBorder (mark : ℕ → ℕ) (pos k : ℕ) : Type 0 where
  pub within : k ≤ pos
  pub equal : (i : ℕ) → i < k → mark i ≡ mark (pos - k + i)

pub record IsLongestBorder (mark : ℕ → ℕ) (pos top k : ℕ) : Type 0 where
  pub below : k ≤ top
  pub border : IsBorder mark pos k
  pub most : (j : ℕ) → j ≤ top → IsBorder mark pos j → j ≤ k

longest_step :
    (mark : ℕ → ℕ) (pos k rest : ℕ) (b : Bool)
    → suc k ≤ pos
    → memeq mark (pos - suc k) (suc k) ≡ b
    → IsLongestBorder mark pos k rest
    → IsLongestBorder mark pos (suc k) (if b then suc k else rest)
longest_step mark pos k rest true le e r = record {
  below = omega arith;
  border = record { within = le; equal = λ i lt. memeq_sound mark (pos - suc k) (suc k) i e lt };
  most = λ j top b. top;
}
longest_step mark pos k rest false le e r = record {
  below = omega (arith, r.below);
  border = r.border;
  most = λ j top b. elim (dec_lt j (suc k)) [
    | yes lt ↦ r.most j (omega arith) b
    | no high ↦ absurd (true≢false (no_match j (omega arith) b))
  ];
}
  where
    no_match : (j : ℕ) → j ≡ suc k → IsBorder mark pos j → true ≡ false
    no_match j is b =
        sym (
          memeq_complete mark (pos - suc k) (suc k)
            (λ i lt. b.equal i (omega arith) ∙ ap mark (omega arith)))
        ∙ e

pub fall_back-IsLongestBorder :
    (mark : ℕ → ℕ) (pos k : ℕ) → k ≤ pos → IsLongestBorder mark pos k (fall_back mark pos k)
unfolding fall_back
fall_back-IsLongestBorder mark pos zero le = record {
  below = omega arith;
  border = record { within = omega arith; equal = λ i lt. absurd (omega arith) };
  most = λ j top b. top;
}
fall_back-IsLongestBorder mark pos (suc k) le =
    longest_step mark pos k (fall_back mark pos k) (memeq mark (pos - suc k) (suc k)) le refl
      (fall_back-IsLongestBorder mark pos k (omega arith))
