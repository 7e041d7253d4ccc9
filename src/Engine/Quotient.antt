-- ===== src/Engine/Quotient.antt =====
-- `exec_div` of src/cpu.c: what the quotient and the remainder that it stores mean.
use native.Mathlib.Nat.{div-add-mod', mod-lt, mod-eq_of_lt, mul-le-mul_left}
use commodore_900_emulator.Base.{
  ℕ, zero, suc, ap, ◌+◌, ◌-◌, ◌*◌, ◌/◌, ◌%◌, ◌<◌, ◌≤◌, ◌≡◌, ◌≢◌, refl, sym, ◌∙◌, ◌⊎◌, inl, inr, ◌↔◌,
  arith, Bool, true, false, ◌||◌, bit_or, has, or_if, if_cases,
}
use commodore_900_emulator.Base.Int.{
  ℤ, pos, negsuc, pos_part, neg_part, sub_ℕ, ◌+ℤ◌, ◌*ℤ◌, ◌≤ℤ◌, quot, rem, magnitude, is_zero, lt_ℤ,
  signed, wrap, eq_of_parts,
}
use commodore_900_emulator.Alu.{f_c, f_z, f_s, f_pv}
use commodore_900_emulator.Engine.Product.{Division, refused, stored, undefined_quotient, divide}

-- A division of magnitudes, in the shape that the signs need.
whole : (x y : ℕ) → x / y * y + x % y ≡ x
whole x y = div-add-mod' x y

-- The parts of a negated number.
neg_pos : (n : ℕ) → pos_part (sub_ℕ 0 n) ≡ 0
neg_pos n = ground arith

neg_neg : (n : ℕ) → neg_part (sub_ℕ 0 n) ≡ n
neg_neg n = ground arith

quot-rem : (a b : ℤ) → (quot a b *ℤ b) +ℤ rem a b ≡ a
unfolding quot rem ◌*ℤ◌ ◌+ℤ◌
quot-rem (pos x) (pos y) = eq_of_parts _ _ (ground (arith, whole x y))
quot-rem (pos x) (negsuc y) =
    eq_of_parts _ _ (ground (arith, whole x (suc y), neg_pos (x / suc y), neg_neg (x / suc y)))
quot-rem (negsuc x) (pos y) = eq_of_parts _ _ (
    ground (
      arith,
      whole (suc x) y,
      neg_pos (suc x / y),
      neg_neg (suc x / y),
      neg_pos (suc x % y),
      neg_neg (suc x % y),
    ))
quot-rem (negsuc x) (negsuc y) =
    eq_of_parts _ _
      (ground (arith, whole (suc x) (suc y), neg_pos (suc x % suc y), neg_neg (suc x % suc y)))

rem-lt : (a b : ℤ) → 0 < magnitude b → magnitude (rem a b) < magnitude b
unfolding rem
rem-lt (pos x) b h = mod-lt x h
rem-lt (negsuc x) b h = let lt = mod-lt (suc x) h in ground arith

-- The range of a word of two's complement with the sign bit `h`.
abbrev pub InRange : ℕ → ℤ → Type 0
InRange h q = (negsuc (h - 1) ≤ℤ q) × (q ≤ℤ pos (h - 1))

-- The word of a number in range reads back as the number.
pub signed-wrap : (h : ℕ) (q : ℤ) → 0 < h → InRange h q → signed h (wrap (2 * h) q) ≡ q
signed-wrap h (pos n) lt (lo, hi) =
    rw (mod-eq_of_lt {n = n} {m = 2 * h} (omega arith)) (ground arith)
signed-wrap h (negsuc n) lt (lo, hi) =
    rw (mod-eq_of_lt {n = n} {m = 2 * h} (omega arith)) (ground arith)

-- The test of the range, and its negation.
unfoldable pub range_test : ℕ → ℤ → Bool
range_test h q = lt_ℤ q (negsuc (h - 1)) || lt_ℤ (pos (h - 1)) q

pub outside : (h : ℕ) (q : ℤ) → range_test h q ≡ true → ¬ InRange h q
unfolding range_test
outside h (pos n) e (lo, hi) = ground arith
outside h (negsuc n) e (lo, hi) = ground arith

pub inside : (h : ℕ) (q : ℤ) → range_test h q ≡ false → InRange h q
unfolding range_test
inside h (pos n) e = ground arith
inside h (negsuc n) e = ground arith

rem-InRange :
    (h : ℕ) (a b : ℤ) → InRange h b → magnitude (rem a b) < magnitude b → InRange h (rem a b)
rem-InRange h a b range lt = within (rem a b) b range lt
  where
    within : (r b : ℤ) → InRange h b → magnitude r < magnitude b → InRange h r
    within (pos x) (pos y) (lo, hi) lt = ground arith
    within (pos x) (negsuc y) (lo, hi) lt = ground arith
    within (negsuc x) (pos y) (lo, hi) lt = ground arith
    within (negsuc x) (negsuc y) (lo, hi) lt = ground arith

zero-magnitude : (b : ℤ) → is_zero b ≡ true → magnitude b ≡ 0
zero-magnitude (pos n) e = ground arith
zero-magnitude (negsuc n) e = ground arith

nonzero-magnitude : (b : ℤ) → is_zero b ≡ false → 0 < magnitude b
nonzero-magnitude (pos n) e = ground arith
nonzero-magnitude (negsuc n) e = ground arith

-- V in the flags of an overflow, and of a quotient that fits.
over-V : (z n : Bool) → has (or_if z f_z (or_if n f_s (bit_or f_c f_pv))) f_pv ≡ true
over-V true true = refl
over-V true false = refl
over-V false true = refl
over-V false false = refl

fit-V : (n z : Bool) → has (or_if n f_s (or_if z f_z 0)) f_pv ≡ false
fit-V true true = refl
fit-V true false = refl
fit-V false true = refl
fit-V false false = refl

true≢false : true ≢ false
true≢false e = cc

-- A refused division: by zero, or a quotient that not even one bit more would hold.
pub record Refusal (h : ℕ) (a b : ℤ) (f : ℕ) : Type 0 where
  pub reason :
      ((magnitude b ≡ 0) × (f ≡ bit_or f_z f_pv))
      ⊎ ((0 < magnitude b) × (f ≡ f_pv) × ¬ InRange (2 * h) (quot a b))

-- A stored division of `a` by `b`.
pub record Storage (h : ℕ) (a b : ℤ) (f : ℕ) (q r : ℤ) : Type 0 where
  pub exact : (q *ℤ b) +ℤ r ≡ a
  pub small : magnitude r < magnitude b
  pub overflow : (has f f_pv ≡ false) ↔ InRange h q
  pub quotient : InRange h q → signed h (wrap (2 * h) q) ≡ q
  pub remainder : signed h (wrap (2 * h) r) ≡ r

pub Divides : ℕ → ℤ → ℤ → Division → Type 0
Divides h a b (refused f) = Refusal h a b f
Divides h a b (stored f q r) = Storage h a b f q r
Divides h a b undefined_quotient = (a ≡ negsuc (2 * h * h - 1)) × (b ≡ negsuc 0)

-- The only quotient that is too large for the width of the dividend.
too_large :
    (H : ℕ) (a b : ℤ)
    → 0 < magnitude b
    → InRange H a
    → lt_ℤ (pos (H - 1)) (quot a b) ≡ true
    → (a ≡ negsuc (H - 1)) × (b ≡ negsuc 0)
unfolding quot
too_large H (pos x) (pos y) nz (lo, hi) e =
    let w = whole x y in
    let le : x / y * 1 ≤ x / y * y = mul-le-mul_left (x / y) nz in absurd (ground arith)
too_large H (pos x) (negsuc y) nz (lo, hi) e = absurd (ground (arith, neg_pos (x / suc y)))
too_large H (negsuc x) (pos y) nz (lo, hi) e = absurd (ground (arith, neg_pos (suc x / y)))
too_large H (negsuc x) (negsuc zero) nz (lo, hi) e =
    let w = whole (suc x) 1 in (ap negsuc (ground arith), refl)
too_large H (negsuc x) (negsuc (suc y)) nz (lo, hi) e =
    let w = whole (suc x) (suc (suc y)) in
    let le : suc x / suc (suc y) * 2 ≤ suc x / suc (suc y) * suc (suc y) =
      mul-le-mul_left (suc x / suc (suc y)) (omega arith) in
    absurd (ground arith)

-- DIV and DIVL of a dividend `a` of the double width by a divisor `b` that the sign bit `h` holds. What C
-- leaves undefined is met only by the least dividend and the divisor -1. A division is refused, with Z and
-- V, if the divisor is zero, and with V alone only if the quotient does not even fit one bit more.
-- Otherwise quotient times divisor plus remainder is the dividend, the remainder is smaller than the
-- divisor and its word reads back as it, V is clear exactly when the quotient is in range, and then the
-- word of the quotient reads back as it, too.
pub divide-Divides :
    (h : ℕ) (a b : ℤ) → 0 < h → InRange (2 * h * h) a → InRange h b → Divides h a b (divide h a b)
unfolding divide Divides range_test
divide-Divides h a b lt wide range =
    if_cases (Divides h a b) (is_zero b) (λ z. record { reason = inl (zero-magnitude b z, refl) })
      (λ nz.
        let nonzero = nonzero-magnitude b nz in
        let small = rem-lt a b nonzero in
        let readable = signed-wrap h (rem a b) lt (rem-InRange h a b range small) in
        if_cases (Divides h a b) (lt_ℤ (pos (2 * h * h - 1)) (quot a b))
          (λ huge. too_large (2 * h * h) a b nonzero wide huge)
          (λ _.
            if_cases (Divides h a b) (range_test (2 * h) (quot a b))
              (λ far. record { reason = inr (nonzero, refl, outside (2 * h) (quot a b) far) })
              (λ _.
                if_cases (Divides h a b) (range_test h (quot a b))
                  (λ over. record {
                    exact = quot-rem a b;
                    small = small;
                    overflow = (
                      λ v. absurd (true≢false (sym (over-V _ _) ∙ v)),
                      λ fits. absurd (outside h (quot a b) over fits),
                    );
                    quotient = signed-wrap h (quot a b) lt;
                    remainder = readable;
                  })
                  (λ fit. record {
                    exact = quot-rem a b;
                    small = small;
                    overflow = (λ _. inside h (quot a b) fit, λ _. fit-V _ _);
                    quotient = signed-wrap h (quot a b) lt;
                    remainder = readable;
                  }))))
