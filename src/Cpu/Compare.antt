-- ===== src/Cpu/Compare.antt =====
-- A comparison followed by a condition code: what CP and the tests of JP, JR, RET and TCC mean
-- together.
use native.Mathlib.Nat.{mod-lt, pow-suc, add-zero, le_refl}
use commodore_900_emulator.Base.{
  ℕ, suc, ◌+◌, ◌-◌, ◌*◌, ◌%◌, ◌^◌, ◌≤◌, ◌<◌, ◌≡◌, ◌≢◌, ap, ◌↔◌, arith, Bool, true, false, not, ◌&&◌,
  ◌||◌, ◌==◌, leb, ltb, bne, has, if◌then◌else◌, sym, ◌∙◌, refl, dec_lt, two-pow_pos,
}
use commodore_900_emulator.Base.Int.{
  ℤ, pos, pos_part, neg_part, ◌-ℤ◌, ◌<ℤ◌, ◌≤ℤ◌, signed, eq_of_parts,
}
use commodore_900_emulator.Cpu.Merge.{apply_flags-bit}
use commodore_900_emulator.Alu.{
  AluOp, Width, byte, word, long, arith_mask, do_sub, alu_exec, f_c, f_z, f_s, f_pv,
}
use commodore_900_emulator.Alu.Sum.{wrap_once, top_bit}
use commodore_900_emulator.Alu.Difference.{IsDifference, do_sub-IsDifference}
use commodore_900_emulator.Cpu.State.{Cpu}
use commodore_900_emulator.Cpu.Flags.{apply_flags, cond_true}

bne-false : (b : Bool) → bne b false ≡ b
bne-false true = refl
bne-false false = refl

bne-true : (b : Bool) → bne b true ≡ not b
bne-true true = refl
bne-true false = refl

true≢false : true ≢ false
true≢false e = cc

-- The arithmetic of a comparison of `a` and `b` below `2 * g`, with difference `r` and the sign and
-- overflow flags of the difference.
module _ (g a b r : ℕ) (pos_g : 0 < g) (ha : a < 2 * g) (hb : b < 2 * g)
    (wraps : r
      ≡ (if leb (2 * g) (a + 2 * g - b) then a + 2 * g - b - 2 * g else a + 2 * g - b)) where
  less_fits :
      signed g r ≡ signed g a -ℤ signed g b -ℤ pos 0 → leb g r ≡ true ↔ signed g a <ℤ signed g b
  unfolding ◌-ℤ◌
  less_fits e = ground arith

  less_overflows :
      signed g r ≢ signed g a -ℤ signed g b -ℤ pos 0
      → not (leb g r) ≡ true ↔ signed g a <ℤ signed g b
  unfolding ◌-ℤ◌
  less_overflows ne =
      let ne' : pos_part (signed g r) + neg_part (signed g a -ℤ signed g b -ℤ pos 0)
          ≢ pos_part (signed g a -ℤ signed g b -ℤ pos 0) + neg_part (signed g r) =
        λ e. ne (eq_of_parts _ _ e) in
      ground arith

  -- S differs from V exactly when the signed reading of `a` is below that of `b`.
  less :
      (s v : Bool)
      → s ≡ leb g r
      → (v ≡ false) ↔ (signed g r ≡ signed g a -ℤ signed g b -ℤ pos 0)
      → (bne s v ≡ true) ↔ (signed g a <ℤ signed g b)
  less s false e h = rw (e, bne-false (leb g r)) (less_fits (h.0 refl))
  less s true e h = rw (e, bne-true (leb g r)) (less_overflows (λ q. absurd (true≢false (h.1 q))))

  -- Z is set exactly when the two are equal, also as signed readings.
  equal : ((r == 0) ≡ true) ↔ (a ≡ b)
  equal = ground arith

  equal_signed : (a ≡ b) ↔ (signed g a ≡ signed g b)
  equal_signed = (λ e. ap (signed g) e, λ e. ground arith)

le_signed :
    (x y : ℤ) (p q : Bool)
    → (p ≡ true) ↔ (x <ℤ y)
    → (q ≡ true) ↔ (x ≡ y)
    → ((p || q) ≡ true) ↔ (x ≤ℤ y)
le_signed x y true q hp hq = (λ _. let lt = hp.0 refl in omega arith, λ _. refl)
le_signed x y false true hp hq = (λ _. rw (hq.0 refl) (le_refl _), λ _. refl)
le_signed x y false false hp hq = (
  λ e. absurd (true≢false (sym e)),
  λ le. absurd (elim (dec_lt (pos_part x + neg_part y) (pos_part y + neg_part x)) [
    | yes lt ↦ true≢false (sym (hp.1 lt))
    | no ge ↦ true≢false (sym (hq.1 (eq_of_parts x y (omega arith))))
  ]),
)

le_unsigned : (a b : ℕ) (q : Bool) → (q ≡ true) ↔ (a ≡ b) → ((ltb a b || q) ≡ true) ↔ (a ≤ b)
le_unsigned a b true h = let e = h.0 refl in ground arith
le_unsigned a b false h = let ne : a ≢ b = λ e. true≢false (sym (h.1 e)) in ground arith

not_iff {ℓ} : {P : Type ℓ} (b : Bool) → (b ≡ true) ↔ P → (not b ≡ true) ↔ ¬ P
not_iff true h = (λ e. absurd (true≢false (sym e)), λ n. absurd (n (h.0 refl)))
not_iff false h = (λ _ p. true≢false (sym (h.1 p)), λ _. refl)

not-or : (p q : Bool) → not (p || q) ≡ (not p && not q)
not-or true q = refl
not-or false q = refl

-- What each condition code says after a comparison of the `k + 1`-bit words `a` and `b`.
pub record Compared (k a b : ℕ) (c : Cpu) : Type 0 where
  pub lt : (cond_true c 0x1 ≡ true) ↔ (signed (2 ^ k) a <ℤ signed (2 ^ k) b)
  pub le : (cond_true c 0x2 ≡ true) ↔ (signed (2 ^ k) a ≤ℤ signed (2 ^ k) b)
  pub ule : (cond_true c 0x3 ≡ true) ↔ (a ≤ b)
  pub eq : (cond_true c 0x6 ≡ true) ↔ (a ≡ b)
  pub ult : (cond_true c 0x7 ≡ true) ↔ (a < b)
  pub ge : (cond_true c 0x9 ≡ true) ↔ ¬ (signed (2 ^ k) a <ℤ signed (2 ^ k) b)
  pub gt : (cond_true c 0xA ≡ true) ↔ ¬ (signed (2 ^ k) a ≤ℤ signed (2 ^ k) b)
  pub ugt : (cond_true c 0xB ≡ true) ↔ ¬ (a ≤ b)
  pub ne : (cond_true c 0xE ≡ true) ↔ (a ≢ b)
  pub uge : (cond_true c 0xF ≡ true) ↔ ¬ (a < b)

-- The four flags that the codes read, after a difference.
flags-Compared :
    (k a b r f : ℕ) (c : Cpu)
    → IsDifference k a b false r f
    → has c.fcw f_c ≡ has f f_c
    → has c.fcw f_z ≡ has f f_z
    → has c.fcw f_s ≡ has f f_s
    → has c.fcw f_pv ≡ has f f_pv
    → Compared k (a % 2 ^ suc k) (b % 2 ^ suc k) c
unfolding cond_true
flags-Compared k a b r f c d hc hz hs hv = record {
  lt = rw (hs, hv) is_lt;
  le = rw (hs, hv, hz) is_le;
  ule = rw (hc, hz) is_ule;
  eq = rw hz is_eq;
  ult = rw hc is_ult;
  ge = rw (hs, hv) (not_iff _ is_lt);
  gt = rw (hs, hv, hz, ← not-or _ _) (not_iff _ is_le);
  ugt = rw (hc, hz, ← not-or _ _) (not_iff _ is_ule);
  ne = rw hz (not_iff _ is_eq);
  uge = rw hc (not_iff _ is_ult);
}
  where
    A : ℕ
    A = a % 2 ^ suc k

    B : ℕ
    B = b % 2 ^ suc k

    double : 2 ^ suc k ≡ 2 * 2 ^ k
    double = omega (arith, pow-suc 2 k)

    small_a : A < 2 * 2 ^ k
    small_a = omega (arith, double, mod-lt a (two-pow_pos (suc k)))

    small_b : B < 2 * 2 ^ k
    small_b = omega (arith, double, mod-lt b (two-pow_pos (suc k)))

    wraps : r ≡ (
        if leb (2 * 2 ^ k) (A + 2 * 2 ^ k - B)
        then A + 2 * 2 ^ k - B - 2 * 2 ^ k
        else A + 2 * 2 ^ k - B)
    wraps =
        d.value
        ∙ (ap (λ (m : ℕ). (A + m - (B + 0)) % m) double
            ∙ (ap (λ (t : ℕ). (A + 2 * 2 ^ k - t) % (2 * 2 ^ k)) (add-zero B)
                ∙ wrap_once (2 * 2 ^ k) (A + 2 * 2 ^ k - B) (omega (arith, small_a, small_b))))

    is_eq : (has f f_z ≡ true) ↔ (A ≡ B)
    is_eq = rw d.is_zero (equal (2 ^ k) A B r (two-pow_pos k) small_a small_b wraps)

    is_lt : (bne (has f f_s) (has f f_pv) ≡ true) ↔ (signed (2 ^ k) A <ℤ signed (2 ^ k) B)
    is_lt =
        less (2 ^ k) A B r (two-pow_pos k) small_a small_b wraps (has f f_s) (has f f_pv) d.sign
          d.overflows

    is_le :
        ((bne (has f f_s) (has f f_pv) || has f f_z) ≡ true)
        ↔ (signed (2 ^ k) A ≤ℤ signed (2 ^ k) B)
    is_le =
        let same = equal_signed (2 ^ k) A B r (two-pow_pos k) small_a small_b wraps in
        le_signed (signed (2 ^ k) A) (signed (2 ^ k) B) _ _ is_lt
          ((λ h. same.0 (is_eq.0 h), λ h. is_eq.1 (same.1 h)))

    is_ult : (has f f_c ≡ true) ↔ (A < B)
    is_ult = rw d.borrow (ground arith)

    is_ule : ((has f f_c || has f f_z) ≡ true) ↔ (A ≤ B)
    is_ule = rw (d.borrow, add-zero B) (le_unsigned A B (has f f_z) is_eq)

arith_mask-lt : (w : Width) → arith_mask w < 2 ^ 32
arith_mask-lt byte = omega arith
arith_mask-lt word = omega arith
arith_mask-lt long = omega arith

arith_mask-has :
    (w : Width)
    → (has (arith_mask w) f_c ≡ true)
      × (has (arith_mask w) f_z ≡ true)
      × (has (arith_mask w) f_s ≡ true)
      × (has (arith_mask w) f_pv ≡ true)
arith_mask-has byte = (refl, refl, refl, refl)
arith_mask-has word = (refl, refl, refl, refl)
arith_mask-has long = (refl, refl, refl, refl)

-- A flag in the mask reaches the FCW.
sub-flag :
    (c : Cpu) (a b : ℕ) (w : Width) (k : ℕ)
    → k < 32
    → has (arith_mask w) (2 ^ k) ≡ true
    → has (apply_flags c (do_sub a b false w)).fcw (2 ^ k) ≡ has (do_sub a b false w).flags (2 ^ k)
unfolding do_sub
sub-flag c a b w k lt inside =
    apply_flags-bit c (do_sub a b false w) k (arith_mask-lt w) lt
    ∙ ap (λ (h : Bool). if h then has (do_sub a b false w).flags (2 ^ k) else has c.fcw (2 ^ k))
        inside

-- CP followed by a condition code, at every width and for all operands: after the flags of
-- `alu_exec OpCp` are merged into any FCW, EQ and NE say whether the low bits of the operands are
-- equal, ULT, ULE, UGT and UGE compare them as unsigned numbers, and LT, LE, GT and GE compare their
-- two's complement readings, also where the subtraction overflows.
pub compare-cond_true :
    (c : Cpu) (a b : ℕ) (carry : Bool) (w : Width)
    → Compared
        (top_bit w)
        (a % 2 ^ suc (top_bit w))
        (b % 2 ^ suc (top_bit w))
        (apply_flags c (alu_exec AluOp.cp a b carry w))
unfolding alu_exec
compare-cond_true c a b carry w =
    flags-Compared (top_bit w) a b _ _ _ (do_sub-IsDifference a b false w)
      (sub-flag c a b w 7 (omega arith) (arith_mask-has w).0)
      (sub-flag c a b w 6 (omega arith) (arith_mask-has w).1)
      (sub-flag c a b w 5 (omega arith) (arith_mask-has w).2)
      (sub-flag c a b w 4 (omega arith) (arith_mask-has w).3)
