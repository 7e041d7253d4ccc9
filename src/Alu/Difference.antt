-- ===== src/Alu/Difference.antt =====
-- What `do_sub` of src/alu.c promises: the difference at the width, the borrow, and every flag.
use native.Mathlib.Nat.{mod-lt, mod-mod, pow-suc}
use commodore_900_emulator.Base.{
  ℕ, zero, suc, ◌+◌, ◌-◌, ◌*◌, ◌/◌, ◌%◌, ◌^◌, ◌≤◌, ◌<◌, ◌≡◌, ◌↔◌, arith, Bool, true, false, not,
  ◌==◌, leb, ltb, nat, bne, has, shr, bit_and, if◌then◌else◌, sym, ap, ◌∙◌, bit_and_mask,
  mod-two-pow-suc, two-pow_pos, nat-le, complement,
}
use commodore_900_emulator.Base.Int.{pos, ◌-ℤ◌, signed}
use commodore_900_emulator.Alu.Defs.{f_c, f_z, f_s, f_pv, f_h, Width, byte, word, long, width_mask}
use commodore_900_emulator.Alu.Carry.{Sum, carry_chain, arith_flags, mark_sub, do_sub}
use commodore_900_emulator.Alu.Adder.{low_sum, SumFacts, carry_chain-facts}
use commodore_900_emulator.Alu.Sum.{HasFlags, arith_flags-HasFlags, sign_test, wrap_once, top_bit}

-- The word `r` with the flags `f` is the low `k + 1` bits of `a` less those of `b` and the borrow:
-- the value, the borrow, the zero and sign tests, the signed overflow (PV is clear exactly when the
-- signed reading of `r` is the difference of the signed readings) and the borrow out of bit 3.
pub record IsDifference (k a b : ℕ) (bw : Bool) (r f : ℕ) : Type 0 where
  pub value : r ≡ (a % 2 ^ suc k + 2 ^ suc k - (b % 2 ^ suc k + nat bw)) % 2 ^ suc k
  pub borrow : has f f_c ≡ ltb (a % 2 ^ suc k) (b % 2 ^ suc k + nat bw)
  pub is_zero : has f f_z ≡ (r == 0)
  pub sign : has f f_s ≡ leb (2 ^ k) r
  pub overflows : (has f f_pv ≡ false) ↔ (
      signed (2 ^ k) r
      ≡ signed (2 ^ k) (a % 2 ^ suc k) -ℤ signed (2 ^ k) (b % 2 ^ suc k) -ℤ pos (nat bw))
  pub half : has f f_h ≡ ltb (a % 16) (b % 16 + nat bw)

-- As `overflow`, for `a + ~b + !borrow`.
borrow_overflow :
    (g p q x y : ℕ) (bw : Bool)
    → p < g
    → q < g
    → x < 2
    → y < 2
    → (v : ℕ)
    → let t = (p + x * g) + (2 * g - 1 - (q + y * g)) + nat (not bw) in
      (v ≡ (if leb (2 * g) t then t - 2 * g else t))
      → (bne (leb (2 * g) t) (leb g (p + (g - 1 - q) + nat (not bw))) ≡ false)
        ↔ (signed g v ≡ signed g (p + x * g) -ℤ signed g (q + y * g) -ℤ pos (nat bw))
unfolding ◌-ℤ◌
borrow_overflow g p q zero zero bw hp hq hx hy v e = ground arith
borrow_overflow g p q zero (suc zero) bw hp hq hx hy v e = ground arith
borrow_overflow g p q (suc zero) zero bw hp hq hx hy v e = ground arith
borrow_overflow g p q (suc zero) (suc zero) bw hp hq hx hy v e = ground arith
borrow_overflow g p q x y bw hp hq hx hy v e = absurd (omega arith)

-- The arithmetic of `a + ~b + !borrow`, where `m` is two to the width.
same_total : (a b m : ℕ) (bw : Bool) → b < m → a + (m - 1 - b) + nat (not bw) ≡ a + m - (b + nat bw)
same_total a b m true h = omega arith
same_total a b m false h = omega arith

same_borrow :
    (a b m : ℕ) (bw : Bool)
    → b < m
    → not (leb m (a + (m - 1 - b) + nat (not bw))) ≡ ltb a (b + nat bw)
same_borrow a b m true h = ground arith
same_borrow a b m false h = ground arith

-- What `do_sub` needs of `~b & mask`.
record IsComplement (k b nb : ℕ) : Type 0 where
  whole : nb % 2 ^ suc k ≡ 2 * 2 ^ k - 1 - b % 2 ^ suc k
  below : nb % 2 ^ k ≡ 2 ^ k - 1 - b % 2 ^ k
  nibble : nb % 2 ^ 4 ≡ 15 - b % 16

module _ (k a b nb : ℕ) (bw : Bool) (h : 3 ≤ k) (comp : IsComplement k b nb) where
  abbrev t : Sum
  t = carry_chain a nb (not bw) (suc k)

  abbrev r : ℕ
  r = bit_and t.sum (2 ^ suc k - 1)

  facts : SumFacts a nb (not bw) (suc k) t
  facts = carry_chain-facts a nb (not bw) (suc k) (omega arith)

  double : 2 ^ suc k ≡ 2 * 2 ^ k
  double = omega (arith, pow-suc 2 k)

  b-lt : b % 2 ^ suc k < 2 * 2 ^ k
  b-lt = omega (arith, double, mod-lt b (two-pow_pos (suc k)))

  masked : r ≡ (a % 2 ^ suc k + (2 * 2 ^ k - 1 - b % 2 ^ suc k) + nat (not bw)) % 2 ^ suc k
  masked =
      bit_and_mask (suc k) t.sum
      ∙ (ap (λ (u : ℕ). u % 2 ^ suc k) facts.sum
          ∙ (mod-mod (low_sum a nb (not bw) (suc k)) (2 ^ suc k)
              ∙ ap (λ (u : ℕ). (a % 2 ^ suc k + u + nat (not bw)) % 2 ^ suc k) comp.whole))

  carry_out :
      t.cout ≡ leb (2 * 2 ^ k) (a % 2 ^ suc k + (2 * 2 ^ k - 1 - b % 2 ^ suc k) + nat (not bw))
  carry_out =
      rw (facts.cout, comp.whole)
        (ap (λ (u : ℕ). leb u (a % 2 ^ suc k + (2 * 2 ^ k - 1 - b % 2 ^ suc k) + nat (not bw)))
          double)

  carry_in : t.cmsbin ≡ leb (2 ^ k) (a % 2 ^ k + (2 ^ k - 1 - b % 2 ^ k) + nat (not bw))
  carry_in = let pred : suc k - 1 ≡ k = omega arith in rw (facts.into, pred, comp.below)

  half_out : not t.c4 ≡ ltb (a % 16) (b % 16 + nat bw)
  half_out = rw (facts.half, comp.nibble) (same_borrow (a % 16) (b % 16) 16 bw (omega arith))

  split_a : a % 2 ^ suc k ≡ a % 2 ^ k + a / 2 ^ k % 2 * 2 ^ k
  split_a = mod-two-pow-suc k a

  split_b : b % 2 ^ suc k ≡ b % 2 ^ k + b / 2 ^ k % 2 * 2 ^ k
  split_b = mod-two-pow-suc k b

  -- The total that `carry_chain` adds up, with the sign bits taken off.
  abbrev halves : ℕ
  halves =
      (a % 2 ^ k + a / 2 ^ k % 2 * 2 ^ k)
      + (2 * 2 ^ k - 1 - (b % 2 ^ k + b / 2 ^ k % 2 * 2 ^ k))
      + nat (not bw)

  room : halves < 2 * (2 * 2 ^ k)
  room =
      omega (arith, split_a, split_b, double, nat-le (not bw), mod-lt a (two-pow_pos (suc k)), b-lt)

  wrapped : r ≡ (if leb (2 * 2 ^ k) halves then halves - 2 * 2 ^ k else halves)
  wrapped = rw (masked, split_a, split_b, double) (wrap_once (2 * 2 ^ k) halves room)

  overflow_out :
      bne t.cout t.cmsbin
      ≡ bne
          (leb (2 * 2 ^ k) halves)
          (leb (2 ^ k) (a % 2 ^ k + (2 ^ k - 1 - b % 2 ^ k) + nat (not bw)))
  overflow_out = rw (carry_out, carry_in, split_a, split_b)

  signs : (bne t.cout t.cmsbin ≡ false) ↔ (
      signed (2 ^ k) r
      ≡ signed (2 ^ k) (a % 2 ^ suc k) -ℤ signed (2 ^ k) (b % 2 ^ suc k) -ℤ pos (nat bw))
  signs =
      rw (split_a, split_b, overflow_out)
        (borrow_overflow (2 ^ k) (a % 2 ^ k) (b % 2 ^ k) (a / 2 ^ k % 2) (b / 2 ^ k % 2) bw
          (mod-lt a (two-pow_pos k)) (mod-lt b (two-pow_pos k)) (omega arith) (omega arith) r
          wrapped)

  sub-IsDifference :
      (f : ℕ)
      → HasFlags f (not t.cout) (r == 0) (has (shr r k) 1) (bne t.cout t.cmsbin) (not t.c4)
      → IsDifference k a b bw r f
  sub-IsDifference f flags = record {
    value =
        masked
        ∙ ap (λ (u : ℕ). u % 2 ^ suc k)
            (same_total (a % 2 ^ suc k) (b % 2 ^ suc k) (2 * 2 ^ k) bw b-lt
              ∙ ap (λ (u : ℕ). a % 2 ^ suc k + u - (b % 2 ^ suc k + nat bw)) (sym double));
    borrow =
        rw (flags.is_c, carry_out)
          (same_borrow (a % 2 ^ suc k) (b % 2 ^ suc k) (2 * 2 ^ k) bw b-lt);
    is_zero = flags.is_z;
    sign = flags.is_s ∙ sign_test k r (rw masked (mod-lt _ (two-pow_pos (suc k))));
    overflows = rw flags.is_pv signs;
    half = flags.is_h ∙ half_out;
  }

complement-IsComplement :
    (b : ℕ) (w : Width) → IsComplement (top_bit w) b (bit_and (complement 64 b) (width_mask w))
complement-IsComplement b byte =
    rw (bit_and_mask 8 (complement 64 b))
      (record { whole = omega arith; below = omega arith; nibble = omega arith })
complement-IsComplement b word =
    rw (bit_and_mask 16 (complement 64 b))
      (record { whole = omega arith; below = omega arith; nibble = omega arith })
complement-IsComplement b long =
    rw (bit_and_mask 32 (complement 64 b))
      (record { whole = omega arith; below = omega arith; nibble = omega arith })

-- Setting DA after a byte subtraction leaves the other flags alone.
marked-HasFlags :
    (w : Width) (c z s v h : Bool) → HasFlags (mark_sub w (arith_flags c z s v h)) c z s v h
unfolding arith_flags
marked-HasFlags byte c z s v h = ground arith
marked-HasFlags _ c z s v h = arith_flags-HasFlags c z s v h

-- SUB, SBC and CP, at every width and for all operands: `do_sub` returns the difference of the low
-- bits of the operands and the borrow, modulo two to the width; C is the unsigned borrow, Z and S are
-- read off the value, H is the borrow out of bit 3, and PV is clear exactly when the two's complement
-- readings subtract with no overflow.
pub do_sub-IsDifference :
    (a b : ℕ) (borrow : Bool) (w : Width)
    → IsDifference (top_bit w) a b borrow (do_sub a b borrow w).value (do_sub a b borrow w).flags
unfolding do_sub
do_sub-IsDifference a b borrow byte =
    sub-IsDifference 7 a b _ borrow (omega arith) (complement-IsComplement b byte) _
      (marked-HasFlags byte _ _ _ _ _)
do_sub-IsDifference a b borrow word =
    sub-IsDifference 15 a b _ borrow (omega arith) (complement-IsComplement b word) _
      (marked-HasFlags word _ _ _ _ _)
do_sub-IsDifference a b borrow long =
    sub-IsDifference 31 a b _ borrow (omega arith) (complement-IsComplement b long) _
      (marked-HasFlags long _ _ _ _ _)
