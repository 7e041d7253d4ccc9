-- ===== src/Alu/Sum.antt =====
-- What `do_add` of src/alu.c promises: the sum at the width, and every flag.
use commodore_900_emulator.Base.{
  ℕ, zero, suc, ◌+◌, ◌-◌, ◌*◌, ◌/◌, ◌%◌, ◌^◌, ◌≤◌, ◌<◌, ◌≡◌, ◌↔◌, arith, Bool, false, not, ◌==◌,
  leb, nat, bne, has, shr, bit_and, if◌then◌else◌, sym, ap, ◌∙◌, dec_lt, bit_and-one, bit_and_mask,
  mod-two-pow-suc, two-pow_pos, nat-le, le→leb, lt→leb,
}
use native.Mathlib.Nat.{mod-lt, mod-eq_of_lt, mod-eq-sub-mod, pow-suc, mod-mod}
use commodore_900_emulator.Base.Int.{pos, ◌+ℤ◌, signed}
use commodore_900_emulator.Alu.Defs.{f_c, f_z, f_s, f_pv, f_h, Width, byte, word, long}
use commodore_900_emulator.Alu.Carry.{Sum, carry_chain, arith_flags, do_add}
use commodore_900_emulator.Alu.Adder.{low_sum, carry_chain-facts}

-- Each flag is read back from the word that `f |= ...` builds.
pub record HasFlags (f : ℕ) (c z s v h : Bool) : Type 0 where
  pub is_c : has f f_c ≡ c
  pub is_z : has f f_z ≡ z
  pub is_s : has f f_s ≡ s
  pub is_pv : has f f_pv ≡ v
  pub is_h : has f f_h ≡ h

pub arith_flags-HasFlags : (c z s v h : Bool) → HasFlags (arith_flags c z s v h) c z s v h
unfolding arith_flags
arith_flags-HasFlags c z s v h = ground arith

-- The carry out and the carry into the sign bit differ exactly when the signed sum does not fit.
-- `x` and `y` are the sign bits, `p` and `q` the rest, and `g` is the weight of the sign.
pub overflow :
    (g p q x y : ℕ) (cin : Bool)
    → p < g
    → q < g
    → x < 2
    → y < 2
    → (v : ℕ)
    → let t = (p + x * g) + (q + y * g) + nat cin in
      (v ≡ (if leb (2 * g) t then t - 2 * g else t))
      → (bne (leb (2 * g) t) (leb g (p + q + nat cin)) ≡ false)
        ↔ (signed g v ≡ signed g (p + x * g) +ℤ signed g (q + y * g) +ℤ pos (nat cin))
unfolding ◌+ℤ◌
overflow g p q zero zero cin hp hq hx hy v e = ground arith
overflow g p q zero (suc zero) cin hp hq hx hy v e = ground arith
overflow g p q (suc zero) zero cin hp hq hx hy v e = ground arith
overflow g p q (suc zero) (suc zero) cin hp hq hx hy v e = ground arith
overflow g p q x y cin hp hq hx hy v e = absurd (omega arith)

-- The word `r` with the flags `f` is the sum of the low `k + 1` bits of `a` and `b` and of the
-- carry: the value, the carry out, the zero and sign tests, the signed overflow (PV is clear exactly
-- when the signed reading of `r` is the sum of the signed readings) and the carry out of bit 3.
pub record IsSum (k a b : ℕ) (cin : Bool) (r f : ℕ) : Type 0 where
  pub value : r ≡ low_sum a b cin (suc k) % 2 ^ suc k
  pub carry : has f f_c ≡ leb (2 ^ suc k) (low_sum a b cin (suc k))
  pub is_zero : has f f_z ≡ (r == 0)
  pub sign : has f f_s ≡ leb (2 ^ k) r
  pub overflows : (has f f_pv ≡ false) ↔ (
      signed (2 ^ k) r
      ≡ signed (2 ^ k) (a % 2 ^ suc k) +ℤ signed (2 ^ k) (b % 2 ^ suc k) +ℤ pos (nat cin))
  pub half : has f f_h ≡ leb 16 (low_sum a b cin 4)

pub sign_test : (k r : ℕ) → r < 2 ^ suc k → has (shr r k) 1 ≡ leb (2 ^ k) r
sign_test k r h = rw (bit_and-one (r / 2 ^ k)) (
    top (r / 2 ^ k % 2) (r % 2 ^ k) (omega arith) (mod-lt r (two-pow_pos k))
      (sym (mod-eq_of_lt h) ∙ mod-two-pow-suc k r))
  where
    top : (d p : ℕ) → d < 2 → p < 2 ^ k → r ≡ p + d * 2 ^ k → not (d == 0) ≡ leb (2 ^ k) r
    top zero p hd hp e = ground arith
    top (suc zero) p hd hp e = ground arith
    top (suc (suc d)) p hd hp e = absurd (omega arith)

-- A sum below twice the modulus loses it once at most.
pub wrap_once : (m t : ℕ) → t < 2 * m → t % m ≡ (if leb m t then t - m else t)
wrap_once m t h = elim (dec_lt t m) [
  | yes below ↦ rw (lt→leb m t below) (mod-eq_of_lt below)
  | no above ↦
      rw (le→leb m t (omega arith)) (mod-eq-sub-mod (omega arith) ∙ mod-eq_of_lt (omega arith))
]

-- The flags that `do_add` makes from the four results of `carry_chain`, at width `suc k`.
pub sum-IsSum :
    (k a b : ℕ) (cin : Bool)
    → 3 ≤ k
    → let t = carry_chain a b cin (suc k) in
      let r = bit_and t.sum (2 ^ suc k - 1) in
      IsSum k a b cin r (arith_flags t.cout (r == 0) (has (shr r k) 1) (bne t.cout t.cmsbin) t.c4)
sum-IsSum k a b cin h = record {
  value = masked;
  carry = flags.is_c ∙ cout;
  is_zero = flags.is_z;
  sign = flags.is_s ∙ sign_test k r small;
  overflows = rw (split_a, split_b, pv) signs;
  half = flags.is_h ∙ half;
}
  where
    t : Sum
    t = carry_chain a b cin (suc k)

    r : ℕ
    r = bit_and t.sum (2 ^ suc k - 1)

    open (carry_chain-facts a b cin (suc k) (omega arith)) use {sum, cout, half, into}

    f : ℕ
    f = arith_flags t.cout (r == 0) (has (shr r k) 1) (bne t.cout t.cmsbin) t.c4

    flags : HasFlags f t.cout (r == 0) (has (shr r k) 1) (bne t.cout t.cmsbin) t.c4
    flags = arith_flags-HasFlags t.cout (r == 0) (has (shr r k) 1) (bne t.cout t.cmsbin) t.c4

    masked : r ≡ low_sum a b cin (suc k) % 2 ^ suc k
    masked =
        bit_and_mask (suc k) t.sum
        ∙ (ap (λ (u : ℕ). u % 2 ^ suc k) sum ∙ mod-mod (low_sum a b cin (suc k)) (2 ^ suc k))

    small : r < 2 ^ suc k
    small = rw masked (mod-lt _ (two-pow_pos (suc k)))

    g : ℕ
    g = 2 ^ k

    split_a : a % 2 ^ suc k ≡ a % 2 ^ k + a / 2 ^ k % 2 * 2 ^ k
    split_a = mod-two-pow-suc k a

    split_b : b % 2 ^ suc k ≡ b % 2 ^ k + b / 2 ^ k % 2 * 2 ^ k
    split_b = mod-two-pow-suc k b

    halves : ℕ
    halves = a % 2 ^ k + a / 2 ^ k % 2 * 2 ^ k + (b % 2 ^ k + b / 2 ^ k % 2 * 2 ^ k) + nat cin

    double : 2 ^ suc k ≡ 2 * 2 ^ k
    double = omega (arith, pow-suc 2 k)

    pred : suc k - 1 ≡ k
    pred = omega arith

    pv : has f f_pv ≡ bne (leb (2 * 2 ^ k) halves) (leb (2 ^ k) (a % 2 ^ k + b % 2 ^ k + nat cin))
    pv = rw (flags.is_pv, cout, into, pred, split_a, split_b, double)

    room : halves < 2 * (2 * 2 ^ k)
    room = omega (
      arith,
      split_a,
      split_b,
      double,
      nat-le cin,
      mod-lt a (two-pow_pos (suc k)),
      mod-lt b (two-pow_pos (suc k)),
    )

    wrapped : r ≡ (if leb (2 * 2 ^ k) halves then halves - 2 * 2 ^ k else halves)
    wrapped = rw (masked, split_a, split_b, double) (wrap_once (2 * 2 ^ k) halves room)

    signs :
        (bne (leb (2 * 2 ^ k) halves) (leb (2 ^ k) (a % 2 ^ k + b % 2 ^ k + nat cin)) ≡ false) ↔ (
          signed (2 ^ k) r
          ≡ signed (2 ^ k) (a % 2 ^ k + a / 2 ^ k % 2 * 2 ^ k)
            +ℤ signed (2 ^ k) (b % 2 ^ k + b / 2 ^ k % 2 * 2 ^ k)
            +ℤ pos (nat cin))
    signs =
        overflow (2 ^ k) (a % 2 ^ k) (b % 2 ^ k) (a / 2 ^ k % 2) (b / 2 ^ k % 2) cin
          (mod-lt a (two-pow_pos k)) (mod-lt b (two-pow_pos k)) (omega arith) (omega arith) r
          wrapped

-- `nbits_of w - 1`
abbrev pub top_bit : Width → ℕ
top_bit byte = 7
top_bit word = 15
top_bit long = 31

-- ADD and ADC, at every width and for all operands: `do_add` returns the sum of the low bits of
-- both operands and the carry, modulo two to the width; C is the carry out, Z and S are read off the
-- value, H is the carry out of bit 3, and PV is clear exactly when the two's complement readings add
-- up with no overflow.
pub do_add-IsSum :
    (a b : ℕ) (carry : Bool) (w : Width)
    → IsSum (top_bit w) a b carry (do_add a b carry w).value (do_add a b carry w).flags
unfolding do_add
do_add-IsSum a b carry byte = sum-IsSum 7 a b carry (omega arith)
do_add-IsSum a b carry word = sum-IsSum 15 a b carry (omega arith)
do_add-IsSum a b carry long = sum-IsSum 31 a b carry (omega arith)
