-- ===== src/Alu/Adder.antt =====
-- The ripple-carry adder of src/alu.c is addition: the sum, the carry out, the carry out of bit 3
-- and the carry into the sign bit, at every width.
use commodore_900_emulator.Base.{
  ℕ, zero, suc, ◌+◌, ◌-◌, ◌*◌, ◌/◌, ◌%◌, ◌^◌, ◌≤◌, ◌<◌, ◌≡◌, arith, Bool, not, bit_and, bit_or,
  bit_xor, ◌==◌, leb, nat, shl, shr, for_loop, for_loop_inv, Bool-cases, if◌then◌else◌, inl, inr,
  bit_and-one, bit_or_high, bit_xor_digits, majority_digits, mod-two-pow-suc, ==_iff, eq→==,
}
use mathlib.Core.Path.{ap, subst, sym}
use native.Mathlib.Nat.{pow-suc, le_refl, mod-eq_of_lt, add-mul-mod_self_right}
use commodore_900_emulator.Alu.Carry.{Ripple, ripple, ripple_start, Sum, carry_chain}

-- A sum of remainders by `2 ^ k` with the carry in: what the low `k` bits add up to.
abbrev pub low_sum : ℕ → ℕ → Bool → ℕ → ℕ
low_sum a b cin k = a % 2 ^ k + b % 2 ^ k + nat cin

-- The loop after `k` of its rounds.
record IsRippled (a b : ℕ) (cin : Bool) (nbits k : ℕ) (s : Ripple) : Type 0 where
  digit : s.c < 2
  fits : s.result < 2 ^ k
  total : s.result + s.c * 2 ^ k ≡ low_sum a b cin k
  half : 4 ≤ k → s.c4 ≡ leb 16 (low_sum a b cin 4)
  into : nbits ≤ k → s.cmsbin ≡ leb (2 ^ (nbits - 1)) (low_sum a b cin (nbits - 1))

-- One bit position: the digits of `a` and `b` and the carry make a digit and the next carry.
full_adder :
    (a b i c : ℕ)
    → c < 2
    → let ai = bit_and (shr a i) 1 in
      let bi = bit_and (shr b i) 1 in
      let c' = bit_or (bit_or (bit_and ai bi) (bit_and bi c)) (bit_and ai c) in
      (c' ≡ (a / 2 ^ i % 2 + b / 2 ^ i % 2 + c) / 2)
      × (bit_xor (bit_xor ai bi) c ≡ (a / 2 ^ i % 2 + b / 2 ^ i % 2 + c) % 2)
full_adder a b i c h =
    rw (bit_and-one (a / 2 ^ i), bit_and-one (b / 2 ^ i))
      (
        majority_digits (a / 2 ^ i % 2) (b / 2 ^ i % 2) c (omega arith) (omega arith) h,
        bit_xor_digits (a / 2 ^ i % 2) (b / 2 ^ i % 2) c (omega arith) (omega arith) h,
      )

-- A carry is there exactly when the sum below reaches it.
carry_there : (c r p t : ℕ) → c < 2 → r < p → r + c * p ≡ t → not (c == 0) ≡ leb p t
carry_there zero r p t h k e = ground arith
carry_there (suc zero) r p t h k e = ground arith
carry_there (suc (suc c)) r p t h k e = absurd (omega arith)

digit_weight : (d p : ℕ) → d < 2 → d * p ≤ p
digit_weight zero p h = omega arith
digit_weight (suc zero) p h = omega arith
digit_weight (suc (suc d)) p h = absurd (omega arith)

module _ (a b : ℕ) (cin : Bool) (nbits : ℕ) where
  start-IsRippled : 0 < nbits → IsRippled a b cin nbits 0 (ripple_start cin)
  start-IsRippled pos = record {
    digit = ground arith;
    fits = omega arith;
    total = ground arith;
    half = λ h. absurd (omega arith);
    into = λ h. absurd (omega arith);
  }

  -- The state that the next digit `d` and the next carry `c'` make.
  next-IsRippled :
      (i : ℕ) (s : Ripple) (c' d : ℕ)
      → i < nbits
      → IsRippled a b cin nbits i s
      → c' ≡ (a / 2 ^ i % 2 + b / 2 ^ i % 2 + s.c) / 2
      → d ≡ (a / 2 ^ i % 2 + b / 2 ^ i % 2 + s.c) % 2
      → IsRippled a b cin nbits (suc i) (record {
        c = c';
        result = bit_or s.result (shl d i);
        c4 = if i == 3 then not (c' == 0) else s.c4;
        cmsbin = if i == nbits - 1 then not (s.c == 0) else s.cmsbin;
      })
  next-IsRippled i s c' d lt inv ec ed = record {
    digit = digit';
    fits = fits';
    total = total';
    half = half';
    into = into';
  }
    where
      open inv use {digit, fits, total}

      join : bit_or s.result (shl d i) ≡ s.result + d * 2 ^ i
      join = bit_or_high i d s.result fits

      digit' : c' < 2
      digit' = omega arith

      weight : d * 2 ^ i ≤ 2 ^ i
      weight = digit_weight d (2 ^ i) (omega arith)

      fits' : bit_or s.result (shl d i) < 2 ^ suc i
      fits' = omega (arith, join, pow-suc 2 i, weight)

      split : c' * 2 + d ≡ a / 2 ^ i % 2 + b / 2 ^ i % 2 + s.c
      split = omega arith

      total' : bit_or s.result (shl d i) + c' * 2 ^ suc i ≡ low_sum a b cin (suc i)
      total' = omega (
        arith,
        join,
        ap (λ (t : ℕ). c' * t) (pow-suc 2 i),
        ap (λ (t : ℕ). t * 2 ^ i) split,
        mod-two-pow-suc i a,
        mod-two-pow-suc i b,
      )

      half' : 4 ≤ suc i → (if i == 3 then not (c' == 0) else s.c4) ≡ leb 16 (low_sum a b cin 4)
      half' h = elim (Bool-cases (i == 3)) [
        | inl e ↦ rw e (at_three ((==_iff i 3).0 e))
        | inr e ↦ rw e (inv.half (ground arith))
      ]
        where
          at_three : i ≡ 3 → not (c' == 0) ≡ leb 16 (low_sum a b cin 4)
          at_three e =
              carry_there c' (bit_or s.result (shl d i)) 16 (low_sum a b cin 4) digit'
                (subst (λ k. bit_or s.result (shl d i) < 2 ^ suc k) e fits')
                (subst (λ k. bit_or s.result (shl d i) + c' * 2 ^ suc k ≡ low_sum a b cin (suc k)) e
                  total')

      into' :
          nbits ≤ suc i
          → (if i == nbits - 1 then not (s.c == 0) else s.cmsbin)
            ≡ leb (2 ^ (nbits - 1)) (low_sum a b cin (nbits - 1))
      into' h =
          let e : i ≡ nbits - 1 = omega arith in
          rw (eq→== i (nbits - 1) e, ← e)
            (carry_there s.c s.result (2 ^ i) (low_sum a b cin i) digit fits total)

  ripple-IsRippled :
      (i : ℕ) (s : Ripple)
      → i < nbits
      → IsRippled a b cin nbits i s
      → IsRippled a b cin nbits (suc i) (ripple a b nbits i s)
  unfolding ripple
  ripple-IsRippled i s lt inv =
      let (carry, digit) = full_adder a b i s.c inv.digit in
      next-IsRippled i s _ _ lt inv carry digit

  -- The whole loop.
  loop-IsRippled :
      0 < nbits
      → IsRippled a b cin nbits nbits (for_loop nbits (ripple a b nbits) (ripple_start cin))
  loop-IsRippled pos =
      for_loop_inv (IsRippled a b cin nbits) nbits (ripple a b nbits) (ripple_start cin)
        ripple-IsRippled (start-IsRippled pos)

-- What `carry_chain` returns: the remainder of the sum of the low `nbits` bits of `a` and `b` and
-- the carry in, and the three carries.
pub record SumFacts (a b : ℕ) (cin : Bool) (nbits : ℕ) (t : Sum) : Type 0 where
  pub sum : t.sum ≡ low_sum a b cin nbits % 2 ^ nbits
  pub cout : t.cout ≡ leb (2 ^ nbits) (low_sum a b cin nbits)
  pub half : t.c4 ≡ leb 16 (low_sum a b cin 4)
  pub into : t.cmsbin ≡ leb (2 ^ (nbits - 1)) (low_sum a b cin (nbits - 1))

-- The bit-serial loop computes the sum and the three carries, for at least four bits.
pub carry_chain-facts :
    (a b : ℕ) (cin : Bool) (nbits : ℕ)
    → 4 ≤ nbits
    → SumFacts a b cin nbits (carry_chain a b cin nbits)
unfolding carry_chain
carry_chain-facts a b cin nbits h = record {
  sum = remainder s.c s.result (2 ^ nbits) _ fits total;
  cout = carry_there s.c s.result (2 ^ nbits) _ digit fits total;
  half = inv.half h;
  into = inv.into (le_refl nbits);
}
  where
    s : Ripple
    s = for_loop nbits (ripple a b nbits) (ripple_start cin)

    inv : IsRippled a b cin nbits nbits s
    inv = loop-IsRippled a b cin nbits (omega arith)

    open inv use {digit, fits, total}

    remainder : (c r p t : ℕ) → r < p → r + c * p ≡ t → r ≡ t % p
    remainder c r p t lt e = rw (← e, add-mul-mod_self_right r c p) (sym (mod-eq_of_lt lt))
