-- ===== src/Alu/Carry.antt =====
-- `carry_chain`, the ripple-carry adder of src/alu.c, and `do_add` and `do_sub` on top of it.
use commodore_900_emulator.Base.{
  ℕ, ◌-◌, Bool, false, not, bit_and, bit_or, bit_xor, ◌==◌, if◌then◌else◌, nat, bne, shl, shr, has,
  or_if, for_loop, complement,
}
use commodore_900_emulator.Alu.Defs.{
  f_c, f_z, f_s, f_pv, f_da, f_h, Width, byte, AluResult, nbits_of, width_mask,
}

-- The variables of the loop, `result` and the three exported carries.
pub record Ripple : Type 0 where
  pub c : ℕ
  pub result : ℕ
  pub c4 : Bool
  pub cmsbin : Bool

-- The body of the loop at bit `i`.
unfoldable pub ripple : ℕ → ℕ → ℕ → ℕ → Ripple → Ripple
ripple a b nbits i s =
    let ai = bit_and (shr a i) 1 in
    let bi = bit_and (shr b i) 1 in
    let c' = bit_or (bit_or (bit_and ai bi) (bit_and bi s.c)) (bit_and ai s.c) in
    record {
      c = c';
      result = bit_or s.result (shl (bit_xor (bit_xor ai bi) s.c) i);
      c4 = if i == 3 then not (c' == 0) else s.c4;
      cmsbin = if i == nbits - 1 then not (s.c == 0) else s.cmsbin;
    }

abbrev pub ripple_start : Bool → Ripple
ripple_start cin = record { c = nat cin; result = 0; c4 = false; cmsbin = false }

-- The sum with its carries: `cout` is `c != 0` at the end.
pub record Sum : Type 0 where
  pub sum : ℕ
  pub cout : Bool
  pub c4 : Bool
  pub cmsbin : Bool

unfoldable pub carry_chain : ℕ → ℕ → Bool → ℕ → Sum
unfolding ripple for_loop
carry_chain a b cin nbits =
    let s = for_loop nbits (ripple a b nbits) (ripple_start cin) in
    record { sum = s.result; cout = not (s.c == 0); c4 = s.c4; cmsbin = s.cmsbin }

-- `if (c) f |= F_C; if (z) f |= F_Z; ...` from `f = 0`, in the order of `do_add` and `do_sub`.
unfoldable pub arith_flags : Bool → Bool → Bool → Bool → Bool → ℕ
arith_flags c z s v h = or_if h f_h (or_if v f_pv (or_if s f_s (or_if z f_z (or_if c f_c 0))))

-- `fm`, with DA and H for a byte.
abbrev pub arith_mask : Width → ℕ
arith_mask byte = bit_or (bit_or (bit_or (bit_or f_c f_z) f_s) f_pv) (bit_or f_da f_h)
arith_mask _ = bit_or (bit_or (bit_or f_c f_z) f_s) f_pv

unfoldable pub do_add : ℕ → ℕ → Bool → Width → AluResult
unfolding arith_flags
do_add a b carry w =
    let nb = nbits_of w in
    let t = carry_chain a b carry nb in
    let r = bit_and t.sum (width_mask w) in
    record {
      value = r;
      flags = arith_flags t.cout (r == 0) (has (shr r (nb - 1)) 1) (bne t.cout t.cmsbin) t.c4;
      mask = arith_mask w;
    }

-- A byte subtraction also sets DA.
abbrev pub mark_sub : Width → ℕ → ℕ
mark_sub byte f = bit_or f f_da
mark_sub _ f = f

unfoldable pub do_sub : ℕ → ℕ → Bool → Width → AluResult
unfolding arith_flags
do_sub a b borrow w =
    let nb = nbits_of w in
    let notb = bit_and (complement 64 b) (width_mask w) in
    let t = carry_chain a notb (not borrow) nb in
    let r = bit_and t.sum (width_mask w) in
    record {
      value = r;
      flags = mark_sub w (
          arith_flags (not t.cout) (r == 0) (has (shr r (nb - 1)) 1) (bne t.cout t.cmsbin)
            (not t.c4));
      mask = arith_mask w;
    }
