-- ===== src/Alu/Unary.antt =====
-- `do_neg`, `do_inc`, `do_dec` and `do_dab` of src/alu.c.
use commodore_900_emulator.Base.{
  ℕ, ◌+◌, ◌-◌, ◌^◌, Bool, true, not, ◌&&◌, ◌||◌, bit_and, bit_or, bit_xor, ◌==◌, ltb, if◌then◌else◌,
  u8, shr, has, or_if,
}
use commodore_900_emulator.Alu.Defs.{
  f_c, f_z, f_s, f_pv, Width, byte, word, long, AluResult, nbits_of, cast, logic,
}

-- The weight of the sign bit: 0x80, 0x8000 or 0x80000000.
abbrev pub sign_of : Width → ℕ
sign_of byte = 0x80
sign_of word = 0x8000
sign_of long = 0x80000000

-- The three branches of the source differ in the casts and in the sign bit alone. `-x` cast to the
-- width is `2 ^ n - x` in it.
unfoldable pub do_neg : ℕ → Width → AluResult
do_neg a w =
    let x = cast w a in
    let v = cast w (2 ^ nbits_of w - x) in
    record {
      value = v;
      flags =
          or_if (x == sign_of w) f_pv
            (or_if (has v (sign_of w)) f_s (or_if (v == 0) f_z (or_if (not (x == 0)) f_c 0)));
      mask = bit_or (bit_or (bit_or f_c f_z) f_s) f_pv;
    }

-- INC and DEC know a byte form and a word form, which serves a long width too.
abbrev inc_width : Width → Width
inc_width byte = byte
inc_width _ = word

unfoldable pub do_inc : ℕ → ℕ → Width → AluResult
do_inc a n w =
    let w' = inc_width w in
    let av = cast w' a in
    let nb = cast w' n in
    let v = cast w' (av + nb) in
    record {
      value = v;
      flags =
          or_if ((bit_and (bit_xor av nb) (sign_of w') == 0) && has (bit_xor av v) (sign_of w'))
            f_pv (or_if (has v (sign_of w')) f_s (or_if (v == 0) f_z 0));
      mask = bit_or (bit_or f_z f_s) f_pv;
    }

unfoldable pub do_dec : ℕ → ℕ → Width → AluResult
do_dec a n w =
    let w' = inc_width w in
    let av = cast w' a in
    let nb = cast w' n in
    let v = cast w' (av + 2 ^ nbits_of w' - nb) in
    record {
      value = v;
      flags =
          or_if (has (bit_xor av nb) (sign_of w') && has (bit_xor av v) (sign_of w')) f_pv
            (or_if (has v (sign_of w')) f_s (or_if (v == 0) f_z 0));
      mask = bit_or (bit_or f_z f_s) f_pv;
    }

-- `val` and `c` after each of the two corrections.
pub record Adjust : Type 0 where
  pub val : ℕ
  pub c : Bool

unfoldable pub fix_low : Bool → Adjust → Adjust
fix_low hflag s =
    if ltb 9 (bit_and s.val 0x0F) || hflag
    then (let v = u8 (s.val + 0x06) in
        record { val = v; c = if bit_and v 0xF0 == 0 then true else s.c })
    else s

unfoldable pub fix_high : Adjust → Adjust
fix_high s = if ltb 9 (shr s.val 4) || s.c then record { val = u8 (s.val + 0x60); c = true } else s

unfoldable pub do_dab : ℕ → Bool → Bool → AluResult
unfolding fix_low fix_high
do_dab a hflag cin =
    let s = fix_high (fix_low hflag (record { val = u8 a; c = cin })) in
    let r = logic s.val byte (bit_or (bit_or f_c f_z) f_s) in
    record { value = s.val; flags = or_if s.c f_c r.flags; mask = r.mask }
