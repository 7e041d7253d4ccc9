-- ===== src/Alu/Shift.antt =====
-- `do_shift_left` and `do_shift_right` of src/alu.c.
use commodore_900_emulator.Base.{
  ℕ, ◌-◌, Bool, true, false, ◌&&◌, bit_and, bit_or, ◌==◌, if◌then◌else◌, shl, shr, has, or_if,
  for_loop, complement,
}
use commodore_900_emulator.Alu.Defs.{
  f_c, f_z, f_s, f_pv, Width, AluResult, nbits_of, width_mask, logic,
}

-- `f & ~F_PV`, and `mask & ~F_C`.
abbrev pub without : ℕ → ℕ → ℕ
without m f = bit_and f (complement 16 m)

abbrev pub sign_bit : Width → ℕ
sign_bit w = shl 1 (nbits_of w - 1)

-- The variables of a shift loop.
pub record Shifter : Type 0 where
  pub val : ℕ
  pub cout : Bool
  pub ovf : Bool

-- One place to the left. A word stays below 2 ^ 32, so that the shift does not leave 64 bits.
unfoldable pub left_step : ℕ → Width → Shifter → Shifter
left_step orig w s =
    let v = bit_and (shl s.val 1) (width_mask w) in
    record {
      val = v;
      cout = has s.val (sign_bit w);
      ovf = if bit_and v (sign_bit w) == bit_and orig (sign_bit w) then s.ovf else true;
    }

unfoldable pub do_shift_left : ℕ → ℕ → Bool → Width → AluResult
unfolding left_step for_loop
do_shift_left a cnt arith w =
    let n = bit_and cnt 0x3F in
    let mask = bit_or (bit_or f_c f_z) f_s in
    let mask = if arith then bit_or mask f_pv else mask in
    let mask = if n == 0 then without f_c mask else mask in
    let orig = bit_and a (width_mask w) in
    let s = for_loop n (λ _. left_step orig w) (record { val = orig; cout = false; ovf = false }) in
    let r = logic s.val w mask in
    record {
      value = s.val;
      flags = or_if (arith && s.ovf) f_pv (or_if s.cout f_c (without f_pv r.flags));
      mask = r.mask;
    }

-- One place to the right: with zero fill, and with the sign replicated.
unfoldable pub logical_step : Shifter → Shifter
logical_step s = record s { val = shr s.val 1; cout = has s.val 1 }

unfoldable pub arith_step : Width → Shifter → Shifter
arith_step w s = record s {
  val = bit_or (shr s.val 1) (bit_and s.val (sign_bit w));
  cout = has s.val 1;
}

-- The first loop of the source runs for both forms, and the arithmetic form then starts again.
unfoldable pub do_shift_right : ℕ → ℕ → Bool → Width → AluResult
unfolding logical_step arith_step for_loop
do_shift_right a cnt arith w =
    let n = bit_and cnt 0x3F in
    let mask = bit_or (bit_or f_c f_z) f_s in
    let mask = if arith then bit_or mask f_pv else mask in
    let mask = if n == 0 then without f_c mask else mask in
    let start : Shifter = record { val = bit_and a (width_mask w); cout = false; ovf = false } in
    let s =
      if arith
      then for_loop n (λ _. arith_step w) start
      else for_loop n (λ _. logical_step) start in
    let r = logic (bit_and s.val (width_mask w)) w mask in
    let f = if arith then without f_pv r.flags else r.flags in
    record { value = bit_and s.val (width_mask w); flags = or_if s.cout f_c f; mask = r.mask }
