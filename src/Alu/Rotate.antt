-- ===== src/Alu/Rotate.antt =====
-- `do_rotate` of src/alu.c.
use commodore_900_emulator.Base.{
  ℕ, Bool, bit_and, bit_or, bit_xor, ◌==◌, if◌then◌else◌, shl, shr, has, or_if, for_loop,
}
use commodore_900_emulator.Alu.Defs.{f_c, f_z, f_s, f_pv, Width, AluResult, width_mask, logic}
use commodore_900_emulator.Alu.Shift.{without, sign_bit}

pub record Rotor : Type 0 where
  pub val : ℕ
  pub c : Bool

-- One place: the bit that leaves, or with `thru` the old carry, enters at the other end.
unfoldable pub rotate_left : Bool → Width → Rotor → Rotor
rotate_left thru w s =
    let msb = has s.val (sign_bit w) in
    let v = bit_and (shl s.val 1) (width_mask w) in
    record { val = or_if (if thru then s.c else msb) 1 v; c = msb }

unfoldable pub rotate_right : Bool → Width → Rotor → Rotor
rotate_right thru w s =
    let lsb = has s.val 1 in
    record { val = or_if (if thru then s.c else lsb) (sign_bit w) (shr s.val 1); c = lsb }

unfoldable pub do_rotate : ℕ → ℕ → Bool → Bool → Bool → Width → AluResult
unfolding rotate_left rotate_right for_loop
do_rotate a cnt right thru cin w =
    let n = bit_and cnt 0x3F in
    let n = if n == 0 then 1 else n in
    let orig = bit_and a (width_mask w) in
    let s =
      for_loop n (λ _ t. if right then rotate_right thru w t else rotate_left thru w t)
        (record { val = orig; c = cin }) in
    let r = logic s.val w (bit_or (bit_or (bit_or f_c f_z) f_s) f_pv) in
    record {
      value = s.val;
      flags =
          or_if (has (bit_xor s.val orig) (sign_bit w)) f_pv (or_if s.c f_c (without f_pv r.flags));
      mask = r.mask;
    }
