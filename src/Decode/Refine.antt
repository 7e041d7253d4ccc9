-- ===== src/Decode/Refine.antt =====
-- The sub-decoders of src/decode.c, from `sub_3A` to `sub_B8`.
use commodore_900_emulator.Base.{
  ℕ, Bool, true, false, not, ◌&&◌, ◌||◌, ◌==◌, leb, ltb, if◌then◌else◌, bit_and, has, shr, List,
  Option, none, some,
}
use mathlib.Core.Option.{map}
use commodore_900_emulator.Alu.{AluOp, Width}
use commodore_900_emulator.Cpu.{CtrlWord, InstrClass, SrcSel, DstSel, RegSel, MpOpKind, nib2, nib3}
use commodore_900_emulator.Decode.Slot.{cw, SubFn, entry}
use commodore_900_emulator.Decode.Tables.{tbl_8c, tbl_8d, tbl_0c, tbl_0d, tbl_4c, tbl_4d}
use commodore_900_emulator.Decode.PortTable.{tbl_3a, tbl_3b}
use commodore_900_emulator.Decode.ShiftTable.{tbl_b2, tbl_b3}
use commodore_900_emulator.Decode.BlockTable.{tbl_ba, tbl_bb, tbl_b8, tbl_diei}

-- An entry of a table of pairs, the second if `b`; the word after the first has to be there.
unfoldable pub paired : List (ℕ × (CtrlWord × CtrlWord)) → ℕ → Bool → ℕ → Option CtrlWord
unfolding entry
paired t i b n = if ltb n 1 then none else map (λ p. if b then p.1 else p.0) (entry i t)

unfoldable pub sub_3a : SubFn
unfolding paired
sub_3a op w n = paired tbl_3a (nib3 op) (bit_and (w 0) 0x0F == 8) n

unfoldable pub sub_3b : SubFn
unfolding paired
sub_3b op w n = paired tbl_3b (nib3 op) (bit_and (w 0) 0x0F == 8) n

abbrev odd_b2 : ℕ → Bool
odd_b2 i = (i == 0x01) || (i == 0x03) || (i == 0x09) || (i == 0x0B)

abbrev odd_b3 : ℕ → Bool
odd_b3 i = has i 1

unfoldable pub sub_b2 : SubFn
unfolding entry
sub_b2 op w n = if odd_b2 (nib3 op) && ltb n 1 then none else entry (nib3 op) tbl_b2

unfoldable pub sub_b3 : SubFn
unfolding entry
sub_b3 op w n = if odd_b3 (nib3 op) && ltb n 1 then none else entry (nib3 op) tbl_b3

unfoldable pub sub_ba : SubFn
unfolding paired
sub_ba op w n = paired tbl_ba (nib3 op) (has (w 0) 0x08) n

unfoldable pub sub_bb : SubFn
unfolding paired
sub_bb op w n = paired tbl_bb (nib3 op) (has (w 0) 0x08) n

-- The operand of the blocks 0x4C and 0x4D.
abbrev s2_of : ℕ → SrcSel
s2_of op = if nib2 op == 0 then SrcSel.src_da else SrcSel.src_x

abbrev dm_of : ℕ → DstSel
dm_of op = if nib2 op == 0 then DstSel.dst_da else DstSel.dst_x

unfoldable pub sub_4c : SubFn
unfolding entry
sub_4c op w n = entry (nib3 op) (tbl_4c (s2_of op) (dm_of op))

unfoldable pub sub_4d : SubFn
unfolding entry
sub_4d op w n = entry (nib3 op) (tbl_4d (s2_of op) (dm_of op))

unfoldable pub sub_0c : SubFn
unfolding entry
sub_0c op w n = entry (nib3 op) tbl_0c

unfoldable pub sub_0d : SubFn
unfolding entry
sub_0d op w n = entry (nib3 op) tbl_0d

unfoldable pub sub_8c : SubFn
unfolding entry
sub_8c op w n = entry (nib3 op) tbl_8c

unfoldable pub sub_8d : SubFn
unfolding entry
sub_8d op w n = entry (nib3 op) (tbl_8d (nib2 op))

abbrev test_long : CtrlWord
test_long = record cw { exec = InstrClass.unified; alu_op = AluOp.test; width = Width.long }

unfoldable pub sub_9c : SubFn
sub_9c op w n =
    if nib3 op == 0x08
    then some (record test_long {
      src1_nib = RegSel.nib2_sel;
      src2 = SrcSel.src_none;
      dst = DstSel.dst_none;
    })
    else none

unfoldable pub sub_b1 : SubFn
sub_b1 op w n =
    if nib3 op == 0x00
    then some (record cw { exec = InstrClass.exts; width = Width.byte })
    else if nib3 op == 0x07
    then some (record cw { exec = InstrClass.exts; width = Width.long })
    else if nib3 op == 0x0A
    then some (record cw { exec = InstrClass.exts; width = Width.word })
    else none

-- LDM of an operand, a load or a store, of `len` words.
abbrev pub ldm_word : SrcSel → RegSel → Bool → ℕ → CtrlWord
ldm_word s nib store len = record cw {
  exec = InstrClass.ldm;
  src2 = s;
  src2_nib = nib;
  io_write = store;
  words = len;
}

abbrev pub test_long_ir : CtrlWord
test_long_ir = record test_long {
  src2 = SrcSel.src_ir;
  src2_nib = RegSel.nib2_sel;
  dst = DstSel.dst_flags_only;
}

unfoldable pub sub_1c : SubFn
sub_1c op w n =
    if (nib3 op == 0x01) && leb 1 n
    then some (ldm_word SrcSel.src_ir RegSel.nib3_sel false 2)
    else if (nib3 op == 0x09) && leb 1 n
    then some (ldm_word SrcSel.src_ir RegSel.nib3_sel true 2)
    else if nib3 op == 0x08
    then some test_long_ir
    else none

-- The forms of the block 0x5C with an address and with an index.
abbrev pub test_long_addr : Bool → CtrlWord
test_long_addr plain = record test_long {
  src2 = if plain then SrcSel.src_da else SrcSel.src_x;
  src2_nib = if plain then RegSel.nib3_sel else RegSel.nib2_sel;
  dst = DstSel.dst_flags_only;
  words = 2;
}

abbrev pub ldm_addr : Bool → Bool → CtrlWord
ldm_addr plain store =
    if plain
    then ldm_word SrcSel.src_da RegSel.nib3_sel store 3
    else ldm_word SrcSel.src_x RegSel.nib2_sel store 3

unfoldable pub sub_5c : SubFn
sub_5c op w n =
    let plain = nib2 op == 0 in
    if (nib3 op == 0x08) && leb 1 n
    then some (test_long_addr plain)
    else if (nib3 op == 0x01) && leb 2 n
    then some (ldm_addr plain false)
    else if (nib3 op == 0x09) && leb 2 n
    then some (ldm_addr plain true)
    else none

abbrev multi_word : MpOpKind → CtrlWord
multi_word k = record cw { exec = InstrClass.multi_proc; mp_op = k }

unfoldable pub sub_7b : SubFn
sub_7b op w n =
    let low = bit_and op 0xFF in
    if (nib3 op == 0x0D) && not (nib2 op == 0)
    then some (multi_word MpOpKind.mp_req)
    else if low == 0x00
    then some (record cw { exec = InstrClass.iret })
    else if low == 0x08
    then some (multi_word MpOpKind.mp_set)
    else if low == 0x09
    then some (multi_word MpOpKind.mp_res)
    else if low == 0x0A
    then some (multi_word MpOpKind.mp_bit)
    else none

unfoldable pub sub_7c : SubFn
sub_7c op w n = some (tbl_diei (bit_and op 0x07))

unfoldable pub sub_7d : SubFn
sub_7d op w n = some (record cw { exec = InstrClass.ldctl })

unfoldable pub sub_b8 : SubFn
unfolding entry
sub_b8 op w n = if has op 0x01 then none else entry (bit_and (shr op 1) 0x07) tbl_b8
