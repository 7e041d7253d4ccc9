-- ===== src/Decode/Tests.antt =====
-- Runs of the decoder, and its theorems at concrete inputs.
use commodore_900_emulator.Base.{ℕ, ◌+◌, ◌<◌, ◌≡◌, refl, true, false, some, if◌then◌else◌, ◌==◌}
use commodore_900_emulator.Alu.{AluOp, Width}
use commodore_900_emulator.Cpu.{CtrlWord, InstrClass, SrcSel, DstSel, RegSel, FcwOpKind}
use commodore_900_emulator.Decode.Slot.{cw, spread}
use commodore_900_emulator.Decode.Refine.{sub_4c, sub_8d}
use commodore_900_emulator.Decode.Length.{decode_length}
use commodore_900_emulator.Decode.Tables.{flag_word}
use commodore_900_emulator.Decode.Lookup.{decode_lookup}
use commodore_900_emulator.Decode.Check.{behind, is_toggle}
use commodore_900_emulator.Decode.Words.{decode_length-words, decode_lookup-mask}

-- The words that follow an opcode.
abbrev words : ℕ → ℕ
words i = if i == 0 then 0x1234 else 0x0005

-- CPB of an immediate with a direct address, as `sub_4c` decodes it.
abbrev cpb_direct : CtrlWord
cpb_direct = record cw {
  exec = InstrClass.unified;
  alu_op = AluOp.cp;
  width = Width.byte;
  src2 = SrcSel.src_da;
  src2_nib = RegSel.nib2_sel;
  count = SrcSel.src_imm2;
  dst = DstSel.dst_flags_only;
  words = 2;
}

finds_cpb : decode_lookup 0x4C01 words 3 ≡ some cpb_direct
unfolding decode_lookup spread sub_4c
finds_cpb = refl

decode_length-words_example : decode_length 0x4C01 false ≡ 2 + behind cpb_direct
decode_length-words_example = decode_length-words 0x4C01 words 3 cpb_direct finds_cpb

-- COMFLG of C, Z, S and P/V.
abbrev comflg : CtrlWord
comflg = flag_word FcwOpKind.toggle_flags 0xF

finds_comflg : decode_lookup 0x8DF5 words 1 ≡ some comflg
unfolding decode_lookup spread sub_8d
finds_comflg = refl

decode_lookup-mask_example :
    (comflg.fcw_mask < 0x2000) × (is_toggle comflg.fcw_op ≡ true → comflg.fcw_mask < 0x100)
decode_lookup-mask_example = decode_lookup-mask 0x8DF5 words 1 comflg finds_comflg
