-- ===== src/Decode/Tables.antt =====
-- The tables of src/decode.c for the blocks 0x8C, 0x8D, 0x0C, 0x0D, 0x4C and 0x4D, by the lowest nibble.
use commodore_900_emulator.Base.{ℕ, shl, List, [], ◌∷◌}
use commodore_900_emulator.Alu.{AluOp, Width}
use commodore_900_emulator.Cpu.{CtrlWord, InstrClass, FcwOpKind, StackMode, SrcSel, DstSel, RegSel}
use commodore_900_emulator.Decode.Slot.{cw}

abbrev pub tbl_8c : List (ℕ × CtrlWord)
tbl_8c =
    (
      0x00,
      record cw {
        exec = InstrClass.unified;
        alu_op = AluOp.com1;
        width = Width.byte;
        src1_nib = RegSel.nib2_sel;
        dst = DstSel.dst_reg;
        dst_nib = RegSel.nib2_sel;
      },
    )
    ∷ (
      0x02,
      record cw {
        exec = InstrClass.unified;
        alu_op = AluOp.neg;
        width = Width.byte;
        src1_nib = RegSel.nib2_sel;
        dst = DstSel.dst_reg;
        dst_nib = RegSel.nib2_sel;
      },
    )
    ∷ (
      0x04,
      record cw {
        exec = InstrClass.unified;
        alu_op = AluOp.test;
        width = Width.byte;
        src1_nib = RegSel.nib2_sel;
        dst = DstSel.dst_none;
        dst_nib = RegSel.nib2_sel;
      },
    )
    ∷ (
      0x06,
      record cw {
        exec = InstrClass.unified;
        alu_op = AluOp.tset;
        width = Width.byte;
        src1_nib = RegSel.nib2_sel;
        src2 = SrcSel.src_none;
        dst = DstSel.dst_reg;
        dst_nib = RegSel.nib2_sel;
      },
    )
    ∷ (
      0x08,
      record cw {
        exec = InstrClass.unified;
        alu_op = AluOp.ld;
        width = Width.byte;
        src2 = SrcSel.src_zero;
        dst = DstSel.dst_reg;
        dst_nib = RegSel.nib2_sel;
      },
    )
    ∷ (0x01, record cw { exec = InstrClass.fcw_op; fcw_op = FcwOpKind.store_lo })
    ∷ (0x09, record cw { exec = InstrClass.fcw_op; fcw_op = FcwOpKind.load_lo })
    ∷ []

-- SETFLG, RESFLG and COMFLG on the flags of the mask `n2 << 4`.
abbrev pub flag_word : FcwOpKind → ℕ → CtrlWord
flag_word k n2 = record cw { exec = InstrClass.fcw_op; fcw_op = k; fcw_mask = shl n2 4 }

abbrev pub tbl_8d : ℕ → List (ℕ × CtrlWord)
tbl_8d n2 =
    (
      0x00,
      record cw {
        exec = InstrClass.unified;
        alu_op = AluOp.com1;
        width = Width.word;
        src1_nib = RegSel.nib2_sel;
        dst = DstSel.dst_reg;
        dst_nib = RegSel.nib2_sel;
      },
    )
    ∷ (
      0x02,
      record cw {
        exec = InstrClass.unified;
        alu_op = AluOp.neg;
        width = Width.word;
        src1_nib = RegSel.nib2_sel;
        dst = DstSel.dst_reg;
        dst_nib = RegSel.nib2_sel;
      },
    )
    ∷ (
      0x04,
      record cw {
        exec = InstrClass.unified;
        alu_op = AluOp.test;
        width = Width.word;
        src1_nib = RegSel.nib2_sel;
        dst = DstSel.dst_none;
        dst_nib = RegSel.nib2_sel;
      },
    )
    ∷ (
      0x06,
      record cw {
        exec = InstrClass.unified;
        alu_op = AluOp.tset;
        width = Width.word;
        src1_nib = RegSel.nib2_sel;
        src2 = SrcSel.src_none;
        dst = DstSel.dst_reg;
        dst_nib = RegSel.nib2_sel;
      },
    )
    ∷ (
      0x07,
      record cw {
        exec = InstrClass.unified;
        alu_op = AluOp.ld;
        width = Width.word;
        src2 = SrcSel.src_zero;
        dst = DstSel.dst_none;
      },
    )
    ∷ (
      0x08,
      record cw {
        exec = InstrClass.unified;
        alu_op = AluOp.ld;
        width = Width.word;
        src2 = SrcSel.src_zero;
        dst = DstSel.dst_reg;
        dst_nib = RegSel.nib2_sel;
      },
    )
    ∷ (0x01, flag_word FcwOpKind.set_flags n2)
    ∷ (0x03, flag_word FcwOpKind.clear_flags n2)
    ∷ (0x05, flag_word FcwOpKind.toggle_flags n2)
    ∷ []

abbrev pub tbl_0c : List (ℕ × CtrlWord)
tbl_0c =
    (
      0x00,
      record cw {
        exec = InstrClass.unified;
        alu_op = AluOp.com1;
        width = Width.byte;
        src2 = SrcSel.src_ir;
        src2_nib = RegSel.nib2_sel;
        dst = DstSel.dst_ir;
        dst_nib = RegSel.nib2_sel;
      },
    )
    ∷ (
      0x01,
      record cw {
        exec = InstrClass.unified;
        alu_op = AluOp.cp;
        width = Width.byte;
        src2 = SrcSel.src_ir;
        src2_nib = RegSel.nib2_sel;
        count = SrcSel.src_imm;
        dst = DstSel.dst_flags_only;
        words = 2;
      },
    )
    ∷ (
      0x02,
      record cw {
        exec = InstrClass.unified;
        alu_op = AluOp.neg;
        width = Width.byte;
        src2 = SrcSel.src_ir;
        src2_nib = RegSel.nib2_sel;
        dst = DstSel.dst_ir;
        dst_nib = RegSel.nib2_sel;
      },
    )
    ∷ (
      0x04,
      record cw {
        exec = InstrClass.unified;
        alu_op = AluOp.test;
        width = Width.byte;
        src2 = SrcSel.src_ir;
        src2_nib = RegSel.nib2_sel;
        dst = DstSel.dst_flags_only;
      },
    )
    ∷ (
      0x05,
      record cw {
        exec = InstrClass.unified;
        alu_op = AluOp.ld;
        width = Width.byte;
        src2 = SrcSel.src_imm;
        dst = DstSel.dst_ir;
        dst_nib = RegSel.nib2_sel;
        words = 2;
      },
    )
    ∷ (
      0x06,
      record cw {
        exec = InstrClass.unified;
        alu_op = AluOp.tset;
        width = Width.byte;
        src2 = SrcSel.src_ir;
        src2_nib = RegSel.nib2_sel;
        dst = DstSel.dst_ir;
        dst_nib = RegSel.nib2_sel;
      },
    )
    ∷ (
      0x08,
      record cw {
        exec = InstrClass.unified;
        alu_op = AluOp.ld;
        width = Width.byte;
        src2 = SrcSel.src_zero;
        dst = DstSel.dst_ir;
        dst_nib = RegSel.nib2_sel;
      },
    )
    ∷ []

abbrev pub tbl_0d : List (ℕ × CtrlWord)
tbl_0d =
    (
      0x00,
      record cw {
        exec = InstrClass.unified;
        alu_op = AluOp.com1;
        width = Width.word;
        src2 = SrcSel.src_ir;
        src2_nib = RegSel.nib2_sel;
        dst = DstSel.dst_ir;
        dst_nib = RegSel.nib2_sel;
      },
    )
    ∷ (
      0x01,
      record cw {
        exec = InstrClass.unified;
        alu_op = AluOp.cp;
        width = Width.word;
        src2 = SrcSel.src_ir;
        src2_nib = RegSel.nib2_sel;
        count = SrcSel.src_imm;
        dst = DstSel.dst_flags_only;
        words = 2;
      },
    )
    ∷ (
      0x02,
      record cw {
        exec = InstrClass.unified;
        alu_op = AluOp.neg;
        width = Width.word;
        src2 = SrcSel.src_ir;
        src2_nib = RegSel.nib2_sel;
        dst = DstSel.dst_ir;
        dst_nib = RegSel.nib2_sel;
      },
    )
    ∷ (
      0x04,
      record cw {
        exec = InstrClass.unified;
        alu_op = AluOp.test;
        width = Width.word;
        src2 = SrcSel.src_ir;
        src2_nib = RegSel.nib2_sel;
        dst = DstSel.dst_flags_only;
      },
    )
    ∷ (
      0x05,
      record cw {
        exec = InstrClass.unified;
        alu_op = AluOp.ld;
        width = Width.word;
        src2 = SrcSel.src_imm;
        dst = DstSel.dst_ir;
        dst_nib = RegSel.nib2_sel;
        words = 2;
      },
    )
    ∷ (
      0x06,
      record cw {
        exec = InstrClass.unified;
        alu_op = AluOp.tset;
        width = Width.word;
        src2 = SrcSel.src_ir;
        src2_nib = RegSel.nib2_sel;
        dst = DstSel.dst_ir;
        dst_nib = RegSel.nib2_sel;
      },
    )
    ∷ (
      0x08,
      record cw {
        exec = InstrClass.unified;
        alu_op = AluOp.ld;
        width = Width.word;
        src2 = SrcSel.src_zero;
        dst = DstSel.dst_ir;
        dst_nib = RegSel.nib2_sel;
      },
    )
    ∷ (0x09, record cw { exec = InstrClass.stack; stk_mode = StackMode.push_imm; words = 2 })
    ∷ []

abbrev pub tbl_4c : SrcSel → DstSel → List (ℕ × CtrlWord)
tbl_4c s2 dm =
    (
      0x00,
      record cw {
        exec = InstrClass.unified;
        alu_op = AluOp.com1;
        width = Width.byte;
        src2 = s2;
        src2_nib = RegSel.nib2_sel;
        dst = dm;
        dst_nib = RegSel.nib2_sel;
        words = 2;
      },
    )
    ∷ (
      0x01,
      record cw {
        exec = InstrClass.unified;
        alu_op = AluOp.cp;
        width = Width.byte;
        src2 = s2;
        src2_nib = RegSel.nib2_sel;
        count = SrcSel.src_imm2;
        dst = DstSel.dst_flags_only;
        words = 2;
      },
    )
    ∷ (
      0x02,
      record cw {
        exec = InstrClass.unified;
        alu_op = AluOp.neg;
        width = Width.byte;
        src2 = s2;
        src2_nib = RegSel.nib2_sel;
        dst = dm;
        dst_nib = RegSel.nib2_sel;
        words = 2;
      },
    )
    ∷ (
      0x04,
      record cw {
        exec = InstrClass.unified;
        alu_op = AluOp.test;
        width = Width.byte;
        src2 = s2;
        src2_nib = RegSel.nib2_sel;
        dst = DstSel.dst_flags_only;
        words = 2;
      },
    )
    ∷ (
      0x05,
      record cw {
        exec = InstrClass.unified;
        alu_op = AluOp.ld;
        width = Width.byte;
        src2 = SrcSel.src_imm2;
        dst = dm;
        dst_nib = RegSel.nib2_sel;
        words = 2;
      },
    )
    ∷ (
      0x06,
      record cw {
        exec = InstrClass.unified;
        alu_op = AluOp.tset;
        width = Width.byte;
        src2 = s2;
        src2_nib = RegSel.nib2_sel;
        dst = dm;
        dst_nib = RegSel.nib2_sel;
        words = 2;
      },
    )
    ∷ (
      0x08,
      record cw {
        exec = InstrClass.unified;
        alu_op = AluOp.ld;
        width = Width.byte;
        src2 = SrcSel.src_zero;
        dst = dm;
        dst_nib = RegSel.nib2_sel;
        words = 2;
      },
    )
    ∷ []

abbrev pub tbl_4d : SrcSel → DstSel → List (ℕ × CtrlWord)
tbl_4d s2 dm =
    (
      0x00,
      record cw {
        exec = InstrClass.unified;
        alu_op = AluOp.com1;
        width = Width.word;
        src2 = s2;
        src2_nib = RegSel.nib2_sel;
        dst = dm;
        dst_nib = RegSel.nib2_sel;
        words = 2;
      },
    )
    ∷ (
      0x01,
      record cw {
        exec = InstrClass.unified;
        alu_op = AluOp.cp;
        width = Width.word;
        src2 = s2;
        src2_nib = RegSel.nib2_sel;
        count = SrcSel.src_imm2;
        dst = DstSel.dst_flags_only;
        words = 2;
      },
    )
    ∷ (
      0x02,
      record cw {
        exec = InstrClass.unified;
        alu_op = AluOp.neg;
        width = Width.word;
        src2 = s2;
        src2_nib = RegSel.nib2_sel;
        dst = dm;
        dst_nib = RegSel.nib2_sel;
        words = 2;
      },
    )
    ∷ (
      0x04,
      record cw {
        exec = InstrClass.unified;
        alu_op = AluOp.test;
        width = Width.word;
        src2 = s2;
        src2_nib = RegSel.nib2_sel;
        dst = DstSel.dst_flags_only;
        words = 2;
      },
    )
    ∷ (
      0x05,
      record cw {
        exec = InstrClass.unified;
        alu_op = AluOp.ld;
        width = Width.word;
        src2 = SrcSel.src_imm2;
        dst = dm;
        dst_nib = RegSel.nib2_sel;
        words = 2;
      },
    )
    ∷ (
      0x06,
      record cw {
        exec = InstrClass.unified;
        alu_op = AluOp.tset;
        width = Width.word;
        src2 = s2;
        src2_nib = RegSel.nib2_sel;
        dst = dm;
        dst_nib = RegSel.nib2_sel;
        words = 2;
      },
    )
    ∷ (
      0x08,
      record cw {
        exec = InstrClass.unified;
        alu_op = AluOp.ld;
        width = Width.word;
        src2 = SrcSel.src_zero;
        dst = dm;
        dst_nib = RegSel.nib2_sel;
        words = 2;
      },
    )
    ∷ []
