-- ===== src/Decode/ShiftTable.antt =====
-- The tables of src/decode.c for the blocks 0xB2 and 0xB3: rotations and shifts.
use commodore_900_emulator.Base.{ℕ, List, [], ◌∷◌}
use commodore_900_emulator.Alu.{AluOp, Width}
use commodore_900_emulator.Cpu.{CtrlWord, InstrClass, SrcSel, DstSel, RegSel}
use commodore_900_emulator.Decode.Slot.{cw}

abbrev pub tbl_b2 : List (ℕ × CtrlWord)
tbl_b2 =
    (
      0x00,
      record cw {
        exec = InstrClass.unified;
        alu_op = AluOp.rl;
        width = Width.byte;
        src1_nib = RegSel.nib2_sel;
        src2 = SrcSel.src_one;
        dst = DstSel.dst_reg;
        dst_nib = RegSel.nib2_sel;
      },
    )
    ∷ (
      0x02,
      record cw {
        exec = InstrClass.unified;
        alu_op = AluOp.rl;
        width = Width.byte;
        src1_nib = RegSel.nib2_sel;
        src2 = SrcSel.src_two;
        dst = DstSel.dst_reg;
        dst_nib = RegSel.nib2_sel;
      },
    )
    ∷ (
      0x04,
      record cw {
        exec = InstrClass.unified;
        alu_op = AluOp.rr;
        width = Width.byte;
        src1_nib = RegSel.nib2_sel;
        src2 = SrcSel.src_one;
        dst = DstSel.dst_reg;
        dst_nib = RegSel.nib2_sel;
      },
    )
    ∷ (
      0x06,
      record cw {
        exec = InstrClass.unified;
        alu_op = AluOp.rr;
        width = Width.byte;
        src1_nib = RegSel.nib2_sel;
        src2 = SrcSel.src_two;
        dst = DstSel.dst_reg;
        dst_nib = RegSel.nib2_sel;
      },
    )
    ∷ (
      0x08,
      record cw {
        exec = InstrClass.unified;
        alu_op = AluOp.rlc;
        width = Width.byte;
        src1_nib = RegSel.nib2_sel;
        src2 = SrcSel.src_one;
        dst = DstSel.dst_reg;
        dst_nib = RegSel.nib2_sel;
      },
    )
    ∷ (
      0x0A,
      record cw {
        exec = InstrClass.unified;
        alu_op = AluOp.rlc;
        width = Width.byte;
        src1_nib = RegSel.nib2_sel;
        src2 = SrcSel.src_two;
        dst = DstSel.dst_reg;
        dst_nib = RegSel.nib2_sel;
      },
    )
    ∷ (
      0x0C,
      record cw {
        exec = InstrClass.unified;
        alu_op = AluOp.rrc;
        width = Width.byte;
        src1_nib = RegSel.nib2_sel;
        src2 = SrcSel.src_one;
        dst = DstSel.dst_reg;
        dst_nib = RegSel.nib2_sel;
      },
    )
    ∷ (
      0x0E,
      record cw {
        exec = InstrClass.unified;
        alu_op = AluOp.rrc;
        width = Width.byte;
        src1_nib = RegSel.nib2_sel;
        src2 = SrcSel.src_two;
        dst = DstSel.dst_reg;
        dst_nib = RegSel.nib2_sel;
      },
    )
    ∷ (
      0x01,
      record cw {
        exec = InstrClass.shift;
        alu_op = AluOp.sll;
        width = Width.byte;
        count = SrcSel.src_imm;
        words = 2;
      },
    )
    ∷ (
      0x03,
      record cw {
        exec = InstrClass.shift;
        alu_op = AluOp.sll;
        width = Width.byte;
        count = SrcSel.src_reg;
        words = 2;
      },
    )
    ∷ (
      0x09,
      record cw {
        exec = InstrClass.shift;
        alu_op = AluOp.sla;
        width = Width.byte;
        count = SrcSel.src_imm;
        words = 2;
      },
    )
    ∷ (
      0x0B,
      record cw {
        exec = InstrClass.shift;
        alu_op = AluOp.sla;
        width = Width.byte;
        count = SrcSel.src_reg;
        words = 2;
      },
    )
    ∷ []

abbrev pub tbl_b3 : List (ℕ × CtrlWord)
tbl_b3 =
    (
      0x00,
      record cw {
        exec = InstrClass.unified;
        alu_op = AluOp.rl;
        width = Width.word;
        src1_nib = RegSel.nib2_sel;
        src2 = SrcSel.src_one;
        dst = DstSel.dst_reg;
        dst_nib = RegSel.nib2_sel;
      },
    )
    ∷ (
      0x02,
      record cw {
        exec = InstrClass.unified;
        alu_op = AluOp.rl;
        width = Width.word;
        src1_nib = RegSel.nib2_sel;
        src2 = SrcSel.src_two;
        dst = DstSel.dst_reg;
        dst_nib = RegSel.nib2_sel;
      },
    )
    ∷ (
      0x04,
      record cw {
        exec = InstrClass.unified;
        alu_op = AluOp.rr;
        width = Width.word;
        src1_nib = RegSel.nib2_sel;
        src2 = SrcSel.src_one;
        dst = DstSel.dst_reg;
        dst_nib = RegSel.nib2_sel;
      },
    )
    ∷ (
      0x06,
      record cw {
        exec = InstrClass.unified;
        alu_op = AluOp.rr;
        width = Width.word;
        src1_nib = RegSel.nib2_sel;
        src2 = SrcSel.src_two;
        dst = DstSel.dst_reg;
        dst_nib = RegSel.nib2_sel;
      },
    )
    ∷ (
      0x08,
      record cw {
        exec = InstrClass.unified;
        alu_op = AluOp.rlc;
        width = Width.word;
        src1_nib = RegSel.nib2_sel;
        src2 = SrcSel.src_one;
        dst = DstSel.dst_reg;
        dst_nib = RegSel.nib2_sel;
      },
    )
    ∷ (
      0x0A,
      record cw {
        exec = InstrClass.unified;
        alu_op = AluOp.rlc;
        width = Width.word;
        src1_nib = RegSel.nib2_sel;
        src2 = SrcSel.src_two;
        dst = DstSel.dst_reg;
        dst_nib = RegSel.nib2_sel;
      },
    )
    ∷ (
      0x0C,
      record cw {
        exec = InstrClass.unified;
        alu_op = AluOp.rrc;
        width = Width.word;
        src1_nib = RegSel.nib2_sel;
        src2 = SrcSel.src_one;
        dst = DstSel.dst_reg;
        dst_nib = RegSel.nib2_sel;
      },
    )
    ∷ (
      0x0E,
      record cw {
        exec = InstrClass.unified;
        alu_op = AluOp.rrc;
        width = Width.word;
        src1_nib = RegSel.nib2_sel;
        src2 = SrcSel.src_two;
        dst = DstSel.dst_reg;
        dst_nib = RegSel.nib2_sel;
      },
    )
    ∷ (
      0x01,
      record cw {
        exec = InstrClass.shift;
        alu_op = AluOp.sll;
        width = Width.word;
        count = SrcSel.src_imm;
        words = 2;
      },
    )
    ∷ (
      0x03,
      record cw {
        exec = InstrClass.shift;
        alu_op = AluOp.sll;
        width = Width.word;
        count = SrcSel.src_reg;
        words = 2;
      },
    )
    ∷ (
      0x05,
      record cw {
        exec = InstrClass.shift;
        alu_op = AluOp.sll;
        width = Width.long;
        count = SrcSel.src_imm;
        words = 2;
      },
    )
    ∷ (
      0x07,
      record cw {
        exec = InstrClass.shift;
        alu_op = AluOp.sll;
        width = Width.long;
        count = SrcSel.src_reg;
        words = 2;
      },
    )
    ∷ (
      0x09,
      record cw {
        exec = InstrClass.shift;
        alu_op = AluOp.sla;
        width = Width.word;
        count = SrcSel.src_imm;
        words = 2;
      },
    )
    ∷ (
      0x0B,
      record cw {
        exec = InstrClass.shift;
        alu_op = AluOp.sla;
        width = Width.word;
        count = SrcSel.src_reg;
        words = 2;
      },
    )
    ∷ (
      0x0D,
      record cw {
        exec = InstrClass.shift;
        alu_op = AluOp.sla;
        width = Width.long;
        count = SrcSel.src_imm;
        words = 2;
      },
    )
    ∷ (
      0x0F,
      record cw {
        exec = InstrClass.shift;
        alu_op = AluOp.sla;
        width = Width.long;
        count = SrcSel.src_reg;
        words = 2;
      },
    )
    ∷ []
