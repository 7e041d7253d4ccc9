-- ===== src/Decode/Memory.antt =====
-- `decode_init` of src/decode.c: longs, products, bits and operands relative to the PC.
use commodore_900_emulator.Base.{ℕ, Bool, true, false, if◌then◌else◌, List, [], ◌∷◌}
use commodore_900_emulator.Alu.{AluOp, Width}
use commodore_900_emulator.Cpu.{InstrClass, SrcSel, DstSel, RegSel}
use commodore_900_emulator.Decode.Slot.{cw, Slot, ctrl, nib2_fork}
use commodore_900_emulator.Decode.Registers.{alu_dst}

abbrev pub long_imm : AluOp → Slot
long_imm op =
    nib2_fork
      (record cw {
        exec = InstrClass.unified;
        alu_op = op;
        width = Width.long;
        words = 3;
        src1_nib = RegSel.nib3_sel;
        src2 = SrcSel.src_imm;
        dst = alu_dst op;
        dst_nib = RegSel.nib3_sel;
      })
      (record cw {
        exec = InstrClass.unified;
        alu_op = op;
        width = Width.long;
        words = 1;
        src1_nib = RegSel.nib3_sel;
        src2 = SrcSel.src_ir;
        src2_nib = RegSel.nib2_sel;
        dst = alu_dst op;
        dst_nib = RegSel.nib3_sel;
      })

abbrev pub long_addr : AluOp → DstSel → Slot
long_addr op d =
    nib2_fork
      (record cw {
        exec = InstrClass.unified;
        alu_op = op;
        width = Width.long;
        words = 2;
        src1_nib = RegSel.nib3_sel;
        src2 = SrcSel.src_da;
        dst = d;
        dst_nib = RegSel.nib3_sel;
      })
      (record cw {
        exec = InstrClass.unified;
        alu_op = op;
        width = Width.long;
        words = 2;
        src1_nib = RegSel.nib3_sel;
        src2 = SrcSel.src_x;
        src2_nib = RegSel.nib2_sel;
        dst = d;
        dst_nib = RegSel.nib3_sel;
      })

-- RES, SET and BIT: a dynamic bit number, or memory at a register; `ro` is for BIT.
abbrev pub bit_ir : AluOp → Width → Bool → Slot
bit_ir op w ro =
    nib2_fork (record cw { exec = InstrClass.bit_dynamic; alu_op = op; width = w; words = 2 })
      (record cw {
        exec = InstrClass.unified;
        alu_op = op;
        width = w;
        words = 1;
        src2 = SrcSel.src_ir;
        src2_nib = RegSel.nib2_sel;
        count = SrcSel.src_nib3_bit;
        dst = if ro then DstSel.dst_flags_only else DstSel.dst_ir;
        dst_nib = RegSel.nib2_sel;
      })

abbrev pub step_ir : AluOp → Width → Slot
step_ir op w = ctrl (record cw {
  exec = InstrClass.unified;
  alu_op = op;
  width = w;
  words = 1;
  src2 = SrcSel.src_ir;
  src2_nib = RegSel.nib2_sel;
  count = SrcSel.src_nib3_cnt_plus1;
  dst = DstSel.dst_ir;
  dst_nib = RegSel.nib2_sel;
})

-- INC and DEC take a count, the others a bit number.
abbrev pub count_of : AluOp → SrcSel
count_of AluOp.inc = SrcSel.src_nib3_cnt_plus1
count_of AluOp.dec = SrcSel.src_nib3_cnt_plus1
count_of _ = SrcSel.src_nib3_bit

abbrev pub bit_addr : AluOp → Width → Bool → Slot
bit_addr op w ro =
    nib2_fork
      (record cw {
        exec = InstrClass.unified;
        alu_op = op;
        width = w;
        words = 2;
        src2 = SrcSel.src_da;
        src2_nib = RegSel.nib2_sel;
        count = count_of op;
        dst = if ro then DstSel.dst_flags_only else DstSel.dst_da;
        dst_nib = RegSel.nib2_sel;
      })
      (record cw {
        exec = InstrClass.unified;
        alu_op = op;
        width = w;
        words = 2;
        src2 = SrcSel.src_x;
        src2_nib = RegSel.nib2_sel;
        count = count_of op;
        dst = if ro then DstSel.dst_flags_only else DstSel.dst_x;
        dst_nib = RegSel.nib2_sel;
      })

abbrev pub rom_long_imm : List (ℕ × Slot)
rom_long_imm =
    ((0x10, long_imm AluOp.cp)
      ∷ (0x12, long_imm AluOp.sub)
      ∷ (0x14, long_imm AluOp.ld)
      ∷ (0x16, long_imm AluOp.add)
      ∷ [])

abbrev pub rom_product : List (ℕ × Slot)
rom_product =
    ((
      0x18,
      nib2_fork
          (record cw {
            exec = InstrClass.mul;
            width = Width.long;
            src2 = SrcSel.src_imm;
            words = 3;
          })
          (record cw {
            exec = InstrClass.mul;
            width = Width.long;
            src2 = SrcSel.src_ir;
            src2_nib = RegSel.nib2_sel;
            words = 1;
          }),
    )
      ∷ (
        0x19,
        nib2_fork
            (record cw {
              exec = InstrClass.mul;
              width = Width.word;
              src2 = SrcSel.src_imm;
              words = 2;
            })
            (record cw {
              exec = InstrClass.mul;
              width = Width.word;
              src2 = SrcSel.src_ir;
              src2_nib = RegSel.nib2_sel;
              words = 1;
            }),
      )
      ∷ (
        0x1A,
        nib2_fork
            (record cw {
              exec = InstrClass.div;
              width = Width.long;
              src2 = SrcSel.src_imm;
              words = 3;
            })
            (record cw {
              exec = InstrClass.div;
              width = Width.long;
              src2 = SrcSel.src_ir;
              src2_nib = RegSel.nib2_sel;
              words = 1;
            }),
      )
      ∷ (
        0x1B,
        nib2_fork
            (record cw {
              exec = InstrClass.div;
              width = Width.word;
              src2 = SrcSel.src_imm;
              words = 2;
            })
            (record cw {
              exec = InstrClass.div;
              width = Width.word;
              src2 = SrcSel.src_ir;
              src2_nib = RegSel.nib2_sel;
              words = 1;
            }),
      )
      ∷ (
        0x58,
        nib2_fork
            (record cw {
              exec = InstrClass.mul;
              width = Width.long;
              src2 = SrcSel.src_da;
              words = 2;
            })
            (record cw {
              exec = InstrClass.mul;
              width = Width.long;
              src2 = SrcSel.src_x;
              src2_nib = RegSel.nib2_sel;
              words = 2;
            }),
      )
      ∷ (
        0x59,
        nib2_fork
            (record cw {
              exec = InstrClass.mul;
              width = Width.word;
              src2 = SrcSel.src_da;
              words = 2;
            })
            (record cw {
              exec = InstrClass.mul;
              width = Width.word;
              src2 = SrcSel.src_x;
              src2_nib = RegSel.nib2_sel;
              words = 2;
            }),
      )
      ∷ (
        0x5A,
        nib2_fork
            (record cw {
              exec = InstrClass.div;
              width = Width.long;
              src2 = SrcSel.src_da;
              words = 2;
            })
            (record cw {
              exec = InstrClass.div;
              width = Width.long;
              src2 = SrcSel.src_x;
              src2_nib = RegSel.nib2_sel;
              words = 2;
            }),
      )
      ∷ (
        0x5B,
        nib2_fork
            (record cw {
              exec = InstrClass.div;
              width = Width.word;
              src2 = SrcSel.src_da;
              words = 2;
            })
            (record cw {
              exec = InstrClass.div;
              width = Width.word;
              src2 = SrcSel.src_x;
              src2_nib = RegSel.nib2_sel;
              words = 2;
            }),
      )
      ∷ [])

abbrev pub rom_bit_ir : List (ℕ × Slot)
rom_bit_ir =
    ((0x22, bit_ir AluOp.res Width.byte false)
      ∷ (0x23, bit_ir AluOp.res Width.word false)
      ∷ (0x24, bit_ir AluOp.set Width.byte false)
      ∷ (0x25, bit_ir AluOp.set Width.word false)
      ∷ (0x26, bit_ir AluOp.bit Width.byte true)
      ∷ (0x27, bit_ir AluOp.bit Width.word true)
      ∷ [])

abbrev pub rom_step_ir : List (ℕ × Slot)
rom_step_ir =
    ((0x28, step_ir AluOp.inc Width.byte)
      ∷ (0x29, step_ir AluOp.inc Width.word)
      ∷ (0x2A, step_ir AluOp.dec Width.byte)
      ∷ (0x2B, step_ir AluOp.dec Width.word)
      ∷ [])

abbrev pub rom_relative : List (ℕ × Slot)
rom_relative =
    ((
      0x30,
      nib2_fork
          (record cw {
            exec = InstrClass.unified;
            alu_op = AluOp.ld;
            width = Width.byte;
            words = 2;
            src2 = SrcSel.src_pc_rel;
            dst = DstSel.dst_reg;
            dst_nib = RegSel.nib3_sel;
          })
          (record cw {
            exec = InstrClass.unified;
            alu_op = AluOp.ld;
            width = Width.byte;
            words = 2;
            src2 = SrcSel.src_based;
            src2_nib = RegSel.nib2_sel;
            dst = DstSel.dst_reg;
            dst_nib = RegSel.nib3_sel;
          }),
    )
      ∷ (
        0x31,
        nib2_fork
            (record cw {
              exec = InstrClass.unified;
              alu_op = AluOp.ld;
              width = Width.word;
              words = 2;
              src2 = SrcSel.src_pc_rel;
              dst = DstSel.dst_reg;
              dst_nib = RegSel.nib3_sel;
            })
            (record cw {
              exec = InstrClass.unified;
              alu_op = AluOp.ld;
              width = Width.word;
              words = 2;
              src2 = SrcSel.src_based;
              src2_nib = RegSel.nib2_sel;
              dst = DstSel.dst_reg;
              dst_nib = RegSel.nib3_sel;
            }),
      )
      ∷ (
        0x32,
        nib2_fork
            (record cw {
              exec = InstrClass.unified;
              alu_op = AluOp.ld;
              width = Width.byte;
              words = 2;
              src2 = SrcSel.src_reg;
              src2_nib = RegSel.nib3_sel;
              dst = DstSel.dst_pc_rel;
            })
            (record cw {
              exec = InstrClass.unified;
              alu_op = AluOp.ld;
              width = Width.byte;
              words = 2;
              src2 = SrcSel.src_reg;
              src2_nib = RegSel.nib3_sel;
              dst = DstSel.dst_based;
              dst_nib = RegSel.nib2_sel;
            }),
      )
      ∷ (
        0x33,
        nib2_fork
            (record cw {
              exec = InstrClass.unified;
              alu_op = AluOp.ld;
              width = Width.word;
              words = 2;
              src2 = SrcSel.src_reg;
              src2_nib = RegSel.nib3_sel;
              dst = DstSel.dst_pc_rel;
            })
            (record cw {
              exec = InstrClass.unified;
              alu_op = AluOp.ld;
              width = Width.word;
              words = 2;
              src2 = SrcSel.src_reg;
              src2_nib = RegSel.nib3_sel;
              dst = DstSel.dst_based;
              dst_nib = RegSel.nib2_sel;
            }),
      )
      ∷ (
        0x34,
        nib2_fork (record cw { exec = InstrClass.lea; src2 = SrcSel.src_pc_rel; words = 2 })
            (record cw {
              exec = InstrClass.lea;
              src2 = SrcSel.src_based;
              src2_nib = RegSel.nib2_sel;
              words = 2;
            }),
      )
      ∷ (
        0x35,
        nib2_fork
            (record cw {
              exec = InstrClass.unified;
              alu_op = AluOp.ld;
              width = Width.long;
              words = 2;
              src2 = SrcSel.src_pc_rel;
              dst = DstSel.dst_reg;
              dst_nib = RegSel.nib3_sel;
            })
            (record cw {
              exec = InstrClass.unified;
              alu_op = AluOp.ld;
              width = Width.long;
              words = 2;
              src2 = SrcSel.src_based;
              src2_nib = RegSel.nib2_sel;
              dst = DstSel.dst_reg;
              dst_nib = RegSel.nib3_sel;
            }),
      )
      ∷ (
        0x37,
        nib2_fork
            (record cw {
              exec = InstrClass.unified;
              alu_op = AluOp.ld;
              width = Width.long;
              words = 2;
              src2 = SrcSel.src_reg;
              src2_nib = RegSel.nib3_sel;
              dst = DstSel.dst_pc_rel;
            })
            (record cw {
              exec = InstrClass.unified;
              alu_op = AluOp.ld;
              width = Width.long;
              words = 2;
              src2 = SrcSel.src_reg;
              src2_nib = RegSel.nib3_sel;
              dst = DstSel.dst_based;
              dst_nib = RegSel.nib2_sel;
            }),
      )
      ∷ [])

abbrev pub rom_long_addr : List (ℕ × Slot)
rom_long_addr =
    ((0x50, long_addr AluOp.cp DstSel.dst_none)
      ∷ (0x52, long_addr AluOp.sub DstSel.dst_reg)
      ∷ (0x54, long_addr AluOp.ld DstSel.dst_reg)
      ∷ (0x56, long_addr AluOp.add DstSel.dst_reg)
      ∷ [])

abbrev pub rom_bit_addr : List (ℕ × Slot)
rom_bit_addr =
    ((0x62, bit_addr AluOp.res Width.byte false)
      ∷ (0x63, bit_addr AluOp.res Width.word false)
      ∷ (0x64, bit_addr AluOp.set Width.byte false)
      ∷ (0x65, bit_addr AluOp.set Width.word false)
      ∷ (0x66, bit_addr AluOp.bit Width.byte true)
      ∷ (0x67, bit_addr AluOp.bit Width.word true)
      ∷ (0x68, bit_addr AluOp.inc Width.byte false)
      ∷ (0x69, bit_addr AluOp.inc Width.word false)
      ∷ (0x6A, bit_addr AluOp.dec Width.byte false)
      ∷ (0x6B, bit_addr AluOp.dec Width.word false)
      ∷ [])
