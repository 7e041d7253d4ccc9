-- ===== src/Decode/Control.antt =====
-- `decode_init` of src/decode.c: the remaining slots that need no table.
use commodore_900_emulator.Base.{ℕ, true, List, [], ◌∷◌, ◌++◌}
use commodore_900_emulator.Alu.{AluOp, Width}
use commodore_900_emulator.Cpu.{InstrClass, BranchMode, SrcSel, DstSel, RegSel}
use commodore_900_emulator.Decode.Slot.{cw, mk_reg, Slot, ctrl, nib2_fork, spread}

abbrev pub bit_reg : AluOp → Width → Slot
bit_reg op w = ctrl (record cw {
  exec = InstrClass.unified;
  alu_op = op;
  width = w;
  src1_nib = RegSel.nib2_sel;
  src2 = SrcSel.src_nib3_bit;
  dst = bit_dst op;
  dst_nib = RegSel.nib2_sel;
})
  where
    bit_dst : AluOp → DstSel
    bit_dst AluOp.bit = DstSel.dst_none
    bit_dst _ = DstSel.dst_reg

abbrev pub step_reg : AluOp → Width → Slot
step_reg op w = ctrl (record cw {
  exec = InstrClass.unified;
  alu_op = op;
  width = w;
  src1_nib = RegSel.nib2_sel;
  src2 = SrcSel.src_nib3_cnt_plus1;
  dst = DstSel.dst_reg;
  dst_nib = RegSel.nib2_sel;
})

abbrev pub rom_direct : List (ℕ × Slot)
rom_direct =
    ((
      0x90,
      ctrl (record cw {
        exec = InstrClass.unified;
        alu_op = AluOp.cp;
        width = Width.long;
        src1_nib = RegSel.nib3_sel;
        src2 = SrcSel.src_reg;
        src2_nib = RegSel.nib2_sel;
        dst = DstSel.dst_none;
        dst_nib = RegSel.nib3_sel;
      }),
    )
      ∷ (
        0x92,
        ctrl (record cw {
          exec = InstrClass.unified;
          alu_op = AluOp.sub;
          width = Width.long;
          src1_nib = RegSel.nib3_sel;
          src2 = SrcSel.src_reg;
          src2_nib = RegSel.nib2_sel;
          dst = DstSel.dst_reg;
          dst_nib = RegSel.nib3_sel;
        }),
      )
      ∷ (
        0x96,
        ctrl (record cw {
          exec = InstrClass.unified;
          alu_op = AluOp.add;
          width = Width.long;
          src1_nib = RegSel.nib3_sel;
          src2 = SrcSel.src_reg;
          src2_nib = RegSel.nib2_sel;
          dst = DstSel.dst_reg;
          dst_nib = RegSel.nib3_sel;
        }),
      )
      ∷ (
        0x98,
        ctrl (record cw { exec = InstrClass.mul; width = Width.long; src2 = SrcSel.src_reg }),
      )
      ∷ (
        0x99,
        ctrl (record cw { exec = InstrClass.mul; width = Width.word; src2 = SrcSel.src_reg }),
      )
      ∷ (
        0x9A,
        ctrl (record cw { exec = InstrClass.div; width = Width.long; src2 = SrcSel.src_reg }),
      )
      ∷ (
        0x9B,
        ctrl (record cw { exec = InstrClass.div; width = Width.word; src2 = SrcSel.src_reg }),
      )
      ∷ (
        0x94,
        ctrl (record cw {
          exec = InstrClass.unified;
          alu_op = AluOp.ld;
          width = Width.long;
          src2 = SrcSel.src_reg;
          src2_nib = RegSel.nib2_sel;
          dst = DstSel.dst_reg;
          dst_nib = RegSel.nib3_sel;
        }),
      )
      ∷ (
        0x1D,
        ctrl (record cw {
          exec = InstrClass.unified;
          alu_op = AluOp.ld;
          width = Width.long;
          src2 = SrcSel.src_reg;
          src2_nib = RegSel.nib3_sel;
          dst = DstSel.dst_ir;
          dst_nib = RegSel.nib2_sel;
        }),
      )
      ∷ [])

abbrev pub rom_load_imm : List (ℕ × Slot)
rom_load_imm =
    ((
      0x20,
      nib2_fork
          (record cw {
            exec = InstrClass.unified;
            alu_op = AluOp.ld;
            width = Width.byte;
            words = 2;
            src2 = SrcSel.src_imm;
            dst = DstSel.dst_reg;
            dst_nib = RegSel.nib3_sel;
          })
          (record cw {
            exec = InstrClass.unified;
            alu_op = AluOp.ld;
            width = Width.byte;
            words = 1;
            src2 = SrcSel.src_ir;
            src2_nib = RegSel.nib2_sel;
            dst = DstSel.dst_reg;
            dst_nib = RegSel.nib3_sel;
          }),
    )
      ∷ (
        0x21,
        nib2_fork
            (record cw {
              exec = InstrClass.unified;
              alu_op = AluOp.ld;
              width = Width.word;
              words = 2;
              src2 = SrcSel.src_imm;
              dst = DstSel.dst_reg;
              dst_nib = RegSel.nib3_sel;
            })
            (record cw {
              exec = InstrClass.unified;
              alu_op = AluOp.ld;
              width = Width.word;
              words = 1;
              src2 = SrcSel.src_ir;
              src2_nib = RegSel.nib2_sel;
              dst = DstSel.dst_reg;
              dst_nib = RegSel.nib3_sel;
            }),
      )
      ∷ [])

abbrev pub rom_system : List (ℕ × Slot)
rom_system =
    ((
      0x2C,
      ctrl (record cw { exec = InstrClass.exchange; width = Width.byte; src2 = SrcSel.src_ir }),
    )
      ∷ (
        0x2D,
        ctrl (record cw { exec = InstrClass.exchange; width = Width.word; src2 = SrcSel.src_ir }),
      )
      ∷ (0x39, ctrl (record cw { exec = InstrClass.ldps; src2 = SrcSel.src_ir }))
      ∷ (0x3C, ctrl (record cw { exec = InstrClass.io; width = Width.byte; src2 = SrcSel.src_ir }))
      ∷ (0x3D, ctrl (record cw { exec = InstrClass.io; width = Width.word; src2 = SrcSel.src_ir }))
      ∷ (
        0x3E,
        ctrl (record cw {
          exec = InstrClass.io;
          width = Width.byte;
          src2 = SrcSel.src_ir;
          io_write = true;
        }),
      )
      ∷ (
        0x3F,
        ctrl (record cw {
          exec = InstrClass.io;
          width = Width.word;
          src2 = SrcSel.src_ir;
          io_write = true;
        }),
      )
      ∷ (0x79, ctrl (record cw { exec = InstrClass.ldps; src2 = SrcSel.src_da; words = 2 }))
      ∷ (0x7A, ctrl (record cw { exec = InstrClass.halt }))
      ∷ (0x7F, ctrl (record cw { exec = InstrClass.sys_call }))
      ∷ [])

abbrev pub rom_long_store : List (ℕ × Slot)
rom_long_store =
    ((
      0x5D,
      nib2_fork
          (record cw {
            exec = InstrClass.unified;
            alu_op = AluOp.ld;
            width = Width.long;
            words = 2;
            src2 = SrcSel.src_reg;
            src2_nib = RegSel.nib3_sel;
            dst = DstSel.dst_da;
          })
          (record cw {
            exec = InstrClass.unified;
            alu_op = AluOp.ld;
            width = Width.long;
            words = 2;
            src2 = SrcSel.src_reg;
            src2_nib = RegSel.nib3_sel;
            dst = DstSel.dst_x;
            dst_nib = RegSel.nib2_sel;
          }),
    )
      ∷ [])

abbrev pub rom_indexed : List (ℕ × Slot)
rom_indexed =
    ((
      0x6C,
      nib2_fork
          (record cw {
            exec = InstrClass.exchange;
            width = Width.byte;
            src2 = SrcSel.src_da;
            words = 2;
          })
          (record cw {
            exec = InstrClass.exchange;
            width = Width.byte;
            src2 = SrcSel.src_x;
            src2_nib = RegSel.nib2_sel;
            words = 2;
          }),
    )
      ∷ (
        0x6D,
        nib2_fork
            (record cw {
              exec = InstrClass.exchange;
              width = Width.word;
              src2 = SrcSel.src_da;
              words = 2;
            })
            (record cw {
              exec = InstrClass.exchange;
              width = Width.word;
              src2 = SrcSel.src_x;
              src2_nib = RegSel.nib2_sel;
              words = 2;
            }),
      )
      ∷ (
        0x70,
        ctrl (record cw {
          exec = InstrClass.unified;
          alu_op = AluOp.ld;
          width = Width.byte;
          src2 = SrcSel.src_bx;
          src2_nib = RegSel.nib2_sel;
          dst = DstSel.dst_reg;
          dst_nib = RegSel.nib3_sel;
          words = 2;
        }),
      )
      ∷ (
        0x71,
        ctrl (record cw {
          exec = InstrClass.unified;
          alu_op = AluOp.ld;
          width = Width.word;
          src2 = SrcSel.src_bx;
          src2_nib = RegSel.nib2_sel;
          dst = DstSel.dst_reg;
          dst_nib = RegSel.nib3_sel;
          words = 2;
        }),
      )
      ∷ (
        0x72,
        ctrl (record cw {
          exec = InstrClass.unified;
          alu_op = AluOp.ld;
          width = Width.byte;
          src2 = SrcSel.src_reg;
          src2_nib = RegSel.nib3_sel;
          dst = DstSel.dst_bx;
          dst_nib = RegSel.nib2_sel;
          words = 2;
        }),
      )
      ∷ (
        0x73,
        ctrl (record cw {
          exec = InstrClass.unified;
          alu_op = AluOp.ld;
          width = Width.word;
          src2 = SrcSel.src_reg;
          src2_nib = RegSel.nib3_sel;
          dst = DstSel.dst_bx;
          dst_nib = RegSel.nib2_sel;
          words = 2;
        }),
      )
      ∷ (
        0x74,
        ctrl (record cw {
          exec = InstrClass.lea;
          src2 = SrcSel.src_bx;
          src2_nib = RegSel.nib2_sel;
          words = 2;
        }),
      )
      ∷ (
        0x75,
        ctrl (record cw {
          exec = InstrClass.unified;
          alu_op = AluOp.ld;
          width = Width.long;
          src2 = SrcSel.src_bx;
          src2_nib = RegSel.nib2_sel;
          dst = DstSel.dst_reg;
          dst_nib = RegSel.nib3_sel;
          words = 2;
        }),
      )
      ∷ (
        0x76,
        nib2_fork (record cw { exec = InstrClass.lea; src2 = SrcSel.src_da; words = 2 })
            (record cw {
              exec = InstrClass.lea;
              src2 = SrcSel.src_x;
              src2_nib = RegSel.nib2_sel;
              words = 2;
            }),
      )
      ∷ (
        0x77,
        ctrl (record cw {
          exec = InstrClass.unified;
          alu_op = AluOp.ld;
          width = Width.long;
          src2 = SrcSel.src_reg;
          src2_nib = RegSel.nib3_sel;
          dst = DstSel.dst_bx;
          dst_nib = RegSel.nib2_sel;
          words = 2;
        }),
      )
      ∷ [])

abbrev pub rom_bit_reg : List (ℕ × Slot)
rom_bit_reg =
    ((0xA2, bit_reg AluOp.res Width.byte)
      ∷ (0xA3, bit_reg AluOp.res Width.word)
      ∷ (0xA4, bit_reg AluOp.set Width.byte)
      ∷ (0xA5, bit_reg AluOp.set Width.word)
      ∷ (0xA6, bit_reg AluOp.bit Width.byte)
      ∷ (0xA7, bit_reg AluOp.bit Width.word)
      ∷ (0xA8, step_reg AluOp.inc Width.byte)
      ∷ (0xA9, step_reg AluOp.inc Width.word)
      ∷ (0xAA, step_reg AluOp.dec Width.byte)
      ∷ (0xAB, step_reg AluOp.dec Width.word)
      ∷ [])

abbrev pub rom_digits : List (ℕ × Slot)
rom_digits =
    ((0xAC, ctrl (record cw { exec = InstrClass.exchange; width = Width.byte }))
      ∷ (0xAD, ctrl (record cw { exec = InstrClass.exchange; width = Width.word }))
      ∷ (0xAE, ctrl (record cw { exec = InstrClass.tcc; width = Width.byte }))
      ∷ (0xAF, ctrl (record cw { exec = InstrClass.tcc; width = Width.word }))
      ∷ (0xB0, ctrl (record cw { exec = InstrClass.dab }))
      ∷ (0xB4, ctrl (mk_reg AluOp.adc Width.byte))
      ∷ (0xB5, ctrl (mk_reg AluOp.adc Width.word))
      ∷ (0xB6, ctrl (mk_reg AluOp.sbc Width.byte))
      ∷ (0xB7, ctrl (mk_reg AluOp.sbc Width.word))
      ∷ (0xBC, ctrl (record cw { exec = InstrClass.bcd_rotate; alu_op = AluOp.rr }))
      ∷ (
        0xBD,
        ctrl (record cw {
          exec = InstrClass.unified;
          alu_op = AluOp.ld;
          width = Width.word;
          src2 = SrcSel.src_nib3_bit;
          dst = DstSel.dst_reg;
          dst_nib = RegSel.nib2_sel;
        }),
      )
      ∷ (0xBE, ctrl (record cw { exec = InstrClass.bcd_rotate; alu_op = AluOp.rl }))
      ∷ [])

abbrev pub rom_ranges : List (ℕ × Slot)
rom_ranges =
    spread 0xC0 16 (
      ctrl (record cw {
        exec = InstrClass.unified;
        alu_op = AluOp.ld;
        width = Width.byte;
        src2 = SrcSel.src_op_lo_byte;
        dst = DstSel.dst_reg;
        dst_nib = RegSel.nib1_sel;
      }))
    ++ spread 0xD0 16 (ctrl (record cw { exec = InstrClass.branch; br_mode = BranchMode.calr12 }))
    ++ spread 0xE0 16 (ctrl (record cw { exec = InstrClass.branch; br_mode = BranchMode.jr }))
    ++ spread 0xF0 16 (ctrl (record cw { exec = InstrClass.branch; br_mode = BranchMode.djnz }))
