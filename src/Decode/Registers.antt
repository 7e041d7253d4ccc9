-- ===== src/Decode/Registers.antt =====
-- `decode_init` of src/decode.c, first part: register operands, loads, the stack and branches.
use commodore_900_emulator.Base.{ℕ, List, [], ◌∷◌}
use commodore_900_emulator.Alu.{AluOp, Width}
use commodore_900_emulator.Cpu.{InstrClass, BranchMode, StackMode, SrcSel, DstSel, RegSel}
use commodore_900_emulator.Decode.Slot.{cw, mk_reg, Slot, ctrl, nib2_fork, nib3_fork}

-- `(op == OpCp) ? DstNone : DstReg`
abbrev pub alu_dst : AluOp → DstSel
alu_dst AluOp.cp = DstSel.dst_none
alu_dst _ = DstSel.dst_reg

abbrev pub alu_imm : AluOp → Width → Slot
alu_imm op w =
    nib2_fork
      (record cw {
        exec = InstrClass.unified;
        alu_op = op;
        width = w;
        words = 2;
        src1_nib = RegSel.nib3_sel;
        src2 = SrcSel.src_imm;
        dst = alu_dst op;
        dst_nib = RegSel.nib3_sel;
      })
      (record cw {
        exec = InstrClass.unified;
        alu_op = op;
        width = w;
        words = 1;
        src1_nib = RegSel.nib3_sel;
        src2 = SrcSel.src_ir;
        src2_nib = RegSel.nib2_sel;
        dst = alu_dst op;
        dst_nib = RegSel.nib3_sel;
      })

abbrev pub alu_addr : AluOp → Width → Slot
alu_addr op w =
    nib2_fork
      (record cw {
        exec = InstrClass.unified;
        alu_op = op;
        width = w;
        words = 2;
        src1_nib = RegSel.nib3_sel;
        src2 = SrcSel.src_da;
        dst = alu_dst op;
        dst_nib = RegSel.nib3_sel;
      })
      (record cw {
        exec = InstrClass.unified;
        alu_op = op;
        width = w;
        words = 2;
        src1_nib = RegSel.nib3_sel;
        src2 = SrcSel.src_x;
        src2_nib = RegSel.nib2_sel;
        dst = alu_dst op;
        dst_nib = RegSel.nib3_sel;
      })

abbrev pub rom_alu_reg : List (ℕ × Slot)
rom_alu_reg =
    ((0x80, ctrl (mk_reg AluOp.add Width.byte))
      ∷ (0x81, ctrl (mk_reg AluOp.add Width.word))
      ∷ (0x82, ctrl (mk_reg AluOp.sub Width.byte))
      ∷ (0x83, ctrl (mk_reg AluOp.sub Width.word))
      ∷ (0x84, ctrl (mk_reg AluOp.or Width.byte))
      ∷ (0x85, ctrl (mk_reg AluOp.or Width.word))
      ∷ (0x86, ctrl (mk_reg AluOp.and Width.byte))
      ∷ (0x87, ctrl (mk_reg AluOp.and Width.word))
      ∷ (0x88, ctrl (mk_reg AluOp.xor Width.byte))
      ∷ (0x89, ctrl (mk_reg AluOp.xor Width.word))
      ∷ (0x8A, ctrl (mk_reg AluOp.cp Width.byte))
      ∷ (0x8B, ctrl (mk_reg AluOp.cp Width.word))
      ∷ [])

abbrev pub rom_alu_imm : List (ℕ × Slot)
rom_alu_imm =
    ((0x00, alu_imm AluOp.add Width.byte)
      ∷ (0x01, alu_imm AluOp.add Width.word)
      ∷ (0x02, alu_imm AluOp.sub Width.byte)
      ∷ (0x03, alu_imm AluOp.sub Width.word)
      ∷ (0x04, alu_imm AluOp.or Width.byte)
      ∷ (0x05, alu_imm AluOp.or Width.word)
      ∷ (0x06, alu_imm AluOp.and Width.byte)
      ∷ (0x07, alu_imm AluOp.and Width.word)
      ∷ (0x08, alu_imm AluOp.xor Width.byte)
      ∷ (0x09, alu_imm AluOp.xor Width.word)
      ∷ (0x0A, alu_imm AluOp.cp Width.byte)
      ∷ (0x0B, alu_imm AluOp.cp Width.word)
      ∷ [])

abbrev pub rom_alu_addr : List (ℕ × Slot)
rom_alu_addr =
    ((0x40, alu_addr AluOp.add Width.byte)
      ∷ (0x41, alu_addr AluOp.add Width.word)
      ∷ (0x42, alu_addr AluOp.sub Width.byte)
      ∷ (0x43, alu_addr AluOp.sub Width.word)
      ∷ (0x44, alu_addr AluOp.or Width.byte)
      ∷ (0x45, alu_addr AluOp.or Width.word)
      ∷ (0x46, alu_addr AluOp.and Width.byte)
      ∷ (0x47, alu_addr AluOp.and Width.word)
      ∷ (0x48, alu_addr AluOp.xor Width.byte)
      ∷ (0x49, alu_addr AluOp.xor Width.word)
      ∷ (0x4A, alu_addr AluOp.cp Width.byte)
      ∷ (0x4B, alu_addr AluOp.cp Width.word)
      ∷ [])

abbrev pub rom_load : List (ℕ × Slot)
rom_load =
    ((
      0xA0,
      ctrl (record cw {
        exec = InstrClass.unified;
        alu_op = AluOp.ld;
        width = Width.byte;
        src2 = SrcSel.src_reg;
        src2_nib = RegSel.nib2_sel;
        dst = DstSel.dst_reg;
        dst_nib = RegSel.nib3_sel;
      }),
    )
      ∷ (
        0xA1,
        ctrl (record cw {
          exec = InstrClass.unified;
          alu_op = AluOp.ld;
          width = Width.word;
          src2 = SrcSel.src_reg;
          src2_nib = RegSel.nib2_sel;
          dst = DstSel.dst_reg;
          dst_nib = RegSel.nib3_sel;
        }),
      )
      ∷ (
        0x60,
        nib2_fork
            (record cw {
              exec = InstrClass.unified;
              alu_op = AluOp.ld;
              width = Width.byte;
              words = 2;
              src2 = SrcSel.src_da;
              dst = DstSel.dst_reg;
              dst_nib = RegSel.nib3_sel;
            })
            (record cw {
              exec = InstrClass.unified;
              alu_op = AluOp.ld;
              width = Width.byte;
              words = 2;
              src2 = SrcSel.src_x;
              src2_nib = RegSel.nib2_sel;
              dst = DstSel.dst_reg;
              dst_nib = RegSel.nib3_sel;
            }),
      )
      ∷ (
        0x61,
        nib2_fork
            (record cw {
              exec = InstrClass.unified;
              alu_op = AluOp.ld;
              width = Width.word;
              words = 2;
              src2 = SrcSel.src_da;
              dst = DstSel.dst_reg;
              dst_nib = RegSel.nib3_sel;
            })
            (record cw {
              exec = InstrClass.unified;
              alu_op = AluOp.ld;
              width = Width.word;
              words = 2;
              src2 = SrcSel.src_x;
              src2_nib = RegSel.nib2_sel;
              dst = DstSel.dst_reg;
              dst_nib = RegSel.nib3_sel;
            }),
      )
      ∷ (
        0x2E,
        ctrl (record cw {
          exec = InstrClass.unified;
          alu_op = AluOp.ld;
          width = Width.byte;
          src2 = SrcSel.src_reg;
          src2_nib = RegSel.nib3_sel;
          dst = DstSel.dst_ir;
          dst_nib = RegSel.nib2_sel;
        }),
      )
      ∷ (
        0x2F,
        ctrl (record cw {
          exec = InstrClass.unified;
          alu_op = AluOp.ld;
          width = Width.word;
          src2 = SrcSel.src_reg;
          src2_nib = RegSel.nib3_sel;
          dst = DstSel.dst_ir;
          dst_nib = RegSel.nib2_sel;
        }),
      )
      ∷ (
        0x6E,
        nib2_fork
            (record cw {
              exec = InstrClass.unified;
              alu_op = AluOp.ld;
              width = Width.byte;
              words = 2;
              src2 = SrcSel.src_reg;
              src2_nib = RegSel.nib3_sel;
              dst = DstSel.dst_da;
            })
            (record cw {
              exec = InstrClass.unified;
              alu_op = AluOp.ld;
              width = Width.byte;
              words = 2;
              src2 = SrcSel.src_reg;
              src2_nib = RegSel.nib3_sel;
              dst = DstSel.dst_x;
              dst_nib = RegSel.nib2_sel;
            }),
      )
      ∷ (
        0x6F,
        nib2_fork
            (record cw {
              exec = InstrClass.unified;
              alu_op = AluOp.ld;
              width = Width.word;
              words = 2;
              src2 = SrcSel.src_reg;
              src2_nib = RegSel.nib3_sel;
              dst = DstSel.dst_da;
            })
            (record cw {
              exec = InstrClass.unified;
              alu_op = AluOp.ld;
              width = Width.word;
              words = 2;
              src2 = SrcSel.src_reg;
              src2_nib = RegSel.nib3_sel;
              dst = DstSel.dst_x;
              dst_nib = RegSel.nib2_sel;
            }),
      )
      ∷ [])

abbrev pub rom_stack : List (ℕ × Slot)
rom_stack =
    ((0x93, ctrl (record cw { exec = InstrClass.stack; stk_mode = StackMode.push }))
      ∷ (0x97, ctrl (record cw { exec = InstrClass.stack; stk_mode = StackMode.pop }))
      ∷ (0x91, ctrl (record cw { exec = InstrClass.stack; stk_mode = StackMode.push_l }))
      ∷ (0x95, ctrl (record cw { exec = InstrClass.stack; stk_mode = StackMode.pop_l }))
      ∷ (
        0x13,
        ctrl (record cw {
          exec = InstrClass.stack;
          stk_mode = StackMode.push_src;
          src2 = SrcSel.src_ir;
        }),
      )
      ∷ (
        0x17,
        ctrl (record cw {
          exec = InstrClass.stack;
          stk_mode = StackMode.pop_dst;
          dst = DstSel.dst_ir;
        }),
      )
      ∷ (
        0x11,
        ctrl (record cw {
          exec = InstrClass.stack;
          stk_mode = StackMode.push_l_src;
          src2 = SrcSel.src_ir;
        }),
      )
      ∷ (
        0x15,
        ctrl (record cw {
          exec = InstrClass.stack;
          stk_mode = StackMode.pop_l_dst;
          dst = DstSel.dst_ir;
        }),
      )
      ∷ (
        0x53,
        nib3_fork
            (record cw {
              exec = InstrClass.stack;
              stk_mode = StackMode.push_src;
              src2 = SrcSel.src_da;
              words = 2;
            })
            (record cw {
              exec = InstrClass.stack;
              stk_mode = StackMode.push_src;
              src2 = SrcSel.src_x;
              words = 2;
            }),
      )
      ∷ (
        0x57,
        nib3_fork
            (record cw {
              exec = InstrClass.stack;
              stk_mode = StackMode.pop_dst;
              dst = DstSel.dst_da;
              words = 2;
            })
            (record cw {
              exec = InstrClass.stack;
              stk_mode = StackMode.pop_dst;
              dst = DstSel.dst_x;
              words = 2;
            }),
      )
      ∷ (
        0x51,
        nib3_fork
            (record cw {
              exec = InstrClass.stack;
              stk_mode = StackMode.push_l_src;
              src2 = SrcSel.src_da;
              words = 2;
            })
            (record cw {
              exec = InstrClass.stack;
              stk_mode = StackMode.push_l_src;
              src2 = SrcSel.src_x;
              words = 2;
            }),
      )
      ∷ (
        0x55,
        nib3_fork
            (record cw {
              exec = InstrClass.stack;
              stk_mode = StackMode.pop_l_dst;
              dst = DstSel.dst_da;
              words = 2;
            })
            (record cw {
              exec = InstrClass.stack;
              stk_mode = StackMode.pop_l_dst;
              dst = DstSel.dst_x;
              words = 2;
            }),
      )
      ∷ [])

abbrev pub rom_branch : List (ℕ × Slot)
rom_branch =
    ((0x1E, ctrl (record cw { exec = InstrClass.branch; br_mode = BranchMode.jp_ir }))
      ∷ (
        0x5E,
        nib2_fork (record cw { exec = InstrClass.branch; br_mode = BranchMode.jp_da; words = 2 })
            (record cw { exec = InstrClass.branch; br_mode = BranchMode.jp_x; words = 2 }),
      )
      ∷ (0x1F, ctrl (record cw { exec = InstrClass.branch; br_mode = BranchMode.call_ir }))
      ∷ (
        0x5F,
        nib2_fork (record cw { exec = InstrClass.branch; br_mode = BranchMode.call_da; words = 2 })
            (record cw { exec = InstrClass.branch; br_mode = BranchMode.call_x; words = 2 }),
      )
      ∷ (0x9E, ctrl (record cw { exec = InstrClass.branch; br_mode = BranchMode.ret }))
      ∷ [])
