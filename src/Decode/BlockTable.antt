-- ===== src/Decode/BlockTable.antt =====
-- The tables of src/decode.c for the blocks 0xBA, 0xBB, 0xB8 and 0x7C.
use commodore_900_emulator.Base.{
  ℕ, Bool, true, false, not, ◌==◌, if◌then◌else◌, bit_and, bit_or, List, [], ◌∷◌,
}
use commodore_900_emulator.Alu.{Width}
use commodore_900_emulator.Cpu.{CtrlWord, InstrClass, FcwOpKind}
use commodore_900_emulator.Decode.Slot.{cw}

abbrev pub tbl_bb : List (ℕ × (CtrlWord × CtrlWord))
tbl_bb =
    (
      0x0,
      (
        record cw { exec = InstrClass.block_compare; width = Width.word; words = 2 },
        record cw { exec = InstrClass.block_compare; width = Width.word; words = 2 },
      ),
    )
    ∷ (
      0x1,
      (
        record cw {
          exec = InstrClass.block_transfer;
          width = Width.word;
          block_rept = true;
          words = 2;
        },
        record cw { exec = InstrClass.block_transfer; width = Width.word; words = 2 },
      ),
    )
    ∷ (
      0x2,
      (
        record cw { exec = InstrClass.block_string; width = Width.word; words = 2 },
        record cw { exec = InstrClass.block_string; width = Width.word; words = 2 },
      ),
    )
    ∷ (
      0x4,
      (
        record cw {
          exec = InstrClass.block_compare;
          width = Width.word;
          block_rept = true;
          words = 2;
        },
        record cw {
          exec = InstrClass.block_compare;
          width = Width.word;
          block_rept = true;
          words = 2;
        },
      ),
    )
    ∷ (
      0x6,
      (
        record cw {
          exec = InstrClass.block_string;
          width = Width.word;
          block_rept = true;
          words = 2;
        },
        record cw {
          exec = InstrClass.block_string;
          width = Width.word;
          block_rept = true;
          words = 2;
        },
      ),
    )
    ∷ (
      0x8,
      (
        record cw {
          exec = InstrClass.block_compare;
          width = Width.word;
          block_decr = true;
          words = 2;
        },
        record cw {
          exec = InstrClass.block_compare;
          width = Width.word;
          block_decr = true;
          words = 2;
        },
      ),
    )
    ∷ (
      0x9,
      (
        record cw {
          exec = InstrClass.block_transfer;
          width = Width.word;
          block_decr = true;
          block_rept = true;
          words = 2;
        },
        record cw {
          exec = InstrClass.block_transfer;
          width = Width.word;
          block_decr = true;
          words = 2;
        },
      ),
    )
    ∷ (
      0xA,
      (
        record cw {
          exec = InstrClass.block_string;
          width = Width.word;
          block_decr = true;
          words = 2;
        },
        record cw {
          exec = InstrClass.block_string;
          width = Width.word;
          block_decr = true;
          words = 2;
        },
      ),
    )
    ∷ (
      0xC,
      (
        record cw {
          exec = InstrClass.block_compare;
          width = Width.word;
          block_decr = true;
          block_rept = true;
          words = 2;
        },
        record cw {
          exec = InstrClass.block_compare;
          width = Width.word;
          block_decr = true;
          block_rept = true;
          words = 2;
        },
      ),
    )
    ∷ (
      0xE,
      (
        record cw {
          exec = InstrClass.block_string;
          width = Width.word;
          block_decr = true;
          block_rept = true;
          words = 2;
        },
        record cw {
          exec = InstrClass.block_string;
          width = Width.word;
          block_decr = true;
          block_rept = true;
          words = 2;
        },
      ),
    )
    ∷ []

abbrev pub tbl_ba : List (ℕ × (CtrlWord × CtrlWord))
tbl_ba =
    (
      0x0,
      (
        record cw { exec = InstrClass.block_compare; width = Width.byte; words = 2 },
        record cw { exec = InstrClass.block_compare; width = Width.byte; words = 2 },
      ),
    )
    ∷ (
      0x1,
      (
        record cw {
          exec = InstrClass.block_transfer;
          width = Width.byte;
          block_rept = true;
          words = 2;
        },
        record cw { exec = InstrClass.block_transfer; width = Width.byte; words = 2 },
      ),
    )
    ∷ (
      0x2,
      (
        record cw { exec = InstrClass.block_string; width = Width.byte; words = 2 },
        record cw { exec = InstrClass.block_string; width = Width.byte; words = 2 },
      ),
    )
    ∷ (
      0x4,
      (
        record cw {
          exec = InstrClass.block_compare;
          width = Width.byte;
          block_rept = true;
          words = 2;
        },
        record cw {
          exec = InstrClass.block_compare;
          width = Width.byte;
          block_rept = true;
          words = 2;
        },
      ),
    )
    ∷ (
      0x6,
      (
        record cw {
          exec = InstrClass.block_string;
          width = Width.byte;
          block_rept = true;
          words = 2;
        },
        record cw {
          exec = InstrClass.block_string;
          width = Width.byte;
          block_rept = true;
          words = 2;
        },
      ),
    )
    ∷ (
      0x8,
      (
        record cw {
          exec = InstrClass.block_compare;
          width = Width.byte;
          block_decr = true;
          words = 2;
        },
        record cw {
          exec = InstrClass.block_compare;
          width = Width.byte;
          block_decr = true;
          words = 2;
        },
      ),
    )
    ∷ (
      0x9,
      (
        record cw {
          exec = InstrClass.block_transfer;
          width = Width.byte;
          block_decr = true;
          block_rept = true;
          words = 2;
        },
        record cw {
          exec = InstrClass.block_transfer;
          width = Width.byte;
          block_decr = true;
          words = 2;
        },
      ),
    )
    ∷ (
      0xA,
      (
        record cw {
          exec = InstrClass.block_string;
          width = Width.byte;
          block_decr = true;
          words = 2;
        },
        record cw {
          exec = InstrClass.block_string;
          width = Width.byte;
          block_decr = true;
          words = 2;
        },
      ),
    )
    ∷ (
      0xC,
      (
        record cw {
          exec = InstrClass.block_compare;
          width = Width.byte;
          block_decr = true;
          block_rept = true;
          words = 2;
        },
        record cw {
          exec = InstrClass.block_compare;
          width = Width.byte;
          block_decr = true;
          block_rept = true;
          words = 2;
        },
      ),
    )
    ∷ (
      0xE,
      (
        record cw {
          exec = InstrClass.block_string;
          width = Width.byte;
          block_decr = true;
          block_rept = true;
          words = 2;
        },
        record cw {
          exec = InstrClass.block_string;
          width = Width.byte;
          block_decr = true;
          block_rept = true;
          words = 2;
        },
      ),
    )
    ∷ []

-- The eight words of the block 0xB8.
abbrev translate_word : Bool → Bool → Bool → CtrlWord
translate_word iow dec rep = record cw {
  exec = InstrClass.translate;
  io_write = iow;
  block_decr = dec;
  block_rept = rep;
  words = 2;
}

abbrev pub tbl_b8 : List (ℕ × CtrlWord)
tbl_b8 =
    (0, translate_word true false false)
    ∷ (1, translate_word false false false)
    ∷ (2, translate_word true false true)
    ∷ (3, translate_word false false true)
    ∷ (4, translate_word true true false)
    ∷ (5, translate_word false true false)
    ∷ (6, translate_word true true true)
    ∷ (7, translate_word false true true)
    ∷ []

-- DI and EI, by the low three bits of the first word.
abbrev pub tbl_diei : ℕ → CtrlWord
tbl_diei i =
    let vie = if bit_and i 0x02 == 0 then 0x1000 else 0 in
    let mask = if bit_and i 0x01 == 0 then bit_or vie 0x0800 else vie in
    if not (bit_and i 0x04 == 0)
    then record cw { exec = InstrClass.fcw_op; fcw_op = FcwOpKind.set_flags; fcw_mask = mask }
    else record cw { exec = InstrClass.fcw_op; fcw_op = FcwOpKind.clear_flags; fcw_mask = mask }
