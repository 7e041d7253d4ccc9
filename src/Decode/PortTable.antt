-- ===== src/Decode/PortTable.antt =====
-- The tables of src/decode.c for the blocks 0x3A and 0x3B: ports. The second of a pair is for the
-- alternate form.
use commodore_900_emulator.Base.{ℕ, Bool, true, false, List, [], ◌∷◌}
use commodore_900_emulator.Alu.{Width}
use commodore_900_emulator.Cpu.{CtrlWord, InstrClass}
use commodore_900_emulator.Decode.Slot.{cw}

-- The macro `B`.
abbrev block_io : Width → Bool → Bool → Bool → Bool → CtrlWord
block_io w iow dec rep spec = record cw {
  exec = InstrClass.block_io;
  width = w;
  io_write = iow;
  block_decr = dec;
  block_rept = rep;
  io_spec = spec;
  words = 2;
}

abbrev pub tbl_3a : List (ℕ × (CtrlWord × CtrlWord))
tbl_3a =
    (
      0x04,
      (
        record cw { exec = InstrClass.io; width = Width.byte; words = 2 },
        record cw { exec = InstrClass.io; width = Width.byte; words = 2 },
      ),
    )
    ∷ (
      0x05,
      (
        record cw { exec = InstrClass.io; width = Width.byte; io_spec = true; words = 2 },
        record cw { exec = InstrClass.io; width = Width.byte; io_spec = true; words = 2 },
      ),
    )
    ∷ (
      0x06,
      (
        record cw { exec = InstrClass.io; width = Width.byte; io_write = true; words = 2 },
        record cw { exec = InstrClass.io; width = Width.byte; io_write = true; words = 2 },
      ),
    )
    ∷ (
      0x07,
      (
        record cw {
          exec = InstrClass.io;
          width = Width.byte;
          io_write = true;
          io_spec = true;
          words = 2;
        },
        record cw {
          exec = InstrClass.io;
          width = Width.byte;
          io_write = true;
          io_spec = true;
          words = 2;
        },
      ),
    )
    ∷ (
      0x00,
      (block_io Width.byte false false true false, block_io Width.byte false true false false),
    )
    ∷ (0x01, (block_io Width.byte false false true true, block_io Width.byte false true false true))
    ∷ (
      0x02,
      (block_io Width.byte true false true false, block_io Width.byte true false false false),
    )
    ∷ (0x03, (block_io Width.byte true false true true, block_io Width.byte true false false true))
    ∷ (
      0x08,
      (block_io Width.byte false true true false, block_io Width.byte false false false false),
    )
    ∷ (0x09, (block_io Width.byte false true true true, block_io Width.byte false false false true))
    ∷ (0x0A, (block_io Width.byte true true true false, block_io Width.byte true true false false))
    ∷ (0x0B, (block_io Width.byte true true true true, block_io Width.byte true true false true))
    ∷ []

abbrev pub tbl_3b : List (ℕ × (CtrlWord × CtrlWord))
tbl_3b =
    (
      0x04,
      (
        record cw { exec = InstrClass.io; width = Width.word; words = 2 },
        record cw { exec = InstrClass.io; width = Width.word; words = 2 },
      ),
    )
    ∷ (
      0x05,
      (
        record cw { exec = InstrClass.io; width = Width.word; io_spec = true; words = 2 },
        record cw { exec = InstrClass.io; width = Width.word; io_spec = true; words = 2 },
      ),
    )
    ∷ (
      0x06,
      (
        record cw { exec = InstrClass.io; width = Width.word; io_write = true; words = 2 },
        record cw { exec = InstrClass.io; width = Width.word; io_write = true; words = 2 },
      ),
    )
    ∷ (
      0x07,
      (
        record cw {
          exec = InstrClass.io;
          width = Width.word;
          io_write = true;
          io_spec = true;
          words = 2;
        },
        record cw {
          exec = InstrClass.io;
          width = Width.word;
          io_write = true;
          io_spec = true;
          words = 2;
        },
      ),
    )
    ∷ (
      0x00,
      (block_io Width.word false false true false, block_io Width.word false true false false),
    )
    ∷ (0x01, (block_io Width.word false false true true, block_io Width.word false true false true))
    ∷ (
      0x02,
      (block_io Width.word true false true false, block_io Width.word true false false false),
    )
    ∷ (0x03, (block_io Width.word true false true true, block_io Width.word true false false true))
    ∷ (
      0x08,
      (block_io Width.word false true true false, block_io Width.word false false false false),
    )
    ∷ (0x09, (block_io Width.word false true true true, block_io Width.word false false false true))
    ∷ (0x0A, (block_io Width.word true true true false, block_io Width.word true true false false))
    ∷ (0x0B, (block_io Width.word true true true true, block_io Width.word true true false true))
    ∷ []
