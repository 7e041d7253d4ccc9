-- ===== src/Decode/Lookup.antt =====
-- The whole table of src/decode.c, and `decode_lookup`.
use commodore_900_emulator.Base.{
  ℕ, ◌==◌, if◌then◌else◌, shr, List, [], ◌∷◌, ◌++◌, Option, none, some,
}
use commodore_900_emulator.Cpu.{CtrlWord, nib2, nib3}
use commodore_900_emulator.Decode.Slot.{Slot, ctrl, nib2_fork, nib3_fork, sub, entry}
use commodore_900_emulator.Decode.Registers.{
  rom_alu_reg, rom_alu_imm, rom_alu_addr, rom_load, rom_stack, rom_branch,
}
use commodore_900_emulator.Decode.Memory.{
  rom_long_imm, rom_product, rom_bit_ir, rom_step_ir, rom_relative, rom_long_addr, rom_bit_addr,
}
use commodore_900_emulator.Decode.Control.{
  rom_direct, rom_load_imm, rom_system, rom_long_store, rom_indexed, rom_bit_reg, rom_digits,
  rom_ranges,
}
use commodore_900_emulator.Decode.Refine.{
  sub_3a, sub_3b, sub_b2, sub_b3, sub_ba, sub_bb, sub_4c, sub_4d, sub_0c, sub_0d, sub_8c, sub_8d,
  sub_9c, sub_b1, sub_1c, sub_5c, sub_7b, sub_7c, sub_7d, sub_b8,
}

-- The calls of `set_sub` for the other sub-decoders.
abbrev pub rom_sub : List (ℕ × Slot)
rom_sub =
    (0x8C, sub sub_8c)
    ∷ (0x8D, sub sub_8d)
    ∷ (0x9C, sub sub_9c)
    ∷ (0xBA, sub sub_ba)
    ∷ (0xBB, sub sub_bb)
    ∷ (0x3A, sub sub_3a)
    ∷ (0x3B, sub sub_3b)
    ∷ (0x1C, sub sub_1c)
    ∷ (0x0C, sub sub_0c)
    ∷ (0x0D, sub sub_0d)
    ∷ (0x4C, sub sub_4c)
    ∷ (0x4D, sub sub_4d)
    ∷ (0x5C, sub sub_5c)
    ∷ (0x7B, sub sub_7b)
    ∷ (0x7C, sub sub_7c)
    ∷ (0x7D, sub sub_7d)
    ∷ (0xB1, sub sub_b1)
    ∷ (0xB2, sub sub_b2)
    ∷ (0xB3, sub sub_b3)
    ∷ (0xB8, sub sub_b8)
    ∷ []

abbrev pub rom_plain : List (ℕ × Slot)
rom_plain =
    rom_alu_reg ++ rom_alu_imm ++ rom_alu_addr ++ rom_load ++ rom_stack ++ rom_branch
    ++ rom_long_imm ++ rom_product ++ rom_bit_ir ++ rom_step_ir ++ rom_relative ++ rom_long_addr
    ++ rom_bit_addr ++ rom_direct ++ rom_load_imm ++ rom_system ++ rom_long_store ++ rom_indexed
    ++ rom_bit_reg ++ rom_digits ++ rom_ranges

unfoldable pub rom : List (ℕ × Slot)
rom = rom_plain ++ rom_sub

-- The word of a slot.
unfoldable pub refine : Slot → ℕ → (ℕ → ℕ) → ℕ → Option CtrlWord
refine (ctrl c) op w n = some c
refine (nib2_fork z nz) op w n = some (if nib2 op == 0 then z else nz)
refine (nib3_fork z nz) op w n = some (if nib3 op == 0 then z else nz)
refine (sub f) op w n = f op w n

-- `if (!c || !c->valid) return NULL;`
unfoldable pub if_valid : Option CtrlWord → Option CtrlWord
if_valid none = none
if_valid (some c) = if c.valid then some c else none

unfoldable pub look : Option Slot → ℕ → (ℕ → ℕ) → ℕ → Option CtrlWord
unfolding refine if_valid
look none op w n = none
look (some s) op w n = if_valid (refine s op w n)

unfoldable pub decode_lookup : ℕ → (ℕ → ℕ) → ℕ → Option CtrlWord
unfolding rom entry look
decode_lookup op w n = look (entry (shr op 8) rom) op w n
