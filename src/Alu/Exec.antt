-- ===== src/Alu/Exec.antt =====
-- `alu_exec`, the dispatch of src/alu.c.
use commodore_900_emulator.Base.{
  ℕ, ◌+◌, Bool, true, false, bit_and, bit_or, bit_xor, ◌==◌, if◌then◌else◌, u8, u16, shl, has,
  or_if, complement,
}
use commodore_900_emulator.Alu.Defs.{f_z, f_s, f_pv, AluOp, Width, byte, AluResult, cast, logic}
use commodore_900_emulator.Alu.Carry.{do_add, do_sub}
use commodore_900_emulator.Alu.Unary.{do_neg, do_inc, do_dec, do_dab}
use commodore_900_emulator.Alu.Shift.{do_shift_left, do_shift_right}
use commodore_900_emulator.Alu.Rotate.{do_rotate}

-- `(w==WByte)?(F_Z|F_S|F_PV):(F_Z|F_S)`
abbrev logic_mask : Width → ℕ
logic_mask byte = bit_or (bit_or f_z f_s) f_pv
logic_mask _ = bit_or f_z f_s

-- The cast chain `(uint16_t)(int16_t)(int8_t)(uint8_t)a` of EXTS, and the one from word to long.
abbrev sign_extend : Width → ℕ → ℕ
sign_extend byte a = let x = u8 a in if has x 0x80 then 0xFF00 + x else x
sign_extend _ a = let x = u16 a in if has x 0x8000 then 0xFFFF0000 + x else x

unfoldable pub exts_result : Width → ℕ → AluResult
exts_result byte a =
    let v = sign_extend byte a in
    record { value = v; flags = or_if (has v 0x8000) f_s (or_if (v == 0) f_z 0); mask = 0 }
exts_result w a =
    let v = sign_extend w a in
    record { value = v; flags = or_if (has v 0x80000000) f_s (or_if (v == 0) f_z 0); mask = 0 }

unfoldable pub tset_result : Width → ℕ → AluResult
tset_result byte a = record { value = 0xFF; flags = or_if (has (u8 a) 0x80) f_s 0; mask = f_s }
tset_result _ a = record { value = 0xFFFF; flags = or_if (has (u16 a) 0x8000) f_s 0; mask = f_s }

-- The operands are 64-bit; `1ull << b` is for a bit number `b` below 64.
unfoldable pub alu_exec : AluOp → ℕ → ℕ → Bool → Width → AluResult
unfolding exts_result tset_result
alu_exec AluOp.add a b carry_in w = do_add a b false w
alu_exec AluOp.adc a b carry_in w = do_add a b carry_in w
alu_exec AluOp.sub a b carry_in w = do_sub a b false w
alu_exec AluOp.cp a b carry_in w = do_sub a b false w
alu_exec AluOp.sbc a b carry_in w = do_sub a b carry_in w
alu_exec AluOp.and a b carry_in w = logic (cast w (bit_and a b)) w (logic_mask w)
alu_exec AluOp.test a b carry_in w = logic (cast w a) w (logic_mask w)
alu_exec AluOp.or a b carry_in w = logic (cast w (bit_or a b)) w (logic_mask w)
alu_exec AluOp.xor a b carry_in w = logic (cast w (bit_xor a b)) w (logic_mask w)
alu_exec AluOp.com1 a b carry_in w = logic (cast w (complement 64 a)) w (logic_mask w)
alu_exec AluOp.neg a b carry_in w = do_neg a w
alu_exec AluOp.inc a b carry_in w = do_inc a b w
alu_exec AluOp.dec a b carry_in w = do_dec a b w
alu_exec AluOp.sla a b carry_in w = do_shift_left a b true w
alu_exec AluOp.sll a b carry_in w = do_shift_left a b false w
alu_exec AluOp.sra a b carry_in w = do_shift_right a b true w
alu_exec AluOp.srl a b carry_in w = do_shift_right a b false w
alu_exec AluOp.rl a b carry_in w = do_rotate a b false false carry_in w
alu_exec AluOp.rr a b carry_in w = do_rotate a b true false carry_in w
alu_exec AluOp.rlc a b carry_in w = do_rotate a b false true carry_in w
alu_exec AluOp.rrc a b carry_in w = do_rotate a b true true carry_in w
alu_exec AluOp.dab a b carry_in w = do_dab a (has b 1) carry_in
alu_exec AluOp.exts a b carry_in w = exts_result w a
alu_exec AluOp.ld a b carry_in w = record { value = b; flags = 0; mask = 0 }
alu_exec AluOp.bit a b carry_in w = record {
  value = a;
  flags = or_if (bit_and a (shl 1 b) == 0) f_z 0;
  mask = f_z;
}
alu_exec AluOp.set a b carry_in w = record { value = bit_or a (shl 1 b); flags = 0; mask = 0 }
alu_exec AluOp.res a b carry_in w = record {
  value = bit_and a (complement 64 (shl 1 b));
  flags = 0;
  mask = 0;
}
alu_exec AluOp.tset a b carry_in w = tset_result w a
