-- ===== src/Alu/Masks.antt =====
-- The masks that `alu_exec` of src/alu.c returns.
use commodore_900_emulator.Base.{ℕ, ◌<◌, arith, Bool, true, false, if_keeps, ◌==◌, bit_and}
use commodore_900_emulator.Alu.Defs.{AluOp, Width, byte, word, long, logic}
use commodore_900_emulator.Alu.Carry.{arith_mask, do_add, do_sub}
use commodore_900_emulator.Alu.Unary.{do_neg, do_inc, do_dec, do_dab}
use commodore_900_emulator.Alu.Shift.{do_shift_left, do_shift_right}
use commodore_900_emulator.Alu.Rotate.{do_rotate}
use commodore_900_emulator.Alu.Exec.{alu_exec, exts_result, tset_result}

arith_mask-small : (w : Width) → arith_mask w < 256
arith_mask-small byte = omega arith
arith_mask-small word = omega arith
arith_mask-small long = omega arith

shift_left-small : (a n : ℕ) (b : Bool) (w : Width) → (do_shift_left a n b w).mask < 256
unfolding do_shift_left logic
shift_left-small a n true w =
    if_keeps (λ m. m < 256) (bit_and n 0x3F == 0) (omega arith) (omega arith)
shift_left-small a n false w =
    if_keeps (λ m. m < 256) (bit_and n 0x3F == 0) (omega arith) (omega arith)

shift_right-small : (a n : ℕ) (b : Bool) (w : Width) → (do_shift_right a n b w).mask < 256
unfolding do_shift_right logic
shift_right-small a n true w =
    if_keeps (λ m. m < 256) (bit_and n 0x3F == 0) (omega arith) (omega arith)
shift_right-small a n false w =
    if_keeps (λ m. m < 256) (bit_and n 0x3F == 0) (omega arith) (omega arith)

-- The ALU names no bit of the FCW above the flags.
pub alu_exec-mask : (op : AluOp) (a b : ℕ) (c : Bool) (w : Width) → (alu_exec op a b c w).mask < 256
unfolding alu_exec do_add do_sub do_neg do_inc do_dec do_dab do_rotate exts_result tset_result logic
alu_exec-mask AluOp.add a b c w = arith_mask-small w
alu_exec-mask AluOp.adc a b c w = arith_mask-small w
alu_exec-mask AluOp.sub a b c w = arith_mask-small w
alu_exec-mask AluOp.cp a b c w = arith_mask-small w
alu_exec-mask AluOp.sbc a b c w = arith_mask-small w
alu_exec-mask AluOp.sla a b c w = shift_left-small a b true w
alu_exec-mask AluOp.sll a b c w = shift_left-small a b false w
alu_exec-mask AluOp.sra a b c w = shift_right-small a b true w
alu_exec-mask AluOp.srl a b c w = shift_right-small a b false w
alu_exec-mask AluOp.dab a b c w = omega arith
alu_exec-mask AluOp.and a b c byte = omega arith
alu_exec-mask AluOp.and a b c word = omega arith
alu_exec-mask AluOp.and a b c long = omega arith
alu_exec-mask AluOp.test a b c byte = omega arith
alu_exec-mask AluOp.test a b c word = omega arith
alu_exec-mask AluOp.test a b c long = omega arith
alu_exec-mask AluOp.or a b c byte = omega arith
alu_exec-mask AluOp.or a b c word = omega arith
alu_exec-mask AluOp.or a b c long = omega arith
alu_exec-mask AluOp.xor a b c byte = omega arith
alu_exec-mask AluOp.xor a b c word = omega arith
alu_exec-mask AluOp.xor a b c long = omega arith
alu_exec-mask AluOp.com1 a b c byte = omega arith
alu_exec-mask AluOp.com1 a b c word = omega arith
alu_exec-mask AluOp.com1 a b c long = omega arith
alu_exec-mask AluOp.neg a b c w = omega arith
alu_exec-mask AluOp.inc a b c w = omega arith
alu_exec-mask AluOp.dec a b c w = omega arith
alu_exec-mask AluOp.rl a b c w = omega arith
alu_exec-mask AluOp.rr a b c w = omega arith
alu_exec-mask AluOp.rlc a b c w = omega arith
alu_exec-mask AluOp.rrc a b c w = omega arith
alu_exec-mask AluOp.exts a b c byte = omega arith
alu_exec-mask AluOp.exts a b c word = omega arith
alu_exec-mask AluOp.exts a b c long = omega arith
alu_exec-mask AluOp.ld a b c w = omega arith
alu_exec-mask AluOp.bit a b c w = omega arith
alu_exec-mask AluOp.set a b c w = omega arith
alu_exec-mask AluOp.res a b c w = omega arith
alu_exec-mask AluOp.tset a b c byte = omega arith
alu_exec-mask AluOp.tset a b c word = omega arith
alu_exec-mask AluOp.tset a b c long = omega arith
