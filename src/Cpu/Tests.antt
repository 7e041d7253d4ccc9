-- ===== src/Cpu/Tests.antt =====
-- Runs of the register file and the flags, and the theorems at concrete inputs.
use commodore_900_emulator.Base.{
  u16, shr, ◌+◌, ◌*◌, ◌/◌, ◌==◌, ◌^◌, ◌≡◌, refl, arith, true, false, has, if◌then◌else◌,
}
use commodore_900_emulator.Alu.{AluOp, AluResult, byte, alu_exec, do_sub, carry_chain}
use commodore_900_emulator.Cpu.State.{Cpu}
use commodore_900_emulator.Cpu.Flags.{apply_flags, cond_true}
use commodore_900_emulator.Cpu.Registers.{rl, wl, rw16}
use commodore_900_emulator.Cpu.Views.{rl-wl}
use commodore_900_emulator.Cpu.Merge.{apply_flags-bit}
use commodore_900_emulator.Cpu.Compare.{Compared, compare-cond_true}

abbrev pub idle_cpu : Cpu
idle_cpu = record {
  regs = λ i. 0;
  pc = 0;
  fcw = 0xC000;
  psap = 0;
  refresh = 0;
  nspseg = 0;
  nspoff = 0;
  halted = false;
  irq_req = 0;
  nvi_line = false;
  vi_line = false;
  nmi_line = false;
  segt_line = false;
  nmi_prev = false;
  vi_vector = 0;
  cur_op = 0;
  opcode = λ i. 0;
  oplen = 0;
  seg_w1 = false;
  seg_w2 = false;
  instr_start = 0;
  repeat_pending = false;
  fault = false;
  insns = 0;
  serviced = 0;
}

-- 0x80 is -128 and 1 is 1: the comparison overflows, and LT still holds.
overflowing_lt : cond_true (apply_flags idle_cpu (alu_exec AluOp.cp 0x80 1 false byte)) 0x1 ≡ true
unfolding cond_true apply_flags alu_exec do_sub carry_chain
overflowing_lt = refl

compare-cond_true_example :
    Compared 7 0x80 1 (apply_flags idle_cpu (alu_exec AluOp.cp 0x80 1 false byte))
compare-cond_true_example = compare-cond_true idle_cpu 0x80 1 false byte

abbrev some_flags : AluResult
some_flags = record { value = 0; flags = 0x40; mask = 0xC0 }

apply_flags-bit_example : has (apply_flags idle_cpu some_flags).fcw (2 ^ 14) ≡ (
    if has some_flags.mask (2 ^ 14)
    then has some_flags.flags (2 ^ 14)
    else has idle_cpu.fcw (2 ^ 14))
apply_flags-bit_example = apply_flags-bit idle_cpu some_flags 14 (omega arith) (omega arith)

rl-wl_example :
    (rl (wl idle_cpu 5 0x12345678) 5 ≡ 0x12345678)
    × (rw16 (wl idle_cpu 5 0x12345678) 4 ≡ (
        if 5 / 2 * 2 + 1 == 4
        then u16 0x12345678
        else if 5 / 2 * 2 == 4
        then u16 (shr 0x12345678 16)
        else idle_cpu.regs 4))
rl-wl_example = rl-wl idle_cpu 5 4 0x12345678 (omega arith) (omega arith)
