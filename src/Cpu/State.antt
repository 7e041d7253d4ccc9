-- ===== src/Cpu/State.antt =====
-- `CPU` of src/emu.h, without the pointer back to the machine that holds it.
use commodore_900_emulator.Base.{ℕ, Bool}

pub record Cpu : Type 0 where
  -- `R[16]`; only the indices 0 to 15 are read or written.
  pub regs : ℕ → ℕ
  pub pc : ℕ
  pub fcw : ℕ
  pub psap : ℕ
  pub refresh : ℕ
  pub nspseg : ℕ
  pub nspoff : ℕ
  pub halted : Bool
  pub irq_req : ℕ
  pub nvi_line : Bool
  pub vi_line : Bool
  pub nmi_line : Bool
  pub segt_line : Bool
  pub nmi_prev : Bool
  pub vi_vector : ℕ
  pub cur_op : ℕ
  -- `opcode[6]`
  pub opcode : ℕ → ℕ
  pub oplen : ℕ
  pub seg_w1 : Bool
  pub seg_w2 : Bool
  pub instr_start : ℕ
  pub repeat_pending : Bool
  pub fault : Bool
  pub insns : ℕ
  pub serviced : ℕ

-- The mode bits of the FCW.
abbrev pub fcw_seg : ℕ
fcw_seg = 0x8000

abbrev pub fcw_sn : ℕ
fcw_sn = 0x4000

abbrev pub irq_trap : ℕ
irq_trap = 0x40
