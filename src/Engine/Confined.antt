-- ===== src/Engine/Confined.antt =====
-- A program in normal mode under `execute` of src/cpu.c: what no instruction of it can reach.
use commodore_900_emulator.Base.{
  ℕ, ◌-◌, ◌/◌, ◌%◌, ◌<◌, ◌≡◌, refl, sym, ap, ◌∙◌, arith, false, not, bit_and, complement,
  if◌then◌else◌, if_keeps, ltb, ◌==◌, has_digit, u8,
}
use commodore_900_emulator.Base.High.{high_or, high_clear, high_and}
use commodore_900_emulator.Alu.{AluOp, AluResult, Width, alu_exec}
use commodore_900_emulator.Alu.Masks.{alu_exec-mask}
use commodore_900_emulator.Cpu.{
  Cpu, CtrlWord, wb, ww16, wl, wq, reg_read, shift_count, reversed, nib2, reg_write, ureg_write,
  addr_to_reg, apply_flags, merge_flags, exec_shift, is_seg, sys_mode,
}
use commodore_900_emulator.Mmu.{Mmu}
use commodore_900_emulator.Mmu.Map.{SameMap, SameMap-refl, SameMap-trans, mmu_translate-SameMap}
use commodore_900_emulator.Bus.{Board}
use commodore_900_emulator.Bus.Memory.{Memory, phys_write8, phys_write16, store}
use commodore_900_emulator.Engine.State.{
  Machine, change_cpu, put_word, put_byte, put_long, put_quad, put_addr, put_pc, put_flags, flag_if,
  request, repeat, add_to_addr_reg, lose,
}
use commodore_900_emulator.Engine.Access.{translate, load8, load16, store8, store16, access_at}
use commodore_900_emulator.Engine.Execute.{set_fcw}
use commodore_900_emulator.Engine.Keeps.{Keeps, Stable}

-- The privileged part of the processor: the high byte of the FCW and the control registers.
pub record SameControl (c d : Cpu) : Type 0 where
  pub mode : d.fcw / 256 ≡ c.fcw / 256
  pub psap : d.psap ≡ c.psap
  pub refresh : d.refresh ≡ c.refresh
  pub nspseg : d.nspseg ≡ c.nspseg
  pub nspoff : d.nspoff ≡ c.nspoff
  pub halted : d.halted ≡ c.halted

-- The board but for the MMU, and the map of the MMU.
pub record SameBoard (b e : Board) : Type 0 where
  pub rest : record e { mmu = b.mmu } ≡ b
  pub map : SameMap b.mmu e.mmu

-- The ROM and the shape of the memory.
pub record SameShape (m n : Memory) : Type 0 where
  pub rom : n.rom ≡ m.rom
  pub flat_mem : n.flat_mem ≡ m.flat_mem
  pub flat_maxseg : n.flat_maxseg ≡ m.flat_maxseg

pub record Confined (a b : Machine) : Type 0 where
  pub control : SameControl a.cpu b.cpu
  pub board : SameBoard a.board b.board
  pub memory : SameShape a.memory b.memory
  pub disk : b.disk ≡ a.disk
  pub floppy : b.floppy ≡ a.floppy
  pub hdc_cmdblk : b.hdc_cmdblk ≡ a.hdc_cmdblk
  pub disk_vi : b.disk_vi ≡ a.disk_vi

pub Confined-refl : (a : Machine) → Confined a a
Confined-refl a = record {
  control = record {
    mode = refl;
    psap = refl;
    refresh = refl;
    nspseg = refl;
    nspoff = refl;
    halted = refl;
  };
  board = record { rest = refl; map = SameMap-refl a.board.mmu };
  memory = record { rom = refl; flat_mem = refl; flat_maxseg = refl };
  disk = refl;
  floppy = refl;
  hdc_cmdblk = refl;
  disk_vi = refl;
}

-- The mode is in the high byte.
pub mode-sys_mode : (c d : Cpu) → SameControl c d → sys_mode d ≡ sys_mode c
mode-sys_mode c d h =
    has_digit 14 d.fcw ∙ (ap (λ (t : ℕ). not (t % 2 == 0)) same ∙ sym (has_digit 14 c.fcw))
  where
    same : d.fcw / 16384 ≡ c.fcw / 16384
    same = omega (arith, h.mode)

-- The registers, the PC and the words of the instruction are not control.
pub with_cpu :
    (a b : Machine) (d : Cpu)
    → SameControl a.cpu d
    → Confined a b
    → Confined a (record b { cpu = d })
with_cpu a b d k h = record {
  control = k;
  board = h.board;
  memory = h.memory;
  disk = h.disk;
  floppy = h.floppy;
  hdc_cmdblk = h.hdc_cmdblk;
  disk_vi = h.disk_vi;
}

with_regs : (a c : Cpu) (r : ℕ → ℕ) → SameControl a c → SameControl a (record c { regs = r })
with_regs a c r h = record {
  mode = h.mode;
  psap = h.psap;
  refresh = h.refresh;
  nspseg = h.nspseg;
  nspoff = h.nspoff;
  halted = h.halted;
}

with_fcw :
    (a c : Cpu) (f : ℕ)
    → f / 256 ≡ c.fcw / 256
    → SameControl a c
    → SameControl a (record c { fcw = f })
with_fcw a c f e h = record {
  mode = e ∙ h.mode;
  psap = h.psap;
  refresh = h.refresh;
  nspseg = h.nspseg;
  nspoff = h.nspoff;
  halted = h.halted;
}

wb-SameControl : (a c : Cpu) (r v : ℕ) → SameControl a c → SameControl a (wb c r v)
unfolding wb
wb-SameControl a c r v h =
    if_keeps (SameControl a) (ltb r 8) (with_regs a c _ h) (with_regs a c _ h)

reg_write-SameControl :
    (a c : Cpu) (r : ℕ) (w : Width) (v : ℕ) → SameControl a c → SameControl a (reg_write c r w v)
unfolding reg_write ww16 wl
reg_write-SameControl a c r Width.byte v h = wb-SameControl a c r (u8 v) h
reg_write-SameControl a c r Width.word v h = with_regs a c _ h
reg_write-SameControl a c r Width.long v h = with_regs a c _ h

-- Flags under a mask of the low byte.
merge_flags-high :
    (f : ℕ) (r : AluResult) → f < 65536 → r.mask < 256 → merge_flags f r / 256 ≡ f / 256
unfolding merge_flags
merge_flags-high f r small h =
    high_or (bit_and f (complement 32 r.mask)) (bit_and r.flags r.mask) (high_and r.flags r.mask h)
    ∙ high_clear f r.mask small h

module _ (a : Machine) (fits : a.cpu.fcw < 65536) where
  pub small : (c : Cpu) → SameControl a.cpu c → c.fcw < 65536
  small c h = omega (arith, h.mode)

  apply_flags-SameControl :
      (c : Cpu) (r : AluResult)
      → r.mask < 256
      → SameControl a.cpu c
      → SameControl a.cpu (apply_flags c r)
  unfolding apply_flags
  apply_flags-SameControl c r h k = with_fcw a.cpu c _ (merge_flags-high c.fcw r (small c k) h) k

  pub set_fcw-Keeps :
      (f : ℕ → ℕ) → ((x : ℕ) → x < 65536 → f x / 256 ≡ x / 256) → Keeps (Confined a) (set_fcw f)
  unfolding set_fcw
  set_fcw-Keeps f e = record {
    at = λ m h.
        with_cpu a m _ (with_fcw a.cpu m.cpu _ (e m.cpu.fcw (small m.cpu h.control)) h.control) h;
  }

  phys_write8-SameShape :
      (m : Memory) (p v : ℕ) → SameShape a.memory m → SameShape a.memory (phys_write8 m p v)
  unfolding phys_write8
  phys_write8-SameShape m p v h =
      let wrote : (k x : ℕ) → SameShape a.memory (store k x m) =
        λ k x. record { rom = h.rom; flat_mem = h.flat_mem; flat_maxseg = h.flat_maxseg } in
      if_keeps (SameShape a.memory) _ (if_keeps (SameShape a.memory) _ (wrote _ _) h)
        (if_keeps (SameShape a.memory) _ h (if_keeps (SameShape a.memory) _ (wrote _ _) h))

  phys_write16-SameShape :
      (m : Memory) (p v : ℕ) → SameShape a.memory m → SameShape a.memory (phys_write16 m p v)
  unfolding phys_write16
  phys_write16-SameShape m p v h =
      let wrote : (j k x y : ℕ) → SameShape a.memory (store j y (store k x m)) =
        λ j k x y. record { rom = h.rom; flat_mem = h.flat_mem; flat_maxseg = h.flat_maxseg } in
      if_keeps (SameShape a.memory) _ (if_keeps (SameShape a.memory) _ (wrote _ _ _ _) h) (
        if_keeps (SameShape a.memory) _ h (
          if_keeps (SameShape a.memory) _ (wrote _ _ _ _)
            (phys_write8-SameShape _ _ _ (phys_write8-SameShape m _ _ h))))

  with_memory :
      (b : Machine) (m : Memory)
      → SameShape a.memory m
      → Confined a b
      → Confined a (record b { memory = m })
  with_memory b m k h = record {
    control = h.control;
    board = h.board;
    memory = k;
    disk = h.disk;
    floppy = h.floppy;
    hdc_cmdblk = h.hdc_cmdblk;
    disk_vi = h.disk_vi;
  }

  pub with_mmu :
      (e : Board) (u : Mmu)
      → SameMap e.mmu u
      → SameBoard a.board e
      → SameBoard a.board (record e { mmu = u })
  with_mmu e u k h = record { rest = h.rest; map = SameMap-trans h.map k }

  -- A change of the registers, or of what is no control.
  pub on_cpu :
      (f : Cpu → Cpu)
      → ((c : Cpu) → SameControl a.cpu c → SameControl a.cpu (f c))
      → Keeps (Confined a) (change_cpu f)
  on_cpu f e = record { at = λ m h. with_cpu a m _ (e m.cpu h.control) h }

  addr_to_reg-SameControl :
      (c : Cpu) (r v : ℕ) → SameControl a.cpu c → SameControl a.cpu (addr_to_reg c r v)
  unfolding addr_to_reg ww16
  addr_to_reg-SameControl c r v h =
      if_keeps (SameControl a.cpu) (is_seg c) (with_regs a.cpu c _ h) (with_regs a.cpu c _ h)

  shifted :
      (c : Cpu) (op : AluOp) (n dst : ℕ) (w : Width)
      → SameControl a.cpu c
      → SameControl a.cpu (
          apply_flags
            (reg_write c dst w (alu_exec op (reg_read c dst w) n false w).value)
            (alu_exec op (reg_read c dst w) n false w))
  shifted c op n dst w h =
      let r = alu_exec op (reg_read c dst w) n false w in
      apply_flags-SameControl (reg_write c dst w r.value) r
        (alu_exec-mask op (reg_read c dst w) n false w)
        (reg_write-SameControl a.cpu c dst w r.value h)

  exec_shift-SameControl :
      (w : CtrlWord) (c : Cpu) → SameControl a.cpu c → SameControl a.cpu (exec_shift c w)
  unfolding exec_shift
  exec_shift-SameControl w c h =
      let count = shift_count c w.count in
      let negative = ltb 0x7FFF count in
      shifted c (if negative then reversed w.alu_op else w.alu_op)
        (if negative then 0x10000 - count else count) (nib2 (c.opcode 0)) w.width h

  -- The fields that an instruction may change.
  pub plain :
      (c d : Cpu)
      → d.fcw ≡ c.fcw
      → d.psap ≡ c.psap
      → d.refresh ≡ c.refresh
      → d.nspseg ≡ c.nspseg
      → d.nspoff ≡ c.nspoff
      → d.halted ≡ c.halted
      → SameControl a.cpu c
      → SameControl a.cpu d
  plain c d e1 e2 e3 e4 e5 e6 h = record {
    mode = ap (λ (t : ℕ). t / 256) e1 ∙ h.mode;
    psap = e2 ∙ h.psap;
    refresh = e3 ∙ h.refresh;
    nspseg = e4 ∙ h.nspseg;
    nspoff = e5 ∙ h.nspoff;
    halted = e6 ∙ h.halted;
  }

  pub Confined-Stable : Stable (Confined a)
  unfolding put_word put_byte put_long put_quad put_addr add_to_addr_reg put_pc put_flags flag_if
      request repeat lose translate load8 load16 store8 store16 ww16 wl wq ureg_write
  Confined-Stable = record {
    word = λ r v. on_cpu _ (λ c h. with_regs a.cpu c _ h);
    byte = λ r v. on_cpu _ (λ c h. wb-SameControl a.cpu c r (u8 v) h);
    long = λ r v. on_cpu _ (λ c h. with_regs a.cpu c _ h);
    quad = λ r v. on_cpu _ (λ c h. with_regs a.cpu c _ h);
    addr = λ r v. on_cpu _ (λ c h. addr_to_reg-SameControl c r v h);
    pointer = λ r d. on_cpu _ (λ c h. with_regs a.cpu c _ h);
    register = λ w v. on_cpu _ (λ c h. reg_write-SameControl a.cpu c _ w.width v h);
    pc = λ p. on_cpu _ (λ c h. plain c _ refl refl refl refl refl refl h);
    flags = λ r k. on_cpu _ (λ c h. apply_flags-SameControl c r k h);
    flag = λ f b k. on_cpu _ (λ c h.
        with_fcw a.cpu c _
          (if_keeps (λ (t : ℕ). t / 256 ≡ c.fcw / 256) b (high_or c.fcw f k)
            (high_clear c.fcw f (small c h) k))
          h);
    requested = λ bit. on_cpu _ (λ c h. plain c _ refl refl refl refl refl refl h);
    lost = record {
      at = λ m h. record {
        control = h.control;
        board = h.board;
        memory = h.memory;
        disk = h.disk;
        floppy = h.floppy;
        hdc_cmdblk = h.hdc_cmdblk;
        disk_vi = h.disk_vi;
      };
    };
    repeated = on_cpu _ (λ c h. plain c _ refl refl refl refl refl refl h);
    shifted = λ w. on_cpu _ (exec_shift-SameControl w);
    translated = λ p x y. record {
      at = λ m h. record {
        control = plain m.cpu _ refl refl refl refl refl refl h.control;
        board = with_mmu m.board _ (mmu_translate-SameMap m.board.mmu (access_at m p x y)) h.board;
        memory = h.memory;
        disk = h.disk;
        floppy = h.floppy;
        hdc_cmdblk = h.hdc_cmdblk;
        disk_vi = h.disk_vi;
      };
    };
    loaded8 = λ p. record { at = λ m h. h };
    loaded16 = λ p. record { at = λ m h. h };
    stored8 = λ p v. record {
      at = λ m h. with_memory m _ (phys_write8-SameShape m.memory p v h.memory) h;
    };
    stored16 = λ p v. record {
      at = λ m h. with_memory m _ (phys_write16-SameShape m.memory p v h.memory) h;
    };
  }
