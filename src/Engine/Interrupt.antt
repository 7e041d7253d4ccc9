-- ===== src/Engine/Interrupt.antt =====
-- `psa_addr`, `vector_addr`, `handle_interrupts` and `cpu_reset` of src/cpu.c. The hook of a process
-- runner, `sys_hook`, is a parameter.
use commodore_900_emulator.Base.{
  ℕ, ◌+◌, ◌*◌, Bool, true, false, not, ◌&&◌, bit_and, bit_or, complement, has, if◌then◌else◌, shl,
  shr, ◌==◌, Option, none, some,
}
use commodore_900_emulator.Cpu.{
  Cpu, fcw_seg, fcw_sn, irq_trap, sp_reg, addr_add, addr_sub, addr_from_reg, make_seg,
}
use commodore_900_emulator.Bus.Memory.{phys_read16}
use commodore_900_emulator.Engine.State.{
  Machine, Exec, Run, pure, ◌>>=◌, ◌>>◌, skip, get_cpu, change_cpu, put_addr, put_pc, install_fcw,
}
use commodore_900_emulator.Engine.Access.{mem_r16, mem_w16, push_word}

abbrev pub fcw_vie : ℕ
fcw_vie = 0x1000

abbrev pub fcw_nvie : ℕ
fcw_nvie = 0x0800

abbrev pub irq_syscall : ℕ
irq_syscall = 0x02

abbrev pub irq_vi : ℕ
irq_vi = 0x04

abbrev pub irq_nvi : ℕ
irq_nvi = 0x08

abbrev pub irq_segtrap : ℕ
irq_segtrap = 0x10

abbrev pub irq_nmi : ℕ
irq_nmi = 0x20

abbrev pub irq_epu : ℕ
irq_epu = 0x80

unfoldable pub psa_addr : Cpu → ℕ
psa_addr c = bit_and c.psap 0x007FFFFF

unfoldable pub vector_addr : Cpu → ℕ → ℕ
unfolding psa_addr
vector_addr c off = addr_add (psa_addr c) (2 * off)

-- The sources, the highest priority first.
pub data Source : Type 0 where
  epu trap syscall segtrap nmi nvi vi : Source

-- The bit of a source in `irq_req`, and the offset of its vector: `V_EPU` to `V_VI`.
abbrev pub irq_bit : Source → ℕ
irq_bit epu = irq_epu
irq_bit trap = irq_trap
irq_bit syscall = irq_syscall
irq_bit segtrap = irq_segtrap
irq_bit nmi = irq_nmi
irq_bit nvi = irq_nvi
irq_bit vi = irq_vi

abbrev pub vector_offset : Source → ℕ
vector_offset epu = 0x0004
vector_offset trap = 0x0008
vector_offset syscall = 0x000C
vector_offset segtrap = 0x0010
vector_offset nmi = 0x0014
vector_offset nvi = 0x0018
vector_offset vi = 0x001C

abbrev pub is_internal : Source → Bool
is_internal epu = true
is_internal trap = true
is_internal syscall = true
is_internal _ = false

abbrev pub is_vi : Source → Bool
is_vi vi = true
is_vi _ = false

abbrev pub is_syscall : Source → Bool
is_syscall syscall = true
is_syscall _ = false

abbrev latch : Bool → ℕ → ℕ → ℕ
latch b bit req = if b then bit_or req bit else req

-- The request lines, sampled into `irq_req`.
unfoldable pub sample_lines : Cpu → ℕ
sample_lines c = latch (c.vi_line && has c.fcw fcw_vie) irq_vi (
    latch (c.nvi_line && has c.fcw fcw_nvie) irq_nvi
      (latch c.segt_line irq_segtrap (latch c.nmi_line irq_nmi c.irq_req)))

-- The source that is taken, from `irq_req` and the FCW.
unfoldable pub select : ℕ → ℕ → Option Source
select req fcw =
    if has req irq_epu
    then some epu
    else if has req irq_trap
    then some trap
    else if has req irq_syscall
    then some syscall
    else if has req irq_segtrap
    then some segtrap
    else if has req irq_nmi
    then some nmi
    else if has req irq_nvi && has fcw fcw_nvie
    then some nvi
    else if has req irq_vi && has fcw fcw_vie
    then some vi
    else none

-- The tag word, and the slot of a vectored interrupt or 0.
unfoldable pub tag_of : Source → Cpu → ℕ
tag_of s c = if is_internal s then c.cur_op else if is_vi s then c.vi_vector else 0

unfoldable pub vector_slot : Source → Cpu → ℕ
unfolding psa_addr
vector_slot s c =
    if is_vi s && not (c.vi_vector == 0)
    then addr_add (psa_addr c) ((0x001E + bit_and c.vi_vector 0xFF) * 2)
    else 0

-- The PC of the interrupted program, on the system stack.
unfoldable pub push_pc : Run
unfolding get_cpu put_addr mem_w16 ◌>>=◌
push_pc = do
  sp ← get_cpu sp_reg
  a ← get_cpu (λ c. addr_sub (addr_from_reg c sp) 4)
  put_addr sp a
  pc ← get_cpu (λ c. make_seg c.pc)
  mem_w16 a (shr pc 16)
  mem_w16 (addr_add a 2) pc

-- The status and the start of the handler, from the vector and from the slot.
unfoldable pub enter_handler : ℕ → ℕ → Run
unfolding mem_r16 put_pc install_fcw ◌>>=◌
enter_handler vec slot = do
  nf ← mem_r16 (addr_add vec 2)
  seg ← mem_r16 (if slot == 0 then addr_add vec 4 else slot)
  off ← mem_r16 (if slot == 0 then addr_add vec 6 else addr_add slot 2)
  put_pc (bit_or (shl (bit_and seg 0x7F00) 8) off)
  install_fcw nf

unfoldable pub clear_request : ℕ → Run
clear_request bit = change_cpu (λ c. record c { irq_req = bit_and c.irq_req (complement 32 bit) })

unfoldable pub report : ℕ → Run
report bit = change_cpu (λ c. record c { halted = false; serviced = bit })

-- `sys_hook`, if there is one, with the number of the call and the address of the instruction.
abbrev pub Hook : Type 0
Hook = Option (ℕ → ℕ → Run)

unfoldable pub call_hook : Hook → Run
unfolding get_cpu pure ◌>>=◌
call_hook none = skip
call_hook (some h) = do
  n ← get_cpu (λ c. bit_and c.cur_op 0xFF)
  start ← get_cpu (λ c. c.instr_start)
  h n start

unfoldable pub take : Hook → Source → Run
unfolding get_cpu call_hook tag_of vector_slot vector_addr install_fcw clear_request push_pc
    push_word enter_handler report pure ◌>>=◌
take hook s = do
  if is_syscall s then call_hook hook else skip
  old ← get_cpu (λ c. c.fcw)
  vec ← get_cpu (λ c. vector_addr c (vector_offset s))
  tag ← get_cpu (tag_of s)
  slot ← get_cpu (vector_slot s)
  install_fcw (bit_or (bit_or old fcw_sn) fcw_seg)
  clear_request (irq_bit s)
  push_pc
  push_word old
  push_word tag
  enter_handler vec slot
  report (irq_bit s)

-- Whether there was one to take.
unfoldable pub dispatch : Hook → Option Source → Exec Bool
unfolding take pure ◌>>=◌
dispatch hook none = pure false
dispatch hook (some s) = take hook s >>= λ _. pure true

unfoldable pub handle_interrupts : Hook → Exec Bool
unfolding get_cpu sample_lines select dispatch ◌>>=◌
handle_interrupts hook = do
  req ← get_cpu sample_lines
  change_cpu (λ c. record c { irq_req = req })
  fcw ← get_cpu (λ c. c.fcw)
  dispatch hook (if req == 0 then none else select req fcw)

unfoldable pub cpu_reset : Machine → Machine
unfolding phys_read16
cpu_reset m =
    let pc =
      bit_or (shl (bit_and (phys_read16 m.memory 0x0004) 0x7F00) 8) (phys_read16 m.memory 0x0006) in
    record m {
      cpu = record m.cpu {
        regs = λ _. 0;
        fcw = phys_read16 m.memory 0x0002;
        pc = pc;
        psap = 0;
        refresh = 0;
        nspseg = 0;
        nspoff = 0;
        halted = false;
        irq_req = 0;
        nvi_line = false;
        vi_line = false;
        nmi_line = false;
        segt_line = false;
        nmi_prev = false;
      };
    }
