-- ===== src/Engine/Access.antt =====
-- Memory accesses through the MMU, the stack and the I/O ports, in src/cpu.c. The traces under
-- CSIM_TRACE_PC change no state.
use commodore_900_emulator.Base.{
  ℕ, ◌+◌, ◌-◌, ◌^◌, Bool, true, false, not, bit_and, bit_or, ◌==◌, if◌then◌else◌, u8, u16, u32, shl,
  shr,
}
use commodore_900_emulator.Alu.{Width, byte, word, long}
use commodore_900_emulator.Cpu.{is_seg, sys_mode, rw16, addr_add, addr_sub, addr_from_reg, sp_reg}
use commodore_900_emulator.Mmu.{Access, mmu_translate}
use commodore_900_emulator.Bus.{io_read, io_write}
use commodore_900_emulator.Bus.Memory.{phys_read8, phys_read16, phys_write8, phys_write16}
use commodore_900_emulator.Engine.State.{
  Machine, Exec, Run, pure, ◌>>=◌, ◌>>◌, skip, get_cpu, put_word, put_addr,
}
use commodore_900_emulator.Engine.Controller.{hdc_doorbell}

abbrev pub access_at : Machine → ℕ → Bool → Bool → Access
access_at m a is_write is_fetch = record {
  sn = bit_and (shr a 16) 0x7F;
  off = bit_and a 0xFFFF;
  is_write = is_write;
  is_normal = not (sys_mode m.cpu);
  is_fetch = is_fetch;
}

-- `mmu_translate` with `if (f) c->fault = true;`: the physical address, and `f`.
unfoldable pub translate : ℕ → Bool → Bool → Exec (ℕ × Bool)
unfolding mmu_translate
translate a is_write is_fetch m =
    let t = mmu_translate m.board.mmu (access_at m a is_write is_fetch) in
    (
      (t.phys, t.fault),
      record m {
        board = record m.board { mmu = t.unit };
        cpu = record m.cpu { fault = if t.fault then true else m.cpu.fault };
      },
    )

unfoldable pub load8 : ℕ → Exec ℕ
load8 p m = (phys_read8 m.memory p, m)

unfoldable pub load16 : ℕ → Exec ℕ
load16 p m = (phys_read16 m.memory p, m)

unfoldable pub store8 : ℕ → ℕ → Run
store8 p v m = (tt, record m { memory = phys_write8 m.memory p v })

unfoldable pub store16 : ℕ → ℕ → Run
store16 p v m = (tt, record m { memory = phys_write16 m.memory p v })

unfoldable pub ifetch16 : ℕ → Exec ℕ
unfolding translate load16 ◌>>=◌
ifetch16 a = do t ← translate a false true; load16 t.0

-- A read goes on after a fault, at the address that the MMU gives.
unfoldable pub mem_r16 : ℕ → Exec ℕ
unfolding translate load16 ◌>>=◌
mem_r16 a = do t ← translate a false false; load16 t.0

unfoldable pub mem_r8 : ℕ → Exec ℕ
unfolding translate load8 ◌>>=◌
mem_r8 a = do t ← translate a false false; load8 t.0

-- A write after a fault is skipped.
unfoldable pub mem_w16 : ℕ → ℕ → Run
unfolding translate store16 pure ◌>>=◌
mem_w16 a v = do t ← translate a true false; if t.1 then skip else store16 t.0 (u16 v)

unfoldable pub mem_w8 : ℕ → ℕ → Run
unfolding translate store8 pure ◌>>=◌
mem_w8 a v = do t ← translate a true false; if t.1 then skip else store8 t.0 (u8 v)

unfoldable pub mem_read_w : ℕ → Width → Exec ℕ
unfolding mem_r8 mem_r16 pure ◌>>=◌
mem_read_w a byte = mem_r8 a
mem_read_w a long = do hi ← mem_r16 a; lo ← mem_r16 (addr_add a 2); pure (bit_or (shl hi 16) lo)
mem_read_w a word = mem_r16 a

unfoldable pub mem_write_w : ℕ → ℕ → Width → Run
unfolding mem_w8 mem_w16 ◌>>=◌
mem_write_w a v byte = mem_w8 a v
mem_write_w a v long = do mem_w16 a (shr v 16); mem_w16 (addr_add a 2) v
mem_write_w a v word = mem_w16 a v

-- The address in register `sp` less `n`, which the register is set to, as `exec_stack` takes it.
unfoldable pub predecrement : ℕ → ℕ → Exec ℕ
unfolding get_cpu put_addr put_word pure ◌>>=◌
predecrement sp n = do
  seg ← get_cpu is_seg
  top ← get_cpu (λ c. addr_from_reg c sp)
  let below = if seg then addr_sub top n else u32 (top + 2 ^ 32 - n)
  if seg then put_addr sp below else put_word sp below
  pure below

-- The address in register `sp`, which then goes up by `n`.
unfoldable pub postincrement : ℕ → ℕ → Exec ℕ
unfolding get_cpu put_addr put_word pure ◌>>=◌
postincrement sp n = do
  seg ← get_cpu is_seg
  top ← get_cpu (λ c. addr_from_reg c sp)
  if seg then put_addr sp (addr_add top n) else put_word sp (u16 top + n)
  pure top

unfoldable pub push_word : ℕ → Run
unfolding get_cpu put_addr put_word mem_w16 ◌>>=◌
push_word v = do
  sp ← get_cpu sp_reg
  seg ← get_cpu is_seg
  top ← get_cpu (λ c. addr_from_reg c sp)
  pc ← get_cpu (λ c. c.pc)
  r ← get_cpu (λ c. rw16 c sp)
  let below = if seg then addr_sub top 2 else u16 (r + 0xFFFE)
  if seg then put_addr sp below else put_word sp below
  mem_w16 (if seg then below else bit_or (bit_and pc 0x7F0000) below) v

unfoldable pub pop_word : Exec ℕ
unfolding get_cpu put_addr put_word mem_r16 pure ◌>>=◌
pop_word = do
  sp ← get_cpu sp_reg
  seg ← get_cpu is_seg
  top ← get_cpu (λ c. addr_from_reg c sp)
  pc ← get_cpu (λ c. c.pc)
  r ← get_cpu (λ c. rw16 c sp)
  v ← mem_r16 (if seg then top else bit_or (bit_and pc 0x7F0000) r)
  if seg then put_addr sp (addr_add top 2) else put_word sp (r + 2)
  pure v

-- The ports see the instruction count of the processor. A doorbell that the dispatch counts runs.
unfoldable pub port_in : ℕ → Bool → Exec ℕ
port_in port special m =
    let b = record m.board { serial = record m.board.serial { insns = m.cpu.insns } } in
    let t = io_read b (u16 port) special in (t.1, record m { board = t.0 })

unfoldable pub port_out : ℕ → ℕ → Bool → Run
port_out port v special m =
    let b = record m.board { serial = record m.board.serial { insns = m.cpu.insns } } in
    let t = io_write b (u16 port) (u16 v) special in
    let m1 = record m { board = t } in
    (tt, if t.doorbells == b.doorbells then m1 else hdc_doorbell m1)
