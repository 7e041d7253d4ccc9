-- ===== src/Engine/System.antt =====
-- `exec_ldm`, `exec_io`, `exec_ldctl`, `exec_ldps` and `exec_iret` of src/cpu.c.
use commodore_900_emulator.Base.{
  ℕ, zero, suc, ◌+◌, ◌*◌, Bool, true, false, bit_and, bit_or, has, if◌then◌else◌, u8, u16, shl, shr,
  ◌==◌,
}
use commodore_900_emulator.Alu.{Width, byte}
use commodore_900_emulator.Cpu.{
  Cpu, CtrlWord, SrcSel, src_ir, src_da, rb, rw16, nib1, nib2, nib3, is_seg, addr_add,
  addr_from_reg, seg_addr_op, seg_addr,
}
use commodore_900_emulator.Engine.State.{
  Run, pure, ◌>>=◌, ◌>>◌, skip, get_cpu, change_cpu, put_word, put_byte, put_pc, install_fcw,
  privileged,
}
use commodore_900_emulator.Engine.Access.{mem_r16, mem_w16, pop_word, port_in, port_out}

-- `for (i = 0; i < n; i++) body(i);`
unfoldable pub for_each : ℕ → (ℕ → Run) → Run
unfolding pure ◌>>=◌
for_each zero body = skip
for_each (suc n) body = for_each n body >> body n

-- `@Rs`, or the operand of opcode word `idx` with an index register unless its number is 0.
unfoldable pub block_base : SrcSel → ℕ → Cpu → ℕ
block_base src_ir idx c = addr_from_reg c (nib2 (c.opcode 0))
block_base _ idx c =
    let base = seg_addr_op c idx in
    let r = nib2 (c.opcode 0) in if r == 0 then base else addr_add base (rw16 c r)

-- One register of the run.
unfoldable pub ldm_one : Bool → ℕ → ℕ → ℕ → Run
unfolding get_cpu put_word mem_r16 mem_w16 ◌>>=◌
ldm_one store base first i =
    let a = addr_add base (i * 2) in
    if store
    then (get_cpu (λ c. rw16 c (first + i)) >>= λ v. mem_w16 a v)
    else (mem_r16 a >>= λ v. put_word (first + i) v)

unfoldable pub exec_ldm : CtrlWord → Run
unfolding get_cpu block_base ldm_one for_each ◌>>=◌
exec_ldm w = do
  base ← get_cpu (block_base w.src2 2)
  e ← get_cpu (λ c. c.opcode 1)
  for_each (bit_and e 0x0F + 1) (ldm_one w.io_write base (nib1 e))

-- The port, and the register of the data.
unfoldable pub io_operands : SrcSel → Cpu → ℕ × ℕ
io_operands src_ir c = (rw16 c (nib2 (c.opcode 0)), nib3 (c.opcode 0))
io_operands src_da c =
    let r = nib2 (c.opcode 0) in
    (if r == 0 then c.opcode 1 else c.opcode 1 + rw16 c r, nib3 (c.opcode 0))
io_operands _ c = (c.opcode 1, nib2 (c.opcode 0))

-- A byte travels in the low lane of a special port, in the high lane of a standard one.
unfoldable pub lane_out : Bool → ℕ → ℕ
lane_out special v = if special then v else u16 (shl v 8)

unfoldable pub lane_in : Bool → ℕ → ℕ
lane_in special v = if special then u8 v else u8 (shr v 8)

unfoldable pub output : Width → Bool → ℕ → ℕ → Run
unfolding get_cpu lane_out port_out ◌>>=◌
output byte special port r =
    get_cpu (λ c. rb c r) >>= λ v. port_out port (lane_out special v) special
output _ special port r = get_cpu (λ c. rw16 c r) >>= λ v. port_out port v special

unfoldable pub input : Width → Bool → ℕ → ℕ → Run
unfolding put_byte put_word lane_in port_in ◌>>=◌
input byte special port r = port_in port special >>= λ v. put_byte r (lane_in special v)
input _ special port r = port_in port special >>= λ v. put_word r v

unfoldable pub exec_io : CtrlWord → Run
unfolding get_cpu io_operands input output privileged ◌>>=◌
exec_io w = privileged (
    get_cpu (io_operands w.src2) >>= λ o.
    if w.io_write then output w.width w.io_spec o.0 o.1 else input w.width w.io_spec o.0 o.1)

-- The control register `cr` in a move to a general register.
unfoldable pub control_value : Cpu → ℕ → ℕ
control_value c cr =
    if cr == 2
    then c.fcw
    else if cr == 3
    then c.refresh
    else if cr == 4
    then u16 (shr c.psap 8)
    else if cr == 5
    then u16 c.psap
    else if cr == 6
    then c.nspseg
    else if cr == 7
    then c.nspoff
    else 0

-- `val` into the control register `cr`.
unfoldable pub set_control : ℕ → ℕ → Run
unfolding install_fcw pure
set_control cr val =
    if cr == 2
    then install_fcw val
    else if cr == 3
    then change_cpu (λ c. record c { refresh = val })
    else if cr == 4
    then change_cpu
        (λ c. record c { psap = bit_or (bit_and c.psap 0x0000FFFF) (shl (bit_and val 0x7F00) 8) })
    else if cr == 5
    then change_cpu (λ c. record c { psap = bit_or (bit_and c.psap 0xFFFF0000) val })
    else if cr == 6
    then change_cpu (λ c. record c { nspseg = val })
    else if cr == 7
    then change_cpu (λ c. record c { nspoff = val })
    else skip

unfoldable pub move_control : Run
unfolding get_cpu control_value set_control put_word ◌>>=◌
move_control = do
  op ← get_cpu (λ c. c.opcode 0)
  read ← get_cpu (λ c. control_value c (bit_and op 0x07))
  val ← get_cpu (λ c. rw16 c (nib2 op))
  if has op 0x08 then set_control (bit_and op 0x07) val else put_word (nib2 op) read

unfoldable pub exec_ldctl : Run
unfolding move_control privileged
exec_ldctl = privileged move_control

-- The two layouts of a program status block at `base`.
unfoldable pub load_status : Bool → ℕ → Run
unfolding mem_r16 put_pc install_fcw ◌>>=◌
load_status true base = do
  nf ← mem_r16 (addr_add base 2)
  seg ← mem_r16 (addr_add base 4)
  off ← mem_r16 (addr_add base 6)
  put_pc (bit_or (shl (bit_and seg 0x7F00) 8) off)
  install_fcw nf
load_status false base = do
  nf ← mem_r16 base
  pc ← mem_r16 (addr_add base 2)
  put_pc pc
  install_fcw nf

unfoldable pub exec_ldps : CtrlWord → Run
unfolding get_cpu block_base load_status privileged ◌>>=◌
exec_ldps w =
    privileged
      (get_cpu (block_base w.src2 1) >>= λ base. get_cpu is_seg >>= λ seg. load_status seg base)

-- The words of the interrupted program off the stack, the PC by `seg`.
unfoldable pub return_pc : Bool → Run
unfolding pop_word put_pc ◌>>=◌
return_pc true = do hi ← pop_word; lo ← pop_word; put_pc (seg_addr (bit_or (shl hi 16) lo))
return_pc false = do pc ← pop_word; put_pc pc

unfoldable pub return_from : Run
unfolding get_cpu pop_word return_pc install_fcw ◌>>=◌
return_from = do tag ← pop_word; nf ← pop_word; seg ← get_cpu is_seg; return_pc seg; install_fcw nf

unfoldable pub exec_iret : Run
unfolding return_from privileged
exec_iret = privileged return_from
