-- ===== src/Engine/Step.antt =====
-- `cpu_step` of src/cpu.c, over the decoder of src/decode.c. Breakpoints and traces, which only print
-- or stop a debugging session, are left out.
use commodore_900_emulator.Base.{
  ℕ, zero, suc, ◌+◌, ◌-◌, ◌*◌, Bool, false, not, ◌&&◌, ◌||◌, bit_or, has, leb, ltb, if◌then◌else◌,
  ◌==◌, Option, none, some, update,
}
use commodore_900_emulator.Cpu.{Cpu, CtrlWord, is_seg, addr_add}
use commodore_900_emulator.Decode.{decode_length, seg_addr_w1, seg_addr_w2, decode_lookup}
use commodore_900_emulator.Engine.State.{
  Exec, Run, pure, ◌>>=◌, ◌>>◌, skip, get_cpu, change_cpu, put_pc, request,
}
use commodore_900_emulator.Engine.Access.{ifetch16}
use commodore_900_emulator.Engine.Execute.{execute}
use commodore_900_emulator.Engine.Interrupt.{
  Hook, handle_interrupts, fcw_vie, fcw_nvie, irq_segtrap, irq_epu,
}

unfoldable pub put_opcode : ℕ → ℕ → Run
put_opcode i v = change_cpu (λ c. record c { opcode = update c.opcode i v })

-- The words after the first, from word `i` at the address after `p`; `fuel` is 5, since `i` starts
-- at 1 and stays below 6.
unfoldable pub fetch_rest : ℕ → ℕ → ℕ → ℕ → Run
unfolding ifetch16 put_opcode pure ◌>>=◌
fetch_rest zero i p need = skip
fetch_rest (suc fuel) i p need =
    let a = addr_add p 2 in
    let rest = fetch_rest fuel (i + 1) a need in
    if ltb i need && ltb i 6 then (ifetch16 a >>= λ v. put_opcode i v >>= λ _. rest) else skip

-- The length, after a segmented address turned out to have the short form.
unfoldable pub shortened : ℕ → Cpu → ℕ
shortened need c =
    let n1 = if leb 3 need && c.seg_w1 && not (has (c.opcode 1) 0x8000) then need - 1 else need in
    if leb 4 n1 && c.seg_w2 && not (has (c.opcode 2) 0x8000) then n1 - 1 else n1

-- A write warning becomes a segment trap at the next boundary.
unfoldable pub take_warning : Run
take_warning m = (
  tt,
  if m.board.mmu.warn_pending
      then record m {
        board = record m.board { mmu = record m.board.mmu { warn_pending = false } };
        cpu = record m.cpu { irq_req = bit_or m.cpu.irq_req irq_segtrap };
      }
      else m,
)

unfoldable pub count_insn : Run
count_insn = change_cpu (λ c. record c { insns = c.insns + 1 })

unfoldable pub clear_repeat : Run
clear_repeat = change_cpu (λ c. record c { repeat_pending = false })

-- Whether an interrupt stops the repetition.
unfoldable pub preempted : Cpu → Bool
preempted c =
    c.nmi_line
    || c.segt_line
    || (c.vi_line && has c.fcw fcw_vie)
    || (c.nvi_line && has c.fcw fcw_nvie)
    || not (c.irq_req == 0)

-- `c->irq_req |= IRQ_SEGTRAP; c->pc = a;`
unfoldable pub trap_at : ℕ → Run
unfolding request put_pc ◌>>=◌
trap_at a = request irq_segtrap >>= λ _. put_pc a

-- The round of the loop over a repeated block instruction that `start` is the address of.
unfoldable pub repeat_body : CtrlWord → ℕ → Run → Run
unfolding get_cpu execute count_insn take_warning trap_at ◌>>=◌
repeat_body w start rest = do
  execute w
  count_insn
  take_warning
  fault ← get_cpu (λ c. c.fault)
  if fault then trap_at start else rest

-- The loop, on fuel.
unfoldable pub repeat_loop : ℕ → CtrlWord → ℕ → Run
unfolding get_cpu clear_repeat preempted put_pc repeat_body pure ◌>>=◌
repeat_loop zero w start = skip
repeat_loop (suc fuel) w start =
    let rest = repeat_loop fuel w start in
    get_cpu (λ c. c.repeat_pending) >>= λ again.
    if again
    then (clear_repeat >>= λ _.
        get_cpu preempted >>= λ stop. if stop then put_pc start else repeat_body w start rest)
    else skip

-- A decoded instruction at `start` of `need` words.
unfoldable pub perform : ℕ → CtrlWord → ℕ → ℕ → Run
unfolding get_cpu execute count_insn take_warning trap_at put_pc repeat_loop ◌>>=◌
perform fuel w start need = do
  put_pc (addr_add start (need * 2))
  execute w
  count_insn
  take_warning
  fault ← get_cpu (λ c. c.fault)
  if fault then trap_at (addr_add start (need * 2)) else repeat_loop fuel w start

-- An encoding that the decoder does not know.
unfoldable pub illegal : ℕ → ℕ → Run
unfolding put_pc request ◌>>=◌
illegal start need = put_pc (addr_add start (need * 2)) >>= λ _. request irq_epu

unfoldable pub begin : Run
begin = change_cpu (λ c. record c { fault = false; repeat_pending = false; instr_start = c.pc })

unfoldable pub note_shape : ℕ → Bool → Run
unfolding seg_addr_w1 seg_addr_w2
note_shape op seg =
    change_cpu (λ c. record c { seg_w1 = seg_addr_w1 op seg; seg_w2 = seg_addr_w2 op seg })

unfoldable pub note_length : ℕ → ℕ → Run
note_length op need = change_cpu (λ c. record c { oplen = need; cur_op = op })

-- The fetch, and the length of the instruction.
unfoldable pub fetch : Exec ℕ
unfolding begin get_cpu ifetch16 put_opcode note_shape decode_length fetch_rest shortened
    note_length pure ◌>>=◌
fetch = do
  begin
  pc ← get_cpu (λ c. c.pc)
  seg ← get_cpu is_seg
  op ← ifetch16 pc
  put_opcode 0 op
  note_shape op seg
  fetch_rest 5 1 pc (decode_length op seg)
  need ← get_cpu (shortened (decode_length op seg))
  note_length op need
  pure need

unfoldable pub act : ℕ → Option CtrlWord → ℕ → ℕ → Run
unfolding perform illegal
act fuel none start need = illegal start need
act fuel (some w) start need = perform fuel w start need

unfoldable pub instruction : ℕ → Run
unfolding fetch get_cpu decode_lookup act ◌>>=◌
instruction fuel = do
  need ← fetch
  c ← get_cpu (λ c. c)
  act fuel (decode_lookup (c.opcode 0) (λ i. c.opcode (i + 1)) need) c.instr_start need

-- `fuel` bounds the rounds of a repeated block instruction.
unfoldable pub cpu_step : ℕ → Hook → Run
unfolding handle_interrupts get_cpu instruction pure ◌>>=◌
cpu_step fuel hook = do
  change_cpu (λ c. record c { serviced = 0 })
  taken ← handle_interrupts hook
  halted ← get_cpu (λ c. c.halted)
  if taken || halted then skip else instruction fuel
