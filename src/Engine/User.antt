-- ===== src/Engine/User.antt =====
-- A whole instruction of a program in normal mode: `cpu_step` of src/cpu.c past the interrupts.
use commodore_900_emulator.Base.{
  ℕ, zero, suc, ◌+◌, ◌<◌, ◌≡◌, refl, Bool, false, if_keeps, Option, none, some,
}
use commodore_900_emulator.Cpu.{Cpu, CtrlWord, addr_add, sys_mode}
use commodore_900_emulator.Mmu.{Mmu}
use commodore_900_emulator.Mmu.Map.{SameMap, SameMap-refl}
use commodore_900_emulator.Decode.{decode_lookup}
use commodore_900_emulator.Engine.State.{Machine, Run}
use commodore_900_emulator.Engine.Execute.{execute}
use commodore_900_emulator.Engine.Step.{
  put_opcode, fetch_rest, take_warning, count_insn, clear_repeat, trap_at, repeat_body, repeat_loop,
  perform, illegal, begin, note_shape, note_length, fetch, act, instruction,
}
use commodore_900_emulator.Engine.Keeps.{Keeps}
use commodore_900_emulator.Engine.AccessKeeps.{stack_Keeps}
use commodore_900_emulator.Engine.Confined.{
  Confined, Confined-refl, Confined-Stable, plain, on_cpu, with_mmu,
}
use commodore_900_emulator.Engine.Confinement.{decoded-Keeps}

module _ (a : Machine) (fits : a.cpu.fcw < 65536) where
  put_opcode-Keeps : (i v : ℕ) → Keeps (Confined a) (put_opcode i v)
  unfolding put_opcode
  put_opcode-Keeps i v = on_cpu a fits _ (λ c h. plain a fits c _ refl refl refl refl refl refl h)

  count_insn-Keeps : Keeps (Confined a) count_insn
  unfolding count_insn
  count_insn-Keeps = on_cpu a fits _ (λ c h. plain a fits c _ refl refl refl refl refl refl h)

  clear_repeat-Keeps : Keeps (Confined a) clear_repeat
  unfolding clear_repeat
  clear_repeat-Keeps = on_cpu a fits _ (λ c h. plain a fits c _ refl refl refl refl refl refl h)

  begin-Keeps : Keeps (Confined a) begin
  unfolding begin
  begin-Keeps = on_cpu a fits _ (λ c h. plain a fits c _ refl refl refl refl refl refl h)

  note_shape-Keeps : (op : ℕ) (b : Bool) → Keeps (Confined a) (note_shape op b)
  unfolding note_shape
  note_shape-Keeps op b = on_cpu a fits _ (λ c h. plain a fits c _ refl refl refl refl refl refl h)

  note_length-Keeps : (op n : ℕ) → Keeps (Confined a) (note_length op n)
  unfolding note_length
  note_length-Keeps op n = on_cpu a fits _ (λ c h. plain a fits c _ refl refl refl refl refl refl h)

  warned : (u : Mmu) → SameMap u (record u { warn_pending = false })
  warned u =
      let s = SameMap-refl u in record { segment = s.segment; mode = refl; sar = refl; dsc = refl }

  take_warning-Keeps : Keeps (Confined a) take_warning
  unfolding take_warning
  take_warning-Keeps = record {
    at = λ m h.
        if_keeps (Confined a) m.board.mmu.warn_pending
          (record {
            control = plain a fits m.cpu _ refl refl refl refl refl refl h.control;
            board = with_mmu a fits m.board _ (warned m.board.mmu) h.board;
            memory = h.memory;
            disk = h.disk;
            floppy = h.floppy;
            hdc_cmdblk = h.hdc_cmdblk;
            disk_vi = h.disk_vi;
          })
          h;
  }

ruleset part_Keeps = (
  stack_Keeps, put_opcode-Keeps, count_insn-Keeps, clear_repeat-Keeps, begin-Keeps,
  note_shape-Keeps, note_length-Keeps, take_warning-Keeps,
)

module _ (a : Machine) (fits : a.cpu.fcw < 65536) (normal : sys_mode a.cpu ≡ false) where
  fetch_rest-Keeps : (fuel i p need : ℕ) → Keeps (Confined a) (fetch_rest fuel i p need)
  unfolding fetch_rest
  fetch_rest-Keeps zero i p need = let s = Confined-Stable a fits in search part_Keeps
  fetch_rest-Keeps (suc fuel) i p need =
      let s = Confined-Stable a fits in
      let rest = fetch_rest-Keeps fuel (i + 1) (addr_add p 2) need in search part_Keeps depth 8

  fetch-Keeps : Keeps (Confined a) fetch
  unfolding fetch
  fetch-Keeps = let s = Confined-Stable a fits in search (part_Keeps, fetch_rest-Keeps) depth 14

  trap_at-Keeps : (p : ℕ) → Keeps (Confined a) (trap_at p)
  unfolding trap_at
  trap_at-Keeps p = let s = Confined-Stable a fits in search part_Keeps

  illegal-Keeps : (p n : ℕ) → Keeps (Confined a) (illegal p n)
  unfolding illegal
  illegal-Keeps p n = let s = Confined-Stable a fits in search part_Keeps

  repeat_body-Keeps :
      (w : CtrlWord) (p : ℕ) (rest : Run)
      → Keeps (Confined a) (execute w)
      → Keeps (Confined a) rest
      → Keeps (Confined a) (repeat_body w p rest)
  unfolding repeat_body
  repeat_body-Keeps w p rest h k =
      let s = Confined-Stable a fits in search (part_Keeps, trap_at-Keeps) depth 10

  repeat_loop-Keeps :
      (fuel : ℕ) (w : CtrlWord) (p : ℕ)
      → Keeps (Confined a) (execute w)
      → Keeps (Confined a) (repeat_loop fuel w p)
  unfolding repeat_loop
  repeat_loop-Keeps zero w p h = let s = Confined-Stable a fits in search part_Keeps
  repeat_loop-Keeps (suc fuel) w p h =
      let s = Confined-Stable a fits in
      let rest = repeat_loop-Keeps fuel w p h in search (part_Keeps, repeat_body-Keeps) depth 10

  perform-Keeps :
      (fuel : ℕ) (w : CtrlWord) (p n : ℕ)
      → Keeps (Confined a) (execute w)
      → Keeps (Confined a) (perform fuel w p n)
  unfolding perform
  perform-Keeps fuel w p n h =
      let s = Confined-Stable a fits in
      search (part_Keeps, trap_at-Keeps, repeat_loop-Keeps) depth 10

  -- The word that the decoder has given, if any.
  act-Keeps :
      (fuel op : ℕ) (v : ℕ → ℕ) (n : ℕ) (o : Option CtrlWord) (p need : ℕ)
      → decode_lookup op v n ≡ o
      → Keeps (Confined a) (act fuel o p need)
  unfolding act
  act-Keeps fuel op v n none p need e = illegal-Keeps p need
  act-Keeps fuel op v n (some w) p need e =
      perform-Keeps fuel w p need (decoded-Keeps a fits normal op v n w e)

  acting-Keeps :
      (fuel need : ℕ) (c : Cpu)
      → Keeps
          (Confined a)
          (act fuel (decode_lookup (c.opcode 0) (λ i. c.opcode (i + 1)) need) c.instr_start need)
  acting-Keeps fuel need c =
      act-Keeps fuel (c.opcode 0) (λ i. c.opcode (i + 1)) need _ c.instr_start need refl

  instruction-Keeps : (fuel : ℕ) → Keeps (Confined a) (instruction fuel)
  unfolding instruction
  instruction-Keeps fuel =
      let s = Confined-Stable a fits in search (part_Keeps, fetch-Keeps, acting-Keeps) depth 8

-- Whatever a program in normal mode executes, legal or not and repeated as often as the fuel lets it,
-- between two interrupt boundaries nothing changes in the high byte of the FCW, which has its mode and
-- interrupt masks, in PSAP, the refresh register, the saved stack pointer and the halt, in any device,
-- in the bases, limits and protection of the MMU's segments, its mode and selectors, in the ROM, in the
-- disks, or in the disk controller. The FCW is a word.
pub instruction-Confined :
    (fuel : ℕ) (m : Machine)
    → m.cpu.fcw < 65536
    → sys_mode m.cpu ≡ false
    → Confined m (instruction fuel m).1
instruction-Confined fuel m fits normal =
    (instruction-Keeps m fits normal fuel).at m (Confined-refl m)
