-- ===== src/Cpu/Banks.antt =====
-- `change_fcw`, `sp_reg` and `check_priv` of src/cpu.c: the two banks of the stack pointer.
use commodore_900_emulator.Base.{
  ℕ, Bool, true, false, not, ◌&&◌, ◌||◌, bit_or, bit_xor, has, if◌then◌else◌,
}
use commodore_900_emulator.Cpu.State.{Cpu, fcw_seg, fcw_sn, irq_trap}
use commodore_900_emulator.Cpu.Registers.{rw16, ww16}
use commodore_900_emulator.Cpu.Address.{is_seg, sys_mode}

-- Exchange R15 with the saved offset, and R14 with the saved segment.
unfoldable pub swap_off : Cpu → Cpu
unfolding rw16 ww16
swap_off c = let t = rw16 c 15 in record (ww16 c 15 c.nspoff) { nspoff = t }

unfoldable pub swap_seg : Cpu → Cpu
unfolding rw16 ww16
swap_seg c = let t = rw16 c 14 in record (ww16 c 14 c.nspseg) { nspseg = t }

unfoldable pub change_fcw : Cpu → ℕ → Cpu
unfolding swap_off swap_seg
change_fcw c nf =
    let of = c.fcw in
    let c1 = if has (bit_xor nf of) fcw_sn then swap_off c else c in
    let c2 =
      if has nf fcw_sn && (not (has of fcw_sn) || has (bit_xor nf of) fcw_seg)
      then swap_seg c1
      else if not (has nf fcw_sn) && has of fcw_sn && has of fcw_seg
      then swap_seg c1
      else c1 in
    record c2 { fcw = nf }

unfoldable pub sp_reg : Cpu → ℕ
sp_reg c = if is_seg c then 14 else 15

-- The verdict with the processor that it leaves.
unfoldable pub check_priv : Cpu → Bool × Cpu
check_priv c =
    if not (sys_mode c)
    then (false, record c { irq_req = bit_or c.irq_req irq_trap })
    else (true, c)
