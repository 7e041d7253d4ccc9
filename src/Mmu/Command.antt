-- ===== src/Mmu/Command.antt =====
-- The command port of src/mmu.c: `mmu_cmd_read` and `mmu_cmd_write`, with the sequencing of DSC and
-- SAR and the refresh of the fast-path cache.
use commodore_900_emulator.Base.{
  ℕ, ◌+◌, Bool, false, ◌&&◌, ◌||◌, bit_and, bit_or, ◌==◌, if◌then◌else◌, u8, shl, shr, for_loop,
  update, complement,
}
use commodore_900_emulator.Mmu.State.{MmuDesc, Mmu, mmu_refresh_fast, a_cpu, a_dmai}
use commodore_900_emulator.Mmu.Translate.{vt_sww, vt_fatl}

unfoldable pub read_desc_byte : Mmu → ℕ → ℕ
read_desc_byte u which =
    let d = u.desc (bit_and u.sar 0x3F) in
    if which == 0
    then bit_and (shr d.base 8) 0xFF
    else if which == 1
    then bit_and d.base 0xFF
    else if which == 2
    then d.limit
    else d.attr

-- One byte of a descriptor replaced.
unfoldable pub set_desc_byte : MmuDesc → ℕ → ℕ → MmuDesc
set_desc_byte d which v =
    if which == 0
    then record d { base = bit_or (bit_and d.base 0x00FF) (shl v 8) }
    else if which == 1
    then record d { base = bit_or (bit_and d.base 0xFF00) v }
    else if which == 2
    then record d { limit = v }
    else record d { attr = v }

unfoldable pub write_desc_byte : Mmu → ℕ → ℕ → Mmu
unfolding set_desc_byte
write_desc_byte u which v =
    let s = bit_and u.sar 0x3F in
    record u { desc = update u.desc s (set_desc_byte (u.desc s) which v) }

-- `u->sar = (u->sar + 1) & 0x3F`, and the three ways in which an access moves the pointers.
unfoldable pub next_sar : Mmu → Mmu
next_sar u = record u { sar = bit_and (u.sar + 1) 0x3F }

unfoldable pub step_base : Bool → Mmu → Mmu
unfolding next_sar
step_base inc u =
    if bit_and u.dsc 1 == 1
    then (let v = record u { dsc = 0 } in if inc then next_sar v else v)
    else record u { dsc = 1 }

unfoldable pub step_field : Bool → Mmu → Mmu
unfolding next_sar
step_field inc u = if inc then next_sar u else u

unfoldable pub step_full : Bool → Mmu → Mmu
unfolding next_sar
step_full inc u =
    let nd = bit_and (u.dsc + 1) 3 in
    let v = if (nd == 0) && inc then next_sar u else u in record v { dsc = nd }

-- The data with the unit afterwards.
unfoldable pub mmu_cmd_read : Mmu → ℕ → ℕ × Mmu
unfolding read_desc_byte step_base step_field step_full
mmu_cmd_read u cmd =
    if cmd == 0x00
    then (u.mode, u)
    else if cmd == 0x01
    then (u.sar, u)
    else if cmd == 0x20
    then (u.dsc, u)
    else if (cmd == 0x08) || (cmd == 0x0C)
    then (read_desc_byte u (bit_and u.dsc 1), step_base (cmd == 0x0C) u)
    else if (cmd == 0x09) || (cmd == 0x0D)
    then (read_desc_byte u 2, step_field (cmd == 0x0D) u)
    else if (cmd == 0x0A) || (cmd == 0x0E)
    then (read_desc_byte u 3, step_field (cmd == 0x0E) u)
    else if (cmd == 0x0B) || (cmd == 0x0F)
    then (read_desc_byte u (bit_and u.dsc 3), step_full (cmd == 0x0F) u)
    else if cmd == 0x02
    then (u.viol_type, u)
    else if cmd == 0x03
    then (u.viol_sn, u)
    else if cmd == 0x04
    then (bit_and (shr u.viol_off 8) 0xFF, u)
    else if cmd == 0x05
    then (u.bcsr, u)
    else if cmd == 0x06
    then (u.isn, u)
    else if cmd == 0x07
    then (u.ioff, u)
    else (0, u)

-- A bit set in every descriptor, each refreshed in turn.
unfoldable pub set_at : ℕ → ℕ → Mmu → Mmu
unfolding mmu_refresh_fast
set_at m i v =
    let d = v.desc i in
    mmu_refresh_fast (record v { desc = update v.desc i (record d { attr = bit_or d.attr m }) })
      (u8 i)

unfoldable pub set_all : ℕ → Mmu → Mmu
unfolding set_at for_loop
set_all m u = for_loop 64 (set_at m) u

unfoldable pub mmu_cmd_write : Mmu → ℕ → ℕ → Mmu
unfolding write_desc_byte step_base step_field step_full mmu_refresh_fast set_all
mmu_cmd_write u cmd v =
    let tgt = bit_and u.sar 0x3F in
    if cmd == 0x00
    then record u { mode = v }
    else if cmd == 0x01
    then record u { sar = bit_and v 0x3F; dsc = 0 }
    else if cmd == 0x20
    then record u { dsc = bit_and v 0x03 }
    else if (cmd == 0x08) || (cmd == 0x0C)
    then mmu_refresh_fast (step_base (cmd == 0x0C) (write_desc_byte u (bit_and u.dsc 1) v)) tgt
    else if (cmd == 0x09) || (cmd == 0x0D)
    then mmu_refresh_fast (step_field (cmd == 0x0D) (write_desc_byte u 2 v)) tgt
    else if (cmd == 0x0A) || (cmd == 0x0E)
    then mmu_refresh_fast (step_field (cmd == 0x0E) (write_desc_byte u 3 v)) tgt
    else if (cmd == 0x0B) || (cmd == 0x0F)
    then mmu_refresh_fast (step_full (cmd == 0x0F) (write_desc_byte u (bit_and u.dsc 3) v)) tgt
    else if cmd == 0x11
    then record u { viol_type = 0; viol_captured = false; segt = false }
    else if cmd == 0x13
    then record u { viol_type = bit_and u.viol_type (complement 8 vt_sww) }
    else if cmd == 0x14
    then record u { viol_type = bit_and u.viol_type (complement 8 vt_fatl) }
    else if cmd == 0x15
    then set_all a_cpu u
    else if cmd == 0x16
    then set_all a_dmai u
    else u
