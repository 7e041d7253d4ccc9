-- ===== src/Mmu/Translate.antt =====
-- `latch_viol` and `mmu_translate` of src/mmu.c. The trace under CSIM_MMU_DEBUG changes no state.
use commodore_900_emulator.Base.{
  ℕ, ◌+◌, Bool, true, false, not, ◌&&◌, ◌||◌, bit_and, bit_or, has, ◌==◌, ltb, if◌then◌else◌, or_if,
  u8, shl, shr, update,
}
use commodore_900_emulator.Mmu.State.{
  MmuDesc, Mmu, a_ref, a_chg, a_dirw, a_exc, a_cpu, a_sys, a_rd, mode_msen, mode_trns,
}

-- The bits of the violation type register.
abbrev pub vt_fatl : ℕ
vt_fatl = 0x80

abbrev pub vt_sww : ℕ
vt_sww = 0x40

abbrev pub vt_pww : ℕ
vt_pww = 0x20

abbrev pub vt_excv : ℕ
vt_excv = 0x10

abbrev pub vt_cpuiv : ℕ
vt_cpuiv = 0x08

abbrev pub vt_slv : ℕ
vt_slv = 0x04

abbrev pub vt_sysv : ℕ
vt_sysv = 0x02

abbrev pub vt_rdv : ℕ
vt_rdv = 0x01

-- One access: the logical address, the kind of cycle.
pub record Access : Type 0 where
  pub sn : ℕ
  pub off : ℕ
  pub is_write : Bool
  pub is_normal : Bool
  pub is_fetch : Bool

-- The first part of `latch_viol`: the context of the first violation, or one more type bit.
unfoldable pub capture : Mmu → ℕ → Access → ℕ → Mmu
capture u viol a st =
    if not u.viol_captured
    then record u {
      viol_type = viol;
      viol_sn = a.sn;
      viol_off = a.off;
      bcsr =
          bit_or (bit_or (bit_and st 0x0F) (if a.is_write then 0x10 else 0))
            (if a.is_normal then 0x20 else 0);
      viol_captured = true;
    }
    else record u { viol_type = bit_or u.viol_type viol }

unfoldable pub latch_viol : Mmu → ℕ → Access → ℕ → Bool → Mmu
unfolding capture
latch_viol u viol a st suppress =
    let is_warn = not suppress in
    let fatal = u.viol_captured && (suppress || (is_warn && a.is_normal)) in
    let sww = is_warn && not a.is_normal && has u.viol_type vt_pww && not fatal in
    let v = capture u viol a st in
    let t = or_if sww vt_sww (or_if fatal vt_fatl v.viol_type) in
    let w = record v { viol_type = t } in
    if bit_and t (bit_or vt_fatl vt_sww) == 0
    then record w { segt = true; warn_pending = if is_warn then true else w.warn_pending }
    else w

-- The physical address, `*fault`, and the unit afterwards.
pub record Translation : Type 0 where
  pub phys : ℕ
  pub fault : Bool
  pub unit : Mmu

-- `d->attr |= A_REF; if (is_write) d->attr |= A_CHG;`
unfoldable pub mark_used : Mmu → ℕ → Bool → Mmu
mark_used u seg is_write =
    let d = u.desc seg in
    record u {
      desc = update u.desc seg (record d { attr = or_if is_write a_chg (bit_or d.attr a_ref) });
    }

-- The protection ladder: the type of the first test that fails.
pub data Verdict : Type 0 where
  permitted : Verdict
  refused : ℕ → Verdict

unfoldable pub ladder : MmuDesc → Access → Verdict
ladder d a =
    let page = u8 (shr a.off 8) in
    if has d.attr a_cpu
    then refused vt_cpuiv
    else if (if has d.attr a_dirw then ltb page d.limit else ltb d.limit page)
    then refused vt_slv
    else if has d.attr a_rd && a.is_write
    then refused vt_rdv
    else if has d.attr a_sys && a.is_normal
    then refused vt_sysv
    else if has d.attr a_exc && not a.is_fetch
    then refused vt_excv
    else permitted

-- The identity address, and the translated one.
abbrev pub identity : Access → ℕ
identity a = bit_or (shl (bit_and a.sn 0x7F) 16) a.off

abbrev pub based : ℕ → ℕ → ℕ
based start off = bit_and (start + off) 0x00FFFFFF

-- The slow path, behind the ladder.
unfoldable pub slow_path : Mmu → ℕ → Access → Verdict → Translation
unfolding latch_viol mark_used
slow_path u seg a (refused viol) =
    let st = if a.is_fetch then 0x0D else if a.is_write then 0x0A else 0x09 in
    record { phys = identity a; fault = true; unit = latch_viol u viol a st true }
slow_path u seg a permitted =
    let st = if a.is_fetch then 0x0D else if a.is_write then 0x0A else 0x09 in
    let d = u.desc seg in
    let v = mark_used u seg a.is_write in
    record {
      phys = based (shl d.base 8) a.off;
      fault = false;
      unit =
          if has (v.desc seg).attr a_dirw && a.is_write && (u8 (shr a.off 8) == d.limit)
          then latch_viol v vt_pww a st false
          else v;
    }

unfoldable pub mmu_translate : Mmu → Access → Translation
unfolding ladder slow_path mark_used
mmu_translate u a =
    let pass : Translation = record { phys = identity a; fault = false; unit = u } in
    let seg = bit_and a.sn 0x3F in
    if not (has u.mode mode_msen)
    then pass
    else if not (has u.mode mode_trns)
    then pass
    else if not (bit_and (shr a.sn 6) 1 == bit_and (shr u.mode 5) 1)
    then pass
    else if u.fast_ok seg
    then record {
      phys = based (u.fast_base seg) a.off;
      fault = false;
      unit = mark_used u seg a.is_write;
    }
    else slow_path u seg a (ladder (u.desc seg) a)
