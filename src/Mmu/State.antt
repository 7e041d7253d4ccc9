-- ===== src/Mmu/State.antt =====
-- `MmuDesc` and `MMU` of src/emu.h, the fast-path cache and the power-on reset of src/mmu.c.
use commodore_900_emulator.Base.{
  ℕ, Bool, false, ◌&&◌, bit_and, bit_or, ◌==◌, u8, shl, for_loop, update,
}

pub record MmuDesc : Type 0 where
  pub base : ℕ
  pub limit : ℕ
  pub attr : ℕ

-- The arrays have 64 entries, and every index is masked with 0x3F.
pub record Mmu : Type 0 where
  pub desc : ℕ → MmuDesc
  pub mode : ℕ
  pub sar : ℕ
  pub dsc : ℕ
  pub viol_type : ℕ
  pub viol_sn : ℕ
  pub viol_off : ℕ
  pub bcsr : ℕ
  pub isn : ℕ
  pub ioff : ℕ
  pub viol_captured : Bool
  pub segt : Bool
  pub warn_pending : Bool
  pub fast_base : ℕ → ℕ
  pub fast_ok : ℕ → Bool

-- The attribute bits.
abbrev pub a_ref : ℕ
a_ref = 0x80

abbrev pub a_chg : ℕ
a_chg = 0x40

abbrev pub a_dirw : ℕ
a_dirw = 0x20

abbrev pub a_dmai : ℕ
a_dmai = 0x10

abbrev pub a_exc : ℕ
a_exc = 0x08

abbrev pub a_cpu : ℕ
a_cpu = 0x04

abbrev pub a_sys : ℕ
a_sys = 0x02

abbrev pub a_rd : ℕ
a_rd = 0x01

abbrev pub a_restrict : ℕ
a_restrict = bit_or (bit_or (bit_or (bit_or a_cpu a_rd) a_sys) a_exc) a_dirw

-- The mode bits.
abbrev pub mode_msen : ℕ
mode_msen = 0x80

abbrev pub mode_trns : ℕ
mode_trns = 0x40

-- Whether a descriptor can be translated with no check.
abbrev pub is_simple : MmuDesc → Bool
is_simple d = (d.limit == 0xFF) && (bit_and d.attr a_restrict == 0)

unfoldable pub mmu_refresh_fast : Mmu → ℕ → Mmu
mmu_refresh_fast u seg =
    let s = bit_and seg 0x3F in
    let d = u.desc s in
    record u {
      fast_ok = update u.fast_ok s (is_simple d);
      fast_base = update u.fast_base s (shl d.base 8);
    }

-- The body of the last loop of `mmu_reset`.
abbrev pub refresh_step : ℕ → Mmu → Mmu
refresh_step i u = mmu_refresh_fast u (u8 i)

abbrev pub empty_desc : MmuDesc
empty_desc = record { base = 0; limit = 0; attr = 0 }

unfoldable pub mmu_reset : Mmu → Mmu
unfolding mmu_refresh_fast for_loop
mmu_reset u =
    let cleared = record u {
      desc = for_loop 64 (λ i d. update d i empty_desc) u.desc;
      mode = mode_msen;
      sar = 0;
      dsc = 0;
      viol_type = 0;
      viol_sn = 0;
      viol_off = 0;
      bcsr = 0;
      isn = 0;
      ioff = 0;
      viol_captured = false;
      segt = false;
      warn_pending = false;
    } in
    for_loop 64 refresh_step cleared
