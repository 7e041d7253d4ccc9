-- ===== src/Mmu/Tests.antt =====
-- Runs of the memory management unit, and its theorems at concrete inputs.
use commodore_900_emulator.Base.{ℕ, ◌+◌, ◌*◌, ◌%◌, ◌^◌, ◌≡◌, ◌↔◌, refl, true, false, shl}
use commodore_900_emulator.Mmu.State.{MmuDesc, Mmu, mmu_reset, is_simple}
use commodore_900_emulator.Mmu.Translate.{Access, mmu_translate, identity}
use commodore_900_emulator.Mmu.Command.{mmu_cmd_write}
use commodore_900_emulator.Mmu.Coherence.{IsCoherent, slow_translate, mmu_translate-slow}
use commodore_900_emulator.Mmu.Protection.{
  IsAllowed, IsActive, IsSameContext, mmu_translate_protects, mmu_translate-IsSameContext,
}
use commodore_900_emulator.Mmu.Run.{Step, Reach, Reach-IsCoherent}

-- Segment 1 is a read-only segment of 17 pages at 0x080000, the others are plain.
abbrev read_only : MmuDesc
read_only = record { base = 0x0800; limit = 0x10; attr = 0x01 }

abbrev plain : MmuDesc
plain = record { base = 0x0900; limit = 0xFF; attr = 0 }

abbrev at : ℕ → MmuDesc
at (ℕ.suc ℕ.zero) = read_only
at _ = plain

abbrev unit : Mmu
unit = record {
  desc = at;
  mode = 0xC0;
  sar = 0;
  dsc = 0;
  viol_type = 0;
  viol_sn = 0;
  viol_off = 0;
  bcsr = 0;
  isn = 0;
  ioff = 0;
  viol_captured = false;
  segt = false;
  warn_pending = false;
  fast_base = λ s. shl (at s).base 8;
  fast_ok = λ s. is_simple (at s);
}

unit-IsCoherent : IsCoherent unit
unit-IsCoherent = record { fresh = λ s lt. record { ok = refl; start = refl } }

abbrev store : Access
store = record { sn = 1; off = 0x0123; is_write = true; is_normal = true; is_fetch = false }

abbrev load : Access
load = record { sn = 1; off = 0x0123; is_write = false; is_normal = true; is_fetch = false }

-- A store into the read-only segment faults, a load from it does not.
store_faults : (mmu_translate unit store).fault ≡ true
unfolding mmu_translate
store_faults = refl

load_lands : (mmu_translate unit load).phys ≡ 0x080123
unfolding mmu_translate
load_lands = refl

mmu_translate-slow_example : mmu_translate unit store ≡ slow_translate unit store
mmu_translate-slow_example = mmu_translate-slow unit store unit-IsCoherent

store-IsActive : IsActive unit store
store-IsActive = record { enabled = refl; translating = refl; our_half = refl }

mmu_translate_protects_example :
    (((mmu_translate unit store).fault ≡ false) ↔ IsAllowed read_only store)
    × ((mmu_translate unit store).fault ≡ false
        → (mmu_translate unit store).phys ≡ (0x0800 * 256 + 0x0123) % 2 ^ 24)
    × ((mmu_translate unit store).fault ≡ true
        → ((mmu_translate unit store).phys ≡ identity store)
          × ((mmu_translate unit store).unit.desc ≡ unit.desc))
mmu_translate_protects_example = mmu_translate_protects unit store unit-IsCoherent store-IsActive

-- The unit after the violation of `store`.
abbrev violated : Mmu
violated = record unit { viol_type = 1; viol_sn = 1; viol_off = 0x0123; viol_captured = true }

mmu_translate-IsSameContext_example : IsSameContext violated (mmu_translate violated store).unit
mmu_translate-IsSameContext_example = mmu_translate-IsSameContext violated store refl

-- Reset, SAR set to 1, and a limit written there.
abbrev programmed : Mmu
programmed = mmu_cmd_write (mmu_cmd_write (mmu_reset unit) 0x01 1) 0x09 0xFF

programmed_ok : (programmed.fast_ok 1 ≡ true) × (programmed.fast_ok 2 ≡ false)
unfolding mmu_cmd_write mmu_reset
programmed_ok = (refl, refl)

programmed-Reach : Reach unit programmed
programmed-Reach =
    Reach.next (Reach.next Reach.power_on (Step.cmd_write 0x01 1)) (Step.cmd_write 0x09 0xFF)

Reach-IsCoherent_example : IsCoherent programmed
Reach-IsCoherent_example = Reach-IsCoherent unit programmed programmed-Reach
