-- ===== src/Mmu/Protection.antt =====
-- What the protection ladder of src/mmu.c lets through, and what a violation leaves behind.
use commodore_900_emulator.Base.{
  ℕ, ◌+◌, ◌*◌, ◌%◌, ◌^◌, ◌≤◌, ◌≡◌, ◌≢◌, ◌↔◌, refl, arith, Bool, true, false, not, bit_and, has,
  ◌==◌, if◌then◌else◌, u8, shl, shr, sym, ◌∙◌, if_keeps, bit_and_mask,
}
use commodore_900_emulator.Mmu.State.{
  MmuDesc, Mmu, a_dirw, a_exc, a_cpu, a_sys, a_rd, mode_msen, mode_trns,
}
use commodore_900_emulator.Mmu.Translate.{
  Access, Translation, Verdict, permitted, refused, latch_viol, mark_used, ladder, slow_path,
  mmu_translate, identity, based, vt_pww,
}
use commodore_900_emulator.Mmu.Coherence.{IsCoherent, mmu_translate-slow, slow_translate}

-- The rights that a descriptor grants to an access, as the data sheet lists them: no condition
-- depends on the order of the tests.
pub record IsAllowed (d : MmuDesc) (a : Access) : Type 0 where
  pub not_inhibited : has d.attr a_cpu ≡ false
  pub ascending : has d.attr a_dirw ≡ false → u8 (shr a.off 8) ≤ d.limit
  pub descending : has d.attr a_dirw ≡ true → d.limit ≤ u8 (shr a.off 8)
  pub writable : has d.attr a_rd ≡ true → a.is_write ≡ false
  pub system : has d.attr a_sys ≡ true → a.is_normal ≡ false
  pub executed : has d.attr a_exc ≡ true → a.is_fetch ≡ true

-- The unit acts on the access: it is enabled, it translates, and the segment is in its half.
pub record IsActive (u : Mmu) (a : Access) : Type 0 where
  pub enabled : has u.mode mode_msen ≡ true
  pub translating : has u.mode mode_trns ≡ true
  pub our_half : bit_and (shr a.sn 6) 1 ≡ bit_and (shr u.mode 5) 1

permitted-IsAllowed : (d : MmuDesc) (a : Access) → ladder d a ≡ permitted → IsAllowed d a
unfolding ladder
permitted-IsAllowed d a e = ground arith

IsAllowed-permitted : (d : MmuDesc) (a : Access) → IsAllowed d a → ladder d a ≡ permitted
unfolding ladder
IsAllowed-permitted d a h = ground arith

false≢true : false ≢ true
false≢true e = cc

latch-desc :
    (u : Mmu) (viol : ℕ) (a : Access) (st : ℕ) (suppress : Bool)
    → (latch_viol u viol a st suppress).desc ≡ u.desc
unfolding latch_viol
latch-desc u viol a st suppress = ground arith

active-slow :
    (u : Mmu) (a : Access)
    → IsActive u a
    → slow_translate u a ≡ slow_path u (bit_and a.sn 0x3F) a (ladder (u.desc (bit_and a.sn 0x3F)) a)
unfolding slow_translate
active-slow u a h = ground arith

-- What the slow path does with each verdict.
record Outcome (u : Mmu) (seg : ℕ) (a : Access) (v : Verdict) (t : Translation) : Type 0 where
  faults : (t.fault ≡ false) ↔ (v ≡ permitted)
  lands : t.fault ≡ false → t.phys ≡ based (shl (u.desc seg).base 8) a.off
  stays : t.fault ≡ true → (t.phys ≡ identity a) × (t.unit.desc ≡ u.desc)

slow_path-Outcome :
    (u : Mmu) (seg : ℕ) (a : Access) (v : Verdict) → Outcome u seg a v (slow_path u seg a v)
unfolding slow_path
slow_path-Outcome u seg a permitted = record {
  faults = (λ _. refl, λ _. refl);
  lands = λ _. refl;
  stays = λ e. absurd (false≢true e);
}
slow_path-Outcome u seg a (refused viol) = record {
  faults = (λ e. absurd (false≢true (sym e)), λ e. cc);
  lands = λ e. absurd (false≢true (sym e));
  stays = λ _. (
    refl,
    latch-desc u viol a (if a.is_fetch then 0x0D else if a.is_write then 0x0A else 0x09) true,
  );
}

-- Protection: when the unit acts on an access, it faults exactly when the descriptor does not grant
-- the access; a granted access lands at the segment's base times 256 plus the offset, modulo 2 ^ 24; a
-- refused one gets the untranslated address and leaves every descriptor, with its REF and CHG bits,
-- as it was.
pub mmu_translate_protects :
    (u : Mmu) (a : Access)
    → IsCoherent u
    → IsActive u a
    → let d = u.desc (bit_and a.sn 0x3F) in
      let t = mmu_translate u a in
      ((t.fault ≡ false) ↔ IsAllowed d a)
      × (t.fault ≡ false → t.phys ≡ (d.base * 256 + a.off) % 2 ^ 24)
      × (t.fault ≡ true → (t.phys ≡ identity a) × (t.unit.desc ≡ u.desc))
mmu_translate_protects u a coherent active =
    rw (mmu_translate-slow u a coherent, active-slow u a active)
      (
        (λ e. permitted-IsAllowed d a (o.faults.0 e), λ h. o.faults.1 (IsAllowed-permitted d a h)),
        (λ e. o.lands e ∙ bit_and_mask 24 (d.base * 256 + a.off)),
        o.stays,
      )
  where
    d : MmuDesc
    d = u.desc (bit_and a.sn 0x3F)

    o :
        Outcome u
          (bit_and a.sn 0x3F)
          a
          (ladder d a)
          (slow_path u (bit_and a.sn 0x3F) a (ladder d a))
    o = slow_path-Outcome u (bit_and a.sn 0x3F) a (ladder d a)

-- The registers that hold the first violation.
pub record IsSameContext (u v : Mmu) : Type 0 where
  pub captured : v.viol_captured ≡ true
  pub segment : v.viol_sn ≡ u.viol_sn
  pub offset : v.viol_off ≡ u.viol_off
  pub status : v.bcsr ≡ u.bcsr

latch-IsSameContext :
    (u : Mmu) (viol : ℕ) (a : Access) (st : ℕ) (suppress : Bool)
    → u.viol_captured ≡ true
    → IsSameContext u (latch_viol u viol a st suppress)
unfolding latch_viol
latch-IsSameContext u viol a st suppress h = ground arith

unchanged : (u : Mmu) → u.viol_captured ≡ true → IsSameContext u u
unchanged u h = record { captured = h; segment = refl; offset = refl; status = refl }

marked :
    (u : Mmu) (seg : ℕ) (is_write : Bool)
    → u.viol_captured ≡ true
    → IsSameContext u (mark_used u seg is_write)
unfolding mark_used
marked u seg is_write h = record { captured = h; segment = refl; offset = refl; status = refl }

record Recorded (u : Mmu) (t : Translation) : Type 0 where
  same : IsSameContext u t.unit

slow_path-Recorded :
    (u : Mmu) (seg : ℕ) (a : Access) (v : Verdict)
    → u.viol_captured ≡ true
    → Recorded u (slow_path u seg a v)
unfolding slow_path mark_used
slow_path-Recorded u seg a (refused viol) h = record {
  same = latch-IsSameContext u viol a _ true h;
}
slow_path-Recorded u seg a permitted h =
    let m = marked u seg a.is_write h in
    let st : ℕ = if a.is_fetch then 0x0D else if a.is_write then 0x0A else 0x09 in
    let l = latch-IsSameContext (mark_used u seg a.is_write) vt_pww a st false m.captured in
    record {
      same =
          if_keeps (IsSameContext u) _
            {x = latch_viol (mark_used u seg a.is_write) vt_pww a st false}
            (record {
              captured = l.captured;
              segment = l.segment;
              offset = l.offset;
              status = l.status;
            })
            m;
    }

-- The first violation stays on record: while it is captured, no further access, whatever it
-- violates, changes the segment number, the offset or the bus status that were latched.
pub mmu_translate-IsSameContext :
    (u : Mmu) (a : Access) → u.viol_captured ≡ true → IsSameContext u (mmu_translate u a).unit
unfolding mmu_translate
mmu_translate-IsSameContext u a h = kept.same
  where
    pass : Recorded u (record { phys = identity a; fault = false; unit = u })
    pass = record { same = unchanged u h }

    seg : ℕ
    seg = bit_and a.sn 0x3F

    kept : Recorded u (mmu_translate u a)
    kept = if_keeps (Recorded u) (not (has u.mode mode_msen)) pass (
        if_keeps (Recorded u) (not (has u.mode mode_trns)) pass (
          if_keeps (Recorded u) (not (bit_and (shr a.sn 6) 1 == bit_and (shr u.mode 5) 1)) pass (
            if_keeps (Recorded u) (u.fast_ok seg) (record { same = marked u seg a.is_write h })
              (slow_path-Recorded u seg a (ladder (u.desc seg) a) h))))
