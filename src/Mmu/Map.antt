-- ===== src/Mmu/Map.antt =====
-- What a translation of src/mmu.c leaves alone: the map that the system has set up.
use commodore_900_emulator.Base.{
  ℕ, ◌≡◌, refl, ◌∙◌, Bool, true, false, bit_and, bit_or, if_keeps, ◌==◌, and-or_outside, update,
  or_if, not, ℕ_discrete, update_ne, update_self, has, shr, subst,
}
use commodore_900_emulator.Mmu.State.{MmuDesc, Mmu, a_chg, a_ref, mode_msen, mode_trns}
use commodore_900_emulator.Mmu.Translate.{
  vt_pww, Access, Translation, identity, Verdict, permitted, refused, capture, latch_viol,
  mark_used, slow_path, mmu_translate, ladder,
}

-- The same segment, but for the two marks of use.
pub record SameSegment (d e : MmuDesc) : Type 0 where
  pub base : e.base ≡ d.base
  pub limit : e.limit ≡ d.limit
  pub attr : bit_and e.attr 0x3F ≡ bit_and d.attr 0x3F

pub record SameMap (u v : Mmu) : Type 0 where
  pub segment : (k : ℕ) → SameSegment (u.desc k) (v.desc k)
  pub mode : v.mode ≡ u.mode
  pub sar : v.sar ≡ u.sar
  pub dsc : v.dsc ≡ u.dsc

pub SameMap-refl : (u : Mmu) → SameMap u u
SameMap-refl u = record {
  segment = λ k. record { base = refl; limit = refl; attr = refl };
  mode = refl;
  sar = refl;
  dsc = refl;
}

pub SameMap-trans : {u v w : Mmu} → SameMap u v → SameMap v w → SameMap u w
SameMap-trans h k = record {
  segment = λ i. record {
    base = (k.segment i).base ∙ (h.segment i).base;
    limit = (k.segment i).limit ∙ (h.segment i).limit;
    attr = (k.segment i).attr ∙ (h.segment i).attr;
  };
  mode = k.mode ∙ h.mode;
  sar = k.sar ∙ h.sar;
  dsc = k.dsc ∙ h.dsc;
}

-- A violation touches none of it.
capture-SameMap :
    (u v : Mmu) (viol : ℕ) (a : Access) (st : ℕ) → SameMap u v → SameMap u (capture v viol a st)
unfolding capture
capture-SameMap u v viol a st h =
    if_keeps (SameMap u) (not v.viol_captured)
      (record { segment = h.segment; mode = h.mode; sar = h.sar; dsc = h.dsc })
      (record { segment = h.segment; mode = h.mode; sar = h.sar; dsc = h.dsc })

latch_viol-SameMap :
    (u v : Mmu) (viol : ℕ) (a : Access) (st : ℕ) (b : Bool)
    → SameMap u v
    → SameMap u (latch_viol v viol a st b)
unfolding latch_viol
latch_viol-SameMap u v viol a st b h =
    let c = capture-SameMap u v viol a st h in
    if_keeps (SameMap u) _ (record { segment = c.segment; mode = c.mode; sar = c.sar; dsc = c.dsc })
      (record { segment = c.segment; mode = c.mode; sar = c.sar; dsc = c.dsc })

marked_attr : (w : Bool) (x : ℕ) → bit_and (or_if w a_chg (bit_or x a_ref)) 0x3F ≡ bit_and x 0x3F
marked_attr true x =
    and-or_outside (bit_or x a_ref) a_chg 0x3F refl ∙ and-or_outside x a_ref 0x3F refl
marked_attr false x = and-or_outside x a_ref 0x3F refl

marked :
    (d : MmuDesc) (w : Bool)
    → SameSegment d (record d { attr = or_if w a_chg (bit_or d.attr a_ref) })
marked d w = record { base = refl; limit = refl; attr = marked_attr w d.attr }

mark_used-SameMap : (u : Mmu) (seg : ℕ) (w : Bool) → SameMap u (mark_used u seg w)
unfolding mark_used
mark_used-SameMap u seg w = record { segment = at; mode = refl; sar = refl; dsc = refl }
  where
    new : MmuDesc
    new = record (u.desc seg) { attr = or_if w a_chg (bit_or (u.desc seg).attr a_ref) }

    here : SameSegment (u.desc seg) (update u.desc seg new seg)
    here = rw (update_self u.desc seg new) (marked (u.desc seg) w)

    at : (k : ℕ) → SameSegment (u.desc k) (update u.desc seg new k)
    at k = elim (ℕ_discrete seg k) [
      | yes e ↦ subst (λ j. SameSegment (u.desc j) (update u.desc seg new j)) e here
      | no ne ↦ rw (update_ne u.desc seg k new ne) ((SameMap-refl u).segment k)
    ]

record Maps (u : Mmu) (t : Translation) : Type 0 where
  same : SameMap u t.unit

slow_path-Maps : (u : Mmu) (seg : ℕ) (a : Access) (v : Verdict) → Maps u (slow_path u seg a v)
unfolding slow_path
slow_path-Maps u seg a (refused viol) = record {
  same = latch_viol-SameMap u u viol a _ true (SameMap-refl u);
}
slow_path-Maps u seg a permitted =
    let m = mark_used-SameMap u seg a.is_write in
    record { same = if_keeps (SameMap u) _ (latch_viol-SameMap u _ vt_pww a _ false m) m }

-- A translation keeps the bases, the limits and the protection bits of all segments, the mode and the
-- selectors.
pub mmu_translate-SameMap : (u : Mmu) (a : Access) → SameMap u (mmu_translate u a).unit
unfolding mmu_translate
mmu_translate-SameMap u a = kept.same
  where
    pass : Maps u (record { phys = identity a; fault = false; unit = u })
    pass = record { same = SameMap-refl u }

    seg : ℕ
    seg = bit_and a.sn 0x3F

    kept : Maps u (mmu_translate u a)
    kept = if_keeps (Maps u) (not (has u.mode mode_msen)) pass (
        if_keeps (Maps u) (not (has u.mode mode_trns)) pass (
          if_keeps (Maps u) (not (bit_and (shr a.sn 6) 1 == bit_and (shr u.mode 5) 1)) pass (
            if_keeps (Maps u) (u.fast_ok seg) (record { same = mark_used-SameMap u seg a.is_write })
              (slow_path-Maps u seg a (ladder (u.desc seg) a)))))
