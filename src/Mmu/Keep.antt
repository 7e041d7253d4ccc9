-- ===== src/Mmu/Keep.antt =====
-- Every operation of src/mmu.c keeps the fast-path cache coherent.
use native.Mathlib.Nat.{mod-eq_of_lt}
use commodore_900_emulator.Base.{
  ℕ, suc, ◌+◌, ◌<◌, ◌≡◌, ◌≢◌, arith, Bool, true, false, not, ◌&&◌, ◌||◌, bit_and, bit_or, has, ◌==◌,
  or_if, u8, shl, shr, update, sym, ap, ◌∙◌, bit_and_mask, if_keeps, for_loop_inv, update_self,
  update_ne, ℕ_discrete, subst,
}
use commodore_900_emulator.Mmu.State.{
  MmuDesc, Mmu, mmu_refresh_fast, mmu_reset, is_simple, refresh_step, mode_msen, mode_trns, a_cpu,
  a_dmai, a_chg, a_ref,
}
use commodore_900_emulator.Mmu.Translate.{
  Access, Translation, mark_used, slow_path, permitted, refused, Verdict, ladder, mmu_translate,
  latch_viol, capture, vt_pww, identity,
}
use commodore_900_emulator.Mmu.Command.{
  set_desc_byte, write_desc_byte, next_sar, step_base, step_field, step_full, set_at, set_all,
  mmu_cmd_read, mmu_cmd_write,
}
use commodore_900_emulator.Mmu.Coherence.{IsFresh, IsCoherent, seg-lt, marked_attr}

-- Every entry but that of segment `t` is fresh.
record IsFreshBut (t : ℕ) (u : Mmu) : Type 0 where
  but : (s : ℕ) → s < 64 → s ≢ t → IsFresh u s

mask_id : (t : ℕ) → t < 64 → bit_and t 0x3F ≡ t
mask_id t h = bit_and_mask 6 t ∙ mod-eq_of_lt h

refresh_at : (u : Mmu) (t : ℕ) → t < 64 → IsFresh (mmu_refresh_fast u t) t
unfolding mmu_refresh_fast
refresh_at u t lt = rw (mask_id t lt) (record {
  ok = update_self u.fast_ok t (is_simple (u.desc t));
  start = update_self u.fast_base t (shl (u.desc t).base 8);
})

refresh_other :
    (u : Mmu) (t s : ℕ) → t < 64 → s ≢ t → IsFresh u s → IsFresh (mmu_refresh_fast u t) s
unfolding mmu_refresh_fast
refresh_other u t s lt ne fresh = rw (mask_id t lt) (record {
  ok = update_ne u.fast_ok t s (is_simple (u.desc t)) (λ e. ne (sym e)) ∙ fresh.ok;
  start = update_ne u.fast_base t s (shl (u.desc t).base 8) (λ e. ne (sym e)) ∙ fresh.start;
})

refresh-IsCoherent : (u : Mmu) (t : ℕ) → t < 64 → IsFreshBut t u → IsCoherent (mmu_refresh_fast u t)
refresh-IsCoherent u t lt but = record {
  fresh = λ s h. elim (ℕ_discrete s t) [
    | yes e ↦ subst (IsFresh (mmu_refresh_fast u t)) (sym e) (refresh_at u t lt)
    | no ne ↦ refresh_other u t s lt ne (but.but s h ne)
  ];
}

write-IsFreshBut :
    (u : Mmu) (which v : ℕ)
    → IsCoherent u
    → IsFreshBut (bit_and u.sar 0x3F) (write_desc_byte u which v)
unfolding write_desc_byte
write-IsFreshBut u which v coherent = record {
  but = λ s lt ne.
      rw
        (update_ne u.desc (bit_and u.sar 0x3F) s
          (set_desc_byte (u.desc (bit_and u.sar 0x3F)) which v) (λ e. ne (sym e)))
        (coherent.fresh s lt);
}

-- Moving DSC and SAR touches neither the descriptors nor the cache.
step_base-IsFreshBut :
    (inc : Bool) (u : Mmu) (t : ℕ) → IsFreshBut t u → IsFreshBut t (step_base inc u)
unfolding step_base
step_base-IsFreshBut inc u t h =
    if_keeps (IsFreshBut t) (bit_and u.dsc 1 == 1)
      (if_keeps (IsFreshBut t) inc (record { but = h.but }) (record { but = h.but }))
      (record { but = h.but })

step_field-IsFreshBut :
    (inc : Bool) (u : Mmu) (t : ℕ) → IsFreshBut t u → IsFreshBut t (step_field inc u)
unfolding step_field
step_field-IsFreshBut inc u t h = if_keeps (IsFreshBut t) inc (record { but = h.but }) h

step_full-IsFreshBut :
    (inc : Bool) (u : Mmu) (t : ℕ) → IsFreshBut t u → IsFreshBut t (step_full inc u)
unfolding step_full
step_full-IsFreshBut inc u t h =
    let moved =
      if_keeps (IsFreshBut t) ((bit_and (u.dsc + 1) 3 == 0) && inc) {x = next_sar u} {y = u}
        (record { but = h.but }) h in
    record { but = moved.but }

-- A descriptor replaced and its entry refreshed.
touch-IsCoherent :
    (u : Mmu) (i : ℕ) (d : MmuDesc)
    → i < 64
    → IsCoherent u
    → IsCoherent (mmu_refresh_fast (record u { desc = update u.desc i d }) (u8 i))
touch-IsCoherent u i d lt h = rw (mod-eq_of_lt {n = i} {m = 256} (omega arith)) (
    refresh-IsCoherent (record u { desc = update u.desc i d }) i lt
      (record { but = λ s ls ne. rw (update_ne u.desc i s d (λ e. ne (sym e))) (h.fresh s ls) }))

set_at-IsCoherent : (m i : ℕ) (v : Mmu) → i < 64 → IsCoherent v → IsCoherent (set_at m i v)
unfolding set_at
set_at-IsCoherent m i v lt h =
    touch-IsCoherent v i (record (v.desc i) { attr = bit_or (v.desc i).attr m }) lt h

set_all-IsCoherent : (m : ℕ) (u : Mmu) → IsCoherent u → IsCoherent (set_all m u)
unfolding set_all
set_all-IsCoherent m u h = for_loop_inv (λ _. IsCoherent) 64 (set_at m) u (set_at-IsCoherent m) h

-- Every write to the command port leaves the cache coherent: all field, full-descriptor and bulk
-- commands refresh what they change.
pub mmu_cmd_write-IsCoherent :
    (u : Mmu) (cmd v : ℕ) → IsCoherent u → IsCoherent (mmu_cmd_write u cmd v)
unfolding mmu_cmd_write
mmu_cmd_write-IsCoherent u cmd v h =
    if_keeps IsCoherent (cmd == 0x00) (record { fresh = h.fresh })
      (if_keeps IsCoherent (cmd == 0x01) (record { fresh = h.fresh })
        (if_keeps IsCoherent (cmd == 0x20) (record { fresh = h.fresh })
          (if_keeps IsCoherent ((cmd == 0x08) || (cmd == 0x0C))
            (restore (step_base-IsFreshBut _ _ _ (written (bit_and u.dsc 1))))
            (if_keeps IsCoherent ((cmd == 0x09) || (cmd == 0x0D))
              (restore (step_field-IsFreshBut _ _ _ (written 2)))
              (if_keeps IsCoherent ((cmd == 0x0A) || (cmd == 0x0E))
                (restore (step_field-IsFreshBut _ _ _ (written 3)))
                (if_keeps IsCoherent ((cmd == 0x0B) || (cmd == 0x0F))
                  (restore (step_full-IsFreshBut _ _ _ (written (bit_and u.dsc 3))))
                  (if_keeps IsCoherent (cmd == 0x11) (record { fresh = h.fresh })
                    (if_keeps IsCoherent (cmd == 0x13) (record { fresh = h.fresh })
                      (if_keeps IsCoherent (cmd == 0x14) (record { fresh = h.fresh })
                        (if_keeps IsCoherent (cmd == 0x15) (set_all-IsCoherent a_cpu u h) (
                          if_keeps IsCoherent (cmd == 0x16) (set_all-IsCoherent a_dmai u h)
                            h)))))))))))
  where
    written : (which : ℕ) → IsFreshBut (bit_and u.sar 0x3F) (write_desc_byte u which v)
    written which = write-IsFreshBut u which v h

    restore :
        {w : Mmu}
        → IsFreshBut (bit_and u.sar 0x3F) w
        → IsCoherent (mmu_refresh_fast w (bit_and u.sar 0x3F))
    restore {w} but = refresh-IsCoherent w (bit_and u.sar 0x3F) (seg-lt u.sar) but

record Holds (p : ℕ × Mmu) : Type 0 where
  holds : IsCoherent p.1

-- The entries below `n` are fresh.
record IsFreshBelow (n : ℕ) (u : Mmu) : Type 0 where
  below : (s : ℕ) → s < n → IsFresh u s

refresh-IsFreshBelow :
    (i : ℕ) (v : Mmu) → i < 64 → IsFreshBelow i v → IsFreshBelow (suc i) (refresh_step i v)
refresh-IsFreshBelow i v lt h = rw (mod-eq_of_lt {n = i} {m = 256} (omega arith)) (record {
  below = λ s ls. elim (ℕ_discrete s i) [
    | yes e ↦ subst (IsFresh (mmu_refresh_fast v i)) (sym e) (refresh_at v i lt)
    | no ne ↦ refresh_other v i s lt ne (h.below s (omega arith))
  ];
})

-- A read moves DSC and SAR alone.
pub mmu_cmd_read-IsCoherent : (u : Mmu) (cmd : ℕ) → IsCoherent u → IsCoherent (mmu_cmd_read u cmd).1
unfolding mmu_cmd_read
mmu_cmd_read-IsCoherent u cmd h = kept.holds
  where
    but : IsFreshBut 64 u
    but = record { but = λ s lt _. h.fresh s lt }

    stay : {n : ℕ} → Holds (n, u)
    stay = record { holds = h }

    move : {n : ℕ} {w : Mmu} → IsFreshBut 64 w → Holds (n, w)
    move f = record { holds = record { fresh = λ s lt. f.but s lt (omega arith) } }

    kept : Holds (mmu_cmd_read u cmd)
    kept = if_keeps Holds (cmd == 0x00) stay (
        if_keeps Holds (cmd == 0x01) stay (
          if_keeps Holds (cmd == 0x20) stay (
            if_keeps Holds ((cmd == 0x08) || (cmd == 0x0C)) (move (step_base-IsFreshBut _ _ _ but))
              (if_keeps Holds ((cmd == 0x09) || (cmd == 0x0D))
                (move (step_field-IsFreshBut _ _ _ but))
                (if_keeps Holds ((cmd == 0x0A) || (cmd == 0x0E))
                  (move (step_field-IsFreshBut _ _ _ but))
                  (if_keeps Holds ((cmd == 0x0B) || (cmd == 0x0F))
                    (move (step_full-IsFreshBut _ _ _ but))
                    (if_keeps Holds (cmd == 0x02) stay (
                      if_keeps Holds (cmd == 0x03) stay (
                        if_keeps Holds (cmd == 0x04) stay (
                          if_keeps Holds (cmd == 0x05) stay (
                            if_keeps Holds (cmd == 0x06) stay
                              (if_keeps Holds (cmd == 0x07) stay stay))))))))))))

-- The rebuilt cache is coherent, whatever the unit held before.
pub mmu_reset-IsCoherent : (u : Mmu) → IsCoherent (mmu_reset u)
unfolding mmu_reset
mmu_reset-IsCoherent u = record { fresh = λ s lt. rebuilt.below s lt }
  where
    rebuilt : IsFreshBelow 64 (mmu_reset u)
    rebuilt =
        for_loop_inv IsFreshBelow 64 refresh_step _ refresh-IsFreshBelow
          (record { below = λ s lt. absurd (omega arith) })

capture-IsCoherent :
    (u : Mmu) (viol : ℕ) (a : Access) (st : ℕ) → IsCoherent u → IsCoherent (capture u viol a st)
unfolding capture
capture-IsCoherent u viol a st h =
    if_keeps IsCoherent (not u.viol_captured) (record { fresh = h.fresh })
      (record { fresh = h.fresh })

latch-IsCoherent :
    (u : Mmu) (viol : ℕ) (a : Access) (st : ℕ) (suppress : Bool)
    → IsCoherent u
    → IsCoherent (latch_viol u viol a st suppress)
unfolding latch_viol
latch-IsCoherent u viol a st suppress h =
    let c = capture-IsCoherent u viol a st h in
    if_keeps IsCoherent _ (record { fresh = c.fresh }) (record { fresh = c.fresh })

marked_simple :
    (d : MmuDesc) (is_write : Bool)
    → is_simple (record d { attr = or_if is_write a_chg (bit_or d.attr a_ref) }) ≡ is_simple d
marked_simple d is_write =
    ap (λ (t : ℕ). (d.limit == 0xFF) && (t == 0)) (marked_attr is_write d.attr)

mark_used-IsCoherent :
    (u : Mmu) (seg : ℕ) (is_write : Bool) → IsCoherent u → IsCoherent (mark_used u seg is_write)
unfolding mark_used
mark_used-IsCoherent u seg is_write h = record {
  fresh = λ s lt. elim (ℕ_discrete s seg) [
    | yes e ↦
        let same = subst (IsFresh u) e (h.fresh s lt) in
        rw
          (
            e,
            update_self u.desc seg (record (u.desc seg) {
              attr = or_if is_write a_chg (bit_or (u.desc seg).attr a_ref);
            }),
          )
          (record { ok = same.ok ∙ sym (marked_simple (u.desc seg) is_write); start = same.start })
    | no ne ↦
        rw
          (update_ne u.desc seg s
            (record (u.desc seg) { attr = or_if is_write a_chg (bit_or (u.desc seg).attr a_ref) })
            (λ e. ne (sym e)))
          (h.fresh s lt)
  ];
}

record Leaves (t : Translation) : Type 0 where
  leaves : IsCoherent t.unit

slow_path-Leaves :
    (u : Mmu) (seg : ℕ) (a : Access) (v : Verdict) → IsCoherent u → Leaves (slow_path u seg a v)
unfolding slow_path
slow_path-Leaves u seg a (refused viol) h = record { leaves = latch-IsCoherent u viol a _ true h }
slow_path-Leaves u seg a permitted h =
    let m = mark_used-IsCoherent u seg a.is_write h in
    record { leaves = if_keeps IsCoherent _ (latch-IsCoherent _ vt_pww a _ false m) m }

-- An access marks REF and CHG and may latch a violation; neither touches the cache.
pub mmu_translate-IsCoherent :
    (u : Mmu) (a : Access) → IsCoherent u → IsCoherent (mmu_translate u a).unit
unfolding mmu_translate
mmu_translate-IsCoherent u a h = kept.leaves
  where
    pass : Leaves (record { phys = identity a; fault = false; unit = u })
    pass = record { leaves = h }

    seg : ℕ
    seg = bit_and a.sn 0x3F

    kept : Leaves (mmu_translate u a)
    kept = if_keeps Leaves (not (has u.mode mode_msen)) pass (
        if_keeps Leaves (not (has u.mode mode_trns)) pass (
          if_keeps Leaves (not (bit_and (shr a.sn 6) 1 == bit_and (shr u.mode 5) 1)) pass (
            if_keeps Leaves (u.fast_ok seg)
              (record { leaves = mark_used-IsCoherent u seg a.is_write h })
              (slow_path-Leaves u seg a (ladder (u.desc seg) a) h))))
