-- ===== src/Mmu/Coherence.antt =====
-- The fast-path cache of src/mmu.c agrees with the descriptors it was made from, and therefore
-- changes no translation.
use commodore_900_emulator.Base.{
  ℕ, ◌<◌, ◌^◌, ◌≡◌, refl, arith, Bool, true, false, not, ◌&&◌, bit_and, bit_or, has, ◌==◌,
  if◌then◌else◌, or_if, shl, shr, sym, ◌∙◌, bit_and_mask, and-or_outside, has_outside, has-or,
  Bool-cases, inl, inr, ==_iff, update_self,
}
use commodore_900_emulator.Mmu.State.{
  MmuDesc, Mmu, is_simple, a_restrict, a_ref, a_chg, a_dirw, mode_msen, mode_trns,
}
use commodore_900_emulator.Mmu.Translate.{
  Access, Translation, mark_used, ladder, permitted, slow_path, mmu_translate, identity, based,
}

-- A cache entry is what `mmu_refresh_fast` makes of the descriptor.
pub record IsCached (d : MmuDesc) (is_ok : Bool) (start_at : ℕ) : Type 0 where
  pub ok : is_ok ≡ is_simple d
  pub start : start_at ≡ shl d.base 8

abbrev pub IsFresh : Mmu → ℕ → Type 0
IsFresh u s = IsCached (u.desc s) (u.fast_ok s) (u.fast_base s)

-- The cache as a whole: every entry is fresh.
pub record IsCoherent (u : Mmu) : Type 0 where
  pub fresh : (s : ℕ) → s < 64 → IsFresh u s

-- The unit with no cache: the ladder decides every access.
unfoldable pub slow_translate : Mmu → Access → Translation
slow_translate u a =
    let pass : Translation = record { phys = identity a; fault = false; unit = u } in
    let seg = bit_and a.sn 0x3F in
    if not (has u.mode mode_msen)
    then pass
    else if not (has u.mode mode_trns)
    then pass
    else if not (bit_and (shr a.sn 6) 1 == bit_and (shr u.mode 5) 1)
    then pass
    else slow_path u seg a (ladder (u.desc seg) a)

pub seg-lt : (x : ℕ) → bit_and x 0x3F < 64
seg-lt x = rw (bit_and_mask 6 x) (omega arith)

-- The attribute bits that restrict nothing do not make a descriptor less simple.
pub marked_attr :
    (is_write : Bool) (x : ℕ)
    → bit_and (or_if is_write a_chg (bit_or x a_ref)) a_restrict ≡ bit_and x a_restrict
marked_attr true x =
    and-or_outside (bit_or x a_ref) a_chg a_restrict refl ∙ and-or_outside x a_ref a_restrict refl
marked_attr false x = and-or_outside x a_ref a_restrict refl

-- A simple descriptor has no restricting bit.
simple_bit :
    (k : ℕ) (d : MmuDesc)
    → has a_restrict (2 ^ k) ≡ true
    → is_simple d ≡ true
    → has d.attr (2 ^ k) ≡ false
simple_bit k d inside simple = has_outside k d.attr a_restrict inside (and_right _ _ simple)
  where
    and_right : (p q : Bool) → (p && q) ≡ true → q ≡ true
    and_right true q h = h
    and_right false q h = cc

full_limit : (d : MmuDesc) → is_simple d ≡ true → d.limit ≡ 0xFF
full_limit d simple = (==_iff d.limit 0xFF).0 (and_left _ _ simple)
  where
    and_left : (p q : Bool) → (p && q) ≡ true → p ≡ true
    and_left true q h = refl
    and_left false q h = cc

simple-permitted : (d : MmuDesc) (a : Access) → is_simple d ≡ true → ladder d a ≡ permitted
unfolding ladder
simple-permitted d a simple =
    rw
      (
        simple_bit 2 d refl simple,
        simple_bit 5 d refl simple,
        simple_bit 0 d refl simple,
        simple_bit 1 d refl simple,
        simple_bit 3 d refl simple,
        full_limit d simple,
      )
      (ground arith)

-- A write to a simple descriptor gives no warning: its direction bit stays clear.
no_warning :
    (d : MmuDesc) (is_write : Bool)
    → is_simple d ≡ true
    → has (or_if is_write a_chg (bit_or d.attr a_ref)) a_dirw ≡ false
no_warning d true simple =
    rw (has-or 5 (bit_or d.attr a_ref) a_chg, has-or 5 d.attr a_ref, simple_bit 5 d refl simple)
no_warning d false simple = rw (has-or 5 d.attr a_ref, simple_bit 5 d refl simple)

fast-slow :
    (u : Mmu) (a : Access) (seg : ℕ)
    → IsFresh u seg
    → u.fast_ok seg ≡ true
    → slow_path u seg a (ladder (u.desc seg) a) ≡ record {
      phys = based (u.fast_base seg) a.off;
      fault = false;
      unit = mark_used u seg a.is_write;
    }
unfolding slow_path
fast-slow u a seg fresh hit =
    let simple = sym fresh.ok ∙ hit in
    rw (
      simple-permitted (u.desc seg) a simple,
      fresh.start,
      update_self u.desc seg
          (record (u.desc seg) { attr = or_if a.is_write a_chg (bit_or (u.desc seg).attr a_ref) }),
      no_warning (u.desc seg) a.is_write simple,
    )

-- The fast path changes nothing: with a coherent cache `mmu_translate` returns the address, the fault
-- and the state that the protection ladder alone gives, for every access.
pub mmu_translate-slow :
    (u : Mmu) (a : Access) → IsCoherent u → mmu_translate u a ≡ slow_translate u a
unfolding mmu_translate slow_translate
mmu_translate-slow u a coherent = elim (Bool-cases (u.fast_ok (bit_and a.sn 0x3F))) [
  | inl hit ↦ rw (
    hit,
    fast-slow u a (bit_and a.sn 0x3F) (coherent.fresh (bit_and a.sn 0x3F) (seg-lt a.sn)) hit,
  )
  | inr miss ↦ rw miss
]
