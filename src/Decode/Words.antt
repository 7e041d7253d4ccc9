-- ===== src/Decode/Words.antt =====
-- The sub-decoders of src/decode.c against the lengths, and `decode_lookup` as a whole.
use commodore_900_emulator.Base.{
  ℕ, ◌+◌, ◌<◌, ◌≡◌, refl, sym, subst, arith, Bool, true, false, not, ◌&&◌, ◌||◌, ◌==◌, ==_iff, leb,
  ltb, if◌then◌else◌, if_cases, if_keeps, ltb→lt, bit_and, bit_and_mask, has, shr, List, [], ◌∷◌,
  Option, none, some, all_below, all_below_sound,
}
use mathlib.Core.Option.{map}
use commodore_900_emulator.Cpu.{CtrlWord, RegSel, SrcSel, DstSel, nib2, nib3}
use commodore_900_emulator.Decode.Slot.{Slot, sub, entry}
use commodore_900_emulator.Decode.Length.{length_of, decode_length}
use commodore_900_emulator.Decode.Refine.{
  test_long_ir, test_long_addr, ldm_word, ldm_addr, paired, sub_3a, sub_3b, sub_b2, sub_b3, sub_ba,
  sub_bb, sub_4c, sub_4d, sub_0c, sub_0d, sub_8c, sub_8d, sub_9c, sub_b1, sub_1c, sub_5c, sub_7b,
  sub_7c, sub_7d, sub_b8,
}
use commodore_900_emulator.Decode.Tables.{tbl_8c, tbl_8d, tbl_0c, tbl_0d, tbl_4c, tbl_4d}
use commodore_900_emulator.Decode.PortTable.{tbl_3a, tbl_3b}
use commodore_900_emulator.Decode.ShiftTable.{tbl_b2, tbl_b3}
use commodore_900_emulator.Decode.BlockTable.{tbl_ba, tbl_bb, tbl_b8, tbl_diei}
use commodore_900_emulator.Decode.Lookup.{
  refine, if_valid, look, rom, rom_sub, rom_plain, decode_lookup,
}
use commodore_900_emulator.Decode.Check.{
  fits, behind, is_toggle, holds, RowOk, AllOk, append-AllOk, rom_plain-AllOk, all_rows, entry-all,
  nibble, and_left, and_right,
}

absent : (q : CtrlWord → Bool) → holds q none ≡ true
unfolding holds
absent q = refl

-- A table by the lowest nibble.
keyed :
    (hi n2 l : ℕ) (t : List (ℕ × CtrlWord))
    → all_rows (λ k c. fits hi n2 k c) t ≡ true
    → holds (fits hi n2 l) (entry l t) ≡ true
unfolding holds
keyed hi n2 l t h =
    entry-all (λ o. holds (fits hi n2 l) o ≡ true) (λ k c. fits hi n2 k c) l t refl (λ c e. e) h

-- A table of pairs.
keyed_pair :
    (hi n2 l : ℕ) (t : List (ℕ × (CtrlWord × CtrlWord))) (b : Bool) (n : ℕ)
    → all_rows (λ k p. fits hi n2 k p.0 && fits hi n2 k p.1) t ≡ true
    → holds (fits hi n2 l) (paired t l b n) ≡ true
unfolding holds paired
keyed_pair hi n2 l t b n h =
    if_keeps (λ o. holds (fits hi n2 l) o ≡ true) (ltb n 1) refl
      (entry-all (λ o. holds (fits hi n2 l) (map (λ p. if b then p.1 else p.0) o) ≡ true)
        (λ k p. fits hi n2 k p.0 && fits hi n2 k p.1) l t refl (λ p e. either b p e) h)
  where
    either :
        (b : Bool) (p : CtrlWord × CtrlWord)
        → (fits hi n2 l p.0 && fits hi n2 l p.1) ≡ true
        → fits hi n2 l (if b then p.1 else p.0) ≡ true
    either true p e = and_right (fits hi n2 l p.0) (fits hi n2 l p.1) e
    either false p e = and_left (fits hi n2 l p.0) (fits hi n2 l p.1) e

ok_0c : RowOk 0x0C (sub sub_0c)
unfolding refine sub_0c all_rows length_of
ok_0c = record { word = λ op w n. keyed 0x0C (nib2 op) (nib3 op) tbl_0c refl }

ok_0d : RowOk 0x0D (sub sub_0d)
unfolding refine sub_0d all_rows length_of
ok_0d = record { word = λ op w n. keyed 0x0D (nib2 op) (nib3 op) tbl_0d refl }

ok_8c : RowOk 0x8C (sub sub_8c)
unfolding refine sub_8c all_rows length_of
ok_8c = record { word = λ op w n. keyed 0x8C (nib2 op) (nib3 op) tbl_8c refl }

ok_3a : RowOk 0x3A (sub sub_3a)
unfolding refine sub_3a all_rows length_of
ok_3a = record {
  word = λ op w n. keyed_pair 0x3A (nib2 op) (nib3 op) tbl_3a (bit_and (w 0) 0x0F == 8) n refl;
}

ok_3b : RowOk 0x3B (sub sub_3b)
unfolding refine sub_3b all_rows length_of
ok_3b = record {
  word = λ op w n. keyed_pair 0x3B (nib2 op) (nib3 op) tbl_3b (bit_and (w 0) 0x0F == 8) n refl;
}

ok_ba : RowOk 0xBA (sub sub_ba)
unfolding refine sub_ba all_rows length_of
ok_ba = record {
  word = λ op w n. keyed_pair 0xBA (nib2 op) (nib3 op) tbl_ba (has (w 0) 0x08) n refl;
}

ok_bb : RowOk 0xBB (sub sub_bb)
unfolding refine sub_bb all_rows length_of
ok_bb = record {
  word = λ op w n. keyed_pair 0xBB (nib2 op) (nib3 op) tbl_bb (has (w 0) 0x08) n refl;
}

ok_b2 : RowOk 0xB2 (sub sub_b2)
unfolding refine sub_b2 all_rows length_of
ok_b2 = record {
  word = λ op w n.
      if_keeps (λ o. holds (fits 0xB2 (nib2 op) (nib3 op)) o ≡ true)
        (((nib3 op == 0x01) || (nib3 op == 0x03) || (nib3 op == 0x09) || (nib3 op == 0x0B))
          && ltb n 1)
        (absent (fits 0xB2 (nib2 op) (nib3 op))) (keyed 0xB2 (nib2 op) (nib3 op) tbl_b2 refl);
}

ok_b3 : RowOk 0xB3 (sub sub_b3)
unfolding refine sub_b3 all_rows length_of
ok_b3 = record {
  word = λ op w n.
      if_keeps (λ o. holds (fits 0xB3 (nib2 op) (nib3 op)) o ≡ true) (has (nib3 op) 1 && ltb n 1)
        (absent (fits 0xB3 (nib2 op) (nib3 op))) (keyed 0xB3 (nib2 op) (nib3 op) tbl_b3 refl);
}

rows_4c :
    (n2 : ℕ) (b : Bool)
    → all_rows
        (λ k c. fits 0x4C n2 k c)
        (tbl_4c
          (if b then SrcSel.src_da else SrcSel.src_x)
          (if b then DstSel.dst_da else DstSel.dst_x))
      ≡ true
unfolding all_rows length_of
rows_4c n2 true = refl
rows_4c n2 false = refl

ok_4c : RowOk 0x4C (sub sub_4c)
unfolding refine sub_4c
ok_4c = record {
  word = λ op w n.
      let b = nib2 op == 0 in
      keyed 0x4C (nib2 op) (nib3 op)
        (tbl_4c (if b then SrcSel.src_da else SrcSel.src_x)
          (if b then DstSel.dst_da else DstSel.dst_x))
        (rows_4c (nib2 op) b);
}

rows_4d :
    (n2 : ℕ) (b : Bool)
    → all_rows
        (λ k c. fits 0x4D n2 k c)
        (tbl_4d
          (if b then SrcSel.src_da else SrcSel.src_x)
          (if b then DstSel.dst_da else DstSel.dst_x))
      ≡ true
unfolding all_rows length_of
rows_4d n2 true = refl
rows_4d n2 false = refl

ok_4d : RowOk 0x4D (sub sub_4d)
unfolding refine sub_4d
ok_4d = record {
  word = λ op w n.
      let b = nib2 op == 0 in
      keyed 0x4D (nib2 op) (nib3 op)
        (tbl_4d (if b then SrcSel.src_da else SrcSel.src_x)
          (if b then DstSel.dst_da else DstSel.dst_x))
        (rows_4d (nib2 op) b);
}

rows_8d : all_below 16 (λ n2. all_rows (λ k c. fits 0x8D n2 k c) (tbl_8d n2)) ≡ true
unfolding all_rows all_below length_of
rows_8d = refl

ok_8d : RowOk 0x8D (sub sub_8d)
unfolding refine sub_8d
ok_8d = record {
  word = λ op w n. keyed 0x8D (nib2 op) (nib3 op) (tbl_8d (nib2 op)) (
      all_below_sound (λ n2. all_rows (λ k c. fits 0x8D n2 k c) (tbl_8d n2)) 16 (nib2 op)
        (nibble (shr op 4)) rows_8d);
}

ok_b8 : RowOk 0xB8 (sub sub_b8)
unfolding refine sub_b8 holds all_rows length_of
ok_b8 = record {
  word = λ op w n.
      if_keeps (λ o. holds (fits 0xB8 (nib2 op) (nib3 op)) o ≡ true) (has op 0x01) refl
        (entry-all (λ o. holds (fits 0xB8 (nib2 op) (nib3 op)) o ≡ true)
          (λ k c. fits 0xB8 (nib2 op) (nib3 op) c) (bit_and (shr op 1) 0x07) tbl_b8 refl (λ c e. e)
          refl);
}

ok_9c : RowOk 0x9C (sub sub_9c)
unfolding refine sub_9c holds length_of
ok_9c = record {
  word = λ op w n.
      if_keeps (λ o. holds (fits 0x9C (nib2 op) (nib3 op)) o ≡ true) (nib3 op == 0x08) refl refl;
}

ok_b1 : RowOk 0xB1 (sub sub_b1)
unfolding refine sub_b1 holds length_of
ok_b1 = record {
  word = λ op w n.
      let q : Option CtrlWord → Type 0 = λ o. holds (fits 0xB1 (nib2 op) (nib3 op)) o ≡ true in
      if_keeps q (nib3 op == 0x00) refl
        (if_keeps q (nib3 op == 0x07) refl (if_keeps q (nib3 op == 0x0A) refl refl));
}

ok_7b : RowOk 0x7B (sub sub_7b)
unfolding refine sub_7b holds length_of
ok_7b = record {
  word = λ op w n.
      let q : Option CtrlWord → Type 0 = λ o. holds (fits 0x7B (nib2 op) (nib3 op)) o ≡ true in
      let low = bit_and op 0xFF in
      if_keeps q ((nib3 op == 0x0D) && not (nib2 op == 0)) refl (
        if_keeps q (low == 0x00) refl (
          if_keeps q (low == 0x08) refl
            (if_keeps q (low == 0x09) refl (if_keeps q (low == 0x0A) refl refl))));
}

rows_diei : all_below 8 (λ i. fits 0x7C 0 0 (tbl_diei i)) ≡ true
unfolding all_below length_of
rows_diei = refl

ok_7c : RowOk 0x7C (sub sub_7c)
unfolding refine sub_7c holds length_of
ok_7c = record {
  word = λ op w n.
      all_below_sound (λ i. fits 0x7C 0 0 (tbl_diei i)) 8 (bit_and op 0x07)
        (omega (arith, bit_and_mask 3 op)) rows_diei;
}

ok_7d : RowOk 0x7D (sub sub_7d)
unfolding refine sub_7d holds length_of
ok_7d = record { word = λ op w n. refl }

-- A test of the lowest nibble that holds fixes it.
fixed :
    (hi n2 l k : ℕ) (b : Bool) (c : CtrlWord)
    → ((l == k) && b) ≡ true
    → fits hi n2 k c ≡ true
    → fits hi n2 l c ≡ true
fixed hi n2 l k b c e h =
    subst (λ l. fits hi n2 l c ≡ true) (sym ((==_iff l k).0 (and_left (l == k) b e))) h

only :
    (hi n2 l k : ℕ) (c : CtrlWord) → (l == k) ≡ true → fits hi n2 k c ≡ true → fits hi n2 l c ≡ true
only hi n2 l k c e h = subst (λ l. fits hi n2 l c ≡ true) (sym ((==_iff l k).0 e)) h

ok_1c : RowOk 0x1C (sub sub_1c)
unfolding refine sub_1c holds length_of
ok_1c = record {
  word = λ op w n.
      let l = nib3 op in
      let n2 = nib2 op in
      let q : Option CtrlWord → Type 0 = λ o. holds (fits 0x1C n2 l) o ≡ true in
      if_cases q ((l == 0x01) && leb 1 n)
        (λ e.
          fixed 0x1C n2 l 0x01 (leb 1 n) (ldm_word SrcSel.src_ir RegSel.nib3_sel false 2) e refl)
        (λ _.
          if_cases q ((l == 0x09) && leb 1 n)
            (λ e.
              fixed 0x1C n2 l 0x09 (leb 1 n) (ldm_word SrcSel.src_ir RegSel.nib3_sel true 2) e refl)
            (λ _.
              if_cases q (l == 0x08) (λ e. only 0x1C n2 l 0x08 test_long_ir e refl) (λ _. refl)));
}

fits_test_long_addr : (n2 : ℕ) (b : Bool) → fits 0x5C n2 0x08 (test_long_addr b) ≡ true
unfolding length_of
fits_test_long_addr n2 true = refl
fits_test_long_addr n2 false = refl

fits_ldm_addr :
    (n2 : ℕ) (b s : Bool)
    → (fits 0x5C n2 0x01 (ldm_addr b s) ≡ true) × (fits 0x5C n2 0x09 (ldm_addr b s) ≡ true)
unfolding length_of
fits_ldm_addr n2 true s = (refl, refl)
fits_ldm_addr n2 false s = (refl, refl)

ok_5c : RowOk 0x5C (sub sub_5c)
unfolding refine sub_5c holds length_of
ok_5c = record {
  word = λ op w n.
      let l = nib3 op in
      let n2 = nib2 op in
      let p = n2 == 0 in
      let q : Option CtrlWord → Type 0 = λ o. holds (fits 0x5C n2 l) o ≡ true in
      if_cases q ((l == 0x08) && leb 1 n)
        (λ e. fixed 0x5C n2 l 0x08 (leb 1 n) (test_long_addr p) e (fits_test_long_addr n2 p))
        (λ _.
          if_cases q ((l == 0x01) && leb 2 n)
            (λ e. fixed 0x5C n2 l 0x01 (leb 2 n) (ldm_addr p false) e (fits_ldm_addr n2 p false).0)
            (λ _.
              if_cases q ((l == 0x09) && leb 2 n)
                (λ e.
                  fixed 0x5C n2 l 0x09 (leb 2 n) (ldm_addr p true) e (fits_ldm_addr n2 p true).1)
                (λ _. refl)));
}

rom_sub-AllOk : AllOk rom_sub
unfolding AllOk
rom_sub-AllOk = (
  ok_8c,
  (
    ok_8d,
    (
      ok_9c,
      (
        ok_ba,
        (
          ok_bb,
          (
            ok_3a,
            (
              ok_3b,
              (
                ok_1c,
                (
                  ok_0c,
                  (
                    ok_0d,
                    (
                      ok_4c,
                      (
                        ok_4d,
                        (ok_5c, (ok_7b, (ok_7c, (ok_7d, (ok_b1, (ok_b2, (ok_b3, (ok_b8, tt)))))))),
                      ),
                    ),
                  ),
                ),
              ),
            ),
          ),
        ),
      ),
    ),
  ),
)

rom-AllOk : AllOk rom
unfolding rom
rom-AllOk = append-AllOk rom_plain rom_sub rom_plain-AllOk rom_sub-AllOk

-- What a slot that is found says.
record Found (hi : ℕ) (o : Option Slot) : Type 0 where
  says : (op : ℕ) (w : ℕ → ℕ) (n : ℕ) → holds (fits hi (nib2 op) (nib3 op)) (look o op w n) ≡ true

if_valid-holds :
    (q : CtrlWord → Bool) (o : Option CtrlWord) → holds q o ≡ true → holds q (if_valid o) ≡ true
unfolding holds if_valid
if_valid-holds q none h = h
if_valid-holds q (some c) h = if_keeps (λ o. holds q o ≡ true) c.valid h refl

RowOk-Found : (hi : ℕ) (s : Slot) → RowOk hi s → Found hi (some s)
unfolding look
RowOk-Found hi s h = record {
  says = λ op w n. if_valid-holds (fits hi (nib2 op) (nib3 op)) (refine s op w n) (h.word op w n);
}

entry-Found : (hi : ℕ) (t : List (ℕ × Slot)) → AllOk t → Found hi (entry hi t)
unfolding entry AllOk look
entry-Found hi [] h = record { says = λ op w n. absent (fits hi (nib2 op) (nib3 op)) }
entry-Found hi (r ∷ rs) h =
    if_cases (Found hi) (hi == r.0)
      (λ e. subst (λ k. Found k (some r.1)) (sym ((==_iff hi r.0).0 e)) (RowOk-Found r.0 r.1 h.0))
      (λ _. entry-Found hi rs h.1)

decode_lookup-fits :
    (op : ℕ) (v : ℕ → ℕ) (n : ℕ) (c : CtrlWord)
    → decode_lookup op v n ≡ some c
    → fits (shr op 8) (nib2 op) (nib3 op) c ≡ true
unfolding decode_lookup holds
decode_lookup-fits op v n c e =
    subst (λ o. holds (fits (shr op 8) (nib2 op) (nib3 op)) o ≡ true) e
      ((entry-Found (shr op 8) rom rom-AllOk).says op v n)

-- The length that the emulator fetches in non-segmented mode is the `words` of the instruction that it
-- then decodes, for every opcode and whatever words follow; the one exception is an immediate operand
-- behind an address, in CP and LD to memory, which `words` does not count.
pub decode_length-words :
    (op : ℕ) (v : ℕ → ℕ) (n : ℕ) (c : CtrlWord)
    → decode_lookup op v n ≡ some c
    → decode_length op false ≡ c.words + behind c
unfolding decode_length
decode_length-words op v n c e = (==_iff (decode_length op false) (c.words + behind c)).0 (
    and_left (decode_length op false == c.words + behind c) _
      (and_left _ _ (decode_lookup-fits op v n c e)))

-- A decoded word changes flags under a mask of at most 13 bits, and toggles them in the low byte only.
pub decode_lookup-mask :
    (op : ℕ) (v : ℕ → ℕ) (n : ℕ) (c : CtrlWord)
    → decode_lookup op v n ≡ some c
    → (c.fcw_mask < 0x2000) × (is_toggle c.fcw_op ≡ true → c.fcw_mask < 0x100)
unfolding decode_length
decode_lookup-mask op v n c e =
    let all = decode_lookup-fits op v n c e in
    let wide =
      and_right (decode_length op false == c.words + behind c) (ltb c.fcw_mask 0x2000)
        (and_left _ (not (is_toggle c.fcw_op) || ltb c.fcw_mask 0x100) all) in
    let low = and_right _ (not (is_toggle c.fcw_op) || ltb c.fcw_mask 0x100) all in
    (ltb→lt c.fcw_mask 0x2000 wide, λ t. ground arith)
