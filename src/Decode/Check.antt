-- ===== src/Decode/Check.antt =====
-- The words of src/decode.c against the lengths that it computes by itself.
use commodore_900_emulator.Base.{
  ℕ, ◌+◌, ◌<◌, ◌≡◌, ◌≢◌, refl, sym, subst, arith, Bool, true, false, not, ◌&&◌, ◌||◌, ◌==◌, ==_iff,
  ltb, if◌then◌else◌, if_cases, bit_and, bit_and_mask, shr, List, [], ◌∷◌, ◌++◌, Option, none, some,
  all_below, all_below_sound,
}
use commodore_900_emulator.Cpu.{CtrlWord, SrcSel, FcwOpKind, nib2, nib3}
use commodore_900_emulator.Decode.Slot.{Slot, ctrl, nib2_fork, nib3_fork, sub, entry, spread}
use commodore_900_emulator.Decode.Length.{length_of}
use commodore_900_emulator.Decode.Lookup.{rom_plain, refine}

abbrev is_imm2 : SrcSel → Bool
is_imm2 SrcSel.src_imm2 = true
is_imm2 _ = false

abbrev pub is_toggle : FcwOpKind → Bool
is_toggle FcwOpKind.toggle_flags = true
is_toggle _ = false

-- One word more where the operand comes behind an address.
abbrev pub behind : CtrlWord → ℕ
behind c = if is_imm2 c.src2 || is_imm2 c.count then 1 else 0

-- What is checked of a word at the high byte `hi` and the nibbles `n2` and `l`.
abbrev pub fits : ℕ → ℕ → ℕ → CtrlWord → Bool
fits hi n2 l c =
    (length_of hi n2 l 1 == c.words + behind c)
    && ltb c.fcw_mask 0x2000
    && (not (is_toggle c.fcw_op) || ltb c.fcw_mask 0x100)

-- Every combination of the two low nibbles.
abbrev everywhere : (ℕ → ℕ → Bool) → Bool
everywhere p = all_below 16 (λ n2. all_below 16 (λ l. p n2 l))

-- A row of the table without a sub-decoder.
unfoldable row_fits : ℕ × Slot → Bool
unfolding all_below length_of
row_fits (hi, ctrl c) = everywhere (λ n2 l. fits hi n2 l c)
row_fits (hi, nib2_fork z nz) = everywhere (λ n2 l. fits hi n2 l (if n2 == 0 then z else nz))
row_fits (hi, nib3_fork z nz) = everywhere (λ n2 l. fits hi n2 l (if l == 0 then z else nz))
row_fits (hi, sub f) = false

unfoldable rows_fit : List (ℕ × Slot) → Bool
unfolding row_fits
rows_fit [] = true
rows_fit (r ∷ rs) = row_fits r && rows_fit rs

rom_plain-fits : rows_fit rom_plain ≡ true
unfolding rows_fit spread
rom_plain-fits = refl

-- A test of a word, if there is one.
unfoldable pub holds : (CtrlWord → Bool) → Option CtrlWord → Bool
holds q none = true
holds q (some c) = q c

-- What a row says of every instruction of its high byte.
pub record RowOk (hi : ℕ) (s : Slot) : Type 0 where
  pub word :
      (op : ℕ) (w : ℕ → ℕ) (n : ℕ) → holds (fits hi (nib2 op) (nib3 op)) (refine s op w n) ≡ true

unfoldable pub AllOk : List (ℕ × Slot) → Type 0
AllOk [] = Unit
AllOk (r ∷ rs) = RowOk r.0 r.1 × AllOk rs

pub and_left : (a b : Bool) → (a && b) ≡ true → a ≡ true
and_left a b e = ground arith

pub and_right : (a b : Bool) → (a && b) ≡ true → b ≡ true
and_right a b e = ground arith

pub nibble : (x : ℕ) → bit_and x 0x0F < 16
nibble x = omega (arith, bit_and_mask 4 x)

at_nibbles : (p : ℕ → ℕ → Bool) (op : ℕ) → everywhere p ≡ true → p (nib2 op) (nib3 op) ≡ true
at_nibbles p op h =
    all_below_sound (λ l. p (nib2 op) l) 16 (nib3 op) (nibble op)
      (all_below_sound (λ n2. all_below 16 (λ l. p n2 l)) 16 (nib2 op) (nibble (shr op 4)) h)

row_fits-RowOk : (hi : ℕ) (s : Slot) → row_fits (hi, s) ≡ true → RowOk hi s
unfolding row_fits refine holds
row_fits-RowOk hi (ctrl c) h = record { word = λ op w n. at_nibbles (λ n2 l. fits hi n2 l c) op h }
row_fits-RowOk hi (nib2_fork z nz) h = record {
  word = λ op w n. at_nibbles (λ n2 l. fits hi n2 l (if n2 == 0 then z else nz)) op h;
}
row_fits-RowOk hi (nib3_fork z nz) h = record {
  word = λ op w n. at_nibbles (λ n2 l. fits hi n2 l (if l == 0 then z else nz)) op h;
}
row_fits-RowOk hi (sub f) h = absurd (true≢false (sym h))
  where
    true≢false : true ≢ false
    true≢false e = cc

rows_fit-AllOk : (rs : List (ℕ × Slot)) → rows_fit rs ≡ true → AllOk rs
unfolding rows_fit AllOk
rows_fit-AllOk [] h = tt
rows_fit-AllOk (r ∷ rs) h = (
  row_fits-RowOk r.0 r.1 (and_left (row_fits r) (rows_fit rs) h),
  rows_fit-AllOk rs (and_right (row_fits r) (rows_fit rs) h),
)

pub append-AllOk : (rs ts : List (ℕ × Slot)) → AllOk rs → AllOk ts → AllOk (rs ++ ts)
unfolding AllOk
append-AllOk [] ts h k = k
append-AllOk (r ∷ rs) ts h k = (h.0, append-AllOk rs ts h.1 k)

pub rom_plain-AllOk : AllOk rom_plain
rom_plain-AllOk = rows_fit-AllOk rom_plain rom_plain-fits

-- A look-up finds what the check of the table has seen.
unfoldable pub all_rows {ℓ} : {A : Type ℓ} → (ℕ → A → Bool) → List (ℕ × A) → Bool
all_rows p [] = true
all_rows p (r ∷ rs) = p r.0 r.1 && all_rows p rs

pub entry-all {ℓ κ} :
    {A : Type ℓ} (P : Option A → Type κ) (p : ℕ → A → Bool) (i : ℕ) (t : List (ℕ × A))
    → P none
    → ((a : A) → p i a ≡ true → P (some a))
    → all_rows p t ≡ true
    → P (entry i t)
unfolding entry all_rows
entry-all P p i [] z s h = z
entry-all P p i (r ∷ rs) z s h =
    if_cases P (i == r.0)
      (λ e. s r.1 (
        subst (λ k. p k r.1 ≡ true) (sym ((==_iff i r.0).0 e))
          (and_left (p r.0 r.1) (all_rows p rs) h)))
      (λ _. entry-all P p i rs z s (and_right (p r.0 r.1) (all_rows p rs) h))
