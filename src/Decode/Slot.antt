-- ===== src/Decode/Slot.antt =====
-- The control word that src/decode.c starts from, a slot of its table, and look-ups in tables.
use commodore_900_emulator.Base.{
  ℕ, zero, suc, ◌+◌, true, false, ◌==◌, if◌then◌else◌, List, [], ◌∷◌, Option, none, some,
}
use commodore_900_emulator.Alu.{AluOp, Width}
use commodore_900_emulator.Cpu.{
  CtrlWord, InstrClass, BranchMode, FcwOpKind, StackMode, SrcSel, DstSel, RegSel, MpOpKind,
}

-- `cw`: every field zero, but for three.
abbrev pub cw : CtrlWord
cw = record {
  exec = InstrClass.unified;
  alu_op = AluOp.add;
  width = Width.word;
  words = 1;
  priv = false;
  src2 = SrcSel.src_none;
  dst = DstSel.dst_reg;
  count = SrcSel.src_none;
  src1_nib = RegSel.nib3_sel;
  src2_nib = RegSel.nib3_sel;
  dst_nib = RegSel.nib3_sel;
  fcw_op = FcwOpKind.set_flags;
  fcw_mask = 0;
  stk_mode = StackMode.push;
  br_mode = BranchMode.jp_da;
  io_write = false;
  io_spec = false;
  block_decr = false;
  block_rept = false;
  mp_op = MpOpKind.mp_bit;
  valid = true;
}

abbrev pub mk_reg : AluOp → Width → CtrlWord
mk_reg op w = record cw {
  exec = InstrClass.unified;
  alu_op = op;
  width = w;
  words = 1;
  src1_nib = RegSel.nib3_sel;
  src2 = SrcSel.src_reg;
  src2_nib = RegSel.nib2_sel;
  dst = target op;
  dst_nib = RegSel.nib3_sel;
}
  where
    target : AluOp → DstSel
    target AluOp.cp = DstSel.dst_none
    target _ = DstSel.dst_reg

-- A sub-decoder gets the first word, the words after it, and how many there are.
abbrev pub SubFn : Type 0
SubFn = ℕ → (ℕ → ℕ) → ℕ → Option CtrlWord

-- `RomEntry`, with the two forks on a nibble told apart from the other sub-decoders.
pub data Slot : Type 0 where
  ctrl : CtrlWord → Slot
  nib2_fork : CtrlWord → CtrlWord → Slot
  nib3_fork : CtrlWord → CtrlWord → Slot
  sub : SubFn → Slot

-- The entry of an index, which a table has at most once.
unfoldable pub entry {ℓ} : {A : Type ℓ} → ℕ → List (ℕ × A) → Option A
entry i [] = none
entry i (r ∷ rs) = let rest = entry i rs in if i == r.0 then some r.1 else rest

-- The same slot for `n` high bytes from `hi` on.
unfoldable pub spread : ℕ → ℕ → Slot → List (ℕ × Slot)
spread hi zero s = []
spread hi (suc n) s = (hi, s) ∷ spread (hi + 1) n s
