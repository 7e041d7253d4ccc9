-- ===== src/Cpu/Control.antt =====
-- The decoded instruction of src/emu.h: the choices of its fields, and the fields.
use commodore_900_emulator.Base.{ℕ, Bool}
use commodore_900_emulator.Alu.{AluOp, Width}

pub data InstrClass : Type 0 where
  unified : InstrClass
  fcw_op : InstrClass
  exts : InstrClass
  stack : InstrClass
  branch : InstrClass
  tcc : InstrClass
  dab : InstrClass
  exchange : InstrClass
  bcd_rotate : InstrClass
  bit_dynamic : InstrClass
  lea : InstrClass
  io : InstrClass
  ldctl : InstrClass
  shift : InstrClass
  block_transfer : InstrClass
  block_compare : InstrClass
  block_string : InstrClass
  block_io : InstrClass
  ldm : InstrClass
  multi_proc : InstrClass
  mul : InstrClass
  div : InstrClass
  ldps : InstrClass
  halt : InstrClass
  sys_call : InstrClass
  iret : InstrClass
  translate : InstrClass

pub data BranchMode : Type 0 where
  jp_da : BranchMode
  jp_x : BranchMode
  jp_ir : BranchMode
  jr : BranchMode
  call_da : BranchMode
  call_x : BranchMode
  call_ir : BranchMode
  calr : BranchMode
  calr12 : BranchMode
  ret : BranchMode
  djnz : BranchMode

pub data FcwOpKind : Type 0 where
  set_flags : FcwOpKind
  clear_flags : FcwOpKind
  toggle_flags : FcwOpKind
  load_lo : FcwOpKind
  store_lo : FcwOpKind

pub data StackMode : Type 0 where
  push : StackMode
  pop : StackMode
  push_l : StackMode
  pop_l : StackMode
  push_src : StackMode
  pop_dst : StackMode
  push_l_src : StackMode
  pop_l_dst : StackMode
  push_imm : StackMode

pub data SrcSel : Type 0 where
  src_none : SrcSel
  src_reg : SrcSel
  src_imm : SrcSel
  src_ir : SrcSel
  src_da : SrcSel
  src_x : SrcSel
  src_one : SrcSel
  src_two : SrcSel
  src_nib3_cnt : SrcSel
  src_zero : SrcSel
  src_imm2 : SrcSel
  src_pc_rel : SrcSel
  src_based : SrcSel
  src_bx : SrcSel
  src_nib3_bit : SrcSel
  src_nib3_cnt_plus1 : SrcSel
  src_op_lo_byte : SrcSel

pub data DstSel : Type 0 where
  dst_reg : DstSel
  dst_none : DstSel
  dst_flags_only : DstSel
  dst_ir : DstSel
  dst_da : DstSel
  dst_x : DstSel
  dst_pc_rel : DstSel
  dst_based : DstSel
  dst_bx : DstSel

pub data RegSel : Type 0 where
  nib3_sel : RegSel
  nib2_sel : RegSel
  nib1_sel : RegSel

pub data MpOpKind : Type 0 where
  mp_bit : MpOpKind
  mp_res : MpOpKind
  mp_set : MpOpKind
  mp_req : MpOpKind

-- `CtrlWord`, without the name for traces.
pub record CtrlWord : Type 0 where
  pub exec : InstrClass
  pub alu_op : AluOp
  pub width : Width
  pub words : ℕ
  pub priv : Bool
  pub src2 : SrcSel
  pub dst : DstSel
  pub count : SrcSel
  pub src1_nib : RegSel
  pub src2_nib : RegSel
  pub dst_nib : RegSel
  pub fcw_op : FcwOpKind
  pub fcw_mask : ℕ
  pub stk_mode : StackMode
  pub br_mode : BranchMode
  pub io_write : Bool
  pub io_spec : Bool
  pub block_decr : Bool
  pub block_rept : Bool
  pub mp_op : MpOpKind
  pub valid : Bool
