-- ===== src/Engine/Block.antt =====
-- The block instructions of src/cpu.c: `exec_translate`, `exec_block_transfer`, `exec_block_compare`,
-- `exec_block_string` and `exec_block_io`, an element at each call. C leaves the order open in which the
-- operands of a comparison are read; here the left one comes first.
use commodore_900_emulator.Base.{
  ℕ, ◌+◌, ◌-◌, Bool, true, false, not, ◌&&◌, bit_or, or_if, if◌then◌else◌, u16, ◌==◌,
}
use commodore_900_emulator.Alu.{AluOp, Width, byte, word, long, alu_exec, f_z, f_pv}
use commodore_900_emulator.Cpu.{
  Cpu, CtrlWord, rb, rw16, nib1, nib2, nib3, addr_add, addr_from_reg, cond_true,
}
use commodore_900_emulator.Engine.State.{
  Exec, Run, pure, ◌>>=◌, ◌>>◌, skip, get_cpu, put_word, put_byte, put_flags, flag_if, repeat,
  add_to_addr_reg, privileged,
}
use commodore_900_emulator.Engine.Access.{mem_r8, mem_r16, mem_w8, mem_w16, port_in, port_out}
use commodore_900_emulator.Engine.System.{lane_in, lane_out}

-- The registers of a block instruction: `nib2` of the first word, and two fields of the second.
abbrev pub src_field : Cpu → ℕ
src_field c = nib2 (c.opcode 0)

abbrev pub dst_field : Cpu → ℕ
dst_field c = nib2 (c.opcode 1)

abbrev pub cnt_field : Cpu → ℕ
cnt_field c = nib1 (c.opcode 1)

-- `delta` as a word: the value of the enumeration `Width` is the size of the operand.
abbrev pub size_of : Width → ℕ
size_of byte = 1
size_of word = 2
size_of long = 4

abbrev pub delta : CtrlWord → ℕ
delta w = if w.block_decr then 0x10000 - size_of w.width else size_of w.width

-- `cnt = rw(c, r) - 1; ww(c, r, cnt);`
unfoldable pub count_down : ℕ → Exec ℕ
unfolding get_cpu put_word pure ◌>>=◌
count_down r = do cnt ← get_cpu (λ c. u16 (rw16 c r + 0xFFFF)); put_word r cnt; pure cnt

unfoldable pub repeat_if : Bool → Run
unfolding repeat pure
repeat_if b = if b then repeat else skip

unfoldable pub is_byte : Width → Bool
is_byte byte = true
is_byte _ = false

-- An element of a block, and its write.
unfoldable pub element : Width → ℕ → Exec ℕ
unfolding get_cpu mem_r8 mem_r16 is_byte ◌>>=◌
element w r = get_cpu (λ c. addr_from_reg c r) >>= λ a. if is_byte w then mem_r8 a else mem_r16 a

unfoldable pub put_element : Width → ℕ → ℕ → Run
unfolding get_cpu mem_w8 mem_w16 is_byte ◌>>=◌
put_element w r v =
    get_cpu (λ c. addr_from_reg c r) >>= λ a. if is_byte w then mem_w8 a v else mem_w16 a v

-- The translated byte goes back, or to RH1.
unfoldable pub translate_back : Bool → Bool → ℕ → ℕ → ℕ → ℕ → Run
unfolding put_element put_byte add_to_addr_reg count_down flag_if repeat_if pure ◌>>=◌
translate_back true rept dst cnt d v = do
  put_element byte dst v
  add_to_addr_reg dst d
  n ← count_down cnt
  if rept then skip else flag_if f_z (v == 0)
  repeat_if (rept && not (n == 0))
translate_back false rept dst cnt d v = do
  put_byte 1 v
  add_to_addr_reg dst d
  n ← count_down cnt
  flag_if f_z (v == 0)
  repeat_if (rept && not (n == 0) && (v == 0))

unfoldable pub exec_translate : CtrlWord → Run
unfolding get_cpu element mem_r8 translate_back ◌>>=◌
exec_translate w = do
  src ← get_cpu src_field
  dst ← get_cpu dst_field
  cnt ← get_cpu cnt_field
  idx ← element byte dst
  table ← get_cpu (λ c. addr_from_reg c src)
  v ← mem_r8 (addr_add table idx)
  translate_back w.io_write w.block_rept dst cnt (if w.block_decr then 0xFFFF else 1) v

unfoldable pub exec_block_transfer : CtrlWord → Run
unfolding get_cpu element put_element add_to_addr_reg count_down flag_if repeat_if ◌>>=◌
exec_block_transfer w = do
  src ← get_cpu src_field
  dst ← get_cpu dst_field
  cnt ← get_cpu cnt_field
  v ← element w.width src
  put_element w.width dst v
  add_to_addr_reg src (delta w)
  add_to_addr_reg dst (delta w)
  n ← count_down cnt
  flag_if f_pv (n == 0)
  repeat_if (w.block_rept && not (n == 0))

-- The width that a comparison is made at.
abbrev pub compare_width : Width → Width
compare_width byte = byte
compare_width _ = word

-- CP of two elements, its flags merged, and whether the condition of `opcode[1]` holds then.
unfoldable pub compared : CtrlWord → ℕ → ℕ → Exec Bool
unfolding get_cpu put_flags alu_exec cond_true pure ◌>>=◌
compared w a b = do
  put_flags (alu_exec AluOp.cp a b false (compare_width w.width))
  get_cpu (λ c. cond_true c (nib3 (c.opcode 1)))

-- Z says whether there was a match, PV whether the count has run out.
unfoldable pub finish_compare : CtrlWord → ℕ → Bool → Run
unfolding put_flags count_down repeat_if ◌>>=◌
finish_compare w cnt match = do
  n ← count_down cnt
  put_flags (record {
    value = 0;
    flags = or_if (n == 0) f_pv (or_if match f_z 0);
    mask = bit_or f_z f_pv;
  })
  repeat_if (w.block_rept && not (n == 0) && not match)

unfoldable pub exec_block_compare : CtrlWord → Run
unfolding get_cpu element compared add_to_addr_reg finish_compare ◌>>=◌
exec_block_compare w = do
  src ← get_cpu src_field
  cmp ← get_cpu dst_field
  cnt ← get_cpu cnt_field
  a ← get_cpu (λ c. if is_byte w.width then rb c cmp else rw16 c cmp)
  b ← element w.width src
  match ← compared w a b
  add_to_addr_reg src (delta w)
  finish_compare w cnt match

unfoldable pub exec_block_string : CtrlWord → Run
unfolding get_cpu element compared add_to_addr_reg finish_compare ◌>>=◌
exec_block_string w = do
  src ← get_cpu src_field
  dst ← get_cpu dst_field
  cnt ← get_cpu cnt_field
  a ← element w.width src
  b ← element w.width dst
  match ← compared w a b
  add_to_addr_reg src (delta w)
  add_to_addr_reg dst (delta w)
  finish_compare w cnt match

-- An element through a port, into the memory at `ma` or out of it.
unfoldable pub io_element : CtrlWord → ℕ → ℕ → Run
unfolding is_byte mem_r8 mem_r16 mem_w8 mem_w16 port_in port_out lane_in lane_out ◌>>=◌
io_element w port ma =
    if w.io_write
    then (if is_byte w.width
        then (mem_r8 ma >>= λ v. port_out port (lane_out w.io_spec v) w.io_spec)
        else (mem_r16 ma >>= λ v. port_out port v w.io_spec))
    else (port_in port w.io_spec >>= λ v.
        if is_byte w.width then mem_w8 ma (lane_in w.io_spec v) else mem_w16 ma v)

unfoldable pub block_io : CtrlWord → Run
unfolding get_cpu io_element add_to_addr_reg count_down flag_if repeat_if ◌>>=◌
block_io w = do
  first ← get_cpu src_field
  second ← get_cpu dst_field
  cnt ← get_cpu cnt_field
  let addr = if w.io_write then first else second
  port ← get_cpu (λ c. rw16 c (if w.io_write then second else first))
  ma ← get_cpu (λ c. addr_from_reg c addr)
  io_element w port ma
  add_to_addr_reg addr (delta w)
  n ← count_down cnt
  flag_if f_pv (n == 0)
  repeat_if (w.block_rept && not (n == 0))

unfoldable pub exec_block_io : CtrlWord → Run
unfolding block_io privileged
exec_block_io w = privileged (block_io w)
