-- ===== src/Bus/Scc.antt =====
-- The Z8030 serial chips of src/bus.c: the channels, their register file, the receivers and the
-- interrupt vectors.
use commodore_900_emulator.Base.{
  ℕ, ◌+◌, ◌-◌, ◌*◌, Bool, false, not, ◌&&◌, ◌||◌, bit_and, bit_or, has, ◌==◌, leb, ltb,
  if◌then◌else◌, u8, complement, shl, update, Option, none, some, List,
}

-- `SCCChan` of src/emu.h. `wr` has 16 entries.
pub record SccChan : Type 0 where
  pub wr : ℕ → ℕ
  pub ptr : ℕ
  pub rx_avail : Bool
  pub rx_data : ℕ
  pub rx_overrun : Bool
  pub rx_lost : ℕ

-- The calls of `console_put_char` and of `wire_put_char_n`, with the port.
pub data Sent : Type 0 where
  console_put : ℕ → Sent
  wire_put : ℕ → ℕ → Sent

-- The texts of `stop_why`.
pub data StopWhy : Type 0 where
  printed_stop_mark : StopWhy
  rang_doorbell : StopWhy
  guest_parked : StopWhy
  budget_exhausted : StopWhy
  input_consumed : StopWhy
  quit_key : StopWhy
  guest_halted : StopWhy
  breakpoint : StopWhy

-- The fields of `Machine` of src/emu.h that the serial chips read and write, `insns` being
-- `cpu.insns`. A string is its characters, with a zero after the last; `sent` holds the calls of
-- the output routines, the latest first.
pub record Serial : Type 0 where
  pub scc_b : SccChan
  pub scc_a : SccChan
  pub lr_scc_chan : ℕ → SccChan
  pub lr_scc : Bool
  pub wire_port_on : ℕ → Bool
  pub rx_overrun_on : Bool
  pub insns : ℕ
  pub last_tx_insn : ℕ
  pub shell_up : Bool
  pub prompt_seq : ℕ
  pub inq_mark : Option (ℕ → ℕ)
  pub inq_mark_pos : ℕ
  pub inq_mark_seen : Bool
  pub rx_poll_streak : ℕ
  pub guest_polls : Bool
  pub at_prompt : Bool
  pub stop_mark : Option (ℕ → ℕ)
  pub stop_mark_pos : ℕ → ℕ
  pub stop : Bool
  pub stop_why : Option StopWhy
  pub sent : List Sent

-- Whether the channel of a port number answers: `scc_port` returns no `NULL`.
unfoldable pub port_fitted : Serial → ℕ → Bool
port_fitted m port = leb port 1 || (ltb port 6 && m.lr_scc)

-- The channel that `scc_port` points to, and a store through that pointer.
unfoldable pub port_chan : Serial → ℕ → SccChan
port_chan m port =
    if port == 0 then m.scc_b else if port == 1 then m.scc_a else m.lr_scc_chan (port - 2)

unfoldable pub scc_port : Serial → ℕ → Option SccChan
unfolding port_fitted port_chan
scc_port m port = if port_fitted m port then some (port_chan m port) else none

unfoldable pub put_port : ℕ → SccChan → Serial → Serial
put_port port ch m =
    if port == 0
    then record m { scc_b = ch }
    else if port == 1
    then record m { scc_a = ch }
    else record m { lr_scc_chan = update m.lr_scc_chan (port - 2) ch }

unfoldable pub scc_chan_of : Serial → ℕ → ℕ → Option SccChan
unfolding scc_port
scc_chan_of m chip chan = scc_port m (chip * 2 + chan)

unfoldable pub scc_rx_int : SccChan → Bool
scc_rx_int ch =
    if not (has (ch.wr 9) 0x08)
    then false
    else if not ch.rx_avail
    then false
    else has (ch.wr 1) 0x18

unfoldable pub vector_in : SccChan → ℕ → ℕ
vector_in b src =
    if has (b.wr 9) 0x10
    then u8 (bit_or (bit_and (b.wr 2) (complement 32 0x70)) (shl src 4))
    else u8 (bit_or (bit_and (b.wr 2) (complement 32 0x0E)) (shl src 1))

unfoldable pub scc_vector_chip : Serial → ℕ → ℕ → ℕ
unfolding scc_chan_of vector_in
scc_vector_chip m chip src = go (scc_chan_of m chip 0)
  where
    go : Option SccChan → ℕ
    go none = 0
    go (some b) = vector_in b src

-- Both channels of a chip, in the order A, B, or `other` when one is not there.
unfoldable pub with_chip {ℓ} : {A : Type ℓ} → A → (SccChan → SccChan → A) → Serial → ℕ → A
unfolding scc_chan_of
with_chip {A = A} other f m chip = go (scc_chan_of m chip 1) (scc_chan_of m chip 0)
  where
    go : Option SccChan → Option SccChan → A
    go none b = other
    go (some a) none = other
    go (some a) (some b) = f a b

unfoldable pub scc_vector_of : Serial → ℕ → ℕ
unfolding with_chip scc_rx_int scc_vector_chip
scc_vector_of m chip =
    with_chip 0
      (λ a b.
        if scc_rx_int a
        then scc_vector_chip m chip 0x06
        else if scc_rx_int b
        then scc_vector_chip m chip 0x02
        else b.wr 2)
      m chip

unfoldable pub scc_rr3_of : Serial → ℕ → ℕ
unfolding with_chip scc_rx_int
scc_rr3_of m chip =
    with_chip 0
      (λ a b. u8 (bit_or (if scc_rx_int a then 0x20 else 0) (if scc_rx_int b then 0x04 else 0))) m
      chip

unfoldable pub lr_scc_vi : Serial → Option ℕ
unfolding with_chip scc_rx_int scc_vector_chip
lr_scc_vi m = with_chip (chip2 m) (first 1 (chip2 m)) m 1
  where
    first : ℕ → Option ℕ → SccChan → SccChan → Option ℕ
    first chip rest a b =
        if scc_rx_int a
        then some (scc_vector_chip m chip 0x06)
        else if scc_rx_int b
        then some (scc_vector_chip m chip 0x02)
        else rest

    chip2 : Serial → Option ℕ
    chip2 m = with_chip none (first 2 none) m 2

-- `none` for -1.
unfoldable pub scc_chip_at : Serial → ℕ → Option ℕ
scc_chip_at m port =
    if bit_and port 0xFF80 == 0x0100
    then some 0
    else if not m.lr_scc
    then none
    else if bit_and port 0xFF80 == 0x0300
    then some 1
    else if bit_and port 0xFF80 == 0x0380
    then some 2
    else none
