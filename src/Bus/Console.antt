-- ===== src/Bus/Console.antt =====
-- Register reads and writes of the serial chips of src/bus.c, and their receivers.
use commodore_900_emulator.Base.{
  ℕ, ◌+◌, ◌*◌, Bool, true, false, not, ◌&&◌, ◌||◌, bit_and, bit_or, bit_xor, ◌==◌, leb, ltb,
  if◌then◌else◌, u8, u32, u64, shr, update, Option, none, some, ◌∷◌, for_loop,
}
use commodore_900_emulator.Bus.Mark.{mark_advance}
use commodore_900_emulator.Bus.Scc.{
  SccChan, Serial, console_put, wire_put, printed_stop_mark, scc_port, put_port, scc_chan_of,
  scc_vector_of, scc_rr3_of,
}

-- `ch->ptr ? ch->ptr : (addrReg & 0x0F)`
unfoldable pub reg_of : SccChan → ℕ → ℕ
reg_of ch addr_reg = if ch.ptr == 0 then bit_and addr_reg 0x0F else ch.ptr

abbrev pub is_console : ℕ → ℕ → Bool
is_console chip chan = (chip == 0) && (chan == 0)

-- RR0: a run of console polls that find the receiver empty is counted.
unfoldable pub count_poll : Serial → Serial
count_poll m =
    let streak = u32 (m.rx_poll_streak + 1) in
    record m {
      rx_poll_streak = streak;
      guest_polls = if leb 64 streak then true else m.guest_polls;
    }

-- The access to register `r` of channel `ch`, whose pointer is reset already in `m`.
unfoldable pub read_reg : Serial → ℕ → ℕ → ℕ → SccChan → Serial × ℕ
unfolding put_port count_poll scc_vector_of scc_rr3_of
read_reg m chip chan r ch =
    let console = is_console chip chan in
    if r == 0
    then (
      if console && not ch.rx_avail then count_poll m else m,
      if ch.rx_avail then 0x6D else 0x6C,
    )
    else if r == 8
    then (
      let m1 = put_port (chip * 2 + chan) (record ch { rx_avail = false }) m in
          if console then record m1 { rx_poll_streak = 0; last_tx_insn = m1.insns } else m1,
      ch.rx_data,
    )
    else if r == 1
    then (m, if ch.rx_overrun then 0x21 else 0x01)
    else if r == 2
    then (m, if chan == 0 then scc_vector_of m chip else ch.wr 2)
    else if r == 3
    then (m, if chan == 1 then scc_rr3_of m chip else 0)
    else (m, ch.wr (bit_and r 0x0F))

-- The read at the channel that `scc_chan_of` found.
unfoldable pub read_at : Serial → ℕ → ℕ → ℕ → Option SccChan → Serial × ℕ
unfolding put_port read_reg reg_of
read_at m chip chan addr_reg none = (m, 0)
read_at m chip chan addr_reg (some ch) =
    let ch1 = record ch { ptr = 0 } in
    read_reg (put_port (chip * 2 + chan) ch1 m) chip chan (reg_of ch addr_reg) ch1

unfoldable pub scc_read : Serial → ℕ → ℕ → ℕ → Serial × ℕ
unfolding scc_chan_of read_at
scc_read m chip chan addr_reg = read_at m chip chan addr_reg (scc_chan_of m chip chan)

unfoldable pub stop_mark_watch : Serial → ℕ → ℕ → Serial
unfolding mark_advance
stop_mark_watch m port v = go m.stop_mark
  where
    go : Option (ℕ → ℕ) → Serial
    go none = m
    go (some mark) =
        let pos = mark_advance mark (m.stop_mark_pos port) v in
        let m1 = record m { stop_mark_pos = update m.stop_mark_pos port pos } in
        if mark pos == 0 then record m1 { stop = true; stop_why = some printed_stop_mark } else m1

-- `--input-mark`: the text that releases the type-ahead bytes.
unfoldable pub input_mark_watch : Serial → ℕ → Serial
unfolding mark_advance
input_mark_watch m v = go m.inq_mark
  where
    go : Option (ℕ → ℕ) → Serial
    go none = m
    go (some mark) =
        if m.inq_mark_seen
        then m
        else (let pos = mark_advance mark m.inq_mark_pos v in
            record m {
              inq_mark_pos = pos;
              inq_mark_seen = if mark pos == 0 then true else m.inq_mark_seen;
            })

-- `'#'` or `'>'`, well after the power-on tests, is a prompt.
unfoldable pub prompt_watch : Serial → ℕ → Serial
prompt_watch m v =
    if ((v == 35) || (v == 62)) && ltb 1000000 m.insns
    then record m { shell_up = true; prompt_seq = u32 (m.prompt_seq + 1); at_prompt = true }
    else record m { at_prompt = false }

-- WR8: a character is sent.
unfoldable pub transmit : Serial → Bool → ℕ → ℕ → Serial
unfolding stop_mark_watch input_mark_watch prompt_watch
transmit m console port v =
    if console
    then (let m1 = record m {
      sent = console_put v ∷ m.sent;
      last_tx_insn = m.insns;
      rx_poll_streak = 0;
    } in
        prompt_watch (stop_mark_watch (input_mark_watch m1 v) port v) v)
    else (let m1 =
          if m.wire_port_on port then record m { sent = wire_put port v ∷ m.sent } else m in
        stop_mark_watch m1 port v)

-- WR0: the register pointer, with Point High, and Error Reset.
unfoldable pub command : SccChan → ℕ → SccChan
command ch v =
    let ptr = bit_and v 0x07 in
    let cmd = bit_and (shr v 3) 0x07 in
    record ch {
      ptr = if cmd == 1 then bit_or ptr 0x08 else ptr;
      rx_overrun = if cmd == 6 then false else ch.rx_overrun;
    }

-- `ch->wr[r] = v`
abbrev pub set_wr : ℕ → ℕ → SccChan → SccChan
set_wr r v ch = record ch { wr = update ch.wr r v }

-- WR2 and WR9 are one register of both channels of a chip.
unfoldable pub share_with : Serial → ℕ → ℕ → ℕ → Option SccChan → Serial
unfolding put_port
share_with m port r v none = m
share_with m port r v (some o) = put_port port (set_wr r v o) m

unfoldable pub share_reg : Serial → ℕ → ℕ → ℕ → ℕ → Serial
unfolding scc_chan_of share_with
share_reg m chip chan r v =
    let other = bit_xor chan 1 in
    if (r == 2) || (r == 9)
    then share_with m (chip * 2 + other) r v (scc_chan_of m chip other)
    else m

-- The write at the channel that `scc_chan_of` found.
unfoldable pub write_at : Serial → ℕ → ℕ → ℕ → ℕ → Option SccChan → Serial
unfolding put_port reg_of command transmit share_reg
write_at m chip chan addr_reg v none = m
write_at m chip chan addr_reg v (some ch) =
    let r = reg_of ch addr_reg in
    let port = chip * 2 + chan in
    let ch1 = record ch { ptr = 0 } in
    if r == 0
    then put_port port (command ch1 v) m
    else if r == 8
    then transmit (put_port port ch1 m) (is_console chip chan) port v
    else share_reg (put_port port (set_wr r v ch1) m) chip chan r v

unfoldable pub scc_write : Serial → ℕ → ℕ → ℕ → ℕ → Serial
unfolding scc_chan_of write_at
scc_write m chip chan addr_reg v = write_at m chip chan addr_reg v (scc_chan_of m chip chan)

unfoldable pub scc_rx_deliver : Serial → SccChan → ℕ → SccChan
scc_rx_deliver m ch b =
    let ch1 =
      if ch.rx_avail && m.rx_overrun_on
      then record ch { rx_overrun = true; rx_lost = u64 (ch.rx_lost + 1) }
      else ch in
    record ch1 { rx_data = b; rx_avail = true }

unfoldable pub scc_rx_port : Serial → ℕ → ℕ → Serial
unfolding scc_port put_port scc_rx_deliver
scc_rx_port m port b = go (scc_port m port)
  where
    go : Option SccChan → Serial
    go none = m
    go (some ch) = put_port port (scc_rx_deliver m ch b) m

-- The gate, and the offer of the byte `wb` of the host endpoint, `none` for a negative one.
unfoldable pub offer : Serial → ℕ → Option SccChan → Option ℕ → Serial
unfolding put_port scc_rx_deliver
offer m port none wb = m
offer m port (some ch) none = m
offer m port (some ch) (some wb) =
    if ch.rx_avail && not m.rx_overrun_on then m else put_port port (scc_rx_deliver m ch (u8 wb)) m

-- One round of the loop. `poll` is what the host endpoint of a port has.
unfoldable pub service_port : (ℕ → Option ℕ) → ℕ → Serial → Serial
unfolding scc_port offer
service_port poll port m =
    if m.wire_port_on port then offer m port (scc_port m port) (poll port) else m

unfoldable pub scc_wire_service : (ℕ → Option ℕ) → Serial → Serial
unfolding for_loop service_port
scc_wire_service poll m = for_loop 5 (λ i. service_port poll (i + 1)) m
