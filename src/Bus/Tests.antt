-- ===== src/Bus/Tests.antt =====
-- Runs of the bus, and its theorems at concrete inputs.
use commodore_900_emulator.Base.{
  ltb, ℕ, suc, zero, ◌≡◌, ◌≢◌, ◌<◌, ◌≤◌, ◌↔◌, refl, arith, true, false, ◌==◌, if◌then◌else◌, ◌&&◌,
  ◌%◌, none, Option, [],
}
use commodore_900_emulator.Bus.Memory.{
  Memory, phys_read8, phys_read16, phys_write8, phys_write16, join_bytes,
}
use commodore_900_emulator.Bus.Decode.{
  is_writable, read8-write8, read16-bytes, write16-bytes, read16-write16,
}
use commodore_900_emulator.Bus.Mark.{position}
use commodore_900_emulator.Bus.Search.{
  IsTail, IsLongest, IsText, position-IsLongest, position-finds,
}
use commodore_900_emulator.Bus.Scc.{SccChan, Serial, port_chan, port_fitted}
use commodore_900_emulator.Bus.Console.{scc_read, scc_write, scc_wire_service}
use commodore_900_emulator.Bus.Registers.{scc_read-scc_write}
use commodore_900_emulator.Bus.Receive.{IsLossless, scc_wire_service-IsLossless}
use commodore_900_emulator.Mmu.{Mmu}
use commodore_900_emulator.Rtc.{Rtc}
use commodore_900_emulator.Bus.Park.{Guest, park_init, park_step}
use commodore_900_emulator.Bus.Parked.{park_after, park_step-ends, Looked, park_step-Looked}
use commodore_900_emulator.Bus.Io.{Board, io_read, io_write}
use commodore_900_emulator.Bus.Dispatch.{io_read-io_write}

abbrev pub board : Memory
board = record { rom = λ a. a % 256; ram = λ _. 0; flat_mem = false; flat_maxseg = 0 }

-- The ROM keeps what it holds.
rom_keeps : phys_read8 (phys_write8 board 0x0012 0xAA) 0x0012 ≡ 0x12
unfolding phys_read8 phys_write8
rom_keeps = refl

read8-write8_example : phys_read8 (phys_write8 board 0x080000 0x5A) 0x080001 ≡ (
    if is_writable board 0x080000 && (0x080001 == 0x080000)
    then 0x5A
    else phys_read8 board 0x080001)
read8-write8_example = read8-write8 board 0x080000 0x080001 0x5A

read16-bytes_example :
    phys_read16 board 0x7FFE ≡ join_bytes (phys_read8 board 0x7FFE) (phys_read8 board 0x7FFF)
read16-bytes_example = read16-bytes board 0x7FFE refl

write16-bytes_example :
    phys_write16 board 0x17FFFE 0x1234 ≡ phys_write8 (phys_write8 board 0x17FFFE 0x12) 0x17FFFF 0x34
write16-bytes_example = write16-bytes board 0x17FFFE 0x1234 refl

dram_writable : is_writable board 0x080000 ≡ true
unfolding is_writable
dram_writable = refl

read16-write16_example : phys_read16 (phys_write16 board 0x080000 0x1234) 0x080000 ≡ 0x1234
read16-write16_example = read16-write16 board 0x080000 0x1234 refl dram_writable (omega arith)

-- The mark "aab" and the output "aaab".
abbrev aab : ℕ → ℕ
aab i = if i == 0 then 97 else if i == 1 then 97 else if i == 2 then 98 else 0

abbrev aaab : ℕ → ℕ
aaab i = if i == 3 then 98 else 97

found : position aab aaab 4 ≡ 3
unfolding position
found = refl

aab-text : (i : ℕ) → i < 3 → aab i ≢ 0
aab-text zero lt e = absurd (omega arith)
aab-text (suc zero) lt e = absurd (omega arith)
aab-text (suc (suc zero)) lt e = absurd (omega arith)
aab-text (suc (suc (suc i))) lt e = absurd (omega arith)

aaab-chars : (i : ℕ) → i < 4 → aaab i ≢ 0
aaab-chars i lt e = absurd (ground (arith, e))

aab-IsText : IsText aab 3
aab-IsText = record { ends = refl; chars = aab-text }

position-IsLongest_example : IsLongest aab aaab 4 (position aab aaab 4) × (position aab aaab 4 ≤ 3)
position-IsLongest_example = position-IsLongest aab aaab 4 3 aab-IsText aaab-chars

position-finds_example : (aab (position aab aaab 4) ≡ 0) ↔ IsTail aab aaab 4 3
position-finds_example = position-finds aab aaab 4 3 refl aab-text aaab-chars

abbrev quiet : SccChan
quiet = record {
  wr = λ _. 0;
  ptr = 0;
  rx_avail = false;
  rx_data = 0;
  rx_overrun = false;
  rx_lost = 0;
}

abbrev serial : Serial
serial = record {
  scc_b = quiet;
  scc_a = record quiet { rx_avail = true };
  lr_scc_chan = λ _. quiet;
  lr_scc = true;
  wire_port_on = λ _. true;
  rx_overrun_on = false;
  insns = 0;
  last_tx_insn = 0;
  shell_up = false;
  prompt_seq = 0;
  inq_mark = none;
  inq_mark_pos = 0;
  inq_mark_seen = false;
  rx_poll_streak = 0;
  guest_polls = false;
  at_prompt = false;
  stop_mark = none;
  stop_mark_pos = λ _. 0;
  stop = false;
  stop_why = none;
  sent = [];
}

serial-fitted : port_fitted serial 3 ≡ true
unfolding port_fitted
serial-fitted = refl

serial-ptr : (port_chan serial 3).ptr ≡ 0
unfolding port_chan
serial-ptr = refl

scc_read-scc_write_example :
    (scc_read (scc_write (scc_write (scc_write serial 1 1 0 12) 1 1 5 0x77) 1 1 0 12) 1 1 9).1
    ≡ 0x77
scc_read-scc_write_example =
    scc_read-scc_write serial 1 1 5 9 12 0x77 (omega arith) (omega arith) (omega arith)
      (λ e. absurd (omega arith)) serial-fitted serial-ptr

scc_wire_service-IsLossless_example :
    IsLossless serial (scc_wire_service (λ p. Option.some p) serial)
scc_wire_service-IsLossless_example = scc_wire_service-IsLossless (λ p. Option.some p) serial refl

-- A guest that halts at 0x0100 with nothing moving.
abbrev parked_guest : Guest
parked_guest = record {
  halted = true;
  regs = λ _. 0;
  pc = 0x0100;
  fcw = 0xC000;
  last_tx_insn = 0;
  inq_pos = 0;
  prompt_seq = 0;
}

park_step-ends_example : (park_step (park_after 3 parked_guest 3) parked_guest).1 ≡ ltb 3 4
park_step-ends_example = park_step-ends 3 parked_guest 3 refl (omega arith)

init_awake : (park_init 3).was_halted ≡ false
unfolding park_init
init_awake = refl

park_step-Looked_example :
    Looked
      (park_init 3)
      parked_guest
      (park_step (park_init 3) parked_guest).0
      (park_step (park_init 3) parked_guest).1
park_step-Looked_example = park_step-Looked (park_init 3) parked_guest refl init_awake

abbrev unit : Mmu
unit = record {
  desc = λ _. record { base = 0; limit = 0; attr = 0 };
  mode = 0x80;
  sar = 0;
  dsc = 0;
  viol_type = 0;
  viol_sn = 0;
  viol_off = 0;
  bcsr = 0;
  isn = 0;
  ioff = 0;
  viol_captured = false;
  segt = false;
  warn_pending = false;
  fast_base = λ _. 0;
  fast_ok = λ _. false;
}

abbrev no_clock : Rtc
no_clock = record {
  present = false;
  regs = λ _. 0;
  addr = 0;
  stopped = false;
  prev_pb = 0;
  prev_cs = false;
  cs_since = 0;
  ips = 1500000;
  base = 0;
  held = 0;
  n_read = 0;
  n_write = 0;
  n_tick = 0;
  n_tick_selected = 0;
}

abbrev pub machine : Board
machine = record {
  mmu = unit;
  serial = serial;
  rtc = no_clock;
  cio1 = λ _. 0;
  cio2 = λ _. 0;
  cio1_reset = true;
  cio2_reset = false;
  ct3_running = false;
  ct3_accum = 0;
  stop_port = 0x0FFE;
  doorbells = 0;
}

io_read-io_write_example : (io_read (io_write machine 0x0095 0x4200 false) 0x0095 false).1 ≡ 0x4200
io_read-io_write_example = io_read-io_write machine 0x0095 0x4200 refl refl
