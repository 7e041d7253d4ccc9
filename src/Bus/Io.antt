-- ===== src/Bus/Io.antt =====
-- The I/O dispatch of src/bus.c, with the registers of the two CIO chips. `is_byte`, which the source
-- ignores, is left out, and a call of `hdc_doorbell` is counted.
use commodore_900_emulator.Base.{
  ℕ, ◌+◌, Bool, true, false, not, ◌&&◌, ◌||◌, bit_and, bit_or, has, ◌==◌, leb, if◌then◌else◌, u8,
  u16, shl, shr, complement, update, Option, none, some,
}
use commodore_900_emulator.Mmu.{Mmu, mmu_cmd_read, mmu_cmd_write}
use commodore_900_emulator.Rtc.{Rtc, rtc_pb_read, rtc_pb_write}
use commodore_900_emulator.Bus.Scc.{Serial, rang_doorbell, scc_chip_at}
use commodore_900_emulator.Bus.Console.{scc_read, scc_write}

-- The fields of `Machine` of src/emu.h that the dispatch reads and writes; `cpu.insns`, `stop` and
-- `stop_why` stand in `serial`. `doorbells` counts the calls of `hdc_doorbell`.
pub record Board : Type 0 where
  pub mmu : Mmu
  pub serial : Serial
  pub rtc : Rtc
  pub cio1 : ℕ → ℕ
  pub cio2 : ℕ → ℕ
  pub cio1_reset : Bool
  pub cio2_reset : Bool
  pub ct3_running : Bool
  pub ct3_accum : ℕ
  pub stop_port : ℕ
  pub doorbells : ℕ

abbrev pub cio_pbdata : ℕ
cio_pbdata = 0x0E

abbrev pub cio_pcdata : ℕ
cio_pcdata = 0x0F

abbrev pub cio_pbdd : ℕ
cio_pbdd = 0x2B

-- `low == 0xFC || low == 0xF8`
abbrev pub is_mmu_port : ℕ → Bool
is_mmu_port port = let low = bit_and port 0xFF in (low == 0xFC) || (low == 0xF8)

unfoldable pub cio1_read : Board → ℕ → Board × ℕ
unfolding rtc_pb_read
cio1_read m reg =
    if m.cio1_reset && not (reg == 0)
    then (m, 0)
    else if reg == cio_pbdata
    then (let t =
          rtc_pb_read m.serial.insns (m.cio1 cio_pcdata) (m.cio1 cio_pbdd) (m.cio1 reg) m.rtc in
        (record m { rtc = t.1 }, shl (u16 t.0) 8))
    else (m, shl (u16 (m.cio1 reg)) 8)

unfoldable pub cio_dispatch_read : Board → ℕ → Board × ℕ
unfolding cio1_read
cio_dispatch_read m port =
    let reg = bit_and (shr port 1) 0x3F in
    if bit_and port 0xFF80 == 0x0000
    then cio1_read m reg
    else if bit_and port 0xFF80 == 0x0080
    then (if m.cio2_reset && not (reg == 0) then (m, 0) else (m, shl (u16 (m.cio2 reg)) 8))
    else (m, 0)

unfoldable pub read_at_chip : Board → ℕ → Option ℕ → Board × ℕ
unfolding cio_dispatch_read scc_read
read_at_chip m port none = cio_dispatch_read m port
read_at_chip m port (some chip) =
    let reg = bit_and (shr port 1) 0x0F in
    let chan = bit_and (shr port 5) 1 in
    let t = scc_read m.serial chip chan reg in (record m { serial = t.0 }, shl (u16 t.1) 8)

unfoldable pub io_read : Board → ℕ → Bool → Board × ℕ
unfolding read_at_chip mmu_cmd_read
io_read m port special =
    if special
    then (if is_mmu_port port
        then (let t = mmu_cmd_read m.mmu (u8 (shr port 8)) in (record m { mmu = t.1 }, t.0))
        else (m, 0))
    else read_at_chip m port (scc_chip_at m.serial port)

-- The command D7:D5 of CT3 Command & Status on the IP, IE and IUS bits.
unfoldable pub ct3_command : ℕ → ℕ → ℕ
ct3_command cmd cs =
    if cmd == 1
    then bit_and cs (complement 32 0xA0)
    else if cmd == 2
    then bit_or cs 0x80
    else if cmd == 3
    then bit_and cs (complement 32 0x80)
    else if cmd == 4
    then bit_or cs 0x20
    else if cmd == 5
    then bit_and cs (complement 32 0x20)
    else if cmd == 6
    then bit_or cs 0x40
    else if cmd == 7
    then bit_and cs (complement 32 0x40)
    else cs

unfoldable pub ct3_write : Board → ℕ → Board
unfolding ct3_command
ct3_write m v =
    let cs = ct3_command (bit_and (shr v 5) 0x07) (m.cio1 0x0C) in
    let cs' = u8 (bit_or (bit_and cs (complement 32 0x04)) (bit_and v 0x04)) in
    let starts = has v 0x02 && (not m.ct3_running || has (m.cio1 0x1E) 0x04) in
    record m {
      ct3_running = if starts then true else m.ct3_running;
      ct3_accum = if starts then 0 else m.ct3_accum;
      cio1 = update m.cio1 0x0C cs';
    }

unfoldable pub cio1_write : Board → ℕ → ℕ → Board
unfolding ct3_write rtc_pb_write
cio1_write m0 reg v =
    let m = if (reg == 0x00) && not (has v 0x01) then record m0 { cio1_reset = false } else m0 in
    if reg == 0x0C
    then ct3_write m v
    else (let m1 = record m { cio1 = update m.cio1 reg v } in
        let pc = m1.cio1 cio_pcdata in
        if reg == cio_pbdata
        then record m1 { rtc = rtc_pb_write m1.serial.insns pc v m1.rtc }
        else if reg == cio_pcdata
        then record m1 { rtc = rtc_pb_write m1.serial.insns pc m1.rtc.prev_pb m1.rtc }
        else m1)

unfoldable pub cio2_write : Board → ℕ → ℕ → Board
cio2_write m reg v = record m {
  cio2_reset = if (reg == 0x00) && not (has v 0x01) then false else m.cio2_reset;
  cio2 = update m.cio2 reg v;
}

-- The ports above the chips: the stop doorbell, the system latch and the disk doorbell.
unfoldable pub latch_write : Board → ℕ → ℕ → Board
latch_write m port value =
    if (port == m.stop_port) && not (m.stop_port == 0)
    then (if value == 0xC900
        then record m { serial = record m.serial { stop = true; stop_why = some rang_doorbell } }
        else m)
    else if bit_and port 0xFF00 == 0x0200
    then m
    else if leb 0x0500 port && leb port 0x05FF
    then (if not (value == 0) then record m { doorbells = m.doorbells + 1 } else m)
    else m

unfoldable pub write_at_chip : Board → ℕ → ℕ → Option ℕ → Board
unfolding scc_write cio1_write cio2_write latch_write
write_at_chip m port value (some chip) =
    let reg = bit_and (shr port 1) 0x0F in
    let chan = bit_and (shr port 5) 1 in
    record m { serial = scc_write m.serial chip chan reg (u8 (shr value 8)) }
write_at_chip m port value none =
    let reg = bit_and (shr port 1) 0x3F in
    if bit_and port 0xFF80 == 0x0000
    then cio1_write m reg (u8 (shr value 8))
    else if bit_and port 0xFF80 == 0x0080
    then cio2_write m reg (u8 (shr value 8))
    else latch_write m port value

unfoldable pub io_write : Board → ℕ → ℕ → Bool → Board
unfolding write_at_chip mmu_cmd_write
io_write m port value special =
    if special
    then (if is_mmu_port port
        then record m { mmu = mmu_cmd_write m.mmu (u8 (shr port 8)) (u8 value) }
        else m)
    else write_at_chip m port value (scc_chip_at m.serial port)
