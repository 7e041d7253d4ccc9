-- ===== src/Bus/Dispatch.antt =====
-- A register of the second CIO through the I/O dispatch.
use commodore_900_emulator.Base.{ℕ, ◌≡◌, arith, false, bit_and, u8, shl, shr, none}
use commodore_900_emulator.Bus.Scc.{Serial, scc_chip_at}
use commodore_900_emulator.Bus.Io.{
  Board, io_read, io_write, read_at_chip, write_at_chip, cio_dispatch_read, cio2_write,
}

no_chip : (m : Serial) (port : ℕ) → bit_and port 0xFF80 ≡ 0x0080 → scc_chip_at m port ≡ none
unfolding scc_chip_at
no_chip m port at = rw at (ground arith)

-- With the second CIO out of reset, a word written to a port that the board decodes to it is read
-- back from the same port as its high byte, on the high half of the data bus, whatever the register.
pub io_read-io_write :
    (m : Board) (port v : ℕ)
    → bit_and port 0xFF80 ≡ 0x0080
    → m.cio2_reset ≡ false
    → (io_read (io_write m port v false) port false).1 ≡ shl (u8 (shr v 8)) 8
unfolding io_read io_write read_at_chip write_at_chip cio_dispatch_read cio2_write
io_read-io_write m port v at off =
    rw (no_chip m.serial port at) (rw at (rw (no_chip m.serial port at) (ground (arith, at, off))))
