-- ===== src/Engine/Controller.antt =====
-- The disk controller of src/bus.c: `hdc_process` and `hdc_doorbell`. The image files are what the
-- C library documents of `fseek`, `fread` and `fwrite` on a file that can be read and written.
use commodore_900_emulator.Base.{
  ℕ, ◌+◌, ◌-◌, ◌*◌, Bool, true, false, not, ◌&&◌, ◌||◌, bit_and, bit_or, ◌==◌, leb, ltb,
  if◌then◌else◌, u32, shl, shr, for_loop,
}
use commodore_900_emulator.Bus.Memory.{Memory, phys_read8, phys_write8}
use commodore_900_emulator.Engine.State.{Disk, Machine}

-- The operations of a command block, by its opcode byte.
pub data HdcCommand : Type 0 where
  ready_test format change_block read_blocks write_blocks bad_opcode : HdcCommand

abbrev pub hdc_command : ℕ → HdcCommand
hdc_command op =
    if (op == 0x00) || (op == 0x0C) || (op == 0x01) || (op == 0x05) || (op == 0x03)
    then ready_test
    else if op == 0x04
    then format
    else if op == 0x0F
    then change_block
    else if op == 0x08
    then read_blocks
    else if op == 0x0A
    then write_blocks
    else bad_opcode

-- The fields of the block at `cb`.
pub record HdcBlock : Type 0 where
  pub opcode : ℕ
  pub lunhi : ℕ
  pub mid : ℕ
  pub low : ℕ
  pub bcnt : ℕ
  pub dma : ℕ
  pub lba : ℕ

unfoldable pub hdc_block : Memory → ℕ → HdcBlock
hdc_block m cb = record {
  opcode = phys_read8 m (cb + 0x00);
  lunhi = phys_read8 m (cb + 0x01);
  mid = phys_read8 m (cb + 0x02);
  low = phys_read8 m (cb + 0x03);
  bcnt = phys_read8 m (cb + 0x04);
  dma =
      bit_or (bit_or (shl (phys_read8 m (cb + 0x06)) 16) (shl (phys_read8 m (cb + 0x07)) 8))
        (phys_read8 m (cb + 0x08));
  lba =
      bit_or
        (bit_or (shl (bit_and (phys_read8 m (cb + 0x01)) 0x1F) 16)
          (shl (phys_read8 m (cb + 0x02)) 8))
        (phys_read8 m (cb + 0x03));
}

-- The code's test that a transfer is in the DRAM. It masks both segments to 8 bits, so that a transfer
-- passes, too, that begins above the DRAM and goes past the end of the 24-bit space.
unfoldable pub in_dram : ℕ → ℕ → Bool
in_dram dma n =
    leb 0x08 (bit_and (shr dma 16) 0xFF)
    && leb (bit_and (shr (u32 (dma + n + 0xFFFFFFFF)) 16) 0xFF) 0x17

-- Whether such a transfer leaves the `PHYS_SIZE + 2` bytes that `machine_new` allocates, which C leaves
-- undefined.
unfoldable pub overruns : HdcBlock → Bool
unfolding in_dram
overruns b = let n = b.bcnt * 512 in in_dram b.dma n && ltb 0x1000002 (b.dma + n)

-- `fread` into the DRAM, and zeros past the end of the file.
abbrev pub file_byte : Disk → ℕ → ℕ
file_byte d k = if ltb k d.size then d.bytes k else 0

unfoldable pub dma_in : Disk → ℕ → ℕ → ℕ → Memory → Memory
dma_in d start dma n m = record m {
  ram = λ a. if leb dma a && ltb a (dma + n) then file_byte d (start + (a - dma)) else m.ram a;
}

-- One sector through `buf`, which is zero if the file does not have all of it.
unfoldable pub sector_byte : Disk → ℕ → ℕ → ℕ → Memory → Memory
sector_byte d start dma i s =
    phys_write8 s (dma + i) (if leb (start + 512) d.size then d.bytes (start + i) else 0)

unfoldable pub sector_in : Disk → ℕ → ℕ → Memory → Memory
unfolding sector_byte
sector_in d start dma m = for_loop 512 (sector_byte d start dma) m

-- The sector `s` of a transfer.
unfoldable pub block_in : Disk → HdcBlock → ℕ → Memory → Memory
unfolding sector_in
block_in d b s = sector_in d ((b.lba + s) * 512) (b.dma + s * 512)

unfoldable pub read_in : Disk → HdcBlock → Memory → Memory
unfolding in_dram dma_in block_in
read_in d b m =
    let n = b.bcnt * 512 in
    if in_dram b.dma n then dma_in d (b.lba * 512) b.dma n m else for_loop b.bcnt (block_in d b) m

-- `fwrite` from the DRAM, or from the bytes that `phys_read8` gives.
unfoldable pub write_out : Memory → HdcBlock → Disk → Disk
unfolding in_dram
write_out m b d =
    let n = b.bcnt * 512 in
    let start = b.lba * 512 in
    let source : ℕ → ℕ = if in_dram b.dma n then m.ram else phys_read8 m in
    record d {
      bytes = λ k.
          if leb start k && ltb k (start + n) then source (b.dma + (k - start)) else file_byte d k;
      size = if (n == 0) || ltb (start + n) d.size then d.size else start + n;
    }

-- The status, with the memory, the disk and `hdc_cmdblk` afterwards, and whether the code has done what C
-- leaves undefined; then the rest means nothing.
pub record Outcome : Type 0 where
  pub status : ℕ
  pub memory : Memory
  pub disk : Disk
  pub cmdblk : ℕ
  pub undefined : Bool

unfoldable pub hdc_run : Memory → HdcBlock → Disk → ℕ → Bool → HdcCommand → Outcome
unfolding read_in write_out overruns
hdc_run m b d cmdblk is_floppy ready_test = record {
  status = if d.present then 0x00 else 0x92;
  memory = m;
  disk = d;
  cmdblk = cmdblk;
  undefined = false;
}
hdc_run m b d cmdblk is_floppy format = record {
  status = if d.present then 0x80 else 0x92;
  memory = m;
  disk = d;
  cmdblk = cmdblk;
  undefined = false;
}
hdc_run m b d cmdblk is_floppy change_block = record {
  status = 0x00;
  memory = m;
  disk = d;
  cmdblk = if is_floppy then cmdblk else b.dma;
  undefined = false;
}
hdc_run m b d cmdblk is_floppy read_blocks =
    if not d.present || ltb d.sectors (b.lba + b.bcnt)
    then record { status = 0x92; memory = m; disk = d; cmdblk = cmdblk; undefined = false }
    else record {
      status = 0x80;
      memory = read_in d b m;
      disk = d;
      cmdblk = cmdblk;
      undefined = overruns b;
    }
hdc_run m b d cmdblk is_floppy write_blocks =
    if not d.present || ltb d.sectors (b.lba + b.bcnt)
    then record { status = 0x92; memory = m; disk = d; cmdblk = cmdblk; undefined = false }
    else record {
      status = 0x80;
      memory = m;
      disk = write_out m b d;
      cmdblk = cmdblk;
      undefined = overruns b;
    }
hdc_run m b d cmdblk is_floppy bad_opcode = record {
  status = 0x81;
  memory = m;
  disk = d;
  cmdblk = cmdblk;
  undefined = false;
}

-- The completion: the status in place of 0xFF, and a copy of two address bytes.
unfoldable pub complete : ℕ → ℕ → HdcBlock → Memory → Memory
complete cb status b m =
    phys_write8 (phys_write8 (phys_write8 m (cb + 0x0C) status) (cb + 0x0D) b.lunhi) (cb + 0x0E)
      b.mid

unfoldable pub is_armed : Memory → ℕ → Bool
is_armed m cb = phys_read8 m (cb + 0x0C) == 0xFF

-- `hdc_process` for a disk `d` of the machine, which it returns.
unfoldable pub hdc_process : ℕ → Bool → Disk → Machine → Disk × Machine
unfolding hdc_block hdc_run complete is_armed
hdc_process cb is_floppy d m =
    let b = hdc_block m.memory cb in
    let o = hdc_run m.memory b d m.hdc_cmdblk is_floppy (hdc_command b.opcode) in
    if not (is_armed m.memory cb) then (d, m) else (
      o.disk,
      record m {
        memory = complete cb o.status b o.memory;
        hdc_cmdblk = o.cmdblk;
        disk_vi = true;
        undefined = m.undefined || o.undefined;
      },
    )

-- The block of the floppy follows the one of the hard disk, wherever that has moved the base to.
unfoldable pub hdc_doorbell : Machine → Machine
unfolding hdc_process
hdc_doorbell m =
    let (hard, m1) = hdc_process m.hdc_cmdblk false m.disk m in
    let m2 = record m1 { disk = hard } in
    let (soft, m3) = hdc_process (m2.hdc_cmdblk + 0x10) true m2.floppy m2 in
    record m3 { floppy = soft }
