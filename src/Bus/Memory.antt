-- ===== src/Bus/Memory.antt =====
-- Physical memory of src/bus.c: the boot ROM, the DRAM of segments 8 to 0x17 and the open bus, or
-- the flat space of a process image. The debug write-watch only prints and is left out.
use commodore_900_emulator.Base.{
  ℕ, ◌+◌, Bool, ◌&&◌, bit_and, bit_or, leb, ltb, if◌then◌else◌, u8, u16, shl, shr, update,
}

-- The fields of `Machine` of src/emu.h that the memory decode reads. `ram` is `PHYS_SIZE` bytes.
pub record Memory : Type 0 where
  pub rom : ℕ → ℕ
  pub ram : ℕ → ℕ
  pub flat_mem : Bool
  pub flat_maxseg : ℕ

abbrev pub rom_size : ℕ
rom_size = 0x8000

unfoldable pub seg_populated : ℕ → Bool
seg_populated a = let seg = bit_and (shr a 16) 0xFF in leb 0x08 seg && leb seg 0x17

unfoldable pub phys_read8 : Memory → ℕ → ℕ
unfolding seg_populated
phys_read8 m a0 =
    let a = bit_and a0 0x00FFFFFF in
    if m.flat_mem
    then (if leb (shr a 16) m.flat_maxseg then m.ram a else 0xFF)
    else if ltb a rom_size
    then m.rom a
    else if seg_populated a
    then m.ram a
    else 0xFF

-- `m->ram[a] = v`
abbrev pub store : ℕ → ℕ → Memory → Memory
store a v m = record m { ram = update m.ram a v }

unfoldable pub phys_write8 : Memory → ℕ → ℕ → Memory
unfolding seg_populated
phys_write8 m a0 v =
    let a = bit_and a0 0x00FFFFFF in
    if m.flat_mem
    then (if leb (shr a 16) m.flat_maxseg then store a v m else m)
    else if ltb a rom_size
    then m
    else if seg_populated a
    then store a v m
    else m

-- `((uint16_t)hi << 8) | lo`
abbrev pub join_bytes : ℕ → ℕ → ℕ
join_bytes hi lo = bit_or (shl (u16 hi) 8) lo

unfoldable pub phys_read16 : Memory → ℕ → ℕ
unfolding phys_read8 seg_populated
phys_read16 m a0 =
    let a = bit_and a0 0x00FFFFFF in
    if m.flat_mem
    then (if leb (shr a 16) m.flat_maxseg then join_bytes (m.ram a) (m.ram (a + 1)) else 0xFFFF)
    else if ltb a 0x7FFF
    then join_bytes (m.rom a) (m.rom (a + 1))
    else if seg_populated a
    then join_bytes (m.ram a) (m.ram (a + 1))
    else join_bytes (phys_read8 m a) (phys_read8 m (a + 1))

unfoldable pub phys_write16 : Memory → ℕ → ℕ → Memory
unfolding phys_write8 seg_populated
phys_write16 m a0 v =
    let a = bit_and a0 0x00FFFFFF in
    if m.flat_mem
    then (if leb (shr a 16) m.flat_maxseg
        then store (a + 1) (u8 v) (store a (u8 (shr v 8)) m)
        else m)
    else if ltb a rom_size
    then m
    else if seg_populated a
    then store (a + 1) (u8 v) (store a (u8 (shr v 8)) m)
    else phys_write8 (phys_write8 m a (u8 (shr v 8))) (a + 1) (u8 v)
