-- ===== src/Bus/Decode.antt =====
-- What memory keeps of a write, and a word as its two bytes.
use commodore_900_emulator.Base.{
  ℕ, ◌+◌, ◌/◌, ◌%◌, ◌≡◌, ◌<◌, arith, Bool, true, ◌&&◌, bit_and, leb, ltb, ◌==◌, if◌then◌else◌, u8,
  u16, shr, bit_and_mask, bit_or_fields,
}
use commodore_900_emulator.Bus.Memory.{
  Memory, phys_read8, phys_read16, phys_write8, phys_write16, seg_populated, join_bytes,
}

-- Whether a byte at the 24-bit address `a` can be stored.
unfoldable pub is_writable : Memory → ℕ → Bool
is_writable m a =
    if m.flat_mem then leb (a / 65536) m.flat_maxseg else leb 0x80000 a && ltb a 0x180000

low24 : (a : ℕ) → bit_and a 0x00FFFFFF ≡ a % 16777216
low24 a = bit_and_mask 24 a

low8 : (a : ℕ) → bit_and a 0xFF ≡ a % 256
low8 a = bit_and_mask 8 a

-- Wherever a byte was written and wherever one is read then: the same 24-bit address gives the byte
-- that was written if it can be stored there, that is, in the DRAM or in an installed segment of the
-- flat space, and every other read is as before; the ROM and the open bus keep what they give.
pub read8-write8 :
    (m : Memory) (a b v : ℕ)
    → phys_read8 (phys_write8 m a v) b ≡ (
        if is_writable m (a % 16777216) && (b % 16777216 == a % 16777216)
        then v
        else phys_read8 m b)
unfolding is_writable phys_read8 phys_write8 seg_populated
read8-write8 m a b v =
    rw (low24 a, low24 b) (ground (arith, low8 (a % 16777216 / 65536), low8 (b % 16777216 / 65536)))

next24 : (a : ℕ) → a % 2 ≡ 0 → (a + 1) % 16777216 ≡ a % 16777216 + 1
next24 a even = omega arith

idem24 : (a : ℕ) → a % 16777216 % 16777216 ≡ a % 16777216
idem24 a = omega arith

-- A word that is read at an even address is the two bytes that are read there, the high one first,
-- in the ROM, the DRAM, the open bus and the flat space.
pub read16-bytes :
    (m : Memory) (a : ℕ)
    → a % 2 ≡ 0
    → phys_read16 m a ≡ join_bytes (phys_read8 m a) (phys_read8 m (a + 1))
unfolding phys_read8 phys_read16 seg_populated
read16-bytes m a even =
    let x = a % 16777216 in
    rw (low24 a, low24 (a + 1), next24 a even, low24 x, low24 (x + 1), idem24 a)
      (ground (arith, low8 (x / 65536), low8 ((x + 1) / 65536)))

-- A word that is written to an even address does what two byte writes do, the high one first.
pub write16-bytes :
    (m : Memory) (a v : ℕ)
    → a % 2 ≡ 0
    → phys_write16 m a v ≡ phys_write8 (phys_write8 m a (u8 (shr v 8))) (a + 1) (u8 v)
unfolding phys_write8 phys_write16 seg_populated
write16-bytes m a v even =
    let x = a % 16777216 in
    rw (low24 a, low24 (a + 1), next24 a even, low24 x, low24 (x + 1), idem24 a)
      (ground (arith, low8 (x / 65536), low8 ((x + 1) / 65536)))

join-split : (v : ℕ) → v < 65536 → join_bytes (u8 (shr v 8)) (u8 v) ≡ v
join-split v lt = omega (arith, bit_or_fields 8 (u16 (u8 (shr v 8))) (u8 v) (omega arith))

writable_pair :
    (m : Memory) (a : ℕ)
    → a % 2 ≡ 0
    → is_writable m ((a + 1) % 16777216) ≡ is_writable m (a % 16777216)
unfolding is_writable
writable_pair m a even = ground arith

writable-write8 : (m : Memory) (a v x : ℕ) → is_writable (phys_write8 m a v) x ≡ is_writable m x
unfolding is_writable phys_write8
writable-write8 m a v x = ground arith

-- A word of 16 bits that is written to an even address where a byte can be stored is read back.
pub read16-write16 :
    (m : Memory) (a v : ℕ)
    → a % 2 ≡ 0
    → is_writable m (a % 16777216) ≡ true
    → v < 65536
    → phys_read16 (phys_write16 m a v) a ≡ v
read16-write16 m a v even ok lt =
    let hi = u8 (shr v 8) in
    let m1 = phys_write8 m a hi in
    let low = read8-write8 m1 (a + 1) (a + 1) (u8 v) in
    let skip = read8-write8 m1 (a + 1) a (u8 v) in
    let high = read8-write8 m a a hi in
    rw (write16-bytes m a v even, read16-bytes (phys_write8 m1 (a + 1) (u8 v)) a even)
      (ground (
        arith,
        low,
        skip,
        high,
        ok,
        writable_pair m a even,
        writable-write8 m a hi ((a + 1) % 16777216),
        join-split v lt,
      ))
