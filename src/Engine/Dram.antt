-- ===== src/Engine/Dram.antt =====
-- Accesses to the DRAM in src/bus.c.
use commodore_900_emulator.Base.{
  ℕ, ◌+◌, ◌-◌, ◌/◌, ◌%◌, ◌≤◌, ◌<◌, ◌≡◌, arith, true, false, ltb, if_keeps, bit_and, bit_and_mask,
}
use commodore_900_emulator.Bus.Memory.{Memory, phys_read8, phys_write8, store, seg_populated}
use commodore_900_emulator.Engine.Controller.{in_dram}

-- An address of the DRAM.
pub record InDram (a : ℕ) : Type 0 where
  pub low : 0x080000 ≤ a
  pub high : a < 0x180000

dram-mask : (a : ℕ) → InDram a → bit_and a 0x00FFFFFF ≡ a
dram-mask a h = omega (arith, bit_and_mask 24 a, h.low, h.high)

dram-populated : (a : ℕ) → InDram a → seg_populated a ≡ true
unfolding seg_populated
dram-populated a h =
    let k = bit_and_mask 8 (a / 65536) in let lo = h.low in let hi = h.high in ground arith

dram-above : (a : ℕ) → InDram a → ltb a 0x8000 ≡ false
dram-above a h = let lo = h.low in ground arith

pub write_dram :
    (m : Memory) (a v : ℕ) → InDram a → m.flat_mem ≡ false → phys_write8 m a v ≡ store a v m
unfolding phys_write8
write_dram m a v h e = simp (dram-mask a h, dram-populated a h, dram-above a h, e)

pub read_dram : (m : Memory) (a : ℕ) → InDram a → m.flat_mem ≡ false → phys_read8 m a ≡ m.ram a
unfolding phys_read8
read_dram m a h e = simp (dram-mask a h, dram-populated a h, dram-above a h, e)

-- A transfer inside the DRAM passes the test of the code.
pub dram-in_dram : (dma n : ℕ) → 0x080000 ≤ dma → dma + n ≤ 0x180000 → in_dram dma n ≡ true
unfolding in_dram
dram-in_dram dma n lo hi =
    let first = bit_and_mask 8 (dma / 65536) in
    let last = bit_and_mask 8 ((dma + n + 0xFFFFFFFF) % 4294967296 / 65536) in
    let wrapped : (dma + n + 0xFFFFFFFF) % 4294967296 ≡ dma + n - 1 = omega arith in ground arith

-- The memory of the same kind, of a machine or of a process image.
pub record SameFlat (m n : Memory) : Type 0 where
  pub same : n.flat_mem ≡ m.flat_mem

pub phys_write8-SameFlat : (m n : Memory) (k v : ℕ) → SameFlat m n → SameFlat m (phys_write8 n k v)
unfolding phys_write8
phys_write8-SameFlat m n k v h =
    let wrote : SameFlat m (store (bit_and k 0x00FFFFFF) v n) = record { same = h.same } in
    if_keeps (SameFlat m) _ (if_keeps (SameFlat m) _ wrote h)
      (if_keeps (SameFlat m) _ h (if_keeps (SameFlat m) _ wrote h))
