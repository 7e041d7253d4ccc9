-- ===== src/Engine/Transfer.antt =====
-- The disk controller of src/bus.c: what a finished command leaves, and a transfer there and back.
use commodore_900_emulator.Base.{
  ℕ, ◌+◌, ◌*◌, ◌≤◌, ◌<◌, ◌≡◌, ◌≢◌, refl, sym, ap, ◌∙◌, arith, Bool, true, false, not, ◌&&◌, ◌||◌,
  leb, ltb, if◌then◌else◌, if_cases, if_keeps, for_loop_inv,
}
use commodore_900_emulator.Bus.Memory.{Memory, phys_read8, store}
use commodore_900_emulator.Engine.State.{Machine, Disk}
use commodore_900_emulator.Engine.Controller.{
  HdcCommand, ready_test, format, change_block, read_blocks, write_blocks, bad_opcode, hdc_command,
  HdcBlock, hdc_block, in_dram, dma_in, sector_byte, sector_in, block_in, overruns, read_in,
  Outcome, hdc_run, complete, is_armed, hdc_process,
}
use commodore_900_emulator.Engine.Dram.{write_dram, read_dram, SameFlat, phys_write8-SameFlat}

true≢false : true ≢ false
true≢false e = cc

-- The status of a transfer.
abbrev pub granted : Bool → Bool → ℕ
granted present beyond = if present && not beyond then 0x80 else 0x92

-- The status that a command is expected to leave; `beyond` is a transfer past the end of the disk.
abbrev pub expected : HdcCommand → Bool → Bool → ℕ
expected ready_test present beyond = if present then 0x00 else 0x92
expected format present beyond = if present then 0x80 else 0x92
expected change_block present beyond = 0x00
expected bad_opcode present beyond = 0x81
expected _ present beyond = granted present beyond

-- What a finished command has left: `d` the disk afterwards, `m` the machine.
pub record Finished (st cb : ℕ) (d0 d : Disk) (m0 m : Machine) : Type 0 where
  pub status : phys_read8 m.memory (cb + 0x0C) ≡ st
  pub interrupt : m.disk_vi ≡ true
  pub defined : m.undefined ≡ m0.undefined
  pub disk : st ≢ 0x80 → d ≡ d0
  pub others :
      (k : ℕ)
      → st ≢ 0x80
      → k ≢ cb + 0x0C
      → k ≢ cb + 0x0D
      → k ≢ cb + 0x0E
      → m.memory.ram k ≡ m0.memory.ram k

-- The completion of a block in the DRAM.
complete-ram :
    (cb st : ℕ) (b : HdcBlock) (m : Memory)
    → 0x080000 ≤ cb
    → cb < 0x17FFF0
    → m.flat_mem ≡ false
    → complete cb st b m
      ≡ store (cb + 0x0E) b.mid (store (cb + 0x0D) b.lunhi (store (cb + 0x0C) st m))
unfolding complete
complete-ram cb st b m lo hi e = simp (
  write_dram m (cb + 0x0C) st (record { low = omega arith; high = omega arith }) e,
  write_dram (store (cb + 0x0C) st m) (cb + 0x0D) b.lunhi
      (record { low = omega arith; high = omega arith }) e,
  write_dram (store (cb + 0x0D) b.lunhi (store (cb + 0x0C) st m)) (cb + 0x0E) b.mid
      (record { low = omega arith; high = omega arith }) e,
)

-- The commands that move blocks.
abbrev pub is_transfer : HdcCommand → Bool
is_transfer read_blocks = true
is_transfer write_blocks = true
is_transfer _ = false

-- A transfer ends inside the memory that the program has allocated, two bytes above the 24-bit space.
unfoldable pub Fits : HdcCommand → HdcBlock → Type 0
Fits k b = is_transfer k ≡ true → b.dma + b.bcnt * 512 ≤ 0x1000002

fits-overruns : (b : HdcBlock) → b.dma + b.bcnt * 512 ≤ 0x1000002 → overruns b ≡ false
unfolding overruns
fits-overruns b h = ground arith

-- What a command leaves before its completion.
record Ran (st : ℕ) (m : Memory) (d : Disk) (o : Outcome) : Type 0 where
  status : o.status ≡ st
  flat : o.memory.flat_mem ≡ m.flat_mem
  defined : o.undefined ≡ false
  same : st ≢ 0x80 → (o.memory ≡ m) × (o.disk ≡ d)

refused-status : (p q : Bool) → (not p || q) ≡ true → granted p q ≡ 0x92
refused-status p q e = ground arith

granted-status : (p q : Bool) → (not p || q) ≡ false → granted p q ≡ 0x80
granted-status p q e = ground arith

block_in-SameFlat :
    (m n : Memory) (d : Disk) (b : HdcBlock) (s : ℕ) → SameFlat m n → SameFlat m (block_in d b s n)
unfolding block_in sector_in sector_byte
block_in-SameFlat m n d b s h =
    for_loop_inv (λ _. SameFlat m) 512 (sector_byte d ((b.lba + s) * 512) (b.dma + s * 512)) n
      (λ i x _ k.
        phys_write8-SameFlat m x (b.dma + s * 512 + i)
          (if leb ((b.lba + s) * 512 + 512) d.size then d.bytes ((b.lba + s) * 512 + i) else 0) k)
      h

read_in-SameFlat : (d : Disk) (b : HdcBlock) (m : Memory) → SameFlat m (read_in d b m)
unfolding read_in dma_in
read_in-SameFlat d b m =
    if_keeps (SameFlat m) (in_dram b.dma (b.bcnt * 512)) (record { same = refl })
      (for_loop_inv (λ _. SameFlat m) b.bcnt (block_in d b) m
        (λ i x _ k. block_in-SameFlat m x d b i k) (record { same = refl }))

hdc_run-Ran :
    (m : Memory) (b : HdcBlock) (d : Disk) (base : ℕ) (f : Bool) (k : HdcCommand)
    → Fits k b
    → Ran (expected k d.present (ltb d.sectors (b.lba + b.bcnt))) m d (hdc_run m b d base f k)
unfolding hdc_run Fits
hdc_run-Ran m b d base f ready_test fits = record {
  status = refl;
  flat = refl;
  defined = refl;
  same = λ _. (refl, refl);
}
hdc_run-Ran m b d base f format fits = record {
  status = refl;
  flat = refl;
  defined = refl;
  same = λ _. (refl, refl);
}
hdc_run-Ran m b d base f change_block fits = record {
  status = refl;
  flat = refl;
  defined = refl;
  same = λ _. (refl, refl);
}
hdc_run-Ran m b d base f bad_opcode fits = record {
  status = refl;
  flat = refl;
  defined = refl;
  same = λ _. (refl, refl);
}
hdc_run-Ran m b d base f read_blocks fits =
    let q = ltb d.sectors (b.lba + b.bcnt) in
    if_cases (Ran (expected read_blocks d.present q) m d) (not d.present || q)
      (λ e. record {
        status = sym (refused-status d.present q e);
        flat = refl;
        defined = refl;
        same = λ _. (refl, refl);
      })
      (λ e. record {
        status = sym (granted-status d.present q e);
        flat = (read_in-SameFlat d b m).same;
        defined = fits-overruns b (fits refl);
        same = λ ne. absurd (ne (granted-status d.present q e));
      })
hdc_run-Ran m b d base f write_blocks fits =
    let q = ltb d.sectors (b.lba + b.bcnt) in
    if_cases (Ran (expected write_blocks d.present q) m d) (not d.present || q)
      (λ e. record {
        status = sym (refused-status d.present q e);
        flat = refl;
        defined = refl;
        same = λ _. (refl, refl);
      })
      (λ e. record {
        status = sym (granted-status d.present q e);
        flat = refl;
        defined = fits-overruns b (fits refl);
        same = λ ne. absurd (ne (granted-status d.present q e));
      })

-- The three bytes of the completion over any memory.
completed :
    (st cb x y : ℕ) (d0 d : Disk) (m0 m : Machine) (n : Memory)
    → 0x080000 ≤ cb
    → cb < 0x17FFF0
    → n.flat_mem ≡ false
    → m.memory ≡ store (cb + 0x0E) x (store (cb + 0x0D) y (store (cb + 0x0C) st n))
    → m.disk_vi ≡ true
    → m.undefined ≡ m0.undefined
    → (st ≢ 0x80 → (n ≡ m0.memory) × (d ≡ d0))
    → Finished st cb d0 d m0 m
completed st cb x y d0 d m0 m n lo hi flat e vi ok same = record {
  status =
      ap (λ (x : Memory). phys_read8 x (cb + 0x0C)) e
      ∙ (read_dram (store (cb + 0x0E) x (store (cb + 0x0D) y (store (cb + 0x0C) st n))) (cb + 0x0C)
            (record { low = omega arith; high = omega arith }) flat
          ∙ ground arith);
  interrupt = vi;
  defined = ok;
  disk = λ ne. (same ne).1;
  others = λ k ne c1 c2 c3.
      ap (λ (x : Memory). x.ram k) e ∙ (ground arith ∙ ap (λ (x : Memory). x.ram k) (same ne).0);
}

unchanged : {x y : Bool} → y ≡ false → (x || y) ≡ x
unchanged {x} {y} e = ground arith

-- A block that is armed, anywhere in the DRAM of a machine that is no process image, whose transfer, if
-- it is a read or a write, ends inside the memory that the program has allocated: whatever its command,
-- the controller does nothing that C leaves undefined, leaves the expected status where the driver reads
-- it, and raises its interrupt. A status other than 0x80, such as 0x92 for a disk that is absent or a
-- transfer past its end and 0x81 for an unknown command, means that the disk is as it was, and the memory
-- too but for the three bytes of the completion.
pub hdc_process-Finished :
    (cb : ℕ) (floppy : Bool) (d : Disk) (m : Machine)
    → 0x080000 ≤ cb
    → cb < 0x17FFF0
    → m.memory.flat_mem ≡ false
    → is_armed m.memory cb ≡ true
    → Fits (hdc_command (hdc_block m.memory cb).opcode) (hdc_block m.memory cb)
    → Finished
        (expected
          (hdc_command (hdc_block m.memory cb).opcode)
          d.present
          (ltb d.sectors ((hdc_block m.memory cb).lba + (hdc_block m.memory cb).bcnt)))
        cb
        d
        (hdc_process cb floppy d m).0
        m
        (hdc_process cb floppy d m).1
unfolding hdc_process
hdc_process-Finished cb floppy d m lo hi flat armed fits =
    let b = hdc_block m.memory cb in
    let o = hdc_run m.memory b d m.hdc_cmdblk floppy (hdc_command b.opcode) in
    let ran = hdc_run-Ran m.memory b d m.hdc_cmdblk floppy (hdc_command b.opcode) fits in
    let st = expected (hdc_command b.opcode) d.present (ltb d.sectors (b.lba + b.bcnt)) in
    if_cases (λ (r : Disk × Machine). Finished st cb d r.0 m r.1) (not (is_armed m.memory cb))
      (λ off. absurd (true≢false (sym off ∙ ap not armed)))
      (λ _.
        completed st cb b.mid b.lunhi d o.disk m _ o.memory lo hi (ran.flat ∙ flat)
          (complete-ram cb o.status b o.memory lo hi (ran.flat ∙ flat)
            ∙ ap
                (λ (t : ℕ).
                  store (cb + 0x0E) b.mid
                    (store (cb + 0x0D) b.lunhi (store (cb + 0x0C) t o.memory)))
                ran.status)
          refl (unchanged ran.defined) ran.same)
