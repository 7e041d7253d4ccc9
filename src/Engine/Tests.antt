-- ===== src/Engine/Tests.antt =====
-- Theorems of the processor at work, at concrete inputs.
use commodore_900_emulator.Base.{
  u16, bit_and, bit_or, ◌+◌, ◌≡◌, ◌%◌, refl, arith, true, false, ◌==◌, if◌then◌else◌, ltb, none,
}
use commodore_900_emulator.Base.Int.{pos, negsuc, signed, ◌*ℤ◌}
use commodore_900_emulator.Cpu.Tests.{idle_cpu}
use commodore_900_emulator.Bus.Memory.{Memory, phys_read8}
use commodore_900_emulator.Bus.Tests.{board, machine}
use commodore_900_emulator.Engine.State.{Disk, Machine}
use commodore_900_emulator.Engine.Controller.{
  HdcBlock, hdc_block, hdc_command, hdc_process, is_armed,
}
use commodore_900_emulator.Engine.Product.{divide, exec_mul}
use commodore_900_emulator.Engine.Multiply.{IsProduct, exec_mul-IsProduct}
use commodore_900_emulator.Engine.Interrupt.{select, handle_interrupts}
use commodore_900_emulator.Alu.{Width}
use commodore_900_emulator.Cpu.{CtrlWord, InstrClass, SrcSel, rw16, nib2, nib3}
use commodore_900_emulator.Decode.{cw}
use commodore_900_emulator.Engine.Count.{Apart, Countable}
use commodore_900_emulator.Engine.Repeat.{perform-ends}
use commodore_900_emulator.Engine.Step.{instruction, perform}
use commodore_900_emulator.Engine.Confined.{Confined}
use commodore_900_emulator.Engine.User.{instruction-Confined}
use commodore_900_emulator.Engine.Quotient.{Divides, divide-Divides}
use commodore_900_emulator.Engine.Transfer.{Fits, Finished, expected, hdc_process-Finished}
use commodore_900_emulator.Engine.Priority.{Highest, select-Highest, handle_interrupts-masked}

abbrev drive : Disk
drive = record { bytes = λ k. k % 256; size = 1024; sectors = 2; present = true }

-- A block at 0x080000 that is armed, with the opcode of a read of sector 1 to 0x090000.
abbrev armed : Memory
armed = record board {
  ram = λ a.
      if a == 0x08000C
      then 0xFF
      else if a == 0x080000
      then 0x08
      else if a == 0x080003
      then 1
      else if a == 0x080004
      then 1
      else 0;
}

-- A program in normal mode, non-segmented, with a vectored interrupt waiting that the FCW masks. It is at
-- an ADDB of an immediate in the ROM.
abbrev user : Machine
user = record {
  cpu = record idle_cpu { fcw = 0; vi_line = true };
  board = machine;
  memory = armed;
  disk = drive;
  floppy = record drive { present = false };
  hdc_cmdblk = 0x080000;
  disk_vi = false;
  undefined = false;
}

instruction-Confined_example : Confined user (instruction 3 user).1
instruction-Confined_example = instruction-Confined 3 user (omega arith) refl

divide-Divides_example :
    Divides 0x8000 (negsuc 99999) (pos 7) (divide 0x8000 (negsuc 99999) (pos 7))
divide-Divides_example =
    divide-Divides 0x8000 (negsuc 99999) (pos 7) (omega arith) (omega arith, omega arith)
      (omega arith, omega arith)

is_ready : is_armed armed 0x080000 ≡ true
unfolding is_armed phys_read8
is_ready = refl

armed-Fits : Fits (hdc_command (hdc_block armed 0x080000).opcode) (hdc_block armed 0x080000)
unfolding Fits hdc_block phys_read8
armed-Fits e = ground arith

hdc_process-Finished_example :
    Finished
      (expected
        (hdc_command (hdc_block armed 0x080000).opcode)
        true
        (ltb 2 ((hdc_block armed 0x080000).lba + (hdc_block armed 0x080000).bcnt)))
      0x080000
      drive
      (hdc_process 0x080000 false drive user).0
      user
      (hdc_process 0x080000 false drive user).1
hdc_process-Finished_example =
    hdc_process-Finished 0x080000 false drive user (omega arith) (omega arith) refl is_ready
      armed-Fits

-- One block from 0x090000 to sector 1.
abbrev transfer : HdcBlock
transfer = record { opcode = 0x10; lunhi = 0; mid = 0; low = 1; bcnt = 1; dma = 0x090000; lba = 1 }

select-Highest_example : Highest 0x26 0x1000 (select 0x26 0x1000)
select-Highest_example = select-Highest 0x26 0x1000

handle_interrupts-masked_example : handle_interrupts none user ≡ (false, user)
handle_interrupts-masked_example = handle_interrupts-masked none user refl refl refl refl refl

-- LDIRB @R2, @R4, R5 in non-segmented mode, where R5 is no pointer, with a count of 0, which stands for 65536.
abbrev ldirb : CtrlWord
ldirb = record cw { exec = InstrClass.block_transfer; width = Width.byte; block_rept = true }

abbrev copying : Machine
copying = record user { cpu = record user.cpu { opcode = λ i. if i == 0 then 0xBA41 else 0x0520 } }

ldirb-src : Apart false 4 5
unfolding Apart
ldirb-src = ground arith

ldirb-dst : Apart false 2 5
unfolding Apart
ldirb-dst = ground arith

ldirb-Countable : Countable false copying.cpu.opcode
ldirb-Countable = record { src = ldirb-src; dst = ldirb-dst }

perform-ends_example : perform 65535 ldirb 0x1000 2 copying ≡ perform 70000 ldirb 0x1000 2 copying
perform-ends_example =
    perform-ends ldirb 0x1000 2 65535 70000 copying refl ldirb-Countable refl (omega arith)
      (omega arith)

-- MULT RR2, R4 with -3 in R3 and 20000 in R4.
abbrev multiplying : Machine
multiplying = record user {
  cpu = record user.cpu {
    opcode = λ _. 0x9942;
    regs = λ i. if i == 3 then 0xFFFD else if i == 4 then 20000 else 0;
  };
}

exec_mul-IsProduct_example :
    IsProduct
      (exec_mul (record cw { width = Width.word; src2 = SrcSel.src_reg }) multiplying).1.cpu
      (bit_and (nib3 0x9942) 0x0E)
      (signed 0x8000 (u16 (rw16 multiplying.cpu (bit_or (nib3 0x9942) 1)))
        *ℤ signed 0x8000 (u16 (rw16 multiplying.cpu (nib2 0x9942))))
exec_mul-IsProduct_example = exec_mul-IsProduct cw multiplying
