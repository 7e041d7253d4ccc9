-- ===== src/Lib.antt =====
-- A model of the Commodore C900 emulator: its ALU, its Z8001 CPU with the instruction decoder, the
-- execute handlers and the interrupts, its Z8010 memory management unit, its physical memory, its
-- Z8030 serial chips, its MSM58321 clock module and its disk controller, with theorems on each.
--
-- How the parts interact: `cpu_step` (src/cpu.c) takes a pending interrupt or fetches an
-- instruction, asks `decode_length` and `decode_lookup` (src/decode.c) for its control word and
-- hands that to `execute`, whose handlers change the machine. For an ALU operation a handler runs
-- `alu_exec` (src/alu.c), merges its flags into the FCW by `apply_flags` and asks `cond_true` for a
-- condition. A memory access goes through `mmu_translate` (src/mmu.c), which the guest programs
-- through `mmu_cmd_read` and `mmu_cmd_write`, and then to `phys_read8`, `phys_write8` and their
-- word forms (src/bus.c). I/O ports reach the serial chips by `scc_read` and `scc_write` and the
-- clock module by `rtc_pb_write` and `rtc_pb_read`, and a write to the doorbell runs
-- `hdc_doorbell`, which serves the command blocks of the disks, all in src/bus.c. The types are
-- those of src/emu.h.
--
-- Files:
-- Base and its children: the library names that all files share, Boolean tests, laws of the bit
-- operations, casts to machine words, counted loops, arrays as functions, checks by table,
-- integers.
-- Alu (src/alu.c): Defs holds the flag words, widths and flag helpers; Carry `carry_chain`,
-- `do_add` and `do_sub`; Unary `do_neg`, `do_inc`, `do_dec` and `do_dab`; Shift and Rotate the
-- shift and rotate loops; Exec the dispatch `alu_exec`. Adder, Sum and Difference hold proofs.
-- Cpu (src/cpu.c): State is the `CPU` of src/emu.h; Registers the byte, word, long and quad views
-- of the register file; Address the segmented addresses; Flags `apply_flags` and `cond_true`; Banks
-- `change_fcw` and `check_priv`; Control the `CtrlWord` of src/emu.h; Handlers the operand helpers
-- that need no memory and `exec_shift`. Views, Merge and Compare hold proofs.
-- Mmu (src/mmu.c): State is the `MMU` of src/emu.h with `mmu_refresh_fast` and `mmu_reset`;
-- Translate `latch_viol` and `mmu_translate`; Command `mmu_cmd_read` and `mmu_cmd_write`. Keep,
-- Coherence, Protection and Run hold proofs; Run has the step relation of the unit.
-- Rtc (src/bus.c): Counters is the `RTC` of src/emu.h with the digit counters; Pins the divider
-- `rtc_advance`, the pin protocol and `rtc_set_time`. Frame, Clock and Elapsed hold proofs.
-- Bus (src/bus.c): Memory is the memory decode; Mark `mark_advance`; Scc the serial channels, their
-- vectors and the port decode; Console the register reads and writes and the receivers; Io the
-- dispatch `io_read` and `io_write` with the CIO registers; Park the park watch. Decode, Border,
-- Search, Ports, Registers, Receive, Dispatch and Parked hold proofs.
-- Decode (src/decode.c): Slot is a slot of the table; Registers, Memory, Control, Tables,
-- PortTable, ShiftTable and BlockTable are what `decode_init` fills in; Refine the sub-decoders;
-- Length `decode_length_compute`, `decode_seg_addr_w1` and `decode_seg_addr_w2`; Lookup the table
-- and `decode_lookup`. Check and Words hold proofs, which run through the table row by row.
-- Engine (src/cpu.c, and the disk controller of src/bus.c): State is the `Machine` of src/emu.h
-- with the actions of handlers on it; Controller `hdc_process` and `hdc_doorbell`; Access the
-- memory accessors, the stack and the ports; Unified, Stack, Product, System and Block the `exec_`
-- functions; Execute the dispatch `execute`; Interrupt `handle_interrupts` and `cpu_reset`; Step
-- `cpu_step`. Keeps, AccessKeeps, HandlerKeeps, BlockKeeps, ExecuteKeeps, Confined, Confinement,
-- User, Quotient, Dram, Transfer, Priority, Count, Repeat and Multiply hold proofs; the first five
-- are about invariants of single actions and handlers.
-- The Tests file of each part has concrete runs.
--
-- How the code is written: a machine word is a natural number, with the casts of the source written
-- out as remainders. An array is a function from the index, a store through a pointer a record
-- update. A function that changes a struct returns the struct, with its value beside it. Output
-- calls of the serial chips are recorded in a list, and what the host endpoints of the wires offer
-- is an argument. A C string is a function from the index whose last character is a zero. Where the
-- code does what C leaves undefined, a quotient that its type does not hold or a disk transfer that
-- leaves the allocated memory, the model sets `undefined` in the machine, and its other fields mean
-- nothing from then on. A mark that is read past its terminator is the other such place: the
-- theorems on marks keep to outputs without a zero.
--
-- Bounds and fuel: `carry_chain` and the shift loops run the source's count of rounds.
-- `mark_advance` has `for (;;)`: the position falls in each round but the last, so that the model
-- gives it `pos + 1` rounds. `rtc_advance` loops while a second has elapsed: the model gives it one
-- round more than the seconds elapsed, for a rate above zero. The words of an instruction after the
-- first are fetched on fuel 5, since their index runs from 1 to 5. `cpu_step` takes as its fuel a
-- bound on the rounds of a repeated block instruction. The count has 16 bits and falls by one in
-- each round, so that 65535 rounds are enough where the count register is not also a pointer; where
-- it is, the loop of the source need not end.
--
-- Not modelled: the run loop `machine_run` of src/bus.c with its counter tick, and the functions
-- there that allocate the machine and attach files; src/uexec.c, src/main.c, src/wire.c,
-- src/debug.c and src/hostfs.h, which are mostly I/O of the host, and tools/disk.py and the build
-- files. The system-call hook that src/uexec.c installs is a parameter. Traces to the host's
-- standard error (CSIM_MMU_DEBUG, CSIM_WATCH_PHYS, CSIM_TRACE_PC), the trace ring and breakpoints,
-- which print or stop a debugging session, are left out.
pub mod Base
pub mod Alu
pub mod Cpu
pub mod Mmu
pub mod Rtc
pub mod Bus
pub mod Decode
pub mod Engine
