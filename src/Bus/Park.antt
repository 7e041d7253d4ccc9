-- ===== src/Bus/Park.antt =====
-- The park watch of src/bus.c: a halted guest that a periodic interrupt keeps waking. The trace
-- under C900_PARK_DEBUG changes no state.
use commodore_900_emulator.Base.{
  ℕ, ◌+◌, Bool, true, false, not, ◌&&◌, ◌==◌, ltb, if◌then◌else◌, u64, all_below,
}

-- `ParkWatch`, its signature from `regs` on.
pub record ParkWatch : Type 0 where
  pub budget : ℕ
  pub loops : ℕ
  pub awake : ℕ
  pub was_halted : Bool
  pub valid : Bool
  pub regs : ℕ → ℕ
  pub pc : ℕ
  pub fcw : ℕ
  pub tx : ℕ
  pub inq : ℕ
  pub seq : ℕ

-- What `park_step` reads of the machine: the CPU, `last_tx_insn`, `inq_pos` and `prompt_seq`.
pub record Guest : Type 0 where
  pub halted : Bool
  pub regs : ℕ → ℕ
  pub pc : ℕ
  pub fcw : ℕ
  pub last_tx_insn : ℕ
  pub inq_pos : ℕ
  pub prompt_seq : ℕ

abbrev pub park_awake : ℕ
park_awake = 100000

unfoldable pub park_init : ℕ → ParkWatch
park_init budget = record {
  budget = budget;
  loops = 0;
  awake = 0;
  was_halted = false;
  valid = false;
  regs = λ _. 0;
  pc = 0;
  fcw = 0;
  tx = 0;
  inq = 0;
  seq = 0;
}

unfoldable pub park_reset : ParkWatch → ParkWatch
unfolding park_init
park_reset p = park_init p.budget

unfoldable pub is_same : ParkWatch → Guest → Bool
unfolding all_below
is_same p g =
    p.valid
    && (g.pc == p.pc)
    && (g.fcw == p.fcw)
    && all_below 16 (λ i. g.regs i == p.regs i)
    && (g.last_tx_insn == p.tx)
    && (g.inq_pos == p.inq)
    && (g.prompt_seq == p.seq)

unfoldable pub take_signature : ParkWatch → Guest → ParkWatch
take_signature p g = record p {
  loops = 0;
  valid = true;
  regs = g.regs;
  pc = g.pc;
  fcw = g.fcw;
  tx = g.last_tx_insn;
  inq = g.inq_pos;
  seq = g.prompt_seq;
}

-- An iteration that is not halted.
unfoldable pub park_woken : ParkWatch → ParkWatch
unfolding park_reset
park_woken p =
    let a = u64 (p.awake + 1) in
    let p1 =
      if ltb park_awake a then record (park_reset p) { awake = a } else record p { awake = a } in
    record p1 { was_halted = false }

-- A halted iteration, up to the count.
unfoldable pub park_look : ParkWatch → Guest → ParkWatch
unfolding is_same take_signature
park_look p0 g =
    let p = record p0 { awake = 0 } in
    let p1 = if p.was_halted then p else if is_same p g then p else take_signature p g in
    record p1 { was_halted = true }

-- The watch afterwards, and whether the run should end.
unfoldable pub park_step : ParkWatch → Guest → ParkWatch × Bool
unfolding park_woken park_look
park_step p g =
    if not g.halted
    then (park_woken p, false)
    else (let p1 = park_look p g in
        if p1.valid
        then (let p2 = record p1 { loops = u64 (p1.loops + 1) } in (p2, ltb p2.budget p2.loops))
        else (p1, false))
