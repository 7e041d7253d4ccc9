-- ===== src/Rtc/Clock.antt =====
-- The time of day that the digit counters hold, in the 24-hour mode.
use commodore_900_emulator.Base.{
  ℕ, ◌+◌, ◌-◌, ◌*◌, ◌/◌, ◌%◌, ◌≤◌, ◌≡◌, arith, true, bit_and, bit_or, has, bit_and_mask,
  bit_or_fields, bit_and_bit, dec_lt,
}
use commodore_900_emulator.Rtc.Counters.{Rtc, set_reg, rtc_day_tick, rtc_hour_tick, rtc_tick}

-- Every digit of the time of day is in range, and the hours register says 24-hour mode.
pub record IsClock (r : Rtc) : Type 0 where
  pub s1 : r.regs 0x00 ≤ 9
  pub s10 : r.regs 0x01 ≤ 5
  pub mi1 : r.regs 0x02 ≤ 9
  pub mi10 : r.regs 0x03 ≤ 5
  pub h1 : r.regs 0x04 ≤ 9
  pub h10_low : 8 ≤ r.regs 0x05
  pub h10_high : r.regs 0x05 ≤ 10
  pub hour : (r.regs 0x05 - 8) * 10 + r.regs 0x04 ≤ 23

abbrev pub hours : Rtc → ℕ
hours r = (r.regs 0x05 - 8) * 10 + r.regs 0x04

-- Seconds since midnight.
abbrev pub seconds : Rtc → ℕ
seconds r = r.regs 0x01 * 10 + r.regs 0x00 + 60 * (r.regs 0x03 * 10 + r.regs 0x02) + 3600 * hours r

-- A day's carry touches the calendar alone.
record IsSameTime (r s : Rtc) : Type 0 where
  k0 : s.regs 0x00 ≡ r.regs 0x00
  k1 : s.regs 0x01 ≡ r.regs 0x01
  k2 : s.regs 0x02 ≡ r.regs 0x02
  k3 : s.regs 0x03 ≡ r.regs 0x03
  k4 : s.regs 0x04 ≡ r.regs 0x04
  k5 : s.regs 0x05 ≡ r.regs 0x05

day_tick-IsSameTime : (r : Rtc) → IsSameTime r (rtc_day_tick r)
unfolding rtc_day_tick
day_tick-IsSameTime r = ground arith

-- The hours register, and the hour that `rtc_hour_tick` reads from it.
hour_facts :
    (r : Rtc)
    → IsClock r
    → (bit_and (r.regs 0x05) 0x03 ≡ r.regs 0x05 - 8)
      × (bit_and (r.regs 0x04) 0x0F ≡ r.regs 0x04)
      × (has (r.regs 0x05) 0x08 ≡ true)
hour_facts r c = (
  omega (arith, bit_and_mask 2 (r.regs 0x05)),
  omega (arith, bit_and_mask 4 (r.regs 0x04)),
  ground (arith, bit_and_bit 3 (r.regs 0x05)),
)

join_tens : (h : ℕ) → h ≤ 23 → bit_or 0x08 (h / 10) ≡ 8 + h / 10
join_tens h le = bit_or_fields 3 1 (h / 10) (omega arith)

-- The hour that follows, with the day's carry at midnight.
record IsNextHour (r s : Rtc) : Type 0 where
  low0 : s.regs 0x00 ≡ r.regs 0x00
  low1 : s.regs 0x01 ≡ r.regs 0x01
  low2 : s.regs 0x02 ≡ r.regs 0x02
  low3 : s.regs 0x03 ≡ r.regs 0x03
  ones : s.regs 0x04 ≡ (hours r + 1) % 24 % 10
  tens : s.regs 0x05 ≡ 8 + (hours r + 1) % 24 / 10

hour_tick-IsNextHour : (r : Rtc) → IsClock r → IsNextHour r (rtc_hour_tick r)
unfolding rtc_hour_tick
hour_tick-IsNextHour r c =
    let (tens, ones, mode) = hour_facts r c in
    let k = day_tick-IsSameTime r in
    rw (mode, tens, ones) (ground (arith, join_tens 0, join_tens (hours r + 1)))

-- One second: the time of day goes on by one, modulo a day, and stays in range.
pub record IsNextSecond (r s : Rtc) : Type 0 where
  pub clock : IsClock s
  pub next : seconds s ≡ (seconds r + 1) % 86400

hour_clock :
    (r s : Rtc)
    → IsClock r
    → r.regs 0x00 ≡ 9
    → r.regs 0x01 ≡ 5
    → r.regs 0x02 ≡ 9
    → r.regs 0x03 ≡ 5
    → s.regs 0x00 ≡ 0
    → s.regs 0x01 ≡ 0
    → s.regs 0x02 ≡ 0
    → s.regs 0x03 ≡ 0
    → s.regs 0x04 ≡ (hours r + 1) % 24 % 10
    → s.regs 0x05 ≡ 8 + (hours r + 1) % 24 / 10
    → IsNextSecond r s
hour_clock r s c e0 e1 e2 e3 z0 z1 z2 z3 ones tens = record {
  clock = record {
    s1 = omega arith;
    s10 = omega arith;
    mi1 = omega arith;
    mi10 = omega arith;
    h1 = omega arith;
    h10_low = omega arith;
    h10_high = omega arith;
    hour = omega arith;
  };
  next = omega arith;
}

-- The clock at the top of an hour, its count of seconds `n` given.
top : ℕ → Rtc → Rtc
top n r =
    set_reg 0x03 0 (set_reg 0x02 0 (set_reg 0x01 0 (set_reg 0x00 0 (record r { n_tick = n }))))

top-IsClock : (n : ℕ) (r : Rtc) → IsClock r → IsClock (top n r)
unfolding top
top-IsClock n r c = record {
  s1 = omega arith;
  s10 = omega arith;
  mi1 = omega arith;
  mi10 = omega arith;
  h1 = c.h1;
  h10_low = c.h10_low;
  h10_high = c.h10_high;
  hour = c.hour;
}

tick_hour :
    (r : Rtc)
    → IsClock r
    → r.regs 0x00 ≡ 9
    → r.regs 0x01 ≡ 5
    → r.regs 0x02 ≡ 9
    → r.regs 0x03 ≡ 5
    → IsNextSecond r (rtc_hour_tick (top (r.n_tick + 1) r))
unfolding top
tick_hour r c e0 e1 e2 e3 =
    let n = hour_tick-IsNextHour (top (r.n_tick + 1) r) (top-IsClock (r.n_tick + 1) r c) in
    hour_clock r (rtc_hour_tick (top (r.n_tick + 1) r)) c e0 e1 e2 e3 n.low0 n.low1 n.low2 n.low3
      n.ones n.tens

tick_s1 : (r : Rtc) → IsClock r → r.regs 0x00 ≤ 8 → IsNextSecond r (rtc_tick r)
unfolding rtc_tick
tick_s1 r c le = ground arith

tick_s10 : (r : Rtc) → IsClock r → r.regs 0x00 ≡ 9 → r.regs 0x01 ≤ 4 → IsNextSecond r (rtc_tick r)
unfolding rtc_tick
tick_s10 r c e0 le = rw e0 (ground arith)

tick_mi1 :
    (r : Rtc)
    → IsClock r
    → r.regs 0x00 ≡ 9
    → r.regs 0x01 ≡ 5
    → r.regs 0x02 ≤ 8
    → IsNextSecond r (rtc_tick r)
unfolding rtc_tick
tick_mi1 r c e0 e1 le = rw (e0, e1) (ground arith)

tick_mi10 :
    (r : Rtc)
    → IsClock r
    → r.regs 0x00 ≡ 9
    → r.regs 0x01 ≡ 5
    → r.regs 0x02 ≡ 9
    → r.regs 0x03 ≤ 4
    → IsNextSecond r (rtc_tick r)
unfolding rtc_tick
tick_mi10 r c e0 e1 e2 le = rw (e0, e1, e2) (ground arith)

tick_full :
    (r : Rtc)
    → IsClock r
    → r.regs 0x00 ≡ 9
    → r.regs 0x01 ≡ 5
    → r.regs 0x02 ≡ 9
    → r.regs 0x03 ≡ 5
    → IsNextSecond r (rtc_tick r)
unfolding rtc_tick top
tick_full r c e0 e1 e2 e3 = rw (e0, e1, e2, e3) (tick_hour r c e0 e1 e2 e3)

-- The tick of a clock in the 24-hour mode whose digits are all in range is one second later,
-- modulo a day of 86400 seconds, and its digits are in range again.
pub tick-IsNextSecond : (r : Rtc) → IsClock r → IsNextSecond r (rtc_tick r)
tick-IsNextSecond r c = elim (dec_lt (r.regs 0x00) 9) [
  | yes lt ↦ tick_s1 r c (omega arith)
  | no h0 ↦ elim (dec_lt (r.regs 0x01) 5) [
    | yes lt ↦ tick_s10 r c (omega arith) (omega arith)
    | no h1 ↦ elim (dec_lt (r.regs 0x02) 9) [
      | yes lt ↦ tick_mi1 r c (omega arith) (omega arith) (omega arith)
      | no h2 ↦ elim (dec_lt (r.regs 0x03) 5) [
        | yes lt ↦ tick_mi10 r c (omega arith) (omega arith) (omega arith) (omega arith)
        | no h3 ↦ tick_full r c (omega arith) (omega arith) (omega arith) (omega arith)
      ]
    ]
  ]
]
