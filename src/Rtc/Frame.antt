-- ===== src/Rtc/Frame.antt =====
-- What the counters of the clock module leave alone.
use commodore_900_emulator.Base.{ℕ, ◌+◌, ◌≡◌, refl, arith}
use commodore_900_emulator.Rtc.Counters.{
  Rtc, rtc_month_carry, rtc_day_tick, rtc_hour_tick, rtc_tick,
}

-- The divider and the pins of `r` and `s` agree.
pub record IsSameDivider (r s : Rtc) : Type 0 where
  pub present : s.present ≡ r.present
  pub stopped : s.stopped ≡ r.stopped
  pub ips : s.ips ≡ r.ips
  pub base : s.base ≡ r.base
  pub cs_since : s.cs_since ≡ r.cs_since
  pub addr : s.addr ≡ r.addr
  pub n_tick : s.n_tick ≡ r.n_tick

abbrev same : (r : Rtc) → IsSameDivider r r
same r = record {
  present = refl;
  stopped = refl;
  ips = refl;
  base = refl;
  cs_since = refl;
  addr = refl;
  n_tick = refl;
}

month_carry-same : (mo : ℕ) (r : Rtc) → IsSameDivider r (rtc_month_carry mo r)
unfolding rtc_month_carry
month_carry-same mo r = ground arith

day_tick-same : (r : Rtc) → IsSameDivider r (rtc_day_tick r)
unfolding rtc_day_tick
day_tick-same r = ground arith

hour_tick-same : (r : Rtc) → IsSameDivider r (rtc_hour_tick r)
unfolding rtc_hour_tick
hour_tick-same r = ground arith

-- A second changes the registers and the count of seconds alone.
pub tick-same : (r : Rtc) → IsSameDivider (record r { n_tick = r.n_tick + 1 }) (rtc_tick r)
unfolding rtc_tick rtc_hour_tick
tick-same r = ground arith
