-- ===== src/Rtc/Tests.antt =====
-- Runs of the clock module, and its theorems at concrete inputs.
use commodore_900_emulator.Base.{ℕ, ◌≡◌, ◌==◌, if◌then◌else◌, refl, arith, true, false}
use commodore_900_emulator.Rtc.Counters.{Rtc, rtc_hour_tick, rtc_tick}
use commodore_900_emulator.Rtc.Pins.{rtc_advance}
use commodore_900_emulator.Rtc.Clock.{IsClock, IsNextSecond, tick-IsNextSecond}
use commodore_900_emulator.Rtc.Elapsed.{
  IsCounting, IsSettled, IsLater, rtc_advance-IsSettled, rtc_advance-IsLater,
}

-- 23:59:59 on the 31st of December.
abbrev last_second : ℕ → ℕ
last_second a =
    if a == 0
    then 9
    else if a == 1
    then 5
    else if a == 2
    then 9
    else if a == 3
    then 5
    else if a == 4
    then 3
    else if a == 5
    then 10
    else if a == 7
    then 1
    else if a == 8
    then 3
    else if a == 9
    then 2
    else if a == 10
    then 1
    else 0

abbrev clock : Rtc
clock = record {
  present = true;
  regs = last_second;
  addr = 0;
  stopped = false;
  prev_pb = 0;
  prev_cs = false;
  cs_since = 0;
  ips = 1000;
  base = 500;
  held = 0;
  n_read = 0;
  n_write = 0;
  n_tick = 0;
  n_tick_selected = 0;
}

-- A second later it is the 1st of January.
new_year : (rtc_tick clock).regs 0x07 ≡ 1
unfolding rtc_tick rtc_hour_tick
new_year = refl

clock-IsClock : IsClock clock
clock-IsClock = record {
  s1 = omega arith;
  s10 = omega arith;
  mi1 = omega arith;
  mi10 = omega arith;
  h1 = omega arith;
  h10_low = omega arith;
  h10_high = omega arith;
  hour = omega arith;
}

tick-IsNextSecond_example : IsNextSecond clock (rtc_tick clock)
tick-IsNextSecond_example = tick-IsNextSecond clock clock-IsClock

clock-IsCounting : IsCounting 4200 clock
clock-IsCounting = record {
  rate = omega arith;
  ips_fits = omega arith;
  now_fits = omega arith;
  base_fits = omega arith;
}

rtc_advance-IsSettled_example : IsSettled 4200 clock (rtc_advance 4200 0 clock)
rtc_advance-IsSettled_example = rtc_advance-IsSettled 4200 0 clock clock-IsCounting refl refl

rtc_advance-IsLater_example : IsLater clock (rtc_advance 4200 0 clock)
rtc_advance-IsLater_example = rtc_advance-IsLater 4200 0 clock clock-IsClock
