-- ===== src/Rtc/Elapsed.antt =====
-- How the instruction count drives the clock: the loop of `rtc_advance`.
use commodore_900_emulator.Base.{
  ℕ, zero, suc, ◌+◌, ◌-◌, ◌*◌, ◌/◌, ◌%◌, ◌≤◌, ◌<◌, ◌^◌, ◌≡◌, refl, arith, true, false, not, ◌&&◌,
  ◌||◌, leb, u64, if_cases, if_keeps, subst, sym, ap, ◌∙◌,
}
use native.Mathlib.Nat.{lt-div-mul-add}
use commodore_900_emulator.Rtc.Counters.{Rtc, rtc_tick}
use commodore_900_emulator.Rtc.Pins.{rtc_cs, rtc_second, advance_loop, rtc_advance}
use commodore_900_emulator.Rtc.Frame.{tick-same}
use commodore_900_emulator.Rtc.Clock.{IsClock, seconds, tick-IsNextSecond}

-- Instructions since the divider's second began.
abbrev pub elapsed : ℕ → Rtc → ℕ
elapsed now r = u64 (now + 2 ^ 64 - r.base)

-- The divider of `s` holds less than a second, and the seconds counted from `r` on are the whole
-- ones of what the divider of `r` held.
pub record IsSettled (now : ℕ) (r s : Rtc) : Type 0 where
  pub rest : elapsed now s < r.ips
  pub count : s.n_tick * r.ips + elapsed now s ≡ r.n_tick * r.ips + elapsed now r
  pub running : s.stopped ≡ r.stopped

-- The time of day of `s` is that of `r` and the seconds counted between.
pub record IsLater (r s : Rtc) : Type 0 where
  pub clock : IsClock s
  pub time : seconds s ≡ (seconds r + (s.n_tick - r.n_tick)) % 86400
  pub forward : r.n_tick ≤ s.n_tick

-- One round, as the loop meets it.
record IsRound (r s : Rtc) : Type 0 where
  ips : s.ips ≡ r.ips
  base : s.base ≡ u64 (r.base + r.ips)
  n_tick : s.n_tick ≡ r.n_tick + 1
  stopped : s.stopped ≡ r.stopped

second-IsRound : (pc : ℕ) (r : Rtc) → IsRound r (rtc_second pc r)
unfolding rtc_second
second-IsRound pc r =
    let t = rtc_tick (record r { base = u64 (r.base + r.ips) }) in
    let k = tick-same (record r { base = u64 (r.base + r.ips) }) in
    if_keeps (IsRound r) (rtc_cs pc && leb t.cs_since t.base)
      {x = record t { n_tick_selected = t.n_tick_selected + 1 }} {y = t}
      (record { ips = k.ips; base = k.base; n_tick = k.n_tick; stopped = k.stopped })
      (record { ips = k.ips; base = k.base; n_tick = k.n_tick; stopped = k.stopped })

add_round : (n i d e : ℕ) → i ≤ d → e ≡ d - i → (n + 1) * i + e ≡ n * i + d
add_round n i d e le eq = grind arith

elapsed_round :
    (now ips b c : ℕ)
    → now < 18446744073709551616
    → b < 18446744073709551616
    → ips < 18446744073709551616
    → c ≡ u64 (b + ips)
    → ips ≤ u64 (now + 18446744073709551616 - b)
    → u64 (now + 18446744073709551616 - c) ≡ u64 (now + 18446744073709551616 - b) - ips
elapsed_round now ips b c n bb i e le = omega arith

settle_round :
    (now : ℕ) (r t s : Rtc)
    → r.ips < 2 ^ 64
    → now < 2 ^ 64
    → r.base < 2 ^ 64
    → r.ips ≤ elapsed now r
    → IsRound r t
    → IsSettled now t s
    → IsSettled now r s
settle_round now r t s small n b le k h =
    let e = elapsed_round now r.ips r.base t.base n b small k.base le in
    let sum = add_round r.n_tick r.ips (elapsed now r) (elapsed now t) le e in
    record {
      rest = subst (λ i. elapsed now s < i) k.ips h.rest;
      count =
          subst (λ i. s.n_tick * i + elapsed now s ≡ t.n_tick * i + elapsed now t) k.ips h.count
          ∙ ap (λ m. m * r.ips + elapsed now t) k.n_tick
          ∙ sum;
      running = h.running ∙ k.stopped;
    }

below_round : (f i d : ℕ) → i ≤ d → d < suc f * i → d - i < f * i
below_round f i d le lt = grind arith

-- The divider's registers and rate are 64-bit counters, the rate above zero.
pub record IsCounting (now : ℕ) (r : Rtc) : Type 0 where
  pub rate : 0 < r.ips
  pub ips_fits : r.ips < 18446744073709551616
  pub now_fits : now < 18446744073709551616
  pub base_fits : r.base < 18446744073709551616

round-IsCounting : (now : ℕ) (r t : Rtc) → IsCounting now r → IsRound r t → IsCounting now t
round-IsCounting now r t c k = record {
  rate = subst (λ i. 0 < i) (sym k.ips) c.rate;
  ips_fits = subst (λ i. i < 18446744073709551616) (sym k.ips) c.ips_fits;
  now_fits = c.now_fits;
  base_fits = omega (arith, k.base);
}

loop-IsSettled :
    (fuel pc now : ℕ) (r : Rtc)
    → IsCounting now r
    → elapsed now r < fuel * r.ips
    → IsSettled now r (advance_loop fuel pc now r)
unfolding advance_loop
loop-IsSettled zero pc now r c enough = absurd (omega arith)
loop-IsSettled (suc fuel) pc now r c enough =
    let t = rtc_second pc r in
    let k = second-IsRound pc r in
    if_cases (IsSettled now r) (leb r.ips (elapsed now r))
      (λ e.
        let le : r.ips ≤ elapsed now r = ground (arith, e) in
        let gone =
          elapsed_round now r.ips r.base t.base c.now_fits c.base_fits c.ips_fits k.base le in
        let fewer = below_round fuel r.ips (elapsed now r) le enough in
        settle_round now r t _ c.ips_fits c.now_fits c.base_fits le k (
          loop-IsSettled fuel pc now t (round-IsCounting now r t c k) (
            subst (λ i. elapsed now t < fuel * i) (sym k.ips)
              (subst (λ d. d < fuel * r.ips) (sym gone) fewer))))
      (λ e. record { rest = ground (arith, e); count = refl; running = refl })

second-IsLater : (pc : ℕ) (r : Rtc) → IsClock r → IsLater r (rtc_second pc r)
unfolding rtc_second
second-IsLater pc r c =
    let r0 = record r { base = u64 (r.base + r.ips) } in
    let t = rtc_tick r0 in
    let k = tick-same r0 in
    let n = tick-IsNextSecond r0 (clock_of r r0 c refl) in
    if_keeps (IsLater r) (rtc_cs pc && leb t.cs_since t.base)
      {x = record t { n_tick_selected = t.n_tick_selected + 1 }} {y = t}
      (record {
        clock = clock_of t (record t { n_tick_selected = t.n_tick_selected + 1 }) n.clock refl;
        time = n.next ∙ ap (λ m. (seconds r + m) % 86400) (one k.n_tick);
        forward = omega (arith, k.n_tick);
      })
      (record {
        clock = n.clock;
        time = n.next ∙ ap (λ m. (seconds r + m) % 86400) (one k.n_tick);
        forward = omega (arith, k.n_tick);
      })
  where
    clock_of : (a b : Rtc) → IsClock a → b.regs ≡ a.regs → IsClock b
    clock_of a b c e = record {
      s1 = subst (λ f. f 0x00 ≤ 9) (sym e) c.s1;
      s10 = subst (λ f. f 0x01 ≤ 5) (sym e) c.s10;
      mi1 = subst (λ f. f 0x02 ≤ 9) (sym e) c.mi1;
      mi10 = subst (λ f. f 0x03 ≤ 5) (sym e) c.mi10;
      h1 = subst (λ f. f 0x04 ≤ 9) (sym e) c.h1;
      h10_low = subst (λ f. 8 ≤ f 0x05) (sym e) c.h10_low;
      h10_high = subst (λ f. f 0x05 ≤ 10) (sym e) c.h10_high;
      hour = subst (λ f. (f 0x05 - 8) * 10 + f 0x04 ≤ 23) (sym e) c.hour;
    }

    one : {m : ℕ} → m ≡ r.n_tick + 1 → 1 ≡ m - r.n_tick
    one e = omega (arith, e)

in_day : (r : Rtc) → IsClock r → seconds r < 86400
in_day r c = omega (arith, c.s1, c.s10, c.mi1, c.mi10, c.hour)

IsLater-chain : (r s t : Rtc) → IsLater r s → IsLater s t → IsLater r t
IsLater-chain r s t f g = record {
  clock = g.clock;
  time = omega (arith, f.time, g.time, f.forward, g.forward);
  forward = omega (arith, f.forward, g.forward);
}

stay : (r : Rtc) → IsClock r → IsLater r r
stay r c = record { clock = c; time = omega (arith, in_day r c); forward = omega arith }

loop-IsLater : (fuel pc now : ℕ) (r : Rtc) → IsClock r → IsLater r (advance_loop fuel pc now r)
unfolding advance_loop
loop-IsLater zero pc now r c = stay r c
loop-IsLater (suc fuel) pc now r c =
    let step = second-IsLater pc r c in
    if_keeps (IsLater r) (leb r.ips (elapsed now r))
      (IsLater-chain r (rtc_second pc r) _ step
        (loop-IsLater fuel pc now (rtc_second pc r) step.clock))
      (stay r c)

enough_fuel : (d i : ℕ) → 0 < i → d < (d / i + 1) * i
enough_fuel d i pos = grind (arith, lt-div-mul-add {a = d} {b = i} pos)

-- With a rate above zero and 64-bit counters, a running clock module is left with less than a second
-- in its divider, and has counted exactly the whole seconds that the instructions make up.
pub rtc_advance-IsSettled :
    (now pc : ℕ) (r : Rtc)
    → IsCounting now r
    → r.present ≡ true
    → r.stopped ≡ false
    → IsSettled now r (rtc_advance now pc r)
unfolding rtc_advance
rtc_advance-IsSettled now pc r c there runs =
    if_cases (IsSettled now r) (not r.present || r.stopped) (λ e. absurd (idle e))
      (λ e.
        loop-IsSettled (elapsed now r / r.ips + 1) pc now r c
          (enough_fuel (elapsed now r) r.ips c.rate))
  where
    idle : (not r.present || r.stopped) ≡ true → ⊥
    idle e = ground (arith, e, there, runs)

-- The clock of `r`, in the 24-hour mode and with its digits in range, goes on by the seconds counted, modulo a day,
-- and its digits stay in range.
pub rtc_advance-IsLater : (now pc : ℕ) (r : Rtc) → IsClock r → IsLater r (rtc_advance now pc r)
unfolding rtc_advance
rtc_advance-IsLater now pc r c =
    if_keeps (IsLater r) (not r.present || r.stopped) (stay r c)
      (loop-IsLater (elapsed now r / r.ips + 1) pc now r c)
