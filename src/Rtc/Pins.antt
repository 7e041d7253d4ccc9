-- ===== src/Rtc/Pins.antt =====
-- The divider and the pin protocol of the clock module in src/bus.c. What the functions read of the
-- machine is an argument: `insns` is `m->cpu.insns`, `pc` is `m->cio1[CIO_PCDATA]` and `pbdd` is
-- `m->cio1[CIO_PBDD]`.
use commodore_900_emulator.Base.{
  ℕ, zero, suc, ◌+◌, ◌-◌, ◌/◌, ◌%◌, ◌^◌, Bool, true, false, not, ◌&&◌, ◌||◌, bit_and, bit_or, has,
  ◌==◌, ltb, leb, bne, if◌then◌else◌, u8, u64, shl, complement,
}
use commodore_900_emulator.Rtc.Counters.{Rtc, set_reg, rtc_tick}

abbrev pub rtc_pb_d : ℕ
rtc_pb_d = 0x0F

abbrev pub rtc_pb_read_pin : ℕ
rtc_pb_read_pin = 0x10

abbrev pub rtc_pb_write_pin : ℕ
rtc_pb_write_pin = 0x20

abbrev pub rtc_pb_adwr : ℕ
rtc_pb_adwr = 0x40

abbrev pub rtc_pb_stop : ℕ
rtc_pb_stop = 0x80

-- `rtc_rdmask[16]`
abbrev pub rtc_rdmask : ℕ → ℕ
rtc_rdmask a =
    if (a == 1) || (a == 3) || (a == 6)
    then 0x07
    else if a == 10
    then 0x01
    else if ltb 12 a
    then 0x00
    else 0x0F

unfoldable pub rtc_cs : ℕ → Bool
rtc_cs pc = bit_and pc 0x02 == 0

-- One second of `rtc_advance`. The difference of two 64-bit counters wraps.
unfoldable pub rtc_second : ℕ → Rtc → Rtc
unfolding rtc_cs
rtc_second pc r =
    let r1 = rtc_tick (record r { base = u64 (r.base + r.ips) }) in
    if rtc_cs pc && leb r1.cs_since r1.base
    then record r1 { n_tick_selected = r1.n_tick_selected + 1 }
    else r1

-- The loop of `rtc_advance`, on fuel.
unfoldable pub advance_loop : ℕ → ℕ → ℕ → Rtc → Rtc
advance_loop zero pc now r = r
advance_loop (suc fuel) pc now r =
    let rest = advance_loop fuel pc now (rtc_second pc r) in
    if leb r.ips (u64 (now + 2 ^ 64 - r.base)) then rest else r

-- Every round takes `ips` off the difference, so that as many rounds as it is large are enough for
-- a divider rate above zero.
unfoldable pub rtc_advance : ℕ → ℕ → Rtc → Rtc
unfolding advance_loop
rtc_advance insns pc r =
    if not r.present || r.stopped
    then r
    else advance_loop (u64 (insns + 2 ^ 64 - r.base) / r.ips + 1) pc insns r

unfoldable pub rtc_set_stop : ℕ → ℕ → Bool → Rtc → Rtc
unfolding rtc_advance
rtc_set_stop insns pc stop r =
    if not (bne stop r.stopped)
    then r
    else if stop
    then (let r1 = rtc_advance insns pc r in
        record r1 { held = u64 (insns + 2 ^ 64 - r1.base); stopped = true })
    else record r { base = u64 (insns + 2 ^ 64 - r.held); stopped = false }

-- The strobes of `rtc_pb_write`, which act while /CS is asserted.
unfoldable pub rtc_strobes : ℕ → ℕ → Rtc → Rtc
rtc_strobes insns v r =
    let r1 =
      if has v rtc_pb_adwr && not (has r.prev_pb rtc_pb_adwr)
      then record r { addr = bit_and v rtc_pb_d }
      else r in
    if has v rtc_pb_write_pin && not (has r.prev_pb rtc_pb_write_pin)
    then (let r2 = record r1 { n_write = r1.n_write + 1 } in
        if r2.addr == 0x0D
        then record r2 { base = insns; held = 0 }
        else set_reg r2.addr (bit_and v rtc_pb_d) r2)
    else r1

unfoldable pub rtc_pb_write : ℕ → ℕ → ℕ → Rtc → Rtc
unfolding rtc_cs rtc_strobes rtc_set_stop
rtc_pb_write insns pc v r =
    if not r.present
    then r
    else (let r1 = if rtc_cs pc && not r.prev_cs then record r { cs_since = insns } else r in
        let r2 = rtc_advance insns pc (record r1 { prev_cs = rtc_cs pc }) in
        let r3 = if rtc_cs pc then rtc_strobes insns v r2 else r2 in
        rtc_set_stop insns pc (has v rtc_pb_stop) (record r3 { prev_pb = v }))

-- The level that the port reads back, with the clock afterwards.
unfoldable pub rtc_pb_read : ℕ → ℕ → ℕ → ℕ → Rtc → ℕ × Rtc
unfolding rtc_cs
rtc_pb_read insns pc pbdd latch r =
    if not r.present
    then (latch, r)
    else (let r1 = rtc_advance insns pc r in
        let din = bit_and pbdd rtc_pb_d in
        if not (rtc_cs pc) || not (has latch rtc_pb_read_pin)
        then (latch, r1)
        else if din == 0
        then (latch, r1)
        else (let v = bit_and (r1.regs r1.addr) (rtc_rdmask r1.addr) in
            let v' =
              if (r1.addr == 0x05) && has (r1.regs 0x05) 0x08
              then bit_and v (complement 8 0x04)
              else v in
            (
              u8 (bit_or (bit_and latch (complement 8 din)) (bit_and v' din)),
              record r1 { n_read = r1.n_read + 1 },
            )))

-- `t[12]` of `rtc_wday`, whose index `(m-1) & 15` is below 12 for a month.
abbrev wday_offset : ℕ → ℕ
wday_offset m =
    if m == 1
    then 0
    else if m == 2
    then 3
    else if m == 3
    then 2
    else if m == 4
    then 5
    else if m == 5
    then 0
    else if m == 6
    then 3
    else if m == 7
    then 5
    else if m == 8
    then 1
    else if m == 9
    then 4
    else if m == 10
    then 6
    else if m == 11
    then 2
    else 4

-- For a year above 0 and a month from 1 to 12.
unfoldable pub rtc_wday : ℕ → ℕ → ℕ → ℕ
rtc_wday y m d =
    let y' = if ltb m 3 then y - 1 else y in
    (y' + y' / 4 - y' / 100 + y' / 400 + wday_offset m + d) % 7

unfoldable pub rtc_set_time : ℕ → ℕ → ℕ → ℕ → ℕ → ℕ → ℕ → Rtc → Rtc
unfolding rtc_wday
rtc_set_time insns y mo d h mi s r =
    record (set_reg 0x0C (y % 100 / 10) (
      set_reg 0x0B (y % 100 % 10) (
        set_reg 0x0A (mo / 10) (
          set_reg 0x09 (mo % 10) (
            set_reg 0x08 (bit_or (shl (bit_and (4 - bit_and y 3) 3) 2) (d / 10)) (
              set_reg 0x07 (d % 10) (
                set_reg 0x06 (rtc_wday y mo d) (
                  set_reg 0x05 (bit_or 0x08 (h / 10)) (
                    set_reg 0x04 (h % 10) (
                      set_reg 0x03 (mi / 10) (
                        set_reg 0x02 (mi % 10)
                          (set_reg 0x01 (s / 10) (set_reg 0x00 (s % 10) r))))))))))))) {
                            addr = 0;
                            prev_pb = 0;
                            stopped = false;
                            prev_cs = false;
                            cs_since = 0;
                            base = insns;
                            held = 0;
                            present = true;
                          }
