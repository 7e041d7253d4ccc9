-- ===== src/Rtc/Counters.antt =====
-- The register file of the clock module and the digit counters of src/bus.c.
use commodore_900_emulator.Base.{
  ℕ, ◌+◌, ◌*◌, ◌/◌, ◌%◌, Bool, not, ◌&&◌, ◌||◌, bit_and, bit_or, bit_xor, has, ◌==◌, ltb,
  if◌then◌else◌, u8, shl, shr, update,
}

-- `RTC` of src/emu.h. `regs` has 16 entries.
-- The statistics such as `n_tick` are 64-bit counters that no run is long enough to wrap; here they have
-- no bound.
pub record Rtc : Type 0 where
  pub present : Bool
  pub regs : ℕ → ℕ
  pub addr : ℕ
  pub stopped : Bool
  pub prev_pb : ℕ
  pub prev_cs : Bool
  pub cs_since : ℕ
  pub ips : ℕ
  pub base : ℕ
  pub held : ℕ
  pub n_read : ℕ
  pub n_write : ℕ
  pub n_tick : ℕ
  pub n_tick_selected : ℕ

-- `r->regs[i] = (uint8_t)v`
abbrev pub set_reg : ℕ → ℕ → Rtc → Rtc
set_reg i v r = record r { regs = update r.regs i (u8 v) }

abbrev month_days : ℕ → ℕ
month_days mo =
    if mo == 2 then 28 else if (mo == 4) || (mo == 6) || (mo == 9) || (mo == 11) then 30 else 31

unfoldable pub rtc_mlen : ℕ → Bool → ℕ
rtc_mlen mo leap =
    if ltb mo 1 || ltb 12 mo then 31 else if (mo == 2) && leap then 29 else month_days mo

unfoldable pub rtc_year_tick : Rtc → Rtc
rtc_year_tick r =
    let y = bit_and (r.regs 0x0C) 0x0F * 10 + bit_and (r.regs 0x0B) 0x0F in
    let y' = (y + 1) % 100 in
    let r1 = set_reg 0x0B (y' % 10) r in
    let r2 = set_reg 0x0C (y' / 10) r1 in
    set_reg 0x08
      (bit_or (bit_and (r2.regs 0x08) 0x03) (shl (bit_and (shr (r2.regs 0x08) 2 + 3) 3) 2)) r2

-- The month's carry: the next month, or January of the next year.
unfoldable pub rtc_month_carry : ℕ → Rtc → Rtc
unfolding rtc_year_tick
rtc_month_carry mo r =
    let over = ltb 12 (mo + 1) in
    let mo' = if over then 1 else mo + 1 in
    let r1 = if over then rtc_year_tick r else r in
    let r2 = set_reg 0x09 (mo' % 10) r1 in
    set_reg 0x0A (bit_or (bit_and (r2.regs 0x0A) 0x0E) (mo' / 10)) r2

unfoldable pub rtc_day_tick : Rtc → Rtc
unfolding rtc_mlen rtc_month_carry
rtc_day_tick r =
    let d = bit_and (r.regs 0x08) 0x03 * 10 + bit_and (r.regs 0x07) 0x0F in
    let mo = bit_and (r.regs 0x0A) 0x01 * 10 + bit_and (r.regs 0x09) 0x0F in
    let leap = bit_and (shr (r.regs 0x08) 2) 3 == 0 in
    let r1 = set_reg 0x06 ((r.regs 0x06 + 1) % 7) r in
    let over = ltb (rtc_mlen mo leap) (d + 1) in
    let d' = if over then 1 else d + 1 in
    let r2 = if over then rtc_month_carry mo r1 else r1 in
    let r3 = set_reg 0x07 (d' % 10) r2 in
    set_reg 0x08 (bit_or (bit_and (r3.regs 0x08) 0x0C) (d' / 10)) r3

unfoldable pub rtc_hour_tick : Rtc → Rtc
unfolding rtc_day_tick
rtc_hour_tick r =
    let h10 = r.regs 0x05 in
    let h = bit_and h10 0x03 * 10 + bit_and (r.regs 0x04) 0x0F in
    if has h10 0x08
    then (let over = ltb 23 (h + 1) in
        let h' = if over then 0 else h + 1 in
        let r1 = if over then rtc_day_tick r else r in
        set_reg 0x05 (bit_or 0x08 (h' / 10)) (set_reg 0x04 (h' % 10) r1))
    else (let pm = bit_and h10 0x04 in
        let h' = if ltb 12 (h + 1) then 1 else h + 1 in
        let flips = not (ltb 12 (h + 1)) && (h + 1 == 12) in
        let pm' = if flips then bit_xor pm 0x04 else pm in
        let r1 = if flips && (pm' == 0) then rtc_day_tick r else r in
        set_reg 0x05 (bit_or pm' (h' / 10)) (set_reg 0x04 (h' % 10) r1))

-- A digit counter: its next value, and whether it carries past `top`.
abbrev bump : ℕ → Rtc → ℕ
bump i r = u8 (r.regs i + 1)

unfoldable pub rtc_tick : Rtc → Rtc
rtc_tick r0 =
    let r = record r0 { n_tick = r0.n_tick + 1 } in
    if not (ltb 9 (bump 0x00 r))
    then set_reg 0x00 (bump 0x00 r) r
    else (let r1 = set_reg 0x00 0 r in
        if not (ltb 5 (bump 0x01 r1))
        then set_reg 0x01 (bump 0x01 r1) r1
        else (let r2 = set_reg 0x01 0 r1 in
            if not (ltb 9 (bump 0x02 r2))
            then set_reg 0x02 (bump 0x02 r2) r2
            else (let r3 = set_reg 0x02 0 r2 in
                if not (ltb 5 (bump 0x03 r3))
                then set_reg 0x03 (bump 0x03 r3) r3
                else rtc_hour_tick (set_reg 0x03 0 r3))))
