-- ===== src/Bus/Registers.antt =====
-- The register file of a serial channel behind its register pointer.
use commodore_900_emulator.Base.{
  ℕ, ◌+◌, ◌*◌, ◌≤◌, ◌<◌, ◌≡◌, ◌≢◌, refl, ◌∙◌, ap, arith, true, false, ◌==◌, bit_and_mask, all_below,
  all_below_eq,
}
use commodore_900_emulator.Bus.Scc.{SccChan, Serial, port_fitted, port_chan, put_port}
use commodore_900_emulator.Bus.Console.{
  scc_read, scc_write, read_at, write_at, read_reg, reg_of, command, share_reg, set_wr,
}
use commodore_900_emulator.Bus.Ports.{
  port_put-same, fitted-put, chan_found, share_reg-same, share_reg-fitted,
}

-- A byte below 16 in WR0 selects the register of that number.
select : ℕ → ℕ
unfolding command
select r =
    (command
      (record {
        wr = λ _. 0;
        ptr = 0;
        rx_avail = false;
        rx_data = 0;
        rx_overrun = false;
        rx_lost = 0;
      })
      r).ptr

command-ptr : (ch : SccChan) (r : ℕ) → r < 16 → (command ch r).ptr ≡ r
unfolding command select all_below
command-ptr ch r lt = all_below_eq 16 select (λ r. r) refl r lt

command-wr : (ch : SccChan) (r : ℕ) → (command ch r).wr ≡ ch.wr
unfolding command
command-wr ch r = refl

-- The three ways that a write goes.
write-command :
    (m : Serial) (chip chan a v : ℕ)
    → port_fitted m (chip * 2 + chan) ≡ true
    → reg_of (port_chan m (chip * 2 + chan)) a ≡ 0
    → scc_write m chip chan a v
      ≡ put_port
          (chip * 2 + chan)
          (command (record (port_chan m (chip * 2 + chan)) { ptr = 0 }) v)
          m
unfolding scc_write write_at
write-command m chip chan a v fitted e = rw (chan_found m chip chan fitted) (rw e refl)

write-register :
    (m : Serial) (chip chan a v r : ℕ)
    → port_fitted m (chip * 2 + chan) ≡ true
    → reg_of (port_chan m (chip * 2 + chan)) a ≡ r
    → r ≢ 0
    → r ≢ 8
    → scc_write m chip chan a v
      ≡ share_reg
          (put_port
            (chip * 2 + chan)
            (set_wr r v (record (port_chan m (chip * 2 + chan)) { ptr = 0 }))
            m)
          chip
          chan
          r
          v
unfolding scc_write write_at
write-register m chip chan a v r fitted e n0 n8 =
    let f0 : (r == 0) ≡ false = ground arith in
    let f8 : (r == 8) ≡ false = ground arith in
    rw (chan_found m chip chan fitted) (rw (e, f0, f8) refl)

read-register :
    (m : Serial) (chip chan a r : ℕ)
    → port_fitted m (chip * 2 + chan) ≡ true
    → reg_of (port_chan m (chip * 2 + chan)) a ≡ r
    → 4 ≤ r
    → r < 16
    → r ≢ 8
    → (scc_read m chip chan a).1 ≡ (port_chan m (chip * 2 + chan)).wr r
unfolding scc_read read_at read_reg
read-register m chip chan a r fitted e low high n8 =
    rw (chan_found m chip chan fitted) (rw e (ground (arith, bit_and_mask 4 r)))

-- The register of channel `chan` of `chip` that is next addressed, and the channel's fittings.
record IsPointing (m : Serial) (chip chan r : ℕ) : Type 0 where
  fitted : port_fitted m (chip * 2 + chan) ≡ true
  points : (port_chan m (chip * 2 + chan)).ptr ≡ r

reg_of-ptr : (ch : SccChan) (a r : ℕ) → ch.ptr ≡ r → r ≢ 0 → reg_of ch a ≡ r
unfolding reg_of
reg_of-ptr ch a r e ne = ground arith

reg_of-zero : (ch : SccChan) → ch.ptr ≡ 0 → reg_of ch 0 ≡ 0
unfolding reg_of
reg_of-zero ch e = ground (arith, bit_and_mask 4 0)

point_lem :
    (m : Serial) (chip chan r : ℕ)
    → r < 16
    → IsPointing m chip chan 0
    → IsPointing (scc_write m chip chan 0 r) chip chan r
point_lem m chip chan r lt p =
    rw
      (write-command m chip chan 0 r p.fitted
        (reg_of-zero (port_chan m (chip * 2 + chan)) p.points))
      (record {
        fitted = fitted-put m _ _ _ ∙ p.fitted;
        points = ap (λ c. c.ptr) (port_put-same m _ _) ∙ command-ptr _ r lt;
      })

-- A write to the register that is pointed at, and the pointer after it.
record IsStored (m : Serial) (chip chan r v : ℕ) : Type 0 where
  ready : IsPointing m chip chan 0
  value : (port_chan m (chip * 2 + chan)).wr r ≡ v

store_lem :
    (m : Serial) (chip chan a r v : ℕ)
    → chan < 2
    → r ≢ 0
    → r ≢ 8
    → IsPointing m chip chan r
    → IsStored (scc_write m chip chan a v) chip chan r v
store_lem m chip chan a r v lt n0 n8 p =
    let port = chip * 2 + chan in
    let ch = set_wr r v (record (port_chan m port) { ptr = 0 }) in
    let s = share_reg-same (put_port port ch m) chip chan r v lt ∙ port_put-same m port ch in
    rw
      (write-register m chip chan a v r p.fitted (reg_of-ptr (port_chan m port) a r p.points n0) n0
        n8)
      (record {
        ready = record {
          fitted =
              share_reg-fitted (put_port port ch m) chip chan r v port
              ∙ fitted-put m port port ch
              ∙ p.fitted;
          points = ap (λ c. c.ptr) s;
        };
        value = ap (λ c. c.wr r) s ∙ ground arith;
      })

point-wr :
    (m : Serial) (chip chan r k : ℕ)
    → IsPointing m chip chan 0
    → (port_chan (scc_write m chip chan 0 r) (chip * 2 + chan)).wr k
      ≡ (port_chan m (chip * 2 + chan)).wr k
point-wr m chip chan r k p =
    rw
      (write-command m chip chan 0 r p.fitted
        (reg_of-zero (port_chan m (chip * 2 + chan)) p.points))
      (ap (λ c. c.wr k) (port_put-same m _ _)
        ∙ ap (λ w. w k) (command-wr (record (port_chan m (chip * 2 + chan)) { ptr = 0 }) r))

-- On a channel that is fitted and has its pointer at 0: after the number `r` of a register from 4
-- to 15 other than 8 is written to WR0 and `v` to any address, the same number in WR0 and a read of
-- any address give `v`.
pub scc_read-scc_write :
    (m : Serial) (chip chan a b r v : ℕ)
    → chan < 2
    → 4 ≤ r
    → r < 16
    → r ≢ 8
    → port_fitted m (chip * 2 + chan) ≡ true
    → (port_chan m (chip * 2 + chan)).ptr ≡ 0
    → (scc_read
        (scc_write (scc_write (scc_write m chip chan 0 r) chip chan a v) chip chan 0 r)
        chip
        chan
        b).1
      ≡ v
scc_read-scc_write m chip chan a b r v lt low high n8 fitted zero_ptr =
    let n0 : r ≢ 0 = λ e. omega arith in
    let m1 = scc_write m chip chan 0 r in
    let m2 = scc_write m1 chip chan a v in
    let m3 = scc_write m2 chip chan 0 r in
    let first = point_lem m chip chan r high (record { fitted = fitted; points = zero_ptr }) in
    let stored = store_lem m1 chip chan a r v lt n0 n8 first in
    let again = point_lem m2 chip chan r high stored.ready in
    read-register m3 chip chan b r again.fitted
      (reg_of-ptr (port_chan m3 (chip * 2 + chan)) b r again.points n0) low high n8
    ∙ point-wr m2 chip chan r r stored.ready
    ∙ stored.value
