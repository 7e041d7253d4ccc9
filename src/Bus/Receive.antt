-- ===== src/Bus/Receive.antt =====
-- The receivers of the serial ports, when the run is without `--rx-overrun`.
use commodore_900_emulator.Base.{
  ℕ, ◌+◌, ◌≡◌, refl, ◌∙◌, ap, arith, Bool, true, false, not, ◌&&◌, if◌then◌else◌, u8, Option, none,
  some, for_loop_inv, if_keeps, if_cases,
}
use commodore_900_emulator.Bus.Scc.{SccChan, Serial, scc_port, port_fitted, port_chan, put_port}
use commodore_900_emulator.Bus.Console.{scc_rx_deliver, offer, service_port, scc_wire_service}

-- No port loses a character: an unread one stays, and no overrun is counted or latched.
pub record IsLossless (m s : Serial) : Type 0 where
  pub unread : (p : ℕ) → (port_chan m p).rx_avail ≡ true → port_chan s p ≡ port_chan m p
  pub lost : (p : ℕ) → (port_chan s p).rx_lost ≡ (port_chan m p).rx_lost
  pub overrun : (p : ℕ) → (port_chan s p).rx_overrun ≡ (port_chan m p).rx_overrun
  pub mode : s.rx_overrun_on ≡ m.rx_overrun_on

put-same :
    (m : Serial) (p : ℕ) (ch : SccChan)
    → (port_chan m p).rx_avail ≡ false
    → ch.rx_lost ≡ (port_chan m p).rx_lost
    → ch.rx_overrun ≡ (port_chan m p).rx_overrun
    → IsLossless m (put_port p ch m)
unfolding port_chan put_port
put-same m p ch free lost over = record {
  unread = λ q. ground arith;
  lost = λ q. ground arith;
  overrun = λ q. ground arith;
  mode = ground arith;
}

same : (m : Serial) → IsLossless m m
same m = record { unread = λ p a. refl; lost = λ p. refl; overrun = λ p. refl; mode = refl }

deliver_lem :
    (m : Serial) (p b : ℕ)
    → m.rx_overrun_on ≡ false
    → IsLossless m (
        if (port_chan m p).rx_avail && not m.rx_overrun_on
        then m
        else put_port p (scc_rx_deliver m (port_chan m p) b) m)
unfolding scc_rx_deliver
deliver_lem m p b off =
    if_cases (IsLossless m) ((port_chan m p).rx_avail && not m.rx_overrun_on) (λ e. same m)
      (λ e.
        put-same m p (scc_rx_deliver m (port_chan m p) b) (ground (arith, e, off))
          (ground (arith, off)) (ground (arith, off)))

service_port-IsLossless :
    (poll : ℕ → Option ℕ) (p : ℕ) (m : Serial)
    → m.rx_overrun_on ≡ false
    → IsLossless m (service_port poll p m)
unfolding service_port offer scc_port
service_port-IsLossless poll p m off =
    if_keeps (IsLossless m) (m.wire_port_on p) (go (port_fitted m p) (poll p)) (same m)
  where
    go :
        (f : Bool) (wb : Option ℕ)
        → IsLossless m (offer m p (if f then some (port_chan m p) else none) wb)
    go false wb = same m
    go true none = same m
    go true (some b) = deliver_lem m p (u8 b) off

chain : (m s t : Serial) → IsLossless m s → IsLossless s t → IsLossless m t
chain m s t f g = record {
  unread = λ p a. g.unread p (ap (λ c. c.rx_avail) (f.unread p a) ∙ a) ∙ f.unread p a;
  lost = λ p. g.lost p ∙ f.lost p;
  overrun = λ p. g.overrun p ∙ f.overrun p;
  mode = g.mode ∙ f.mode;
}

-- Whatever the host endpoints offer, a pass over the wired receivers without `--rx-overrun` keeps
-- every unread character, its whole channel unchanged, and counts and latches no overrun.
pub scc_wire_service-IsLossless :
    (poll : ℕ → Option ℕ) (m : Serial)
    → m.rx_overrun_on ≡ false
    → IsLossless m (scc_wire_service poll m)
unfolding scc_wire_service
scc_wire_service-IsLossless poll m off =
    for_loop_inv (λ _ s. IsLossless m s) 5 (λ i. service_port poll (i + 1)) m
      (λ i s lt h. chain m s _ h (service_port-IsLossless poll (i + 1) s (h.mode ∙ off))) (same m)
