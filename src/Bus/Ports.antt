-- ===== src/Bus/Ports.antt =====
-- Stores through a channel's pointer: what they change and what they leave.
use commodore_900_emulator.Base.{
  ℕ, ◌+◌, ◌-◌, ◌*◌, ◌<◌, ◌≡◌, ◌≢◌, refl, arith, true, ◌||◌, ◌==◌, bit_xor, Option, none, some,
  if_keeps, all_below, all_below_eq,
}
use commodore_900_emulator.Bus.Scc.{
  SccChan, Serial, scc_port, scc_chan_of, port_fitted, port_chan, put_port,
}
use commodore_900_emulator.Bus.Console.{share_reg, share_with, set_wr}

pub port_put-same : (m : Serial) (p : ℕ) (c : SccChan) → port_chan (put_port p c m) p ≡ c
unfolding port_chan put_port
port_put-same m p c = ground arith

pub port_put-other :
    (m : Serial) (p q : ℕ) (c : SccChan) → p ≢ q → port_chan (put_port p c m) q ≡ port_chan m q
unfolding port_chan put_port
port_put-other m p q c ne = ground arith

pub fitted-put :
    (m : Serial) (p q : ℕ) (c : SccChan) → port_fitted (put_port p c m) q ≡ port_fitted m q
unfolding port_fitted put_port
fitted-put m p q c = ground arith

pub chan_found :
    (m : Serial) (chip chan : ℕ)
    → port_fitted m (chip * 2 + chan) ≡ true
    → scc_chan_of m chip chan ≡ some (port_chan m (chip * 2 + chan))
unfolding scc_chan_of scc_port
chan_found m chip chan fitted = rw fitted refl

pub other_chan : (c : ℕ) → c < 2 → bit_xor c 1 ≡ 1 - c
unfolding all_below
other_chan c lt = all_below_eq 2 (λ c. bit_xor c 1) (λ c. 1 - c) refl c lt

pub share_with-same :
    (m : Serial) (p q r v : ℕ) (o : Option SccChan)
    → p ≢ q
    → port_chan (share_with m p r v o) q ≡ port_chan m q
unfolding share_with
share_with-same m p q r v none ne = refl
share_with-same m p q r v (some o) ne = port_put-other m p q (set_wr r v o) ne

-- A write that is shared with the other channel leaves this one alone.
pub share_reg-same :
    (m : Serial) (chip chan r v : ℕ)
    → chan < 2
    → port_chan (share_reg m chip chan r v) (chip * 2 + chan) ≡ port_chan m (chip * 2 + chan)
unfolding share_reg
share_reg-same m chip chan r v lt =
    if_keeps (λ s. port_chan s (chip * 2 + chan) ≡ port_chan m (chip * 2 + chan))
      ((r == 2) || (r == 9))
      (share_with-same m (chip * 2 + bit_xor chan 1) (chip * 2 + chan) r v
        (scc_chan_of m chip (bit_xor chan 1)) (λ e. omega (arith, other_chan chan lt)))
      refl

pub share_with-fitted :
    (m : Serial) (p r v q : ℕ) (o : Option SccChan)
    → port_fitted (share_with m p r v o) q ≡ port_fitted m q
unfolding share_with
share_with-fitted m p r v q none = refl
share_with-fitted m p r v q (some o) = fitted-put m p q (set_wr r v o)

pub share_reg-fitted :
    (m : Serial) (chip chan r v q : ℕ) → port_fitted (share_reg m chip chan r v) q ≡ port_fitted m q
unfolding share_reg
share_reg-fitted m chip chan r v q =
    if_keeps (λ s. port_fitted s q ≡ port_fitted m q) ((r == 2) || (r == 9))
      (share_with-fitted m (chip * 2 + bit_xor chan 1) r v q (scc_chan_of m chip (bit_xor chan 1)))
      refl
