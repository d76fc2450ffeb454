-- ===== src/Tcgmsg/Ends.antt =====
-- src/tcgmsg.c: the two ends of the measurement, as Setup gives them.
use netpipe5_dev.Base.{ℕ, ◌-◌, ◌≤◌, ◌≡◌, refl, arith, ltb, ◌==◌, true, false}
use netpipe5_dev.Effect.{done}
use netpipe5_dev.Machine.{Machine}
use netpipe5_dev.Tcgmsg.{TcgmsgLibrary, Tcgmsg, tcgmsg_setup}

-- The machine after Setup, as this end with this neighbour.
abbrev pub at_end : {W : Type 0} → Machine Tcgmsg W → W → ℕ → ℕ → ℕ → ℕ → Machine Tcgmsg W
at_end m w nid nbor tr rcv = record m {
  args = record (m.args) { tr = tr; rcv = rcv };
  prot = record { nid = nid; nbor = nbor };
  sys = w;
}

module _ {W : Type 0} (lib : TcgmsgLibrary W) where
  -- In a world of n TCGMSG processes, two or more, the Setup of the TCGMSG module makes process 0
  -- the transmitter and process n - 1 the receiver, each the neighbour of the other.
  tcgmsg_setup_pairs :
      (n : ℕ) (first last : Machine Tcgmsg W) (v w v' w' : W)
      → 2 ≤ n
      → lib.nnodes first.sys ≡ (n, v)
      → lib.nodeid v ≡ (0, w)
      → lib.nnodes last.sys ≡ (n, v')
      → lib.nodeid v' ≡ (n - 1, w')
      → (tcgmsg_setup lib first ≡ done tt (at_end first w 0 (n - 1) 1 0))
        × (tcgmsg_setup lib last ≡ done tt (at_end last w' (n - 1) 0 0 1))
  unfolding tcgmsg_setup
  tcgmsg_setup_pairs n first last v w v' w' two size id size' id' = (
    rw (size, id) (rw (enough n two) refl),
    rw (size', id') (rw (enough n two, later n two, same n) refl),
  )
    where
      enough : (n : ℕ) → 2 ≤ n → ltb n 2 ≡ false
      enough n h = ground arith

      later : (n : ℕ) → 2 ≤ n → (n - 1 == 0) ≡ false
      later n h = ground arith

      same : (n : ℕ) → (n - 1 == n - 1) ≡ true
      same n = ground arith
