-- ===== src/Tcp/Setup/Connect.antt =====
-- src/tcp.c: the loop of establish that tries to connect.
use netpipe5_dev.Base.{ℕ, zero, suc, ◌<◌, ◌≡◌, refl, arith, ℤ, true}
use netpipe5_dev.Effect.{done, truth}
use netpipe5_dev.Machine.{Machine}
use netpipe5_dev.Sockets.{Sockets, Address, Connect, connected, refused}
use netpipe5_dev.Tcp.{Tcp}
use netpipe5_dev.Tcp.Setup.{connect_loop, establish}

-- From `w`, `k` calls of connect are refused and the next gives `result`, in state `w'`.
pub data Answers {W : Type 0} (net : Sockets W) (fd : ℤ) (a : Address) (result : Connect) (w' : W)
    : ℕ → W → Type 0 where
  now : (w : W) → net.connect fd a w ≡ (result, w') → Answers net fd a result w' 0 w
  later :
      (k : ℕ) (w v : W)
      → net.connect fd a w ≡ (refused, v)
      → Answers net fd a result w' k v
      → Answers net fd a result w' (suc k) w

module _ {W : Type 0} (net : Sockets W) where
  connects :
      (tries k : ℕ) (w w' : W) (m : Machine Tcp W)
      → Answers net (m.args.commfd) (m.prot.sin1) connected w' k w
      → truth m.prot.doing_reset ≡ true
      → k < tries
      → connect_loop net tries (record m { sys = w }) ≡ done tt (record m { sys = w' })
  unfolding connect_loop
  connects zero k w w' m a resetting enough = absurd (omega arith)
  connects (suc tries) zero _ w' m (now w e) resetting enough = rw e refl
  connects (suc tries) (suc _) _ w' m (later k w v e rest) resetting enough =
      rw e (rw resetting (connects tries k v w' m rest resetting (omega arith)))

  -- During a reset a transmitter whose neighbour refuses k connections and takes the next is
  -- connected by establish in any number of tries above k, with no change but in the system.
  pub establish_connects :
      (tries k : ℕ) (w' : W) (m : Machine Tcp W)
      → Answers net (m.args.commfd) (m.prot.sin1) connected w' k m.sys
      → truth m.args.tr ≡ true
      → truth m.prot.doing_reset ≡ true
      → k < tries
      → establish net tries m ≡ done tt (record m { sys = w' })
  unfolding establish
  establish_connects tries k w' m a tr resetting enough =
      rw tr (connects tries k m.sys w' m a resetting enough)
