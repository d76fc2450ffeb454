-- ===== src/Sockets/Stream.antt =====
-- A connected socket as a reliable byte stream.
use netpipe5_dev.Base.{ℕ, ◌≤◌, ◌<◌, ◌≡◌, ◌≢◌, List, [], ◌++◌, some, length, take, ℤ}
use netpipe5_dev.Sockets.{Sockets}

-- What is still to be read from a socket, and what was written to it. A read returns some of the
-- next bytes and a write takes some of those given; both may fall short, but a write of a few bytes
-- does not (`small_whole`, on which SendRepeat and Sync rely).
pub record IsStream {W : Type 0} (net : Sockets W) (fd : ℤ) : Type 0 where
  pub inbox : W → List ℕ
  pub outbox : W → List ℕ
  pub read_some :
      (n : ℕ) (w : W)
      → 0 < n
      → inbox w ≢ []
      → (bs : List ℕ) × (w' : W) × (net.read fd n w ≡ (some bs, w'))
        × (0 < length bs)
        × (length bs ≤ n)
        × (inbox w ≡ bs ++ inbox w')
        × (outbox w' ≡ outbox w)
  pub write_some :
      (bs : List ℕ) (w : W)
      → bs ≢ []
      → (n : ℕ) × (w' : W) × (net.write fd bs w ≡ (some n, w'))
        × (0 < n)
        × (n ≤ length bs)
        × (outbox w' ≡ outbox w ++ take n bs)
        × (inbox w' ≡ inbox w)
  pub small_whole :
      (bs : List ℕ) (w : W)
      → length bs ≤ 6
      → (w' : W) × (net.write fd bs w ≡ (some (length bs), w'))
        × (outbox w' ≡ outbox w ++ bs)
        × (inbox w' ≡ inbox w)
