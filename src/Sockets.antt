-- ===== src/Sockets.antt =====
-- The sockets of the system, which the code calls and does not implement: a parameter. A call takes
-- the state of the system and returns its result with the new state.
pub mod Stream
use netpipe5_dev.Base.{ℕ, ℤ, List, Option}

-- `struct sockaddr_in`
pub record Address : Type 0 where
  pub family : ℕ
  pub addr : ℕ
  pub port : ℕ

-- What `connect` says: success, ECONNREFUSED, or another errno.
pub data Connect : Type 0 where
  connected refused unreachable : Connect

-- `int` results are ℤ; a count or -1 is an option.
pub record Sockets (W : Type 0) : Type 0 where
  pub read : ℤ → ℕ → W → Option (List ℕ) × W
  pub write : ℤ → List ℕ → W → Option ℕ × W
  pub socket : ℕ → W → ℤ × W
  pub getprotobyname : W → Option ℕ × W
  -- the socket, the level, the option and its value
  pub setsockopt : ℤ → ℕ → ℕ → ℕ → W → ℤ × W
  pub getsockopt : ℤ → ℕ → ℕ → W → ℕ × W
  pub inet_addr : List ℕ → ℕ
  -- address family and address of a host name
  pub gethostbyname : List ℕ → W → Option (ℕ × ℕ) × W
  pub bind : ℤ → Address → W → ℤ × W
  pub listen : ℤ → W → ℤ × W
  pub accept : ℤ → W → (ℤ × Address) × W
  pub connect : ℤ → Address → W → Connect × W
  pub close : ℤ → W → ℤ × W
