-- ===== src/Netpipe/Session.antt =====
-- One side of a measurement: the machine from the allocation of the buffers to their release.
pub mod Steps
pub mod Data
pub mod Complete
pub mod Sides
use netpipe5_dev.Base.{ℕ, ◌≡◌, ◌≢◌, List, Option, some, length}
use netpipe5_dev.Memory.{at}
use netpipe5_dev.Machine.{Machine, Args, Message}
use netpipe5_dev.Netpipe.Run.{Protocol}
use netpipe5_dev.Netpipe.Delivery.{Delivers}

module _ {P W : Type 0} {proto : Protocol P W} {Ready : Args → Type 0}
    (d : Delivers proto Ready) where
  -- What holds of the machine between the calls: its arguments are `A`, the blocks `b` and `c` hold
  -- the receive and the send buffer, all other blocks are those of `old`, `due` is still to come
  -- and `sent` went out.
  pub record Running (old : ℕ → Option (List ℕ)) (A : Args) (b c avail : ℕ) (printed : List Message)
      (r_bytes s_bytes due sent : List ℕ) (m : Machine P W) : Type 0 where
    pub args_are : m.args ≡ A
    pub r_live : m.heap.block b ≡ some r_bytes
    pub s_live : m.heap.block c ≡ some s_bytes
    pub others : (x : ℕ) → x ≢ b → x ≢ c → m.heap.block x ≡ old x
    pub avail_is : m.heap.avail ≡ avail
    pub printed_is : m.printed ≡ printed
    pub async_is : m.async_receive ≡ 0
    pub due_is : d.inbox m.sys ≡ due
    pub sent_is : d.outbox m.sys ≡ sent

-- The arguments once the buffers of `n` bytes are in place.
pub record Placed (A : Args) (b c n : ℕ) : Type 0 where
  pub no_cache : A.cache ≡ 0
  pub r_buff_at : A.r_buff ≡ at b 0
  pub s_buff_at : A.s_buff ≡ at c 0
  pub r_ptr_at : A.r_ptr ≡ at b 0
  pub s_ptr_at : A.s_ptr ≡ at c 0
  pub r_orig_at : A.r_buff_orig ≡ at b 0
  pub s_orig_at : A.s_buff_orig ≡ at c 0
  pub bufflen_is : A.bufflen ≡ n
