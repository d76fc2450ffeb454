-- ===== src/Ibv/Transfer/Silent.antt =====
-- RecvData with event completion, when the event channel gives nothing.
use netpipe5_dev.Base.{ℕ, ◌≡◌, Option, none, some}
use netpipe5_dev.Effect.{◌>>◌}
use netpipe5_dev.Machine.{Machine}
use netpipe5_dev.Verbs.{Verbs, event}
use netpipe5_dev.Ibv.{Ibv, ThreadAt, waits, ended}

-- Which queues give their events to which channel: a look at a channel gives only a queue of that
-- channel, and puts no queue on it.
pub record Channels {W : Type 0} (verbs : Verbs W) : Type 1 where
  pub OnChannel : ℕ → ℕ → W → Type 0
  pub event_law :
      (channel cq : ℕ) (w : W)
      → (verbs.get_cq_event channel w).0 ≡ event cq
      → OnChannel cq channel w
  pub event_keeps :
      (channel cq : ℕ) (w : W)
      → OnChannel cq channel (verbs.get_cq_event channel w).1
      → OnChannel cq channel w

-- The thread has not been started, waits for an event, or has ended.
pub data Unwoken : Option ThreadAt → Type 0 where
  not_started : Unwoken none
  waiting : Unwoken (some waits)
  given_up : Unwoken (some ended)

module _ {W : Type 0} {verbs : Verbs W} (channels : Channels verbs) where
  -- The flag is down, the thread has no event, and no queue is on the channel 0.
  pub record Dozing (m : Machine Ibv W) : Type 0 where
    pub flag_is : m.prot.receive_complete ≡ 0
    pub thread_is : Unwoken m.prot.event_thread
    pub no_queue : (cq : ℕ) → ¬ channels.OnChannel cq 0 m.sys
