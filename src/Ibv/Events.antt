-- ===== src/Ibv/Events.antt =====
-- src/ibv.c: EventThread and event_handler, one step at a time, since they run beside the program.
-- The step ends where the thread looks at something that another may change: the event channel, the
-- completion queue, or the flag `receive_complete`.
pub mod Counted
use netpipe5_dev.Base.{ℕ, ◌==◌, negsuc, true, false, none, some}
use netpipe5_dev.Effect.{M, ◌>>=◌, ◌>>◌, gets, exit, skip, defined}
use netpipe5_dev.Machine.{Machine, call, set_prot}
use netpipe5_dev.Verbs.{Verbs, empty, broken, completed, pending, no_event, event}
use netpipe5_dev.Ibv.{Ibv, ThreadAt, waits, polls, holds, ended, settle}

module _ {W : Type 0} where
  abbrev pub thread_to : ThreadAt → M (Machine Ibv W) (Unit {0})
  thread_to at = set_prot (λ t. record t { event_thread = some at })

  -- `if (receive_complete == 1) while (receive_complete != 0);  receive_complete = 1;`, which is
  -- left while the loop goes round.
  abbrev pub raise_flag : ℕ → M (Machine Ibv W) (Unit {0})
  raise_flag cq = set_prot (λ t. record t { receive_complete = 1; event_thread = some (polls cq) })

module _ {W : Type 0} (verbs : Verbs W) where
  -- One round of the loop of event_handler: an empty queue ends it, after the next notification of
  -- the receive queue is asked for.
  abbrev pub poll_step : ℕ → M (Machine Ibv W) (Unit {0})
  poll_step cq = do
    settle verbs
    found ← call (verbs.poll_cq cq)
    elim found [
      | empty ↦ do
        t ← gets (λ m. m.prot)
        r_cq ← defined t.r_cq_hndl
        call (verbs.req_notify_cq r_cq)
        thread_to waits
      | broken ↦ exit (negsuc 0)
      | completed good ↦ do
        set_prot (λ t. record t { wc_success = good })
        t ← gets (λ m. m.prot)
        elim good [
          | false ↦ exit (negsuc 0)
          | true ↦ elim (t.receive_complete == 1) [
            | true ↦ thread_to (holds cq)
            | false ↦ raise_flag cq
          ]
        ]
    ]

  -- The channel is the number 0, where no channel was made and the queues have none.
  abbrev pub thread_step : ThreadAt → M (Machine Ibv W) (Unit {0})
  thread_step waits = do
    e ← call (verbs.get_cq_event 0)
    elim e [ pending ↦ skip | no_event ↦ thread_to ended | event cq ↦ thread_to (polls cq) ]
  thread_step (polls cq) = poll_step cq
  thread_step (holds cq) = do
    t ← gets (λ m. m.prot)
    elim (t.receive_complete == 0) [ true ↦ raise_flag cq | false ↦ skip ]
  thread_step ended = skip

  -- One step of the thread, if it was started.
  unfoldable pub event_step : M (Machine Ibv W) (Unit {0})
  event_step = do
    t ← gets (λ m. m.prot)
    elim t.event_thread [ none ↦ skip | some at ↦ thread_step at ]
