-- ===== src/Ib/Handler.antt =====
-- src/ib.c: event_handler, which the library runs beside the program, one step at a time. A step ends
-- where the handler looks at the completion queue or at the flag `receive_complete`.
use netpipe5_dev.Base.{ℕ, ◌==◌, negsuc, true, false, none, some}
use netpipe5_dev.Effect.{M, ◌>>=◌, ◌>>◌, gets, exit, skip}
use netpipe5_dev.Machine.{Machine, call, set_prot}
use netpipe5_dev.Verbs.{empty, broken, completed}
use netpipe5_dev.Polling.{arrive}
use netpipe5_dev.Ib.{Vapi, Ib, HandlerAt, away, polling, holding}

module _ {W : Type 0} where
  abbrev pub handler_to : HandlerAt → M (Machine Ib W) (Unit {0})
  handler_to at = set_prot (λ t. record t { handler = at })

  -- `receive_complete = 1;` and the loop goes round.
  abbrev pub completed_one : ℕ → ℕ → M (Machine Ib W) (Unit {0})
  completed_one hca cq = set_prot (λ t. record t { receive_complete = 1; handler = polling hca cq })

module _ {W : Type 0} (vapi : Vapi W) where
  -- An empty queue ends the handler, after the next notification of the receive queue is asked for.
  abbrev pub handler_poll : ℕ → ℕ → M (Machine Ib W) (Unit {0})
  handler_poll hca cq = do
    arrive vapi.dma
    found ← call (vapi.poll_cq (some hca) (some cq))
    elim found [
      | empty ↦ do
        t ← gets (λ (m : Machine Ib W). m.prot)
        call (vapi.req_comp_notif t.hca_hndl t.r_cq_hndl)
        handler_to away
      | broken ↦ exit (negsuc 0)
      | completed good ↦ do
        set_prot (λ t. record t { wc_success = good })
        t ← gets (λ (m : Machine Ib W). m.prot)
        elim good [
          | false ↦ exit (negsuc 0)
          | true ↦ elim (t.receive_complete == 1) [
            | true ↦ handler_to (holding hca cq)
            | false ↦ completed_one hca cq
          ]
        ]
    ]

  abbrev pub handler_step_at : HandlerAt → M (Machine Ib W) (Unit {0})
  handler_step_at away = do
    called ← call (vapi.handler_call)
    elim called [ none ↦ skip | some (hca, cq) ↦ handler_to (polling hca cq) ]
  handler_step_at (polling hca cq) = handler_poll hca cq
  handler_step_at (holding hca cq) = do
    t ← gets (λ (m : Machine Ib W). m.prot)
    elim (t.receive_complete == 0) [ true ↦ completed_one hca cq | false ↦ skip ]

  unfoldable pub handler_step : M (Machine Ib W) (Unit {0})
  handler_step = do t ← gets (λ (m : Machine Ib W). m.prot); handler_step_at t.handler
