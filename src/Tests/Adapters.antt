-- ===== src/Tests/Adapters.antt =====
-- The OpenFabrics module at concrete machines with a small adapter.
use netpipe5_dev.Base.{true, arith, ◌≡◌, refl, some, [], ◌∷◌}
use netpipe5_dev.Base.{pos}
use netpipe5_dev.Effect.{done}
use netpipe5_dev.Machine.{Machine}
use netpipe5_dev.Ibv.{Ibv}
use netpipe5_dev.Ibv.Device.{connect_qp, init_ib, finalize_ib}
use netpipe5_dev.Ibv.Device.Acquire.{Ends}
use netpipe5_dev.Ibv.Device.Ledger.{nothing}
use netpipe5_dev.Ibv.Device.Release.{finalize_ib-Owned}
use netpipe5_dev.Ibv.Device.Whole.{Released, finalize_ib-init_ib}
use netpipe5_dev.Verbs.{event, completed, to_init, to_rtr, to_rts, remote_access}
use netpipe5_dev.Ibv.Device.Connected.{connect_qp_lem}
use netpipe5_dev.Ibv.{waits, polls, holds}
use netpipe5_dev.Ibv.Events.{event_step}
use netpipe5_dev.Ibv.Events.Counted.{Counted}
use netpipe5_dev.Ibv.Transfer.{recv_data, wait_flag}
use netpipe5_dev.Ibv.Transfer.Signals.{begins, thread_moves, receives, Reaches-Counted}
use netpipe5_dev.Netpipe.Object.{zero_args}
use netpipe5_dev.Tests.Adapter.{
  Adapter, small_counter, small_wires, small_verbs, small_net, small_ledger, idle_ibv, idle_adapter,
  adapted,
}

-- The neighbour has local id 9 and queue pair 300, and answers the synchronisation.
abbrev greeted : Machine Ibv Adapter
greeted = adapted idle_ibv (record idle_adapter {
  incoming = 9 ∷ 0 ∷ 44 ∷ 1 ∷ 0 ∷ 0 ∷ 83 ∷ 121 ∷ 110 ∷ 99 ∷ 77 ∷ 101 ∷ [];
})

finalize_ib-init_ib_example : Ends (Released small_ledger) (init_ib small_verbs small_net greeted)
finalize_ib-init_ib_example = finalize_ib-init_ib small_ledger greeted (record {
  held_is = refl;
  ctx_is = refl;
  pd_is = refl;
  s_cq_is = refl;
  r_cq_is = refl;
  qp_is = refl;
})

abbrev made_up : Machine Ibv Adapter
made_up =
    adapted
      (record idle_ibv {
        ctx = some 1;
        pd_hndl = some 2;
        s_cq_hndl = some 3;
        r_cq_hndl = some 4;
        qp_hndl = some (record { handle = 5; qp_num = 77 });
        r_mr_hndl = some (record { handle = 6; lkey = 5; rkey = 6 });
        s_mr_hndl = some (record { handle = 7; lkey = 5; rkey = 6 });
      })
      (record idle_adapter {
        held = record {
          devices = 1 ∷ [];
          domains = 2 ∷ [];
          queues = 4 ∷ 3 ∷ [];
          pairs = 5 ∷ [];
          regions = 7 ∷ 6 ∷ [];
        };
        made = 7;
      })

finalize_ib-Owned_example :
    (w : Adapter) × (finalize_ib small_verbs made_up ≡ done tt (record made_up { sys = w }))
    × (w.held ≡ nothing)
finalize_ib-Owned_example = finalize_ib-Owned small_ledger made_up (record { held_is = refl })

-- With event completion: an event comes, then two completions.
abbrev awake : Ibv
awake = record idle_ibv {
  commtype = 0;
  comptype = 2;
  r_cq_hndl = some 4;
  event_thread = some waits;
}

abbrev busy : Adapter
busy = record idle_adapter { events = event 4 ∷ []; polls = completed true ∷ completed true ∷ [] }

abbrev bursting : Ibv → Adapter → Machine Ibv Adapter
bursting prot sys = record (adapted prot sys) { args = record zero_args { preburst = 1 } }

abbrev asleep : Machine Ibv Adapter
asleep = bursting awake busy

abbrev called : Machine Ibv Adapter
called = bursting (record awake { event_thread = some (polls 4) }) (record busy { events = [] })

abbrev raised : Machine Ibv Adapter
raised =
    bursting
      (record awake { event_thread = some (polls 4); receive_complete = 1; wc_success = true })
      (record busy { events = []; polls = completed true ∷ []; taken = 1 })

abbrev held_back : Machine Ibv Adapter
held_back =
    bursting
      (record awake { event_thread = some (holds 4); receive_complete = 1; wc_success = true })
      (record busy { events = []; polls = []; taken = 2 })

abbrev taken_up : Machine Ibv Adapter
taken_up =
    bursting
      (record awake { event_thread = some (holds 4); receive_complete = 0; wc_success = true })
      (record busy { events = []; polls = []; taken = 2 })

awake_step : event_step small_verbs asleep ≡ done tt called
unfolding event_step
awake_step = refl

called_step : event_step small_verbs called ≡ done tt raised
unfolding event_step
called_step = refl

raised_step : event_step small_verbs raised ≡ done tt held_back
unfolding event_step
raised_step = refl

held_back_received : recv_data small_verbs 1 held_back ≡ done tt taken_up
unfolding recv_data wait_flag
held_back_received = refl

Reaches-Counted_example : Counted small_counter 1 taken_up
Reaches-Counted_example =
    Reaches-Counted small_counter asleep taken_up 1
      (record { queue = 4; queue_is = refl; flag_le = omega arith; sum_is = refl })
      (receives 0 1 held_back taken_up
        (thread_moves 0 raised held_back
          (thread_moves 0 called raised (thread_moves 0 asleep called begins awake_step)
            called_step)
          raised_step)
        (record {
          commtype_is = λ e. absurd (omega (arith, e));
          comptype_is = refl;
          preburst_is = refl;
        })
        held_back_received)

-- Past the creation of the queue pair.
abbrev paired : Machine Ibv Adapter
paired =
    adapted
      (record idle_ibv {
        lid = 21;
        port_num = 1;
        r_cq_hndl = some 4;
        qp_hndl = some (record { handle = 5; qp_num = 77 });
      })
      (record idle_adapter {
        incoming = 9 ∷ 0 ∷ 44 ∷ 1 ∷ 0 ∷ 0 ∷ 83 ∷ 121 ∷ 110 ∷ 99 ∷ 77 ∷ 101 ∷ [];
      })

connect_qp_example :
    (w : Adapter) × (connect_qp small_verbs small_net paired
      ≡ done
          (pos 0)
          (record paired { prot = record (paired.prot) { d_lid = 9; d_qp_num = 300 }; sys = w }))
    × (w.incoming ≡ [])
    × (w.outgoing ≡ 21 ∷ 0 ∷ 77 ∷ 0 ∷ 0 ∷ 0 ∷ 83 ∷ 121 ∷ 110 ∷ 99 ∷ 77 ∷ 101 ∷ [])
    × (w.changes ≡ to_init 0 1 remote_access ∷ to_rtr 3 300 9 1 0 1 5 ∷ to_rts 31 1 1 0 1 ∷ [])
connect_qp_example =
    connect_qp_lem small_wires paired refl (record { handle = 5; qp_num = 77 }) 9 300 [] refl
      (λ e. absurd (omega (arith, e))) (omega arith) (omega arith) refl
