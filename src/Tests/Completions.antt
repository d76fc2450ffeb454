-- ===== src/Tests/Completions.antt =====
-- The waits of the OpenFabrics module for the last byte of a message, at concrete machines.
use netpipe5_dev.Base.{arith, ℕ, ◌≡◌, ◌==◌, if◌then◌else◌, refl, none, some, List, [], ◌∷◌}
use netpipe5_dev.Effect.{done, hung}
use netpipe5_dev.Memory
use netpipe5_dev.Memory.{at, Heap}
use netpipe5_dev.Memory.Laws.{stored}
use netpipe5_dev.Machine.{Machine}
use netpipe5_dev.Verbs.{Verbs, CqEvent, event, pending}
use netpipe5_dev.Ibv.{Ibv, waits, np_comm_sendrecv, np_comp_event}
use netpipe5_dev.Ibv.Transfer.Silent.{Channels}
use netpipe5_dev.Ibv.Transfer.{recv_data}
use netpipe5_dev.Ibv.Transfer.Bytes.{stands, comes, recv_data-Arrives, recv_data_starves}
use netpipe5_dev.Netpipe.Object.{zero_args}
use netpipe5_dev.Tests.World.{small_heap}
use netpipe5_dev.Tests.Adapter.{Adapter, small_verbs, idle_ibv, idle_adapter, adapted}

abbrev holding : List ℕ → Heap
holding bytes = record small_heap { next = 1; block = λ b. if b == 0 then some bytes else none }

-- A receive buffer of two bytes.
abbrev buffered : List ℕ → Machine Ibv Adapter
buffered bytes = record (adapted idle_ibv idle_adapter) {
  args = record zero_args { bufflen = 2; r_buff = at 0 0; r_ptr = at 0 0 };
  heap = holding bytes;
}

-- An adapter that writes the message "zb".
abbrev writing : Verbs Adapter
writing = record small_verbs { dma = λ h w. (holding (122 ∷ 98 ∷ []), w) }

abbrev put_down : Heap
put_down = stored (holding (122 ∷ 98 ∷ [])) 0 1 (97 ∷ []) (122 ∷ 98 ∷ [])

recv_data-Arrives_example :
    recv_data writing 2 (buffered (0 ∷ 0 ∷ []))
    ≡ done tt (record (buffered (122 ∷ 98 ∷ [])) { heap = put_down })
unfolding Memory.load Memory.slice Memory.store Memory.splice
recv_data-Arrives_example =
    recv_data-Arrives writing 2 1 1 (buffered (0 ∷ 0 ∷ [])) (buffered (122 ∷ 98 ∷ [])) put_down refl
      refl
      (comes 0 0 (buffered (0 ∷ 0 ∷ [])) (buffered (122 ∷ 98 ∷ [])) refl
        (λ e. absurd (omega (arith, e))) (stands (buffered (122 ∷ 98 ∷ [])) refl))
      (omega arith) refl

recv_data_starves_example : recv_data small_verbs 1000 (buffered (122 ∷ 5 ∷ [])) ≡ hung
unfolding Memory.load Memory.slice
recv_data_starves_example =
    recv_data_starves small_verbs 1000 1 5 (buffered (122 ∷ 5 ∷ [])) refl refl (λ h w. refl) refl
      (λ e. absurd (omega (arith, e)))

-- An adapter whose channel 7 gives the queue 4, and whose channel 0 gives nothing.
abbrev quiet_event : ℕ → CqEvent
quiet_event channel = if channel == 7 then event 4 else pending

abbrev quiet : Verbs Adapter
quiet = record small_verbs { get_cq_event = λ channel w. (quiet_event channel, w) }

quiet_event_lem : (channel cq : ℕ) → quiet_event channel ≡ event cq → channel ≡ 7
quiet_event_lem channel cq e = ground arith

abbrev quiet_channels : Channels quiet
quiet_channels = record {
  OnChannel = λ cq channel w. channel ≡ 7;
  event_law = λ channel cq w e. quiet_event_lem channel cq e;
  event_keeps = λ channel cq w on. on;
}

-- Event completion, with the thread at its channel and the flag down.
abbrev expecting : Machine Ibv Adapter
expecting =
    adapted
      (record idle_ibv {
        commtype = np_comm_sendrecv;
        comptype = np_comp_event;
        event_thread = some waits;
        receive_complete = 0;
      })
      idle_adapter
