-- ===== src/Tests/Buffers.antt =====
-- The buffers of the OpenFabrics module and their addresses, at concrete machines.
use netpipe5_dev.Base.{arith, inl, ◌≡◌, ◌+◌, ◌*◌, refl, none, some, [], ◌∷◌, ◌++◌}
use netpipe5_dev.Effect.{done}
use netpipe5_dev.Memory
use netpipe5_dev.Memory.{at, Heap, update}
use netpipe5_dev.Machine.{Machine}
use netpipe5_dev.Verbs.{Region}
use netpipe5_dev.Ibv.{Ibv}
use netpipe5_dev.Ibv.Exchange.{after_alignment_init}
use netpipe5_dev.Ibv.Exchange.Addresses.{WholeWrites, after_alignment_init_lem}
use netpipe5_dev.Ibv.Buffers.{free_buff}
use netpipe5_dev.Ibv.Buffers.Whole.{free_buff-Registered}
use netpipe5_dev.Tests.World.{small_heap}
use netpipe5_dev.Tests.Adapter.{
  Adapter, small_verbs, small_net, small_stream, small_ledger, idle_ibv, idle_adapter, adapted,
}

abbrev small_whole_writes : WholeWrites small_stream
small_whole_writes = record {
  write_whole = λ bs w short. (record w { outgoing = w.outgoing ++ bs }, refl, refl, refl);
}

abbrev recv_region : Region
recv_region = record { handle = 6; lkey = 5; rkey = 513 }

abbrev send_region : Region
send_region = record { handle = 7; lkey = 5; rkey = 514 }

-- The receive buffer is at 65792; that of the neighbour at 4096, with the key 258.
abbrev aligned : Machine Ibv Adapter
aligned =
    record (adapted (record idle_ibv { r_mr_hndl = some recv_region })
      (record idle_adapter { incoming = 0 ∷ 16 ∷ 0 ∷ 0 ∷ 0 ∷ 0 ∷ 0 ∷ 0 ∷ 2 ∷ 1 ∷ 0 ∷ 0 ∷ [] })) {
        args = record (adapted idle_ibv idle_adapter).args { r_buff = at 1 0 };
      }

after_alignment_init_example :
    (w : Adapter) × (after_alignment_init small_net (λ b. 65536 * b + 256) aligned
      ≡ done tt (record aligned {
        prot = record (aligned.prot) { remote_address = 4096; remote_key = 258 };
        sys = w;
      }))
    × (w.incoming ≡ [])
    × (w.outgoing ≡ 0 ∷ 1 ∷ 1 ∷ 0 ∷ 0 ∷ 0 ∷ 0 ∷ 0 ∷ 1 ∷ 2 ∷ 0 ∷ 0 ∷ [])
after_alignment_init_example =
    after_alignment_init_lem small_stream small_whole_writes (λ b. 65536 * b + 256) recv_region 4096
      258 [] aligned refl (inl refl) refl (omega arith) (omega arith) refl

abbrev unregistered : Machine Ibv Adapter
unregistered =
    adapted (record idle_ibv { pd_hndl = some 2 })
      (record idle_adapter {
        held = record { devices = []; domains = 2 ∷ []; queues = []; pairs = []; regions = [] };
        made = 5;
      })

abbrev two_buffers : Machine Ibv Adapter
two_buffers =
    record (adapted (record idle_ibv { r_mr_hndl = some recv_region; s_mr_hndl = some send_region })
      (record idle_adapter {
        held = record { devices = []; domains = []; queues = []; pairs = []; regions = 7 ∷ 6 ∷ [] };
        made = 7;
      })) { heap = record small_heap { next = 2; block = λ _. some (1 ∷ 2 ∷ []) } }

abbrev first_freed : Heap
first_freed = record (two_buffers.heap) { avail = 66; block = update two_buffers.heap.block 0 none }

abbrev second_freed : Heap
second_freed = record first_freed { avail = 68; block = update first_freed.block 1 none }

free_buff-Registered_example :
    (w : Adapter) × (free_buff small_verbs (at 0 0) (at 1 0) two_buffers
      ≡ done tt (record two_buffers {
        heap = second_freed;
        sys = w;
        prot = record (two_buffers.prot) { s_mr_hndl = none; r_mr_hndl = none };
      }))
    × (w.held ≡ record { devices = []; domains = []; queues = []; pairs = []; regions = [] })
unfolding Memory.free
free_buff-Registered_example =
    free_buff-Registered small_ledger (at 0 0) (at 1 0) first_freed second_freed two_buffers
      (record {
        r_region = recv_region;
        s_region = send_region;
        r_mr_is = refl;
        s_mr_is = refl;
        held_is = refl;
      })
      refl refl refl refl
