-- ===== src/Tests/Transfers.antt =====
-- The TCP module on the small system: messages, counts, the synchronisation, the end of a stream.
use netpipe5_dev.Base.{
  ℕ, zero, suc, ◌+◌, min, sym, ap, ap₂, ◌∙◌, ltb, drop, if◌then◌else◌, ◌≡◌, refl, arith, pos, List,
  [], ◌∷◌, ◌++◌, some, take,
}
use netpipe5_dev.Effect.{done}
use netpipe5_dev.Memory.{at, Heap}
use netpipe5_dev.Memory.Laws.{stored}
use netpipe5_dev.Machine.{Machine, be32, end_of_file}
use netpipe5_dev.Sockets.{Sockets, connected, refused}
use netpipe5_dev.Tcp.{Tcp, recv_data, send_data, read_fully, recv_repeat, sync, sync_text}
use netpipe5_dev.Tcp.Receive.{recv_data_lem, read_fully_lem}
use netpipe5_dev.Tcp.Ends.{closed, recv_data_ends}
use netpipe5_dev.Tcp.Send.{send_data_lem}
use netpipe5_dev.Tcp.Words.{recv_repeat_lem, sync_lem}
use netpipe5_dev.Tcp.Setup.{establish}
use netpipe5_dev.Tcp.Setup.Connect.{now, later, establish_connects}
use netpipe5_dev.Netpipe.Object.{zero_args}
use netpipe5_dev.Tests.World.{World, world_net, world_stream, machine, small_heap, idle_tcp}

abbrev buffer : List ℕ
buffer = 7 ∷ 7 ∷ 7 ∷ 7 ∷ 7 ∷ 7 ∷ 7 ∷ 7 ∷ 7 ∷ []

abbrev message : List ℕ
message = 1 ∷ 2 ∷ 3 ∷ 4 ∷ 5 ∷ 6 ∷ 8 ∷ 9 ∷ []

abbrev heap_with : List ℕ → Heap
heap_with xs = record small_heap { next = 1; block = λ _. some xs }

-- A block of nine bytes as both buffers, and messages of eight.
abbrev loaded : List ℕ → Machine Tcp World
loaded bytes =
    record (machine (record zero_args { bufflen = 8; r_ptr = at 0 0; s_ptr = at 0 0 }) bytes) {
      heap = heap_with buffer;
    }

recv_data_example :
    (w : World) × (recv_data world_net (loaded (message ++ (5 ∷ [])))
      ≡ done tt (record (loaded (message ++ (5 ∷ []))) {
        heap = stored (heap_with buffer) 0 0 message buffer;
        sys = w;
      }))
    × (w.incoming ≡ 5 ∷ [])
    × (w.outgoing ≡ [])
recv_data_example =
    recv_data_lem world_net (pos 4) world_stream 0 buffer message (5 ∷ [])
      (loaded (message ++ (5 ∷ []))) refl refl refl (omega arith) refl refl

abbrev empty : List ℕ
empty = []

take_nil : (n : ℕ) → take n empty ≡ empty
take_nil zero = refl
take_nil (suc n) = refl

drop_nil : (n : ℕ) → drop n empty ≡ empty
drop_nil zero = refl
drop_nil (suc n) = refl

drained : (n : ℕ) (w : World) → w.incoming ≡ [] → world_net.read (pos 4) n w ≡ (some [], w)
drained n w e =
    ap (λ l. (some (take (min n 3) l), record w { incoming = drop (min n 3) l })) e
    ∙ ap₂ (λ t d. (some t, record w { incoming = d })) (take_nil (min n 3)) (drop_nil (min n 3))
    ∙ ap (λ l. (some [], record w { incoming = l })) (sym e)

recv_data_ends_example :
    (w : World) × (recv_data world_net (loaded (1 ∷ 2 ∷ 3 ∷ 4 ∷ []))
      ≡ done tt (record (loaded (1 ∷ 2 ∷ 3 ∷ 4 ∷ [])) {
        heap = stored (heap_with buffer) 0 0 (1 ∷ 2 ∷ 3 ∷ 4 ∷ []) buffer;
        sys = w;
        printed = end_of_file ∷ [];
      }))
    × (w.incoming ≡ [])
    × (w.outgoing ≡ [])
recv_data_ends_example =
    recv_data_ends world_net (pos 4) world_stream (closed drained) 0 buffer (1 ∷ 2 ∷ 3 ∷ 4 ∷ [])
      (loaded (1 ∷ 2 ∷ 3 ∷ 4 ∷ [])) refl refl refl (omega arith) (omega arith) refl

send_data_example :
    (w : World) × (send_data world_net (loaded []) ≡ done tt (record (loaded []) { sys = w }))
    × (w.outgoing ≡ [] ++ take 8 buffer)
    × (w.incoming ≡ [])
send_data_example =
    send_data_lem world_net (pos 4) world_stream 0 buffer (loaded []) refl refl refl (omega arith)

read_fully_example :
    (w : World) × (read_fully world_net (pos 4) 8 (loaded (message ++ (5 ∷ [])))
      ≡ done (some 8, message) (record (loaded (message ++ (5 ∷ []))) { sys = w }))
    × (w.incoming ≡ 5 ∷ [])
    × (w.outgoing ≡ [])
read_fully_example =
    read_fully_lem world_net (pos 4) world_stream message (5 ∷ []) (loaded (message ++ (5 ∷ [])))
      (omega arith) refl

recv_repeat_example :
    (w : World) × (recv_repeat world_net (loaded (be32 70000 ++ (5 ∷ [])))
      ≡ done 70000 (record (loaded (be32 70000 ++ (5 ∷ []))) { sys = w }))
    × (w.incoming ≡ 5 ∷ [])
    × (w.outgoing ≡ [])
recv_repeat_example =
    recv_repeat_lem world_net (pos 4) world_stream 70000 (5 ∷ []) (loaded (be32 70000 ++ (5 ∷ [])))
      refl (omega arith) refl

sync_example :
    (w : World) × (sync world_net (loaded (sync_text ++ (5 ∷ [])))
      ≡ done tt (record (loaded (sync_text ++ (5 ∷ []))) { sys = w }))
    × (w.incoming ≡ 5 ∷ [])
    × (w.outgoing ≡ [] ++ sync_text)
sync_example =
    sync_lem world_net (pos 4) world_stream (5 ∷ []) (loaded (sync_text ++ (5 ∷ []))) refl refl

-- A transmitter that resets, on a network that refuses two connections.
abbrev busy_net : Sockets World
busy_net = record world_net {
  connect =
      λ _ _ w. (if ltb w.ticks 2 then refused else connected, record w { ticks = w.ticks + 1 });
}

abbrev resetting : Machine Tcp World
resetting = record (machine (record zero_args { tr = 1 }) []) {
  prot = record idle_tcp { doing_reset = 1 };
}

abbrev ticked : ℕ → World
ticked n = record { incoming = []; outgoing = []; ticks = n }

establish_connects_example :
    establish busy_net 3 resetting ≡ done tt (record resetting { sys = ticked 3 })
establish_connects_example =
    establish_connects busy_net 3 2 (ticked 3) resetting
      (later 1 (ticked 0) (ticked 1) refl
        (later 0 (ticked 1) (ticked 2) refl (now (ticked 2) refl)))
      refl refl (omega arith)
