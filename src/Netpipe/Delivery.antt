-- ===== src/Netpipe/Delivery.antt =====
-- What netpipe.c relies on in a protocol module that carries bytes to a neighbour and back: the
-- interface between the core and the modules.
use netpipe5_dev.Base.{ℕ, ◌^◌, ◌≤◌, ◌<◌, ◌≡◌, List, ◌++◌, some, length, take}
use netpipe5_dev.Effect.{done}
use netpipe5_dev.Memory.{at}
use netpipe5_dev.Memory.Laws.{stored}
use netpipe5_dev.Machine.{Machine, Args, be32}
use netpipe5_dev.Netpipe.Buffers.{my_malloc, free_buff}
use netpipe5_dev.Netpipe.Run.{Protocol, Clock}

-- `inbox` is what is still to come from the neighbour and `outbox` what went to it; `Ready` says
-- that the module is connected, and `token` is what a synchronisation exchanges.
pub record Delivers {P W : Type 0} (proto : Protocol P W) (Ready : Args → Type 0) : Type 0 where
  pub inbox : W → List ℕ
  pub outbox : W → List ℕ
  pub token : List ℕ
  -- Only the socket decides whether the module is connected.
  pub stays_ready : (A B : Args) → A.commfd ≡ B.commfd → Ready A → Ready B
  pub sync_law :
      (rest : List ℕ) (m : Machine P W)
      → Ready m.args
      → inbox m.sys ≡ token ++ rest
      → (w : W) × (proto.sync m ≡ done tt (record m { sys = w }))
        × (inbox w ≡ rest)
        × (outbox w ≡ outbox m.sys ++ token)
  pub send_law :
      (b : ℕ) (xs : List ℕ) (m : Machine P W)
      → Ready m.args
      → m.args.s_ptr ≡ at b 0
      → m.heap.block b ≡ some xs
      → m.args.bufflen ≤ length xs
      → (w : W) × (proto.send_data m ≡ done tt (record m { sys = w }))
        × (outbox w ≡ outbox m.sys ++ take m.args.bufflen xs)
        × (inbox w ≡ inbox m.sys)
  pub recv_law :
      (b : ℕ) (xs bytes rest : List ℕ) (m : Machine P W)
      → Ready m.args
      → m.args.r_ptr ≡ at b 0
      → m.heap.block b ≡ some xs
      → m.args.bufflen ≤ length xs
      → length bytes ≡ m.args.bufflen
      → inbox m.sys ≡ bytes ++ rest
      → (w : W) × (proto.recv_data m
          ≡ done tt (record m { heap = stored m.heap b 0 bytes xs; sys = w }))
        × (inbox w ≡ rest)
        × (outbox w ≡ outbox m.sys)
  pub send_repeat_law :
      (rpt : ℕ) (m : Machine P W)
      → Ready m.args
      → (w : W) × (proto.send_repeat rpt m ≡ done tt (record m { sys = w }))
        × (outbox w ≡ outbox m.sys ++ be32 rpt)
        × (inbox w ≡ inbox m.sys)
  pub recv_repeat_law :
      (rpt : ℕ) (rest : List ℕ) (m : Machine P W)
      → Ready m.args
      → rpt < 2 ^ 32
      → inbox m.sys ≡ be32 rpt ++ rest
      → (w : W) × (proto.recv_repeat m ≡ done rpt (record m { sys = w }))
        × (inbox w ≡ rest)
        × (outbox w ≡ outbox m.sys)
  pub after_law : (m : Machine P W) → proto.after_alignment_init m ≡ done tt m
  pub malloc_law : (n : ℕ) (m : Machine P W) → proto.my_malloc n 0 0 m ≡ my_malloc n 0 0 m
  pub free_law :
      (b c : ℕ) (m : Machine P W)
      → proto.free_buff (at b 0) (at c 0) m ≡ free_buff (at b 0) (at c 0) m

-- Reading the clock moves no bytes.
abbrev pub KeepsTime :
    {P W D : Type 0} {proto : Protocol P W} {Ready : Args → Type 0}
    → Delivers proto Ready
    → Clock D W
    → Type 0
KeepsTime {W} d clock =
    (w : W)
    → (d.inbox (clock.gettimeofday w).1 ≡ d.inbox w)
      × (d.outbox (clock.gettimeofday w).1 ≡ d.outbox w)
