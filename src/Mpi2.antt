-- ===== src/Mpi2.antt =====
-- src/mpi2.c: the module for the one-sided communication of MPI-2, on the calls of an MPI library (a
-- parameter). A failing call aborts, so none gives an error.
use netpipe5_dev.Base.{ℕ, ◌-◌, ◌==◌, ltb, negsuc, if◌then◌else◌, List}
use netpipe5_dev.Effect.{M, ◌>>=◌, ◌>>◌, pure, gets, modify, exit, skip, when, truth, defined}
use netpipe5_dev.Memory.{Ptr, Heap}
use netpipe5_dev.Machine.{Machine, load_bytes, call, le32, of_le32, set_args, set_prot}
use netpipe5_dev.Ibv.Transfer.{offset_from}
use netpipe5_dev.Polling.{take_message}

-- A window is a name of the library's. A put names the bytes, the process, the offset in its window and
-- the window; a get the bytes to take and where they go. A fence ends the transfers.
pub record Mpi2Library (W : Type 0) : Type 0 where
  pub start_up : W → Unit {0} × W
  pub finalize : W → Unit {0} × W
  pub comm_rank : W → ℕ × W
  pub comm_size : W → ℕ × W
  pub win_create : Ptr → ℕ → W → ℕ × W
  pub win_fence : ℕ → Heap → W → Heap × W
  pub win_put : List ℕ → ℕ → ℕ → ℕ → W → Unit {0} × W
  pub win_get : Ptr → ℕ → ℕ → ℕ → ℕ → W → Unit {0} × W
  pub send : List ℕ → ℕ → ℕ → W → Unit {0} × W
  pub recv : ℕ → ℕ → ℕ → W → List ℕ × W
  pub dma : Heap → W → Heap × W

-- `ProtocolStruct` and the window.
pub record Mpi2 : Type 0 where
  pub nbor : ℕ
  pub iproc : ℕ
  pub use_get : ℕ
  pub no_fence : ℕ
  pub win : ℕ

module _ {W : Type 0} (lib : Mpi2Library W) where
  unfoldable pub mpi2_init : M (Machine Mpi2 W) (Unit {0})
  mpi2_init = do set_prot (λ t. record t { use_get = 0; no_fence = 0 }); call (lib.start_up)

  unfoldable pub mpi2_setup : M (Machine Mpi2 W) (Unit {0})
  mpi2_setup = do
    iproc ← call (lib.comm_rank)
    set_prot (λ t. record t { iproc = iproc })
    nprocs ← call (lib.comm_size)
    when (ltb nprocs 2) (exit (negsuc 1))
    set_args (λ p. record p { tr = 0; rcv = 0 })
    if iproc == 0
        then set_args (λ p. record p { tr = 1 }) >> set_prot (λ t. record t { nbor = nprocs - 1 })
        else when (iproc == nprocs - 1)
            (set_args (λ p. record p { rcv = 1 }) >> set_prot (λ t. record t { nbor = 0 }))

  abbrev pub fence : M (Machine Mpi2 W) (Unit {0})
  fence = do
    m ← gets (λ (m : Machine Mpi2 W). m)
    h ← call (lib.win_fence m.prot.win m.heap)
    modify (λ m. record m { heap = h })

  unfoldable pub mpi2_sync : M (Machine Mpi2 W) (Unit {0})
  mpi2_sync = fence

  unfoldable pub mpi2_prepare_to_receive : M (Machine Mpi2 W) (Unit {0})
  mpi2_prepare_to_receive = skip

  -- Without a cache the data goes to the offset in the window that it has in the buffer.
  abbrev pub window_offset : M (Machine Mpi2 W) ℕ
  window_offset = do
    p ← gets (λ (m : Machine Mpi2 W). m.args)
    if truth p.cache then pure 0 else defined (offset_from p.s_ptr p.s_buff)

  unfoldable pub mpi2_send_data : M (Machine Mpi2 W) (Unit {0})
  mpi2_send_data = do
    off ← window_offset
    m ← gets (λ (m : Machine Mpi2 W). m)
    if truth m.prot.use_get
        then call (lib.win_get m.args.s_ptr m.args.bufflen m.prot.nbor off m.prot.win)
        else (do
          bytes ← load_bytes m.args.s_ptr m.args.bufflen
          call (lib.win_put bytes m.prot.nbor off m.prot.win))
    when (m.prot.no_fence == 0) fence

  unfoldable pub mpi2_recv_data : ℕ → M (Machine Mpi2 W) (Unit {0})
  mpi2_recv_data rounds = do
    t ← gets (λ (m : Machine Mpi2 W). m.prot)
    if truth t.no_fence then take_message lib.dma rounds else fence

  -- The time is given by the bytes of the `double`.
  unfoldable pub mpi2_send_time : List ℕ → M (Machine Mpi2 W) (Unit {0})
  mpi2_send_time time = do t ← gets (λ (m : Machine Mpi2 W). m.prot); call (lib.send time t.nbor 2)

  unfoldable pub mpi2_recv_time : M (Machine Mpi2 W) (List ℕ)
  mpi2_recv_time = do t ← gets (λ (m : Machine Mpi2 W). m.prot); call (lib.recv 8 t.nbor 2)

  unfoldable pub mpi2_send_repeat : ℕ → M (Machine Mpi2 W) (Unit {0})
  mpi2_send_repeat rpt = do
    t ← gets (λ (m : Machine Mpi2 W). m.prot)
    call (lib.send (le32 rpt) t.nbor 2)

  unfoldable pub mpi2_recv_repeat : M (Machine Mpi2 W) ℕ
  mpi2_recv_repeat = do
    t ← gets (λ (m : Machine Mpi2 W). m.prot)
    bytes ← call (lib.recv 4 t.nbor 2)
    pure (of_le32 bytes)

  unfoldable pub mpi2_clean_up : M (Machine Mpi2 W) (Unit {0})
  mpi2_clean_up = call (lib.finalize)

  unfoldable pub mpi2_reset : M (Machine Mpi2 W) (Unit {0})
  mpi2_reset = skip

  unfoldable pub mpi2_after_alignment_init : M (Machine Mpi2 W) (Unit {0})
  mpi2_after_alignment_init = do
    p ← gets (λ (m : Machine Mpi2 W). m.args)
    win ← call (lib.win_create p.r_buff p.bufflen)
    set_prot (λ t. record t { win = win })
