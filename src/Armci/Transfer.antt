-- ===== src/Armci/Transfer.antt =====
-- src/armci.c: the operations that netpipe.c calls.
use netpipe5_dev.Base.{ℕ, ◌+◌, ◌==◌, pos, negsuc, not, if◌then◌else◌, List}
use netpipe5_dev.Effect.{M, ◌>>=◌, ◌>>◌, pure, gets, exit, skip, when, truth, defined}
use netpipe5_dev.Memory.{Ptr, advance}
use netpipe5_dev.Machine.{Machine, load_bytes, put_bytes, call, le32, of_le32, set_args, set_prot}
use netpipe5_dev.Netpipe.Buffers.{max, is_null}
use netpipe5_dev.Ibv.Transfer.{offset_from}
use netpipe5_dev.Polling.{wait_word, take_message}
use netpipe5_dev.Armci.{ArmciLibrary, Armci}
use netpipe5_dev.Armci.Nodes.{armci_malloc, armci_free, remote_ptr}
use netpipe5_dev.Armci.Hosts.{set_armci_hostname}

-- `rounds` bounds the looks of a wait and the nodes that mfind visits.
module _ {W : Type 0} (lib : ArmciLibrary W) (rounds : ℕ) where
  unfoldable pub armci_init : M (Machine Armci W) (Unit {0})
  armci_init = call (lib.mpi_init)

  abbrev pub two_processes : M (Machine Armci W) (Unit {0})
  two_processes = do
    (failed, npes) ← call (lib.comm_size)
    set_prot (λ t. record t { npes = npes })
    if not (failed == 0) then exit (pos failed) else when (not (npes == 2)) (exit (negsuc 0))
    (unranked, mype) ← call (lib.comm_rank)
    set_prot (λ t. record t { mype = mype })
    when (not (unranked == 0)) (exit (pos unranked))

  abbrev pub armci_roles : M (Machine Armci W) (Unit {0})
  armci_roles = do
    set_args (λ p. record p { tr = 0; rcv = 0 })
    t ← gets (λ (m : Machine Armci W). m.prot)
    set_prot (λ t. record t { ipe = t.mype })
    if t.mype == 0
        then (do
          set_args (λ p. record p { tr = 1 })
          set_prot (λ t. record t { nbor = 1 })
          put_bytes t.flag (le32 1))
        else (do
          set_args (λ p. record p { rcv = 1 })
          set_prot (λ t. record t { nbor = 0 })
          put_bytes t.flag (le32 0))

  unfoldable pub armci_setup : M (Machine Armci W) (Unit {0})
  unfolding set_armci_hostname armci_malloc
  armci_setup = do
    set_armci_hostname lib
    call (lib.start_up)
    two_processes
    flag ← armci_malloc lib 4
    set_prot (λ t. record t { flag = flag })
    time ← armci_malloc lib 8
    set_prot (λ t. record t { p_time = time })
    nrepeat ← armci_malloc lib 4
    set_prot (λ t. record t { p_nrepeat = nrepeat })
    armci_roles

  unfoldable pub armci_sync : M (Machine Armci W) (Unit {0})
  armci_sync = call (lib.barrier)

  unfoldable pub armci_prepare_to_receive : M (Machine Armci W) (Unit {0})
  armci_prepare_to_receive = skip

  -- The bytes at `p` are put at the other process from `to` on.
  abbrev pub put_to_nbor : Ptr → Ptr → ℕ → M (Machine Armci W) (Unit {0})
  put_to_nbor p to size = do
    bytes ← load_bytes p size
    t ← gets (λ (m : Machine Armci W). m.prot)
    call (lib.put bytes to t.nbor)

  unfoldable pub armci_send_data : M (Machine Armci W) (Unit {0})
  armci_send_data = do
    m ← gets (λ (m : Machine Armci W). m)
    off ← defined (offset_from m.args.s_ptr m.args.s_buff)
    remote ← remote_ptr lib rounds m.args.r_buff_orig
    put_to_nbor m.args.s_ptr (advance remote (m.prot.nbor_r_buff_offset + off)) m.args.bufflen
    call (lib.all_fence)

  unfoldable pub armci_recv_data : M (Machine Armci W) (Unit {0})
  armci_recv_data = take_message lib.dma rounds

  -- A shared variable is put at its other copy.
  abbrev pub put_shared : Ptr → ℕ → M (Machine Armci W) (Unit {0})
  put_shared p size = do remote ← remote_ptr lib rounds p; put_to_nbor p remote size

  -- The time is given by the bytes of the `double`.
  unfoldable pub armci_send_time : List ℕ → M (Machine Armci W) (Unit {0})
  armci_send_time time = do
    t ← gets (λ (m : Machine Armci W). m.prot)
    put_bytes t.p_time time
    put_shared t.p_time 8
    put_shared t.flag 4

  unfoldable pub armci_recv_time : M (Machine Armci W) (List ℕ)
  armci_recv_time = do
    t ← gets (λ (m : Machine Armci W). m.prot)
    wait_word lib.dma rounds t.flag t.ipe
    time ← load_bytes t.p_time 8
    put_bytes t.flag (le32 t.nbor)
    pure time

  unfoldable pub armci_send_repeat : ℕ → M (Machine Armci W) (Unit {0})
  armci_send_repeat rpt = do
    t ← gets (λ (m : Machine Armci W). m.prot)
    put_bytes t.p_nrepeat (le32 rpt)
    put_shared t.p_nrepeat 4
    put_shared t.flag 4

  unfoldable pub armci_recv_repeat : M (Machine Armci W) ℕ
  armci_recv_repeat = do
    t ← gets (λ (m : Machine Armci W). m.prot)
    wait_word lib.dma rounds t.flag t.ipe
    bytes ← load_bytes t.p_nrepeat 4
    put_bytes t.flag (le32 t.nbor)
    pure (of_le32 bytes)

  unfoldable pub armci_clean_up : M (Machine Armci W) (Unit {0})
  armci_clean_up = call (lib.shut_down)

  unfoldable pub armci_reset : M (Machine Armci W) (Unit {0})
  armci_reset = skip

  -- The two processes exchange where the aligned buffer starts in the block.
  unfoldable pub armci_after_alignment_init : M (Machine Armci W) (Unit {0})
  armci_after_alignment_init = do
    m ← gets (λ (m : Machine Armci W). m)
    mine ← defined (offset_from m.args.r_buff m.args.r_buff_orig)
    call (lib.send (le32 mine) m.prot.nbor)
    bytes ← call (lib.recv 4 m.prot.nbor)
    set_prot (λ t. record t { nbor_r_buff_offset = of_le32 bytes })

  unfoldable pub armci_my_malloc : ℕ → ℕ → ℕ → M (Machine Armci W) (Unit {0})
  armci_my_malloc bufflen soffset roffset = do
    r ← armci_malloc lib (bufflen + max soffset roffset)
    set_args (λ p. record p { r_buff = r })
    p ← gets (λ (m : Machine Armci W). m.args)
    when (not (truth p.cache))
        do s ← armci_malloc lib (bufflen + soffset); set_args (λ p. record p { s_buff = s })

  unfoldable pub armci_free_buff : Ptr → Ptr → M (Machine Armci W) (Unit {0})
  armci_free_buff buff1 buff2 = do
    when (not (is_null buff1)) (armci_free lib rounds buff1)
    when (not (is_null buff2)) (armci_free lib rounds buff2)
