-- ===== src/Shmem.antt =====
-- src/shmem.c: the SHMEM module, on the calls of the SHMEM library (a parameter).
pub mod Crossed
use netpipe5_dev.Base.{ℕ, ◌+◌, ◌*◌, ◌/◌, ◌%◌, ◌==◌, pos, negsuc, not, if◌then◌else◌, List}
use netpipe5_dev.Effect.{M, ◌>>=◌, ◌>>◌, pure, gets, modify, exit, skip, when, truth}
use netpipe5_dev.Memory.{Ptr, Heap}
use netpipe5_dev.Machine.{
  Machine, Args, load_bytes, put_bytes, call, le32, of_le32, set_args, set_prot,
}
use netpipe5_dev.Netpipe.Buffers.{max, is_null}
use netpipe5_dev.Polling.{wait_word, take_message}

-- A put gives the bytes, where they go at the other process (an address is the same in all processes),
-- and that process; it counts bytes or words of 8. What others have put is written by `dma`, which
-- sched_yield lets happen.
pub record ShmemLibrary (W : Type 0) : Type 0 where
  pub start_pes : ℕ → W → Unit {0} × W
  pub n_pes : W → ℕ × W
  pub my_pe : W → ℕ × W
  pub barrier_all : W → Unit {0} × W
  pub shmalloc : ℕ → Heap → W → (Ptr × Heap) × W
  pub shfree : Ptr → Heap → W → Heap × W
  pub put64 : List ℕ → Ptr → ℕ → W → Unit {0} × W
  pub putmem : List ℕ → Ptr → ℕ → W → Unit {0} × W
  pub double_put : List ℕ → Ptr → ℕ → W → Unit {0} × W
  pub int_put : List ℕ → Ptr → ℕ → W → Unit {0} × W
  pub dma : Heap → W → Heap × W

-- `ProtocolStruct` and the globals.
pub record Shmem : Type 0 where
  pub nbor : ℕ
  pub ipe : ℕ
  pub flag : Ptr
  pub p_time : Ptr
  pub p_nrepeat : Ptr

module _ {W : Type 0} (lib : ShmemLibrary W) where
  unfoldable pub shmem_init : M (Machine Shmem W) (Unit {0})
  shmem_init = skip

  abbrev pub shmalloc : ℕ → M (Machine Shmem W) Ptr
  shmalloc size = do
    h ← gets (λ (m : Machine Shmem W). m.heap)
    (p, h') ← call (lib.shmalloc size h)
    modify (λ m. record m { heap = h' })
    pure p

  abbrev pub shfree : Ptr → M (Machine Shmem W) (Unit {0})
  shfree p = do
    h ← gets (λ (m : Machine Shmem W). m.heap)
    h' ← call (lib.shfree p h)
    modify (λ m. record m { heap = h' })

  unfoldable pub shmem_setup : M (Machine Shmem W) (Unit {0})
  shmem_setup = do
    call (lib.start_pes 2)
    npes ← call (lib.n_pes)
    when (not (npes == 2)) (exit (pos 1))
    flag ← shmalloc 4
    set_prot (λ t. record t { flag = flag })
    time ← shmalloc 8
    set_prot (λ t. record t { p_time = time })
    nrepeat ← shmalloc 4
    set_prot (λ t. record t { p_nrepeat = nrepeat })
    set_args (λ p. record p { tr = 0; rcv = 0 })
    ipe ← call (lib.my_pe)
    set_prot (λ t. record t { ipe = ipe })
    if ipe == 0
        then (do
          set_args (λ p. record p { tr = 1 })
          set_prot (λ t. record t { nbor = 1 })
          put_bytes flag (le32 1))
        else (do
          set_args (λ p. record p { rcv = 1 })
          set_prot (λ t. record t { nbor = 0 })
          put_bytes flag (le32 0))

  unfoldable pub shmem_sync : M (Machine Shmem W) (Unit {0})
  shmem_sync = call (lib.barrier_all)

  unfoldable pub shmem_prepare_to_receive : M (Machine Shmem W) (Unit {0})
  shmem_prepare_to_receive = skip

  unfoldable pub shmem_send_data : M (Machine Shmem W) (Unit {0})
  shmem_send_data = do
    m ← gets (λ (m : Machine Shmem W). m)
    if m.args.bufflen % 8 == 0
        then (do
          bytes ← load_bytes m.args.s_ptr (8 * (m.args.bufflen / 8))
          call (lib.put64 bytes m.args.s_ptr m.prot.nbor))
        else (do
          bytes ← load_bytes m.args.s_ptr m.args.bufflen
          call (lib.putmem bytes m.args.s_ptr m.prot.nbor))

  unfoldable pub shmem_recv_data : ℕ → M (Machine Shmem W) (Unit {0})
  shmem_recv_data rounds = take_message lib.dma rounds

  -- The time is given by the bytes of the `double`.
  unfoldable pub shmem_send_time : List ℕ → M (Machine Shmem W) (Unit {0})
  shmem_send_time time = do
    t ← gets (λ (m : Machine Shmem W). m.prot)
    put_bytes t.p_time time
    bytes ← load_bytes t.p_time 8
    call (lib.double_put bytes t.p_time t.nbor)
    flag ← load_bytes t.flag 4
    call (lib.int_put flag t.flag t.nbor)

  unfoldable pub shmem_recv_time : ℕ → M (Machine Shmem W) (List ℕ)
  shmem_recv_time rounds = do
    t ← gets (λ (m : Machine Shmem W). m.prot)
    wait_word lib.dma rounds t.flag t.ipe
    time ← load_bytes t.p_time 8
    put_bytes t.flag (le32 t.nbor)
    pure time

  unfoldable pub shmem_send_repeat : ℕ → M (Machine Shmem W) (Unit {0})
  shmem_send_repeat rpt = do
    t ← gets (λ (m : Machine Shmem W). m.prot)
    put_bytes t.p_nrepeat (le32 rpt)
    bytes ← load_bytes t.p_nrepeat 4
    call (lib.int_put bytes t.p_nrepeat t.nbor)
    flag ← load_bytes t.flag 4
    call (lib.int_put flag t.flag t.nbor)

  unfoldable pub shmem_recv_repeat : ℕ → M (Machine Shmem W) ℕ
  shmem_recv_repeat rounds = do
    t ← gets (λ (m : Machine Shmem W). m.prot)
    wait_word lib.dma rounds t.flag t.ipe
    bytes ← load_bytes t.p_nrepeat 4
    put_bytes t.flag (le32 t.nbor)
    pure (of_le32 bytes)

  unfoldable pub shmem_clean_up : M (Machine Shmem W) (Unit {0})
  shmem_clean_up = skip

  unfoldable pub shmem_reset : M (Machine Shmem W) (Unit {0})
  shmem_reset = skip

  unfoldable pub shmem_after_alignment_init : M (Machine Shmem W) (Unit {0})
  shmem_after_alignment_init = skip

  -- The buffers of the receiver are those of the transmitter the other way round.
  unfoldable pub shmem_my_malloc : ℕ → ℕ → ℕ → M (Machine Shmem W) (Unit {0})
  shmem_my_malloc bufflen soffset roffset = do
    buff1 ← shmalloc (bufflen + max soffset roffset)
    when (is_null buff1) (exit (negsuc 0))
    p ← gets (λ (m : Machine Shmem W). m.args)
    if truth p.cache then set_args (λ p. record p { r_buff = buff1 }) else (do
      buff2 ← shmalloc (bufflen + soffset)
      when (is_null buff2) (exit (negsuc 0))
      if truth p.tr
          then set_args (λ p. record p { r_buff = buff1; s_buff = buff2 })
          else set_args (λ p. record p { r_buff = buff2; s_buff = buff1 }))

  unfoldable pub shmem_free_buff : Ptr → Ptr → M (Machine Shmem W) (Unit {0})
  shmem_free_buff buff1 buff2 = do
    when (not (is_null buff1)) (shfree buff1)
    when (not (is_null buff2)) (shfree buff2)
