-- ===== src/Atoa.antt =====
-- src/mpi_atoa.c: the module for the collective operations of MPI, on the calls of an MPI library (a
-- parameter). A failing call aborts, so none gives an error. Compiled without DEBUG. The products of
-- lengths and processes are below 2 ^ 31.
pub mod Marks
use netpipe5_dev.Base.{
  ℕ, zero, suc, ◌+◌, ◌-◌, ◌*◌, ◌==◌, ◌||◌, ltb, pos, negsuc, not, if◌then◌else◌, Option, none, some,
  List, [], ◌∷◌, replicate,
}
use netpipe5_dev.Effect.{M, ◌>>=◌, ◌>>◌, pure, gets, exit, skip, when, truth, defined}
use netpipe5_dev.Memory.{Ptr, Heap, advance}
use netpipe5_dev.Machine.{
  Machine, Args, load_bytes, put_bytes, call, le32, of_le32, set_args, set_prot, new_block,
  free_ptr,
}
use netpipe5_dev.Netpipe.Buffers.{max, is_null}

-- MPI_Alltoall is given the bytes that are sent to all, and gives those that come from all. MPI_Bcast
-- is given the bytes of this process and the root, and gives those of the root.
pub record AtoaLibrary (W : Type 0) : Type 0 where
  pub start_up : W → Unit {0} × W
  pub finalize : W → Unit {0} × W
  pub comm_rank : W → ℕ × W
  pub comm_size : W → ℕ × W
  pub barrier : W → Unit {0} × W
  pub alltoall : List ℕ → ℕ → W → List ℕ × W
  pub bcast : List ℕ → W → List ℕ × W

pub record Atoa : Type 0 where
  pub iproc : ℕ
  pub nprocs : ℕ

abbrev pub maxprocs : ℕ
maxprocs = 2048

-- `q[n - 1]`; with a length of 0 the byte before is meant.
abbrev pub last_of : Ptr → ℕ → Option Ptr
last_of q zero = none
last_of q (suc n) = some (advance q n)

module _ {W : Type 0} where
  -- for(i=0;i<nprocs;i++) p->r_buff[nbytes*(i+1)-1]='b'; from `i` on
  unfoldable pub mark_all : ℕ → ℕ → ℕ → M (Machine Atoa W) (Unit {0})
  mark_all zero i nbytes = skip
  mark_all (suc left) i nbytes = do
    p ← gets (λ (m : Machine Atoa W). m.args)
    q ← defined (last_of p.r_buff (nbytes * (i + 1)))
    put_bytes q (98 ∷ [])
    mark_all left (i + 1) nbytes

  -- The offsets are set to 0.
  unfoldable pub atoa_init_buffer_data : ℕ → ℕ → ℕ → M (Machine Atoa W) (Unit {0})
  unfolding mark_all
  atoa_init_buffer_data nbytes soffset roffset = do
    m ← gets (λ (m : Machine Atoa W). m)
    put_bytes m.args.r_buff (replicate (nbytes * m.prot.nprocs) 97)
    if truth m.args.cache
        then (do
          when (truth m.args.tr) (mark_all m.prot.nprocs 0 nbytes)
          when (truth m.args.rcv)
              do q ← defined (last_of m.args.r_buff nbytes); put_bytes q (98 ∷ []))
        else put_bytes m.args.s_buff (replicate nbytes 98)

  unfoldable pub atoa_my_malloc : ℕ → ℕ → ℕ → M (Machine Atoa W) (Unit {0})
  atoa_my_malloc bufflen soffset roffset = do
    t ← gets (λ (m : Machine Atoa W). m.prot)
    r ← new_block (bufflen * t.nprocs)
    set_args (λ p. record p { r_buff = r })
    when (is_null r) (exit (negsuc 1))
    p ← gets (λ (m : Machine Atoa W). m.args)
    when (not (truth p.cache)) do
      s ← new_block (bufflen * t.nprocs)
      set_args (λ p. record p { s_buff = s })
      when (is_null s) (exit (negsuc 1))

  unfoldable pub atoa_free_buff : Ptr → Ptr → M (Machine Atoa W) (Unit {0})
  atoa_free_buff buff1 buff2 = do
    when (not (is_null buff1)) (free_ptr buff1)
    when (not (is_null buff2)) (free_ptr buff2)

module _ {W : Type 0} (lib : AtoaLibrary W) where
  -- Only the first and the last process look at the number of processes.
  unfoldable pub atoa_init : M (Machine Atoa W) (Unit {0})
  atoa_init = do
    call (lib.start_up)
    iproc ← call (lib.comm_rank)
    set_prot (λ t. record t { iproc = iproc })
    nprocs ← call (lib.comm_size)
    set_prot (λ t. record t { nprocs = nprocs })
    set_args (λ p. record p { source_node = pos 0 })
    if iproc == 0
        then set_args (λ p. record p { tr = 1; rcv = 0 })
        else set_args (λ p. record p { tr = 0; rcv = 1 })
    when (iproc == 0 || iproc + 1 == nprocs)
        do when (ltb nprocs 2) (exit (negsuc 0)); when (ltb maxprocs nprocs) (exit (negsuc 1))

  unfoldable pub atoa_setup : M (Machine Atoa W) (Unit {0})
  atoa_setup = skip

  unfoldable pub atoa_sync : M (Machine Atoa W) (Unit {0})
  atoa_sync = call (lib.barrier)

  -- SendData and RecvData have one text.
  unfoldable pub exchange_all : M (Machine Atoa W) (Unit {0})
  exchange_all = do
    m ← gets (λ (m : Machine Atoa W). m)
    bytes ← load_bytes m.args.s_ptr (m.args.bufflen * m.prot.nprocs)
    got ← call (lib.alltoall bytes m.args.bufflen)
    put_bytes m.args.r_ptr got

  unfoldable pub atoa_send_repeat : ℕ → M (Machine Atoa W) (Unit {0})
  atoa_send_repeat nrepeat = do bytes ← call (lib.bcast (le32 nrepeat)); skip

  -- What the variable of the caller held is given.
  unfoldable pub atoa_recv_repeat : ℕ → M (Machine Atoa W) ℕ
  atoa_recv_repeat old = do bytes ← call (lib.bcast (le32 old)); pure (of_le32 bytes)

  unfoldable pub atoa_reset : M (Machine Atoa W) (Unit {0})
  atoa_reset = skip

  unfoldable pub atoa_clean_up : M (Machine Atoa W) (Unit {0})
  atoa_clean_up = call (lib.finalize)

  unfoldable pub atoa_after_alignment_init : M (Machine Atoa W) (Unit {0})
  atoa_after_alignment_init = skip

  unfoldable pub atoa_prepare_to_receive : M (Machine Atoa W) (Unit {0})
  atoa_prepare_to_receive = skip

  -- Neither moves the time.
  unfoldable pub atoa_send_time : List ℕ → M (Machine Atoa W) (Unit {0})
  atoa_send_time time = skip

  unfoldable pub atoa_recv_time : List ℕ → M (Machine Atoa W) (List ℕ)
  atoa_recv_time old = pure old
