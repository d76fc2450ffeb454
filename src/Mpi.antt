-- ===== src/Mpi.antt =====
-- src/mpi.c: the MPI module, on the calls of an MPI library (a parameter). A failing call aborts, so
-- none gives an error. Compiled without BSEND.
pub mod Posted
pub mod Roles
use netpipe5_dev.Base.{ℕ, ◌-◌, ℤ, pos, negsuc, ltb, ◌==◌, if◌then◌else◌, Option, none, some, List}
use netpipe5_dev.Effect.{M, ◌>>=◌, ◌>>◌, pure, gets, exit, skip, when, truth, defined}
use netpipe5_dev.Memory.{Ptr}
use netpipe5_dev.Machine.{
  Machine, Args, load_bytes, put_bytes, call, le32, of_le32, set_args, set_prot,
}

-- A receive names the bytes to take at most, the source and the tag, and gives the bytes that came;
-- a posted one gives them when it is waited for. A send names the destination and the tag.
pub record MpiLibrary (W : Type 0) : Type 0 where
  pub comm_rank : W → ℕ × W
  pub comm_size : W → ℕ × W
  pub start_up : W → Unit {0} × W
  pub finalize : W → Unit {0} × W
  pub barrier : W → Unit {0} × W
  pub send : List ℕ → ℤ → ℕ → W → Unit {0} × W
  pub ssend : List ℕ → ℤ → ℕ → W → Unit {0} × W
  pub recv : ℕ → ℤ → ℕ → W → List ℕ × W
  pub irecv : ℕ → ℤ → ℕ → W → ℕ × W
  pub wait : ℕ → W → List ℕ × W

-- `ProtocolStruct` and the static variables. A request is the library's name for it and the buffer
-- that it fills.
pub record Mpi : Type 0 where
  pub nbor : ℤ
  pub iproc : ℕ
  pub recv_posted : ℤ
  pub recv_request : Option (Ptr × ℕ)

-- a C `int` as a condition
abbrev pub holds : ℤ → ℕ
holds (pos n) = n
holds (negsuc n) = 1

module _ {W : Type 0} (lib : MpiLibrary W) where
  unfoldable pub mpi_init : M (Machine Mpi W) (Unit {0})
  mpi_init = do set_args (λ p. record p { source_node = pos 0 }); call (lib.start_up)

  -- The first process transmits and the last receives; those between do neither.
  abbrev pub take_roles : ℕ → ℕ → M (Machine Mpi W) (Unit {0})
  take_roles iproc nprocs = do
    set_args (λ p. record p { tr = 0; rcv = 0 })
    if iproc == 0
        then set_args (λ p. record p { tr = 1 })
          >> set_prot (λ t. record t { nbor = pos (nprocs - 1) })
        else when (iproc == nprocs - 1)
            (set_args (λ p. record p { rcv = 1 }) >> set_prot (λ t. record t { nbor = pos 0 }))

  unfoldable pub mpi_setup : M (Machine Mpi W) (Unit {0})
  mpi_setup = do
    iproc ← call (lib.comm_rank)
    set_prot (λ t. record t { iproc = iproc })
    nprocs ← call (lib.comm_size)
    when (ltb nprocs 2) (exit (negsuc 1))
    take_roles iproc nprocs
    m ← gets (λ m. m)
    when (holds m.args.source_node == 0) (set_args (λ p. record p { source_node = m.prot.nbor }))

  unfoldable pub mpi_sync : M (Machine Mpi W) (Unit {0})
  mpi_sync = call (lib.barrier)

  unfoldable pub mpi_prepare_to_receive : M (Machine Mpi W) (Unit {0})
  mpi_prepare_to_receive = do
    t ← gets (λ m. m.prot)
    when (truth (holds t.recv_posted)) (exit (negsuc 0))
    p ← gets (λ m. m.args)
    request ← call (lib.irecv p.bufflen p.source_node 1)
    set_prot (λ t. record t { recv_posted = negsuc 0; recv_request = some (p.r_ptr, request) })

  unfoldable pub mpi_send_data : M (Machine Mpi W) (Unit {0})
  mpi_send_data = do
    m ← gets (λ m. m)
    bytes ← load_bytes (m.args.s_ptr) (m.args.bufflen)
    if truth m.args.syncflag
        then call (lib.ssend bytes m.prot.nbor 1)
        else call (lib.send bytes m.prot.nbor 1)

  unfoldable pub mpi_recv_data : M (Machine Mpi W) (Unit {0})
  mpi_recv_data = do
    m ← gets (λ m. m)
    if truth (holds m.prot.recv_posted)
        then (do
          (buffer, request) ← defined (m.prot.recv_request)
          bytes ← call (lib.wait request)
          put_bytes buffer bytes
          set_prot (λ t. record t { recv_posted = pos 0 }))
        else (do
          bytes ← call (lib.recv m.args.bufflen m.args.source_node 1)
          put_bytes (m.args.r_ptr) bytes)

  -- The time is given by the bytes of the `double`.
  unfoldable pub mpi_send_time : List ℕ → M (Machine Mpi W) (Unit {0})
  mpi_send_time t = do prot ← gets (λ m. m.prot); call (lib.send t prot.nbor 2)

  unfoldable pub mpi_recv_time : M (Machine Mpi W) (List ℕ)
  mpi_recv_time = do prot ← gets (λ m. m.prot); call (lib.recv 8 prot.nbor 2)

  unfoldable pub mpi_send_repeat : ℕ → M (Machine Mpi W) (Unit {0})
  mpi_send_repeat rpt = do prot ← gets (λ m. m.prot); call (lib.send (le32 rpt) prot.nbor 2)

  unfoldable pub mpi_recv_repeat : M (Machine Mpi W) ℕ
  mpi_recv_repeat = do
    p ← gets (λ m. m.args)
    bytes ← call (lib.recv 4 p.source_node 2)
    pure (of_le32 bytes)

  unfoldable pub mpi_clean_up : M (Machine Mpi W) (Unit {0})
  mpi_clean_up = call (lib.finalize)

  unfoldable pub mpi_reset : M (Machine Mpi W) (Unit {0})
  mpi_reset = skip

  unfoldable pub mpi_after_alignment_init : M (Machine Mpi W) (Unit {0})
  mpi_after_alignment_init = skip
