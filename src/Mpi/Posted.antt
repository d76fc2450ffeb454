-- ===== src/Mpi/Posted.antt =====
-- src/mpi.c: a receive that is posted before it is waited for.
use netpipe5_dev.Base.{ℕ, ◌+◌, ◌≤◌, ◌≡◌, refl, pos, negsuc, List, some, length}
use netpipe5_dev.Effect.{done, exited, ◌>>◌}
use netpipe5_dev.Memory.{at}
use netpipe5_dev.Memory.Laws.{stored, store_at}
use netpipe5_dev.Machine.{Machine}
use netpipe5_dev.Mpi.{MpiLibrary, Mpi, mpi_prepare_to_receive, mpi_recv_data}

module _ {W : Type 0} (lib : MpiLibrary W) where
  -- In the MPI module, with no receive outstanding and the receive pointer in a live block with
  -- room for the bytes that the wait gives, PrepareToReceive and then RecvData store these bytes at
  -- the receive pointer, and no receive is outstanding again.
  pub recv_data-prepare :
      (b off : ℕ) (xs bytes : List ℕ) (request : ℕ) (w₁ w₂ : W) (m : Machine Mpi W)
      → m.prot.recv_posted ≡ pos 0
      → m.args.r_ptr ≡ at b off
      → m.heap.block b ≡ some xs
      → off + length bytes ≤ length xs
      → lib.irecv m.args.bufflen m.args.source_node 1 m.sys ≡ (request, w₁)
      → lib.wait request w₁ ≡ (bytes, w₂)
      → (mpi_prepare_to_receive lib >> mpi_recv_data lib) m
        ≡ done tt (record m {
          heap = stored m.heap b off bytes xs;
          sys = w₂;
          prot = record (m.prot) { recv_posted = pos 0; recv_request = some (at b off, request) };
        })
  unfolding mpi_prepare_to_receive mpi_recv_data
  recv_data-prepare b off xs bytes request w₁ w₂ m free ptr live fits posted waited =
      rw (free, posted, waited, ptr, store_at m.heap b off bytes xs live fits) refl

  -- In the MPI module, with no receive outstanding, a PrepareToReceive posts one and a second one
  -- then ends the program with -1.
  prepare-prepare :
      (request : ℕ) (w₁ : W) (m : Machine Mpi W)
      → m.prot.recv_posted ≡ pos 0
      → lib.irecv m.args.bufflen m.args.source_node 1 m.sys ≡ (request, w₁)
      → (mpi_prepare_to_receive lib >> mpi_prepare_to_receive lib) m
        ≡ exited (negsuc 0) (record m {
          sys = w₁;
          prot = record (m.prot) {
            recv_posted = negsuc 0;
            recv_request = some (m.args.r_ptr, request);
          };
        })
  unfolding mpi_prepare_to_receive
  prepare-prepare request w₁ m free posted = rw (free, posted) refl
