-- ===== src/Tests/Modules.antt =====
-- The copies of src/MP_memcpy.c and the MPI module at concrete machines.
use netpipe5_dev.Base.{
  ℕ, ◌+◌, ◌*◌, ◌≡◌, ◌==◌, if◌then◌else◌, refl, arith, pos, List, [], ◌∷◌, some, none,
}
use netpipe5_dev.Effect.{done, ◌>>◌}
use netpipe5_dev.Memory.{at}
use netpipe5_dev.Memory.Laws.{stored}
use netpipe5_dev.Machine.{Machine}
use netpipe5_dev.Tcp.{Tcp}
use netpipe5_dev.Copy.{copy_bytes, memcpy_8, mp_memcpy}
use netpipe5_dev.Copy.Whole.{copied, memcpy_8_copies, mp_memcpy_copies}
use netpipe5_dev.Mpi.{MpiLibrary, Mpi, mpi_setup, mpi_prepare_to_receive, mpi_recv_data}
use netpipe5_dev.Mpi.Posted.{recv_data-prepare}
use netpipe5_dev.Mpi.Roles.{with_role, mpi_setup_pairs}
use netpipe5_dev.Base.{inr}
use netpipe5_dev.Pvm.{PvmLibrary, Pvm, pvm_setup}
use netpipe5_dev.Pvm.Pairs.{greeted, met, pvm_setup_pairs}
use netpipe5_dev.Tcgmsg.{TcgmsgLibrary, Tcgmsg}
use netpipe5_dev.Netpipe.Object.{zero_args}
use netpipe5_dev.Tests.World.{World, machine, small_heap}

abbrev target : List ℕ
target = 0 ∷ 0 ∷ 0 ∷ 0 ∷ 0 ∷ 0 ∷ 0 ∷ 0 ∷ 0 ∷ 0 ∷ 0 ∷ 0 ∷ 0 ∷ 0 ∷ []

abbrev origin : List ℕ
origin = 1 ∷ 2 ∷ 3 ∷ 4 ∷ 5 ∷ 6 ∷ 7 ∷ 8 ∷ 9 ∷ 10 ∷ 11 ∷ 12 ∷ 13 ∷ 14 ∷ []

abbrev two_blocks : Machine Tcp World
two_blocks = record (machine zero_args []) {
  heap = record small_heap { next = 2; block = λ b. if b == 0 then some target else some origin };
}

-- Blocks at odd addresses.
abbrev place : ℕ → ℕ
place b = 1000 * b + 2147483653

memcpy_8_copies_example :
    memcpy_8 place (at 0 1) (at 1 0) 13 two_blocks
    ≡ done tt (copied two_blocks 0 1 0 13 target origin)
memcpy_8_copies_example =
    memcpy_8_copies 0 1 (λ e. absurd (omega (arith, e))) place 1 0 13 target origin two_blocks refl
      refl (omega arith) (omega arith)

mp_memcpy_copies_example :
    mp_memcpy place copy_bytes (at 0 1) (at 1 0) 13 two_blocks
    ≡ done tt (copied two_blocks 0 1 0 13 target origin)
mp_memcpy_copies_example =
    mp_memcpy_copies 0 1 (λ e. absurd (omega (arith, e))) place copy_bytes 1 0 13 target origin
      two_blocks (omega arith) refl refl (omega arith) (omega arith)

-- A library whose state is the rank, in a world of three, where each message is the bytes 7 and 8.
abbrev three : MpiLibrary ℕ
three = record {
  comm_rank = λ w. (w, w);
  comm_size = λ w. (3, w);
  start_up = λ w. (tt, w);
  finalize = λ w. (tt, w);
  barrier = λ w. (tt, w);
  send = λ _ _ _ w. (tt, w);
  ssend = λ _ _ _ w. (tt, w);
  recv = λ _ _ _ w. (7 ∷ 8 ∷ [], w);
  irecv = λ _ _ _ w. (5, w);
  wait = λ _ w. (7 ∷ 8 ∷ [], w);
}

abbrev process : ℕ → Machine Mpi ℕ
process rank = record {
  args = record zero_args { bufflen = 2; r_ptr = at 0 3 };
  async_receive = 1;
  bufalign = 16384;
  streamopt = 0;
  lfsr_data = 0;
  heap = record small_heap { next = 1; block = λ _. some target };
  printed = [];
  prot = record { nbor = pos 0; iproc = 0; recv_posted = pos 0; recv_request = none };
  sys = rank;
}

recv_data-prepare_example :
    (mpi_prepare_to_receive three >> mpi_recv_data three) (process 2)
    ≡ done tt (record (process 2) {
      heap = stored (process 2).heap 0 3 (7 ∷ 8 ∷ []) target;
      prot = record ((process 2).prot) { recv_posted = pos 0; recv_request = some (at 0 3, 5) };
    })
recv_data-prepare_example =
    recv_data-prepare three 0 3 target (7 ∷ 8 ∷ []) 5 2 2 (process 2) refl refl refl (omega arith)
      refl refl

mpi_setup_pairs_example :
    (mpi_setup three (process 0) ≡ done tt (with_role (process 0) 0 0 1 0 2))
    × (mpi_setup three (process 2) ≡ done tt (with_role (process 2) 2 2 0 1 0))
mpi_setup_pairs_example =
    mpi_setup_pairs three 3 (process 0) (process 2) 0 0 2 2 (omega arith) refl refl refl refl refl
      refl

-- A machine of the tasks 9 and 5, whose state is the task that runs; each message has the id 5.
abbrev two_tasks : PvmLibrary ℕ
two_tasks = record {
  mytid = λ w. (pos w, w);
  tasks = λ w. (pos 9 ∷ pos 5 ∷ [], w);
  route_direct = λ w. (tt, w);
  initsend = λ w. (tt, w);
  pkint = λ _ w. (tt, w);
  pkbyte = λ _ w. (tt, w);
  pkdouble = λ _ w. (tt, w);
  send = λ _ _ w. (tt, w);
  recv = λ _ _ w. (pos 1, w);
  upkint = λ w. (pos 5, w);
  upkbyte = λ n w. (7 ∷ 8 ∷ [], w);
  upkdouble = λ w. ([], w);
}

abbrev task : ℕ → ℕ → Machine Pvm ℕ
task id tr = record {
  args = record zero_args { tr = tr };
  async_receive = 0;
  bufalign = 16384;
  streamopt = 0;
  lfsr_data = 0;
  heap = small_heap;
  printed = [];
  prot = record { mytid = pos 0; othertid = pos 0 };
  sys = id;
}

pvm_setup_pairs_example :
    (pvm_setup two_tasks (task 5 1)
      ≡ done tt (met two_tasks (task 5 1) (pos 5) (pos 9) (greeted two_tasks (pos 5) (pos 9) 5)))
    × (pvm_setup two_tasks (task 9 0) ≡ done tt (met two_tasks (task 9 0) (pos 9) (pos 5) 9))
pvm_setup_pairs_example =
    pvm_setup_pairs two_tasks 5 9 1 (pos 9 ∷ pos 5 ∷ []) (task 5 1) (task 9 0) 5 5 9 9 9
      (λ e. absurd (omega (arith, e))) refl refl refl refl (inr refl) refl refl refl

-- A TCGMSG world of three, whose state is the process.
abbrev three_nodes : TcgmsgLibrary ℕ
three_nodes = record {
  msgchr = 1;
  msgdbl = 2;
  msgint = 3;
  pbegin = λ w. (tt, w);
  pend = λ w. (tt, w);
  nnodes = λ w. (3, w);
  nodeid = λ w. (w, w);
  synch = λ _ w. (tt, w);
  snd = λ _ _ _ _ w. (tt, w);
  rcv = λ _ _ _ _ w. (7 ∷ 8 ∷ [], w);
}

abbrev node : ℕ → Machine Tcgmsg ℕ
node id = record {
  args = zero_args;
  async_receive = 0;
  bufalign = 16384;
  streamopt = 0;
  lfsr_data = 0;
  heap = small_heap;
  printed = [];
  prot = record { nbor = 0; nid = 0 };
  sys = id;
}
