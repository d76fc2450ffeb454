-- ===== src/Tests/OneSided.antt =====
-- The theorems on src/armci.c at concrete lists and a small library: what the other process has put is
-- there at the second look.
use netpipe5_dev.Base.{
  arith, ℕ, zero, suc, ◌≡◌, ◌≢◌, refl, sym, ap, ◌∙◌, subst, true, false, Option, some, none, List,
  [], ◌∷◌, ◌++◌,
}
use mathlib.Core.Option.{some-injective}
use netpipe5_dev.Effect.{Outcome, done, exited, fault, hung}
use netpipe5_dev.Memory
use netpipe5_dev.Memory.{Ptr, null, at, Heap}
use netpipe5_dev.Machine.{Machine, le32}
use netpipe5_dev.Netpipe.Object.{zero_args}
use netpipe5_dev.Polling.Arrival.{there, later, arrived}
use netpipe5_dev.Armci.{ArmciLibrary, Armci, Mnode}
use netpipe5_dev.Armci.Chain.{Alloc, Cell, node_of}
use netpipe5_dev.Armci.Represents.{Represents, Meets}
use netpipe5_dev.Armci.Simulation.Allocate.{IsFresh}
use netpipe5_dev.Armci.Nodes.{remote_ptr, mfind, mfind_loop}
use netpipe5_dev.Armci.Simulation.{Operation, perform, release, partner_of}
use netpipe5_dev.Armci.Simulation.Runs.{Run, perform_all, AlwaysFresh, perform_all-Run}
use netpipe5_dev.Armci.Transfer.{armci_send_repeat, armci_recv_repeat}
use netpipe5_dev.Armci.Words.{put_sys, armci_send_repeat_lem, armci_recv_repeat_lem}

-- The next address of a node, and what was put.
record Remote : Type 0 where
  node : ℕ
  sent : List (List ℕ × Ptr)

-- The flag is block 1 and the count block 2.
abbrev shared : ℕ → ℕ → ℕ → Option (List ℕ)
shared flag count zero = none
shared flag count (suc zero) = some (le32 flag)
shared flag count (suc (suc zero)) = some (le32 count)
shared flag count (suc (suc (suc b))) = none

abbrev shared_heap : ℕ → ℕ → Heap
shared_heap flag count = record { next = 3; avail = 1000; junk = λ _. 0; block = shared flag count }

abbrev small_armci : ArmciLibrary Remote
small_armci = record {
  malloc_node = λ w. (some w.node, record w { node = suc w.node });
  start_up = λ w. (tt, w);
  shut_down = λ w. (tt, w);
  shared_malloc = λ n h w. ((at 5 0, at 15 0, h), w);
  shared_free = λ p h w. (h, w);
  put = λ bytes p n w. (tt, record w { sent = w.sent ++ ((bytes, p) ∷ []) });
  all_fence = λ w. (tt, w);
  mpi_init = λ w. (tt, w);
  comm_size = λ w. ((0, 2), w);
  comm_rank = λ w. ((0, 0), w);
  barrier = λ w. (tt, w);
  send = λ bytes n w. (tt, w);
  recv = λ n from w. (le32 0, w);
  dma = λ h w. (shared_heap 0 7, w);
  hosts_file = λ w. (none, w);
  gethostbyname = λ name w. (none, w);
  ifconfig = λ addr w. (none, w);
  setenv = λ name w. (true, w);
}

abbrev flag_cell : Cell
flag_cell = record { addr = 1; alloc = record { first = at 1 0; second = at 11 0; size = 4 } }

abbrev count_cell : Cell
count_cell = record { addr = 2; alloc = record { first = at 2 0; second = at 12 0; size = 4 } }

abbrev two_nodes : ℕ → Option Mnode
two_nodes zero = none
two_nodes (suc zero) = some (node_of flag_cell 0)
two_nodes (suc (suc zero)) = some (node_of count_cell 1)
two_nodes (suc (suc (suc a))) = none

-- The first process, whose flag is 1.
abbrev first_process : Machine Armci Remote
first_process = record {
  args = zero_args;
  async_receive = 0;
  bufalign = 0;
  streamopt = 0;
  lfsr_data = 0;
  heap = shared_heap 1 0;
  printed = [];
  prot = record {
    npes = 2;
    mype = 0;
    nbor_r_buff_offset = 0;
    m_first = 2;
    nodes = two_nodes;
    p_time = null;
    p_nrepeat = at 2 0;
    nbor = 1;
    ipe = 0;
    flag = at 1 0;
  };
  sys = record { node = 3; sent = [] };
}

two_nodes-Represents : Represents false (count_cell.alloc ∷ flag_cell.alloc ∷ []) first_process
two_nodes-Represents = record {
  cells = count_cell ∷ flag_cell ∷ [];
  same = refl;
  here = refl;
  first = refl;
  chained = (omega arith, refl, (omega arith, tt), (omega arith, refl, tt, tt));
}

IsFresh-three : IsFresh small_armci first_process
IsFresh-three a e =
    subst (λ (a : ℕ). (a ≢ 0) × (two_nodes a ≡ none)) (some-injective 3 a e) (omega arith, refl)

-- The partner of the flag is looked up, and then the flag is freed.
abbrev two_operations : List Operation
two_operations = partner_of (at 1 0) ∷ release (at 1 0) ∷ []

partner_runs :
    perform small_armci 5 (partner_of (at 1 0)) first_process ≡ done (at 11 0) first_process
unfolding perform remote_ptr mfind mfind_loop
partner_runs = refl

abbrev state_of : Outcome (Machine Armci Remote) Ptr → Machine Armci Remote → Machine Armci Remote
state_of (done v m) other = m
state_of (exited c m) other = other
state_of fault other = other
state_of hung other = other

two_operations-AlwaysFresh : AlwaysFresh small_armci false 5 two_operations first_process
two_operations-AlwaysFresh = (
  IsFresh-three,
  λ v m' e.
      subst (AlwaysFresh small_armci false 5 (release (at 1 0) ∷ []))
        (ap (λ (o : Outcome (Machine Armci Remote) Ptr). state_of o first_process)
          (sym partner_runs ∙ e))
        (IsFresh-three, λ v m' e. tt),
)

perform_all-Run_example :
    (r : Option (List Ptr × List Alloc)) × Run small_armci false two_operations
      (count_cell.alloc ∷ flag_cell.alloc ∷ [])
      r
    × Meets false r (perform_all small_armci false 5 two_operations first_process)
perform_all-Run_example =
    perform_all-Run small_armci false 5 two_operations (count_cell.alloc ∷ flag_cell.alloc ∷ [])
      first_process two_nodes-Represents (omega arith) two_operations-AlwaysFresh

abbrev counted : Heap
counted = record (shared_heap 1 0) { block = Memory.update (shared 1 0) 2 (some (le32 9)) }

count_stored : Memory.store (at 2 0) (le32 9) (shared_heap 1 0) ≡ some counted
unfolding Memory.store Memory.splice
count_stored = refl

count_loads : Memory.load (at 2 0) 4 counted ≡ some (le32 9)
unfolding Memory.load Memory.slice
count_loads = refl

flag_loads : Memory.load (at 1 0) 4 counted ≡ some (le32 1)
unfolding Memory.load Memory.slice
flag_loads = refl

armci_send_repeat_example :
    armci_send_repeat small_armci 3 9 first_process
    ≡ done tt (
        put_sys small_armci
          (le32 1)
          (at 11 0)
          (put_sys small_armci (le32 9) (at 12 0) (record first_process { heap = counted })))
armci_send_repeat_example =
    armci_send_repeat_lem small_armci 3 false 9 (at 12 0) (at 11 0) (le32 1) counted
      (count_cell.alloc ∷ flag_cell.alloc ∷ []) first_process two_nodes-Represents (omega arith)
      refl refl count_stored count_loads flag_loads

abbrev rearmed : Heap
rearmed = record (shared_heap 0 7) { block = Memory.update (shared 0 7) 1 (some (le32 1)) }

first_look : Memory.load (at 1 0) 4 (shared_heap 1 0) ≡ some (le32 1)
unfolding Memory.load Memory.slice
first_look = refl

second_look : Memory.load (at 1 0) 4 (shared_heap 0 7) ≡ some (le32 0)
unfolding Memory.load Memory.slice
second_look = refl

count_arrives : Memory.load (at 2 0) 4 (shared_heap 0 7) ≡ some (le32 7)
unfolding Memory.load Memory.slice
count_arrives = refl

flag_rearms : Memory.store (at 1 0) (le32 1) (shared_heap 0 7) ≡ some rearmed
unfolding Memory.store Memory.splice
flag_rearms = refl

armci_recv_repeat_example :
    armci_recv_repeat small_armci 3 first_process
    ≡ done 7 (record (arrived small_armci.dma first_process) { heap = rearmed })
armci_recv_repeat_example =
    armci_recv_repeat_lem small_armci 3 1 7 rearmed first_process
      (arrived small_armci.dma first_process) (omega arith)
      (later 0 (le32 1) first_process (arrived small_armci.dma first_process) first_look refl
        (there (le32 0) (arrived small_armci.dma first_process) second_look refl))
      (omega arith) count_arrives flag_rearms
