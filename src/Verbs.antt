-- ===== src/Verbs.antt =====
-- The InfiniBand verbs (infiniband/verbs.h) and the POSIX threads that src/ibv.c calls and does not
-- implement: a parameter. A call takes the state of the system and returns its result with the new
-- state. A handle is a number, and none is NULL.
use netpipe5_dev.Base.{ℕ, Bool, Option, List, [], ◌∷◌}
use netpipe5_dev.Memory.{Ptr, Heap}

-- A memory region: its handle and its local and remote keys.
pub record Region : Type 0 where
  pub handle : ℕ
  pub lkey : ℕ
  pub rkey : ℕ

-- A queue pair and its number.
pub record QueuePair : Type 0 where
  pub handle : ℕ
  pub qp_num : ℕ

-- What ibv_poll_cq says of at most one completion: none, an error, or one with its status.
pub data Poll : Type 0 where
  empty : Poll
  broken : Poll
  completed : Bool → Poll

-- What ibv_get_cq_event says when it is looked at: still waiting, an error, or a queue.
pub data CqEvent : Type 0 where
  pending : CqEvent
  no_event : CqEvent
  event : ℕ → CqEvent

-- The attributes of ibv_create_qp.
pub record QpInit : Type 0 where
  pub max_recv_wr : ℕ
  pub max_send_wr : ℕ
  pub max_recv_sge : ℕ
  pub max_send_sge : ℕ
  pub recv_cq : ℕ
  pub send_cq : ℕ
  pub sq_sig_all : ℕ

-- IBV_ACCESS_REMOTE_WRITE and IBV_ACCESS_REMOTE_READ
pub data Access : Type 0 where
  remote_write remote_read : Access

abbrev pub remote_access : List Access
remote_access = remote_write ∷ remote_read ∷ []

-- The changes of ibv_modify_qp, by the state that they ask for, with the attributes of their masks.
pub data QpChange : Type 0 where
  -- the key index, the port, what the other side may do
  to_init : ℕ → ℕ → List Access → QpChange
  -- path MTU, the number of the other queue pair, the other local id, the port, the first packet
  -- number, the reads that may be outstanding, the timer of a receiver that is not ready; the rest
  -- of the address (service level, rate, path bits, global route) is 0
  to_rtr : ℕ → ℕ → ℕ → ℕ → ℕ → ℕ → ℕ → QpChange
  -- timeout, retry count, retry count of a receiver that is not ready, the first packet number, the
  -- reads that may be outstanding
  to_rts : ℕ → ℕ → ℕ → ℕ → ℕ → QpChange

pub data Opcode : Type 0 where
  send send_with_imm rdma_write rdma_write_with_imm : Opcode

-- A scatter entry: the buffer, its length and the local key.
pub record Entry : Type 0 where
  pub addr : Ptr
  pub len : ℕ
  pub lkey : ℕ

pub record SendRequest : Type 0 where
  pub opcode : Opcode
  pub signaled : Bool
  -- the remote address and the remote key
  pub remote : Option (ℕ × ℕ)
  pub entry : Option Entry

-- A call that gives an error code gives true when this is 0.
pub record Verbs (W : Type 0) : Type 0 where
  pub get_device_list : W → Option (List ℕ) × W
  pub free_device_list : W → Unit {0} × W
  pub open_device : ℕ → W → Option ℕ × W
  pub close_device : ℕ → W → Bool × W
  -- the local id of a port
  pub query_port : ℕ → ℕ → W → Option ℕ × W
  pub alloc_pd : ℕ → W → Option ℕ × W
  pub dealloc_pd : ℕ → W → Bool × W
  -- the device, the entries and the event channel, if any: the handle and the number of entries
  pub create_cq : ℕ → ℕ → Option ℕ → W → Option (ℕ × ℕ) × W
  pub destroy_cq : ℕ → W → Bool × W
  pub create_qp : ℕ → QpInit → W → Option QueuePair × W
  pub destroy_qp : ℕ → W → Bool × W
  pub modify_qp : ℕ → QpChange → W → Bool × W
  -- the protection domain, the buffer, its length, and whether the other side may write it
  pub reg_mr : ℕ → Ptr → ℕ → Bool → W → Option Region × W
  pub dereg_mr : ℕ → W → Bool × W
  pub post_recv : ℕ → Option Entry → W → Bool × W
  pub post_send : ℕ → SendRequest → W → Bool × W
  pub poll_cq : ℕ → W → Poll × W
  pub req_notify_cq : ℕ → W → Unit {0} × W
  -- a look at an event channel
  pub get_cq_event : ℕ → W → CqEvent × W
  pub pthread_create : W → Bool × W
  -- What the adapter writes into memory, on its own, between two steps of the program.
  pub dma : Heap → W → Heap × W
