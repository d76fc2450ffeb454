-- ===== src/Ibv.antt =====
-- src/ibv.c: the OpenFabrics module. Its globals and its `ProtocolStruct` are the record `Ibv`. The
-- numbers of the queue entries that are asked for are written where they are used.
pub mod Device
pub mod Events
pub mod Exchange
pub mod Transfer
pub mod Buffers
pub mod Setup
use netpipe5_dev.Base.{ℕ, ◌+◌, ◌*◌, ◌/◌, ◌%◌, ◌==◌, Bool, Option, List, [], ◌∷◌, get_or}
use netpipe5_dev.Effect.{M, ◌>>=◌, ◌>>◌, gets, modify}
use netpipe5_dev.Machine.{Machine}
use netpipe5_dev.Sockets.{Address}
use netpipe5_dev.Verbs.{Verbs, Region, QueuePair}

-- Where the event thread stands: in ibv_get_cq_event, at the poll of a queue, at the loop that
-- waits for the flag to be 0 with a completion in hand, or returned.
pub data ThreadAt : Type 0 where
  waits : ThreadAt
  polls : ℕ → ThreadAt
  holds : ℕ → ThreadAt
  ended : ThreadAt

pub record Ibv : Type 0 where
  pub sin1 : Address
  pub sin2 : Address
  pub ib_mtu : ℕ
  pub commtype : ℕ
  pub comptype : ℕ
  pub hca : Option ℕ
  pub ctx : Option ℕ
  pub port_num : ℕ
  pub lid : ℕ
  pub d_lid : ℕ
  pub pd_hndl : Option ℕ
  pub act_num_cqe : ℕ
  pub s_cq_hndl : Option ℕ
  pub r_cq_hndl : Option ℕ
  pub s_mr_hndl : Option Region
  pub r_mr_hndl : Option Region
  pub qp_hndl : Option QueuePair
  pub d_qp_num : ℕ
  -- `wc.status` is IBV_WC_SUCCESS
  pub wc_success : Bool
  pub remote_address : ℕ
  pub remote_key : ℕ
  pub receive_complete : ℕ
  -- none before pthread_create
  pub event_thread : Option ThreadAt

-- enum communication_types and completion_types, IBV_MTU_1024 and max_wq
abbrev pub np_comm_sendrecv : ℕ
np_comm_sendrecv = 0

abbrev pub np_comm_sendrecv_with_imm : ℕ
np_comm_sendrecv_with_imm = 1

abbrev pub np_comm_rdmawrite : ℕ
np_comm_rdmawrite = 2

abbrev pub np_comm_rdmawrite_with_imm : ℕ
np_comm_rdmawrite_with_imm = 3

abbrev pub np_comp_localpoll : ℕ
np_comp_localpoll = 0

abbrev pub np_comp_vapipoll : ℕ
np_comp_vapipoll = 1

abbrev pub np_comp_event : ℕ
np_comp_event = 2

abbrev pub ibv_mtu_1024 : ℕ
ibv_mtu_1024 = 3

abbrev pub max_wq : ℕ
max_wq = 50000

-- uint16_t and a pointer in memory, the lowest byte first
abbrev pub le16 : ℕ → List ℕ
le16 w = (w % 256) ∷ (w / 256 % 256) ∷ []

abbrev pub of_le16 : List ℕ → ℕ
of_le16 bs = get_or bs 0 0 + 256 * get_or bs 1 0

-- Between two steps of the program the adapter may write into memory.
abbrev pub settle : {W : Type 0} → Verbs W → M (Machine Ibv W) (Unit {0})
settle verbs = do
  m ← gets (λ m. m)
  let (h, w) = verbs.dma m.heap m.sys
  modify (λ m. record m { heap = h; sys = w })
