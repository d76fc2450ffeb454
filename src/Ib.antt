-- ===== src/Ib.antt =====
-- src/ib.c: the Mellanox VAPI module. The library is a parameter; the globals and `ProtocolStruct` are
-- the record `Ib`. The adapter's objects are in Ib.Device, the completion handler in Ib.Handler, what is
-- sent and received in Ib.Transfer, the buffers in Ib.Buffers, what goes over the socket in Ib.Exchange,
-- and Init, Setup and CleanUp in Ib.Setup.
pub mod Device
pub mod Exchange
pub mod Setup
pub mod Handler
pub mod Transfer
pub mod Buffers
use netpipe5_dev.Base.{ℕ, Bool, Option}
use netpipe5_dev.Memory.{Ptr, Heap}
use netpipe5_dev.Sockets.{Address}
use netpipe5_dev.Verbs.{Region, Poll, Entry, SendRequest}

-- The attributes that VAPI_modify_qp is given, by the state asked for.
pub data VapiChange : Type 0 where
  -- the key index and the port; remote reads and writes are allowed
  vapi_init_state : ℕ → ℕ → VapiChange
  -- outstanding reads, the other queue pair and local id, path MTU, sequence number, key index, timer
  vapi_rtr_state : ℕ → ℕ → ℕ → ℕ → ℕ → ℕ → ℕ → VapiChange
  -- sequence number, timeout, the two retry counts, outstanding reads at the other side
  vapi_rts_state : ℕ → ℕ → ℕ → ℕ → ℕ → VapiChange

-- `qp_init_attr`; a handle is none when it is VAPI_INVAL_HNDL.
pub record VapiQpInit : Type 0 where
  pub max_wr : ℕ
  pub max_sg : ℕ
  pub pd : Option ℕ
  pub rq_cq : Option ℕ
  pub sq_cq : Option ℕ

-- `VAPI_rr_desc_t`
pub record RecvRequest : Type 0 where
  pub signaled : Bool
  pub entry : Option Entry

-- `mr_in`
pub record RegionRequest : Type 0 where
  pub remote_write : Bool
  pub pd : Option ℕ
  pub start : Ptr
  pub size : ℕ

-- The calls on the adapter "InfiniHost0". One that gives an error writes no result. The first handle is
-- that of the adapter.
pub record Vapi (W : Type 0) : Type 0 where
  pub mtu1024 : ℕ
  pub open_hca : W → Option ℕ × W
  pub get_hca_hndl : W → Option ℕ × W
  pub release_hca_hndl : ℕ → W → Bool × W
  -- the local id of a port
  pub query_hca_port_prop : Option ℕ → ℕ → W → Option ℕ × W
  pub alloc_pd : Option ℕ → W → Option ℕ × W
  pub dealloc_pd : Option ℕ → ℕ → W → Bool × W
  -- the handle and the number of entries
  pub create_cq : Option ℕ → ℕ → W → Option (ℕ × ℕ) × W
  pub destroy_cq : Option ℕ → ℕ → W → Bool × W
  -- the handle and the number of the queue pair
  pub create_qp : Option ℕ → VapiQpInit → W → Option (ℕ × ℕ) × W
  pub destroy_qp : Option ℕ → ℕ → W → Bool × W
  pub modify_qp : Option ℕ → Option ℕ → VapiChange → W → Bool × W
  pub register_mr : Option ℕ → RegionRequest → W → Option Region × W
  pub deregister_mr : Option ℕ → ℕ → W → Bool × W
  pub post_rr : Option ℕ → Option ℕ → RecvRequest → W → Bool × W
  pub post_sr : Option ℕ → Option ℕ → SendRequest → W → Bool × W
  pub poll_cq : Option ℕ → Option ℕ → W → Poll × W
  pub req_comp_notif : Option ℕ → Option ℕ → W → Unit {0} × W
  pub set_comp_eventh : Option ℕ → Option ℕ → W → Option ℕ × W
  pub clear_comp_eventh : Option ℕ → Option ℕ → W → Bool × W
  -- the adapter and the queue for which the library calls the handler now, if it does
  pub handler_call : W → Option (ℕ × ℕ) × W
  pub dma : Heap → W → Heap × W

-- Where the handler stands: not running, at the poll of a queue, or at the loop that waits for the
-- flag to be 0 with a completion in hand.
pub data HandlerAt : Type 0 where
  away : HandlerAt
  polling : ℕ → ℕ → HandlerAt
  holding : ℕ → ℕ → HandlerAt

pub record Ib : Type 0 where
  pub sin1 : Address
  pub sin2 : Address
  pub ib_mtu : ℕ
  pub commtype : ℕ
  pub comptype : ℕ
  pub hca_hndl : Option ℕ
  pub port_num : ℕ
  pub lid : ℕ
  pub d_lid : ℕ
  pub pd_hndl : Option ℕ
  pub num_cqe : ℕ
  pub act_num_cqe : ℕ
  pub s_cq_hndl : Option ℕ
  pub r_cq_hndl : Option ℕ
  pub ceh_hndl : Option ℕ
  -- the keys, and the handles apart from them
  pub s_mr_out : Region
  pub r_mr_out : Region
  pub s_mr_hndl : Option ℕ
  pub r_mr_hndl : Option ℕ
  pub qp_hndl : Option ℕ
  pub qp_num : ℕ
  pub d_qp_num : ℕ
  -- `wc.status` is VAPI_SUCCESS
  pub wc_success : Bool
  pub remote_address : ℕ
  pub remote_key : ℕ
  pub receive_complete : ℕ
  pub handler : HandlerAt
