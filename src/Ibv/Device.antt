-- ===== src/Ibv/Device.antt =====
-- src/ibv.c: initIB, which takes the adapter's objects and brings the queue pair up, and finalizeIB,
-- which gives them back.
pub mod Ledger
pub mod Release
pub mod Acquire
pub mod Stages
pub mod Objects
pub mod Connect
pub mod Whole
pub mod Greeting
pub mod Handshake
pub mod Connected
use netpipe5_dev.Base.{
  ℕ, ◌==◌, ℤ, pos, negsuc, Bool, true, false, not, if◌then◌else◌, Option, none, some, List, [], ◌∷◌,
  length, ◌&&◌, ltb, leb, take,
}
use netpipe5_dev.Effect.{M, ◌>>=◌, ◌>>◌, pure, gets, skip, when, defined}
use netpipe5_dev.Machine.{Machine, Args, not_released, print, call, le32, of_le32, set_prot}
use netpipe5_dev.Sockets.{Sockets}
use netpipe5_dev.Verbs.{Verbs, QueuePair, Region, QpInit, to_init, to_rtr, to_rts, remote_access}
use netpipe5_dev.Ibv.{Ibv, ThreadAt, waits, np_comp_event, max_wq, le16, of_le16}
use netpipe5_dev.Ibv.Exchange.{sync}

-- The first device of the list; NULL stays if there is none.
abbrev pub first_device : Option ℕ → Option (List ℕ) → Option ℕ
first_device old none = none
first_device old (some []) = old
first_device old (some (d ∷ ds)) = some d

abbrev pub no_devices : Option (List ℕ) → Bool
no_devices none = false
no_devices (some []) = true
no_devices (some (d ∷ ds)) = false

abbrev pub is_some {ℓ} : {A : Type ℓ} → Option A → Bool
is_some none = false
is_some (some a) = true

-- A write that must take all its bytes, and a read that must give them all at once: after a short
-- read initIB fails, and what it has read is not used.
abbrev pub wrote_all : ℕ → Option ℕ → Bool
wrote_all size none = false
wrote_all size (some n) = n == size

abbrev pub read_all : ℕ → Option (List ℕ) → Bool
read_all size none = false
read_all size (some bytes) = length bytes == size

abbrev pub bytes_read : Option (List ℕ) → List ℕ
bytes_read none = []
bytes_read (some bytes) = bytes

module _ {W : Type 0} where
  -- `if (..) return -1;` and the rest of initIB
  abbrev pub or_fail : M (Machine Ibv W) Bool → M (Machine Ibv W) ℤ → M (Machine Ibv W) ℤ
  or_fail step rest = do ok ← step; elim ok [ true ↦ rest | false ↦ pure (negsuc 0) ]

module _ {W : Type 0} (verbs : Verbs W) (net : Sockets W) where
  -- num_devices is 1 when the call gives NULL, but then there is no device either.
  unfoldable pub find_device : M (Machine Ibv W) Bool
  find_device = do
    devices ← call (verbs.get_device_list)
    set_prot (λ t. record t { hca = first_device t.hca devices })
    t ← gets (λ m. m.prot)
    pure (is_some t.hca && not (no_devices devices))

  unfoldable pub open_context : M (Machine Ibv W) Bool
  open_context = do
    t ← gets (λ m. m.prot)
    device ← defined t.hca
    c ← call (verbs.open_device device)
    set_prot (λ t. record t { ctx = c })
    when (is_some c) (call (verbs.free_device_list))
    pure (is_some c)

  unfoldable pub query_port : M (Machine Ibv W) Bool
  query_port = do
    set_prot (λ t. record t { port_num = 1 })
    t ← gets (λ m. m.prot)
    context ← defined t.ctx
    r ← call (verbs.query_port context 1)
    elim r [ none ↦ pure false | some l ↦ do set_prot (λ t. record t { lid = l }); pure true ]

  unfoldable pub make_pd : M (Machine Ibv W) Bool
  make_pd = do
    t ← gets (λ m. m.prot)
    context ← defined t.ctx
    r ← call (verbs.alloc_pd context)
    set_prot (λ t. record t { pd_hndl = r })
    pure (is_some r)

  unfoldable pub make_send_cq : M (Machine Ibv W) Bool
  make_send_cq = do
    t ← gets (λ m. m.prot)
    context ← defined t.ctx
    r ← call (verbs.create_cq context 30000 none)
    elim r [
      | none ↦ do set_prot (λ t. record t { s_cq_hndl = none }); pure false
      | some (cq, cqe) ↦ do
        set_prot (λ t. record t { s_cq_hndl = some cq; act_num_cqe = cqe })
        pure true
    ]

  unfoldable pub make_recv_cq : M (Machine Ibv W) Bool
  make_recv_cq = do
    t ← gets (λ m. m.prot)
    context ← defined t.ctx
    r ← call (verbs.create_cq context 20000 none)
    elim r [
      | none ↦ do set_prot (λ t. record t { r_cq_hndl = none }); pure false
      | some (cq, cqe) ↦ do
        set_prot (λ t. record t { r_cq_hndl = some cq; act_num_cqe = cqe })
        pure true
    ]

  unfoldable pub make_qp : M (Machine Ibv W) Bool
  make_qp = do
    t ← gets (λ m. m.prot)
    pd ← defined t.pd_hndl
    r_cq ← defined t.r_cq_hndl
    s_cq ← defined t.s_cq_hndl
    let attr : QpInit = record {
      max_recv_wr = max_wq;
      max_send_wr = max_wq;
      max_recv_sge = 1;
      max_send_sge = 1;
      recv_cq = r_cq;
      send_cq = s_cq;
      sq_sig_all = 0;
    }
    r ← call (verbs.create_qp pd attr)
    set_prot (λ t. record t { qp_hndl = r })
    pure (is_some r)

  unfoldable pub send_lid : M (Machine Ibv W) Bool
  send_lid = do
    m ← gets (λ m. m)
    n ← call (net.write m.args.commfd (le16 m.prot.lid))
    pure (wrote_all 2 n)

  unfoldable pub send_qp_num : M (Machine Ibv W) Bool
  send_qp_num = do
    m ← gets (λ m. m)
    qp ← defined m.prot.qp_hndl
    n ← call (net.write m.args.commfd (le32 qp.qp_num))
    pure (wrote_all 4 n)

  unfoldable pub read_lid : M (Machine Ibv W) Bool
  read_lid = do
    m ← gets (λ m. m)
    r ← call (net.read m.args.commfd 2)
    elim (read_all 2 r) [
      | false ↦ pure false
      | true ↦ do set_prot (λ t. record t { d_lid = of_le16 (bytes_read r) }); pure true
    ]

  unfoldable pub read_qp_num : M (Machine Ibv W) Bool
  read_qp_num = do
    m ← gets (λ m. m)
    r ← call (net.read m.args.commfd 4)
    elim (read_all 4 r) [
      | false ↦ pure false
      | true ↦ do set_prot (λ t. record t { d_qp_num = of_le32 (bytes_read r) }); pure true
    ]

  unfoldable pub qp_to_init : M (Machine Ibv W) Bool
  qp_to_init = do
    t ← gets (λ m. m.prot)
    qp ← defined t.qp_hndl
    call (verbs.modify_qp qp.handle (to_init 0 t.port_num remote_access))

  unfoldable pub qp_to_rtr : M (Machine Ibv W) Bool
  qp_to_rtr = do
    t ← gets (λ m. m.prot)
    qp ← defined t.qp_hndl
    call (verbs.modify_qp qp.handle (to_rtr t.ib_mtu t.d_qp_num t.d_lid t.port_num 0 1 5))

  unfoldable pub sync_ok : M (Machine Ibv W) Bool
  sync_ok = do sync net; pure true

  unfoldable pub qp_to_rts : M (Machine Ibv W) Bool
  qp_to_rts = do
    t ← gets (λ m. m.prot)
    qp ← defined t.qp_hndl
    call (verbs.modify_qp qp.handle (to_rts 31 1 1 0 1))

  -- With event completion the thread is started and the first notification asked for.
  unfoldable pub start_events : M (Machine Ibv W) Bool
  start_events = do
    t ← gets (λ m. m.prot)
    elim (t.comptype == np_comp_event) [
      | false ↦ pure true
      | true ↦ do
        started ← call (verbs.pthread_create)
        elim started [
          | false ↦ pure false
          | true ↦ do
            set_prot (λ t. record t { event_thread = some waits })
            t ← gets (λ m. m.prot)
            cq ← defined t.r_cq_hndl
            call (verbs.req_notify_cq cq)
            pure true
        ]
    ]

  -- The queue pair is brought up: INIT, RTR, and after a synchronisation RTS.
  unfoldable pub connect_qp : M (Machine Ibv W) ℤ
  connect_qp = or_fail send_lid (
      or_fail send_qp_num (
        or_fail read_lid (
          or_fail read_qp_num (
            or_fail qp_to_init (
              or_fail qp_to_rtr
                (or_fail sync_ok (or_fail qp_to_rts (or_fail start_events (pure (pos 0))))))))))

  unfoldable pub init_ib : M (Machine Ibv W) ℤ
  unfolding connect_qp
  init_ib = or_fail find_device (
      or_fail open_context (
        or_fail query_port (
          or_fail make_pd
            (or_fail make_send_cq (or_fail make_recv_cq (or_fail make_qp connect_qp))))))

abbrev pub qp_handle : Option QueuePair → Option ℕ
qp_handle none = none
qp_handle (some qp) = some qp.handle

abbrev pub mr_handle : Option Region → Option ℕ
mr_handle none = none
mr_handle (some region) = some region.handle

module _ {W : Type 0} where
  -- A handle that is not NULL is given back; a failure is printed.
  abbrev pub release : Option ℕ → (ℕ → W → Bool × W) → M (Machine Ibv W) (Unit {0})
  release none destroy = skip
  release (some h) destroy = do ok ← call (destroy h); when (not ok) (print not_released)

module _ {W : Type 0} (verbs : Verbs W) where
  unfoldable pub finalize_ib : M (Machine Ibv W) (Unit {0})
  finalize_ib = do
    t ← gets (λ m. m.prot)
    release (qp_handle t.qp_hndl) (verbs.destroy_qp)
    release t.r_cq_hndl (verbs.destroy_cq)
    release t.s_cq_hndl (verbs.destroy_cq)
    release (mr_handle t.s_mr_hndl) (verbs.dereg_mr)
    release (mr_handle t.r_mr_hndl) (verbs.dereg_mr)
    release t.pd_hndl (verbs.dealloc_pd)
    release t.ctx (verbs.close_device)
