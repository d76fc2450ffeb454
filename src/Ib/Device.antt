-- ===== src/Ib/Device.antt =====
-- src/ib.c: initIB, which takes the adapter's objects and brings the queue pair up, and finalizeIB,
-- which gives them back.
pub mod Stack
pub mod Acquire
pub mod Connect
pub mod Release
pub mod Whole
use netpipe5_dev.Base.{ℕ, ◌==◌, ℤ, pos, negsuc, Bool, true, false, not, Option, none, some}
use netpipe5_dev.Effect.{M, ◌>>=◌, ◌>>◌, pure, gets, skip, when}
use netpipe5_dev.Machine.{Machine, Args, not_released, print, call, le32, of_le32, set_prot}
use netpipe5_dev.Sockets.{Sockets}
use netpipe5_dev.Ibv.{np_comp_event, max_wq, le16, of_le16}
use netpipe5_dev.Ibv.Device.{wrote_all, read_all, bytes_read}
use netpipe5_dev.Ib.{Vapi, Ib, VapiQpInit, vapi_init_state, vapi_rtr_state, vapi_rts_state}
use netpipe5_dev.Ib.Exchange.{vapi_sync}

-- A handle that a failing call leaves as it was.
abbrev pub or_old : Option ℕ → Option ℕ → Option ℕ
or_old old none = old
or_old old (some h) = some h

module _ {W : Type 0} where
  -- `if (..) return -1;` and the rest of initIB
  abbrev pub or_minus_one : M (Machine Ib W) Bool → M (Machine Ib W) ℤ → M (Machine Ib W) ℤ
  or_minus_one step rest = do ok ← step; elim ok [ true ↦ rest | false ↦ pure (negsuc 0) ]

module _ {W : Type 0} (vapi : Vapi W) (net : Sockets W) where
  -- The result of VAPI_open_hca is not looked at.
  unfoldable pub vapi_open : M (Machine Ib W) Bool
  vapi_open = do
    opened ← call (vapi.open_hca)
    set_prot (λ t. record t { hca_hndl = or_old t.hca_hndl opened })
    got ← call (vapi.get_hca_hndl)
    elim got [
      | none ↦ pure false
      | some h ↦ do set_prot (λ t. record t { hca_hndl = some h }); pure true
    ]

  unfoldable pub vapi_query_port : M (Machine Ib W) Bool
  vapi_query_port = do
    set_prot (λ t. record t { port_num = 1 })
    t ← gets (λ (m : Machine Ib W). m.prot)
    found ← call (vapi.query_hca_port_prop t.hca_hndl 1)
    elim found [ none ↦ pure false | some l ↦ do set_prot (λ t. record t { lid = l }); pure true ]

  unfoldable pub vapi_make_pd : M (Machine Ib W) Bool
  vapi_make_pd = do
    t ← gets (λ (m : Machine Ib W). m.prot)
    made ← call (vapi.alloc_pd t.hca_hndl)
    elim made [
      | none ↦ pure false
      | some h ↦ do set_prot (λ t. record t { pd_hndl = some h }); pure true
    ]

  unfoldable pub vapi_make_send_cq : M (Machine Ib W) Bool
  vapi_make_send_cq = do
    set_prot (λ t. record t { num_cqe = 30000 })
    t ← gets (λ (m : Machine Ib W). m.prot)
    made ← call (vapi.create_cq t.hca_hndl t.num_cqe)
    elim made [
      | none ↦ pure false
      | some (cq, cqe) ↦ do
        set_prot (λ t. record t { s_cq_hndl = some cq; act_num_cqe = cqe })
        pure true
    ]

  unfoldable pub vapi_make_recv_cq : M (Machine Ib W) Bool
  vapi_make_recv_cq = do
    set_prot (λ t. record t { num_cqe = 20000 })
    t ← gets (λ (m : Machine Ib W). m.prot)
    made ← call (vapi.create_cq t.hca_hndl t.num_cqe)
    elim made [
      | none ↦ pure false
      | some (cq, cqe) ↦ do
        set_prot (λ t. record t { r_cq_hndl = some cq; act_num_cqe = cqe })
        pure true
    ]

  unfoldable pub vapi_make_qp : M (Machine Ib W) Bool
  vapi_make_qp = do
    t ← gets (λ (m : Machine Ib W). m.prot)
    let attr : VapiQpInit = record {
      max_wr = max_wq;
      max_sg = 1;
      pd = t.pd_hndl;
      rq_cq = t.r_cq_hndl;
      sq_cq = t.s_cq_hndl;
    }
    made ← call (vapi.create_qp t.hca_hndl attr)
    elim made [
      | none ↦ pure false
      | some (qp, num) ↦ do set_prot (λ t. record t { qp_hndl = some qp; qp_num = num }); pure true
    ]

  unfoldable pub vapi_send_lid : M (Machine Ib W) Bool
  vapi_send_lid = do
    m ← gets (λ (m : Machine Ib W). m)
    n ← call (net.write m.args.commfd (le16 m.prot.lid))
    pure (wrote_all 2 n)

  unfoldable pub vapi_send_qp_num : M (Machine Ib W) Bool
  vapi_send_qp_num = do
    m ← gets (λ (m : Machine Ib W). m)
    n ← call (net.write m.args.commfd (le32 m.prot.qp_num))
    pure (wrote_all 4 n)

  unfoldable pub vapi_read_lid : M (Machine Ib W) Bool
  vapi_read_lid = do
    m ← gets (λ (m : Machine Ib W). m)
    r ← call (net.read m.args.commfd 2)
    elim (read_all 2 r) [
      | false ↦ pure false
      | true ↦ do set_prot (λ t. record t { d_lid = of_le16 (bytes_read r) }); pure true
    ]

  unfoldable pub vapi_read_qp_num : M (Machine Ib W) Bool
  vapi_read_qp_num = do
    m ← gets (λ (m : Machine Ib W). m)
    r ← call (net.read m.args.commfd 4)
    elim (read_all 4 r) [
      | false ↦ pure false
      | true ↦ do set_prot (λ t. record t { d_qp_num = of_le32 (bytes_read r) }); pure true
    ]

  unfoldable pub vapi_qp_to_init : M (Machine Ib W) Bool
  vapi_qp_to_init = do
    t ← gets (λ (m : Machine Ib W). m.prot)
    call (vapi.modify_qp t.hca_hndl t.qp_hndl (vapi_init_state 0 t.port_num))

  unfoldable pub vapi_qp_to_rtr : M (Machine Ib W) Bool
  vapi_qp_to_rtr = do
    t ← gets (λ (m : Machine Ib W). m.prot)
    call (vapi.modify_qp t.hca_hndl t.qp_hndl (vapi_rtr_state 1 t.d_qp_num t.d_lid t.ib_mtu 0 0 5))

  unfoldable pub vapi_sync_ok : M (Machine Ib W) Bool
  vapi_sync_ok = do vapi_sync net; pure true

  unfoldable pub vapi_qp_to_rts : M (Machine Ib W) Bool
  vapi_qp_to_rts = do
    t ← gets (λ (m : Machine Ib W). m.prot)
    call (vapi.modify_qp t.hca_hndl t.qp_hndl (vapi_rts_state 0 31 1 1 1))

  -- With event completion the handler is set and the first notification asked for. The results are
  -- not looked at.
  unfoldable pub vapi_start_events : M (Machine Ib W) (Unit {0})
  vapi_start_events = do
    t ← gets (λ (m : Machine Ib W). m.prot)
    when (t.comptype == np_comp_event) do
      set ← call (vapi.set_comp_eventh t.hca_hndl t.r_cq_hndl)
      set_prot (λ t. record t { ceh_hndl = or_old t.ceh_hndl set })
      call (vapi.req_comp_notif t.hca_hndl t.r_cq_hndl)

  -- The queue pair is brought up: INIT, RTR, and after a synchronisation RTS.
  unfoldable pub vapi_connect_qp : M (Machine Ib W) ℤ
  vapi_connect_qp = or_minus_one vapi_send_lid (
      or_minus_one vapi_send_qp_num (
        or_minus_one vapi_read_lid (
          or_minus_one vapi_read_qp_num (
            or_minus_one vapi_qp_to_init (
              or_minus_one vapi_qp_to_rtr (
                or_minus_one vapi_sync_ok
                  (or_minus_one vapi_qp_to_rts (do vapi_start_events; pure (pos 0)))))))))

  unfoldable pub vapi_init_ib : M (Machine Ib W) ℤ
  unfolding vapi_connect_qp
  vapi_init_ib = or_minus_one vapi_open (
      or_minus_one vapi_query_port (
        or_minus_one vapi_make_pd (
          or_minus_one vapi_make_send_cq
            (or_minus_one vapi_make_recv_cq (or_minus_one vapi_make_qp vapi_connect_qp)))))

module _ {W : Type 0} where
  -- A valid handle is given back; a failure is printed. The variable keeps the handle.
  abbrev pub give_back : Option ℕ → (ℕ → W → Bool × W) → M (Machine Ib W) (Unit {0})
  give_back none destroy = skip
  give_back (some h) destroy = do ok ← call (destroy h); when (not ok) (print not_released)

module _ {W : Type 0} (vapi : Vapi W) where
  unfoldable pub clear_handler : M (Machine Ib W) (Unit {0})
  clear_handler = do
    t ← gets (λ (m : Machine Ib W). m.prot)
    when (t.comptype == np_comp_event) do
      ok ← call (vapi.clear_comp_eventh t.hca_hndl t.ceh_hndl)
      when (not ok) (print not_released)

  unfoldable pub vapi_finalize_ib : M (Machine Ib W) (Unit {0})
  unfolding clear_handler
  vapi_finalize_ib = do
    clear_handler
    t ← gets (λ (m : Machine Ib W). m.prot)
    give_back t.qp_hndl (vapi.destroy_qp t.hca_hndl)
    give_back t.r_cq_hndl (vapi.destroy_cq t.hca_hndl)
    give_back t.s_cq_hndl (vapi.destroy_cq t.hca_hndl)
    give_back t.s_mr_hndl (vapi.deregister_mr t.hca_hndl)
    give_back t.r_mr_hndl (vapi.deregister_mr t.hca_hndl)
    give_back t.pd_hndl (vapi.dealloc_pd t.hca_hndl)
    give_back t.hca_hndl (vapi.release_hca_hndl)
