-- ===== src/Ib/Transfer.antt =====
-- src/ib.c: PrepareToReceive, SendData, RecvData and Reset. A busy wait is looked at in rounds; the
-- adapter and the handler move between two looks.
use netpipe5_dev.Base.{
  ℕ, zero, suc, ◌+◌, ◌==◌, ◌&&◌, negsuc, true, false, not, if◌then◌else◌, Option, none, some,
}
use netpipe5_dev.Effect.{M, ◌>>=◌, ◌>>◌, pure, gets, exit, skip, hang, when, truth, defined}
use netpipe5_dev.Machine.{Machine, send_not_posted, print, call, set_prot}
use netpipe5_dev.Sockets.{Sockets}
use netpipe5_dev.Verbs.{
  empty, broken, completed, Entry, SendRequest, Opcode, send, send_with_imm, rdma_write,
  rdma_write_with_imm,
}
use netpipe5_dev.Ibv.{
  np_comm_sendrecv, np_comm_sendrecv_with_imm, np_comm_rdmawrite, np_comm_rdmawrite_with_imm,
  np_comp_localpoll, np_comp_vapipoll, np_comp_event,
}
use netpipe5_dev.Ibv.Transfer.{offset_from}
use netpipe5_dev.Polling.{arrive, take_message}
use netpipe5_dev.Ib.{Vapi, Ib, RecvRequest}
use netpipe5_dev.Ib.Exchange.{vapi_sync}
use netpipe5_dev.Ib.Handler.{handler_step}

module _ {W : Type 0} (vapi : Vapi W) where
  -- `cleanup` is CleanUp. With local polling no completion of the receive is asked for.
  unfoldable pub vapi_prepare_to_receive : M (Machine Ib W) (Unit {0}) → M (Machine Ib W) (Unit {0})
  vapi_prepare_to_receive cleanup = do
    m ← gets (λ (m : Machine Ib W). m)
    when (not (m.prot.commtype == np_comm_rdmawrite && m.prot.comptype == np_comp_localpoll)) do
      let entry : Entry = record {
        addr = m.args.r_ptr;
        len = m.args.bufflen;
        lkey = m.prot.r_mr_out.lkey;
      }
      let request : RecvRequest = record {
        signaled = not (m.prot.comptype == np_comp_localpoll);
        entry = some entry;
      }
      posted ← call (vapi.post_rr m.prot.hca_hndl m.prot.qp_hndl request)
      when (not posted) (cleanup >> exit (negsuc 0))
      when (m.prot.comptype == np_comp_event) (set_prot (λ t. record t { receive_complete = 0 }))

  -- The remote address and key of an RDMA write.
  abbrev pub vapi_remote : M (Machine Ib W) (ℕ × ℕ)
  vapi_remote = do
    m ← gets (λ (m : Machine Ib W). m)
    off ← defined (offset_from m.args.s_ptr m.args.s_buff)
    pure (m.prot.remote_address + off, m.prot.remote_key)

  -- The opcode by the communication type, and where an RDMA write goes.
  abbrev pub vapi_opcode : ℕ → M (Machine Ib W) (Opcode × Option (ℕ × ℕ))
  vapi_opcode commtype =
      if commtype == np_comm_sendrecv
      then pure (send, none)
      else if commtype == np_comm_sendrecv_with_imm
      then pure (send_with_imm, none)
      else if commtype == np_comm_rdmawrite
      then (do r ← vapi_remote; pure (rdma_write, some r))
      else if commtype == np_comm_rdmawrite_with_imm
      then (do r ← vapi_remote; pure (rdma_write_with_imm, some r))
      else exit (negsuc 0)

  unfoldable pub vapi_send_data : M (Machine Ib W) (Unit {0})
  vapi_send_data = do
    m ← gets (λ (m : Machine Ib W). m)
    (opcode, remote) ← vapi_opcode m.prot.commtype
    let entry : Entry = record {
      addr = m.args.s_ptr;
      len = m.args.bufflen;
      lkey = m.prot.s_mr_out.lkey;
    }
    let request : SendRequest = record {
      opcode = opcode;
      signaled = false;
      remote = remote;
      entry = some entry;
    }
    posted ← call (vapi.post_sr m.prot.hca_hndl m.prot.qp_hndl request)
    when (not posted) (print send_not_posted)

  -- while (ret == VAPI_CQ_EMPTY) ret = VAPI_poll_cq(..); and the checks of the result and the status
  unfoldable pub vapi_wait_completion : ℕ → Option ℕ → M (Machine Ib W) (Unit {0})
  vapi_wait_completion zero cq = hang
  vapi_wait_completion (suc rounds) cq = do
    arrive vapi.dma
    t ← gets (λ (m : Machine Ib W). m.prot)
    found ← call (vapi.poll_cq t.hca_hndl cq)
    elim found [
      | empty ↦ vapi_wait_completion rounds cq
      | broken ↦ exit (negsuc 0)
      | completed good ↦ do
        set_prot (λ t. record t { wc_success = good })
        when (not good) (exit (negsuc 0))
    ]

  -- while (receive_complete == 0);
  unfoldable pub vapi_wait_flag : ℕ → M (Machine Ib W) (Unit {0})
  vapi_wait_flag zero = hang
  vapi_wait_flag (suc rounds) = do
    t ← gets (λ (m : Machine Ib W). m.prot)
    elim (t.receive_complete == 0) [
      | false ↦ skip
      | true ↦ do handler_step vapi; vapi_wait_flag rounds
    ]

  unfoldable pub vapi_recv_data : ℕ → M (Machine Ib W) (Unit {0})
  unfolding vapi_wait_completion vapi_wait_flag
  vapi_recv_data rounds = do
    m ← gets (λ (m : Machine Ib W). m)
    if m.prot.comptype == np_comp_localpoll
        then take_message vapi.dma rounds
        else if m.prot.comptype == np_comp_vapipoll
        then vapi_wait_completion rounds m.prot.r_cq_hndl
        else when (m.prot.comptype == np_comp_event) do
          vapi_wait_flag rounds
          when (truth m.args.preburst) (set_prot (λ t. record t { receive_complete = 0 }))

  -- A receive and a send without a buffer, with a synchronisation between them; then both completions
  -- are waited for. The status looked at after the post is that of an earlier completion.
  unfoldable pub vapi_reset :
      Sockets W → ℕ → M (Machine Ib W) (Unit {0}) → M (Machine Ib W) (Unit {0})
  unfolding vapi_wait_completion vapi_wait_flag
  vapi_reset net rounds cleanup = do
    event ← gets (λ (m : Machine Ib W). m.prot.comptype == np_comp_event)
    when event (set_prot (λ t. record t { receive_complete = 0 }))
    t ← gets (λ (m : Machine Ib W). m.prot)
    let receive : RecvRequest = record { signaled = true; entry = none }
    posted ← call (vapi.post_rr t.hca_hndl t.qp_hndl receive)
    when (not posted) (cleanup >> exit (negsuc 0))
    vapi_sync net
    let request : SendRequest = record {
      opcode = send;
      signaled = true;
      remote = none;
      entry = none;
    }
    sent ← call (vapi.post_sr t.hca_hndl t.qp_hndl request)
    when (not sent) (exit (negsuc 0))
    t ← gets (λ (m : Machine Ib W). m.prot)
    when (not t.wc_success) (exit (negsuc 0))
    vapi_wait_completion rounds t.s_cq_hndl
    if event then vapi_wait_flag rounds else vapi_wait_completion rounds t.r_cq_hndl
