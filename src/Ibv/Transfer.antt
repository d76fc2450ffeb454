-- ===== src/Ibv/Transfer.antt =====
-- src/ibv.c: PrepareToReceive, SendData, RecvData and Reset. A busy wait is looked at in rounds; the
-- adapter and the event thread move between two looks.
pub mod Waits
pub mod Signals
pub mod Silent
pub mod Bytes
use netpipe5_dev.Base.{
  ℕ, zero, suc, ◌+◌, ◌-◌, ◌%◌, ◌==◌, ◌&&◌, negsuc, true, false, not, if◌then◌else◌, Option, none,
  some, [], ◌∷◌, get_or,
}
use netpipe5_dev.Effect.{M, ◌>>=◌, ◌>>◌, pure, gets, exit, skip, hang, when, truth, defined}
use netpipe5_dev.Memory.{Ptr, null, at, advance}
use netpipe5_dev.Machine.{
  Machine, Args, send_not_posted, load_bytes, put_bytes, print, call, set_prot,
}
use netpipe5_dev.Sockets.{Sockets}
use netpipe5_dev.Verbs.{
  Verbs, empty, broken, completed, Entry, SendRequest, Opcode, send, send_with_imm, rdma_write,
  rdma_write_with_imm,
}
use netpipe5_dev.Ibv.{
  Ibv, settle, np_comm_sendrecv, np_comm_sendrecv_with_imm, np_comm_rdmawrite,
  np_comm_rdmawrite_with_imm, np_comp_localpoll, np_comp_event,
}
use netpipe5_dev.Ibv.Events.{event_step}
use netpipe5_dev.Ibv.Exchange.{sync}

-- `p - q` on pointers into one block, of which `q` is not above `p`
abbrev pub offset_from : Ptr → Ptr → Option ℕ
offset_from (at b i) (at c j) = if b == c then some (i - j) else none
offset_from (at b i) null = none
offset_from null q = none

-- The byte that RecvData waits for at the end of the buffer, and the byte that it puts there:
-- `'a' + (p->cache ? 1 - p->tr : 1)` and `'a' + (p->cache ? p->tr : 0)`, where `tr` is 0 or 1.
abbrev pub awaited : Args → ℕ
awaited p = if truth p.cache then 98 - p.tr else 98

abbrev pub put_back : Args → ℕ
put_back p = if truth p.cache then (97 + p.tr) % 256 else 97

-- `p->r_ptr[p->bufflen - 1]`; with a length of 0 the byte before the buffer is meant.
abbrev pub last_byte : Args → Option Ptr
last_byte p = elim p.bufflen [ zero ↦ none | suc n ↦ some (advance p.r_ptr n) ]

module _ {W : Type 0} (verbs : Verbs W) where
  -- `cleanup` is CleanUp.
  unfoldable pub prepare_to_receive : M (Machine Ibv W) (Unit {0}) → M (Machine Ibv W) (Unit {0})
  prepare_to_receive cleanup = do
    m ← gets (λ m. m)
    when (not (m.prot.commtype == np_comm_rdmawrite && m.prot.comptype == np_comp_localpoll)) do
      region ← defined m.prot.r_mr_hndl
      qp ← defined m.prot.qp_hndl
      let entry : Entry = record { addr = m.args.r_ptr; len = m.args.bufflen; lkey = region.lkey }
      posted ← call (verbs.post_recv qp.handle (some entry))
      when (not posted) (cleanup >> exit (negsuc 0))
      when (m.prot.comptype == np_comp_event) (set_prot (λ t. record t { receive_complete = 0 }))

  -- The remote address and key of an RDMA write.
  abbrev pub remote_of : M (Machine Ibv W) (ℕ × ℕ)
  remote_of = do
    m ← gets (λ m. m)
    off ← defined (offset_from m.args.s_ptr m.args.s_buff)
    pure (m.prot.remote_address + off, m.prot.remote_key)

  -- The opcode by the communication type, and where an RDMA write goes.
  abbrev pub opcode_of : ℕ → M (Machine Ibv W) (Opcode × Option (ℕ × ℕ))
  opcode_of commtype =
      if commtype == np_comm_sendrecv
      then pure (send, none)
      else if commtype == np_comm_sendrecv_with_imm
      then pure (send_with_imm, none)
      else if commtype == np_comm_rdmawrite
      then (do r ← remote_of; pure (rdma_write, some r))
      else if commtype == np_comm_rdmawrite_with_imm
      then (do r ← remote_of; pure (rdma_write_with_imm, some r))
      else exit (negsuc 0)

  unfoldable pub send_data : M (Machine Ibv W) (Unit {0})
  send_data = do
    m ← gets (λ m. m)
    (opcode, remote) ← opcode_of m.prot.commtype
    region ← defined m.prot.s_mr_hndl
    qp ← defined m.prot.qp_hndl
    let entry : Entry = record { addr = m.args.s_ptr; len = m.args.bufflen; lkey = region.lkey }
    let request : SendRequest = record {
      opcode = opcode;
      signaled = false;
      remote = remote;
      entry = some entry;
    }
    posted ← call (verbs.post_send qp.handle request)
    when (not posted) (print send_not_posted)

  -- while (*p != b);
  unfoldable pub wait_byte : ℕ → Ptr → ℕ → M (Machine Ibv W) (Unit {0})
  wait_byte zero p b = hang
  wait_byte (suc rounds) p b = do
    bytes ← load_bytes p 1
    elim (get_or bytes 0 0 == b) [ true ↦ skip | false ↦ do settle verbs; wait_byte rounds p b ]

  -- while (ret == 0) ret = ibv_poll_cq(..); the last result, with the status in `wc`
  unfoldable pub wait_completion : ℕ → ℕ → M (Machine Ibv W) (Unit {0})
  wait_completion zero cq = hang
  wait_completion (suc rounds) cq = do
    settle verbs
    found ← call (verbs.poll_cq cq)
    elim found [
      | empty ↦ wait_completion rounds cq
      | broken ↦ exit (negsuc 0)
      | completed good ↦ do
        set_prot (λ t. record t { wc_success = good })
        when (not good) (exit (negsuc 0))
    ]

  -- while (receive_complete == 0);
  unfoldable pub wait_flag : ℕ → M (Machine Ibv W) (Unit {0})
  wait_flag zero = hang
  wait_flag (suc rounds) = do
    t ← gets (λ m. m.prot)
    elim (t.receive_complete == 0) [ false ↦ skip | true ↦ do event_step verbs; wait_flag rounds ]

  unfoldable pub recv_data : ℕ → M (Machine Ibv W) (Unit {0})
  unfolding wait_byte wait_completion wait_flag
  recv_data rounds = do
    m ← gets (λ m. m)
    if m.prot.commtype == np_comm_rdmawrite
        then (do
          p ← defined (last_byte m.args)
          wait_byte rounds p (awaited m.args)
          put_bytes p (put_back m.args ∷ []))
        else if not (m.prot.comptype == np_comp_event)
        then (do cq ← defined m.prot.r_cq_hndl; wait_completion rounds cq)
        else (do
          wait_flag rounds
          when (truth m.args.preburst) (set_prot (λ t. record t { receive_complete = 0 })))

  -- A receive without a buffer is posted, both sides synchronise, and a send without a buffer is
  -- posted; then both completions are waited for. The status looked at after the post is that of an
  -- earlier completion.
  unfoldable pub reset : Sockets W → ℕ → M (Machine Ibv W) (Unit {0}) → M (Machine Ibv W) (Unit {0})
  unfolding wait_completion wait_flag
  reset net rounds cleanup = do
    event ← gets (λ m. m.prot.comptype == np_comp_event)
    when event (set_prot (λ t. record t { receive_complete = 0 }))
    t ← gets (λ m. m.prot)
    qp ← defined t.qp_hndl
    posted ← call (verbs.post_recv qp.handle none)
    when (not posted) (cleanup >> exit (negsuc 0))
    sync net
    let request : SendRequest = record {
      opcode = send;
      signaled = true;
      remote = none;
      entry = none;
    }
    sent ← call (verbs.post_send qp.handle request)
    when (not sent) (exit (negsuc 0))
    t ← gets (λ m. m.prot)
    when (not t.wc_success) (exit (negsuc 0))
    s_cq ← defined t.s_cq_hndl
    wait_completion rounds s_cq
    if event then wait_flag rounds else (do r_cq ← defined t.r_cq_hndl; wait_completion rounds r_cq)
