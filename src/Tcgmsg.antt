-- ===== src/Tcgmsg.antt =====
-- src/tcgmsg.c: the TCGMSG module, on the calls of the TCGMSG library (a parameter).
pub mod Ends
use netpipe5_dev.Base.{ℕ, ◌-◌, ◌==◌, ltb, negsuc, if◌then◌else◌, List}
use netpipe5_dev.Effect.{M, ◌>>=◌, ◌>>◌, pure, gets, exit, skip, when}
use netpipe5_dev.Machine.{
  Machine, Args, load_bytes, put_bytes, call, le32, of_le32, set_args, set_prot,
}

-- The types of messages, and the calls. A send names the type, the node and whether it waits; a
-- receive names the type, the bytes to take at most, the node and whether it waits.
pub record TcgmsgLibrary (W : Type 0) : Type 0 where
  pub msgchr : ℕ
  pub msgdbl : ℕ
  pub msgint : ℕ
  pub pbegin : W → Unit {0} × W
  pub pend : W → Unit {0} × W
  pub nnodes : W → ℕ × W
  pub nodeid : W → ℕ × W
  pub synch : ℕ → W → Unit {0} × W
  pub snd : ℕ → List ℕ → ℕ → ℕ → W → Unit {0} × W
  pub rcv : ℕ → ℕ → ℕ → ℕ → W → List ℕ × W

pub record Tcgmsg : Type 0 where
  pub nbor : ℕ
  pub nid : ℕ

module _ {W : Type 0} (lib : TcgmsgLibrary W) where
  unfoldable pub tcgmsg_init : M (Machine Tcgmsg W) (Unit {0})
  tcgmsg_init = call (lib.pbegin)

  -- The first process transmits and the last receives; those between do neither.
  abbrev pub tcgmsg_roles : ℕ → ℕ → M (Machine Tcgmsg W) (Unit {0})
  tcgmsg_roles nid nprocs = do
    set_args (λ p. record p { tr = 0; rcv = 0 })
    if nid == 0
        then set_args (λ p. record p { tr = 1 }) >> set_prot (λ t. record t { nbor = nprocs - 1 })
        else when (nid == nprocs - 1)
            (set_args (λ p. record p { rcv = 1 }) >> set_prot (λ t. record t { nbor = 0 }))

  unfoldable pub tcgmsg_setup : M (Machine Tcgmsg W) (Unit {0})
  tcgmsg_setup = do
    nprocs ← call (lib.nnodes)
    nid ← call (lib.nodeid)
    set_prot (λ t. record t { nid = nid })
    when (ltb nprocs 2) (exit (negsuc 1))
    tcgmsg_roles nid nprocs

  unfoldable pub tcgmsg_sync : M (Machine Tcgmsg W) (Unit {0})
  tcgmsg_sync = call (lib.synch (lib.msgchr))

  unfoldable pub tcgmsg_prepare_to_receive : M (Machine Tcgmsg W) (Unit {0})
  tcgmsg_prepare_to_receive = skip

  unfoldable pub tcgmsg_send_data : M (Machine Tcgmsg W) (Unit {0})
  tcgmsg_send_data = do
    m ← gets (λ m. m)
    bytes ← load_bytes (m.args.s_ptr) (m.args.bufflen)
    call (lib.snd (lib.msgchr) bytes m.prot.nbor 0)

  unfoldable pub tcgmsg_recv_data : M (Machine Tcgmsg W) (Unit {0})
  tcgmsg_recv_data = do
    m ← gets (λ m. m)
    bytes ← call (lib.rcv (lib.msgchr) m.args.bufflen m.prot.nbor 1)
    put_bytes (m.args.r_ptr) bytes

  -- The time is given by the bytes of the `double`.
  unfoldable pub tcgmsg_send_time : List ℕ → M (Machine Tcgmsg W) (Unit {0})
  tcgmsg_send_time t = do prot ← gets (λ m. m.prot); call (lib.snd (lib.msgdbl) t prot.nbor 1)

  unfoldable pub tcgmsg_recv_time : M (Machine Tcgmsg W) (List ℕ)
  tcgmsg_recv_time = do prot ← gets (λ m. m.prot); call (lib.rcv (lib.msgdbl) 8 prot.nbor 1)

  unfoldable pub tcgmsg_send_repeat : ℕ → M (Machine Tcgmsg W) (Unit {0})
  tcgmsg_send_repeat rpt = do
    prot ← gets (λ m. m.prot)
    call (lib.snd (lib.msgint) (le32 rpt) prot.nbor 1)

  unfoldable pub tcgmsg_recv_repeat : M (Machine Tcgmsg W) ℕ
  tcgmsg_recv_repeat = do
    prot ← gets (λ m. m.prot)
    bytes ← call (lib.rcv (lib.msgint) 4 prot.nbor 1)
    pure (of_le32 bytes)

  unfoldable pub tcgmsg_clean_up : M (Machine Tcgmsg W) (Unit {0})
  tcgmsg_clean_up = call (lib.pend)

  unfoldable pub tcgmsg_reset : M (Machine Tcgmsg W) (Unit {0})
  tcgmsg_reset = skip

  unfoldable pub tcgmsg_after_alignment_init : M (Machine Tcgmsg W) (Unit {0})
  tcgmsg_after_alignment_init = skip
