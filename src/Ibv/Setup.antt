-- ===== src/Ibv/Setup.antt =====
-- src/ibv.c: Init, Setup, establish and CleanUp. The log file is left out.
use netpipe5_dev.Base.{◌==◌, ◌&&◌, ℤ, pos, negsuc, not, if◌then◌else◌, none, some}
use netpipe5_dev.Effect.{M, ◌>>=◌, ◌>>◌, gets, exit, skip, when, truth}
use netpipe5_dev.Machine.{Machine, call, set_args, set_prot}
use netpipe5_dev.Sockets.{Sockets, Address, connected, refused, unreachable}
use netpipe5_dev.Tcp.Setup.{
  htons, af_inet, is_negative, atoi_positive, no_address, quit_text, into_literal,
}
use netpipe5_dev.Verbs.{Verbs}
use netpipe5_dev.Ibv.{Ibv, ibv_mtu_1024, np_comm_rdmawrite, np_comp_localpoll}
use netpipe5_dev.Ibv.Device.{init_ib, finalize_ib}

module _ {W : Type 0} where
  unfoldable pub init : M (Machine Ibv W) (Unit {0})
  init = do
    set_prot (λ t. record t {
      ib_mtu = ibv_mtu_1024;
      commtype = np_comm_rdmawrite;
      comptype = np_comp_localpoll;
    })
    set_args (λ p. record p { tr = 0; rcv = 1 })

  -- Local polling goes with RDMA writes without immediate data, and with nothing else.
  abbrev pub check_types : M (Machine Ibv W) (Unit {0})
  check_types = do
    t ← gets (λ m. m.prot)
    when (t.commtype == np_comm_rdmawrite && not (t.comptype == np_comp_localpoll))
        (exit (negsuc 0))
    when (not (t.commtype == np_comm_rdmawrite) && t.comptype == np_comp_localpoll)
        (exit (negsuc 0))

module _ {W : Type 0} (verbs : Verbs W) (net : Sockets W) where
  abbrev pub transmitter_address : M (Machine Ibv W) (Unit {0})
  transmitter_address = do
    p ← gets (λ m. m.args)
    if atoi_positive p.host
        then set_prot (λ t. record t {
          sin1 = record { family = af_inet; addr = net.inet_addr (p.host); port = htons p.port };
        })
        else do
          entry ← call (net.gethostbyname (p.host))
          elim entry [
            | none ↦ exit (negsuc 4)
            | some (family, addr) ↦ set_prot (λ t. record t {
              sin1 = record { family = family; addr = addr; port = htons p.port };
            })
          ]

  abbrev pub bind_service : ℤ → M (Machine Ibv W) (Unit {0})
  bind_service fd = do
    p ← gets (λ m. m.args)
    let any : Address = record { family = af_inet; addr = 0; port = htons p.port }
    set_prot (λ t. record t { sin1 = any })
    bound ← call (net.bind fd any)
    when (is_negative bound) (exit (negsuc 5))

  unfoldable pub establish : M (Machine Ibv W) (Unit {0})
  establish = do
    m ← gets (λ m. m)
    if truth m.args.tr
        then (do
          r ← call (net.connect m.args.commfd m.prot.sin1)
          elim r [ connected ↦ skip | refused ↦ exit (negsuc 9) | unreachable ↦ exit (negsuc 9) ])
        else (do
          ignored ← call (net.listen m.args.servicefd)
          (fd, peer) ← call (net.accept m.args.servicefd)
          set_args (λ p. record p { commfd = fd })
          set_prot (λ t. record t { sin2 = peer })
          when (is_negative fd) (exit (negsuc 11)))

  unfoldable pub clean_up : M (Machine Ibv W) (Unit {0})
  clean_up = do
    p ← gets (λ m. m.args)
    if truth p.tr
        then (do
          written ← call (net.write p.commfd quit_text)
          answer ← call (net.read p.commfd 5)
          into_literal answer
          closed ← call (net.close p.commfd)
          skip)
        else (do
          request ← call (net.read p.commfd 5)
          into_literal request
          written ← call (net.write p.commfd quit_text)
          closed ← call (net.close p.commfd)
          service ← call (net.close p.servicefd)
          skip)
    finalize_ib verbs

  unfoldable pub setup : M (Machine Ibv W) (Unit {0})
  unfolding establish clean_up
  setup = do
    check_types
    set_prot (λ t. record t { sin1 = no_address; sin2 = no_address })
    fd ← call (net.socket af_inet)
    when (is_negative fd) (exit (negsuc 3))
    proto ← call (net.getprotobyname)
    elim proto [ none ↦ exit (pos 555) | some level ↦ skip ]
    p ← gets (λ m. m.args)
    if truth p.tr then transmitter_address else bind_service fd
    if truth p.tr
        then set_args (λ p. record p { commfd = fd })
        else set_args (λ p. record p { servicefd = fd })
    establish
    result ← init_ib verbs net
    elim result [ pos n ↦ skip | negsuc n ↦ clean_up >> exit (negsuc 0) ]
