-- ===== src/Ib/Setup.antt =====
-- src/ib.c: Init, Setup, establish and CleanUp. The log file is left out.
use netpipe5_dev.Base.{◌==◌, ◌&&◌, ℤ, pos, negsuc, Bool, true, not, if◌then◌else◌, none, some}
use netpipe5_dev.Effect.{M, ◌>>=◌, ◌>>◌, gets, exit, skip, when, truth}
use netpipe5_dev.Machine.{Machine, call, set_args, set_prot}
use netpipe5_dev.Sockets.{Sockets, Address, connected, refused, unreachable}
use netpipe5_dev.Tcp.Setup.{
  htons, af_inet, sol_socket, so_reuseaddr, is_negative, atoi_positive, no_address, quit_text,
  into_literal,
}
use netpipe5_dev.Ibv.{np_comm_sendrecv, np_comm_rdmawrite, np_comp_localpoll}
use netpipe5_dev.Ib.{Vapi, Ib}
use netpipe5_dev.Ib.Device.{vapi_init_ib, vapi_finalize_ib}

-- `setsockopt` that does not give 0
abbrev pub is_nonzero : ℤ → Bool
is_nonzero (pos n) = not (n == 0)
is_nonzero (negsuc n) = true

module _ {W : Type 0} (vapi : Vapi W) (net : Sockets W) where
  unfoldable pub vapi_init : M (Machine Ib W) (Unit {0})
  vapi_init = do
    set_prot (λ t. record t {
      ib_mtu = vapi.mtu1024;
      commtype = np_comm_sendrecv;
      comptype = np_comp_localpoll;
    })
    set_args (λ p. record p { tr = 0; rcv = 1 })

  abbrev pub vapi_transmitter_address : M (Machine Ib W) (Unit {0})
  vapi_transmitter_address = do
    p ← gets (λ (m : Machine Ib W). m.args)
    if atoi_positive p.host
        then set_prot (λ t. record t {
          sin1 = record { family = af_inet; addr = net.inet_addr (p.host); port = htons p.port };
        })
        else do
          entry ← call (net.gethostbyname (p.host))
          elim entry [
            | none ↦ exit (negsuc 4)
            | some (family, addr) ↦ set_prot (λ t. record t {
              sin1 = record { family = family; addr = addr; port = htons p.port };
            })
          ]

  abbrev pub vapi_bind_service : ℤ → M (Machine Ib W) (Unit {0})
  vapi_bind_service fd = do
    p ← gets (λ (m : Machine Ib W). m.args)
    let any : Address = record { family = af_inet; addr = 0; port = htons p.port }
    set_prot (λ t. record t { sin1 = any })
    reused ← call (net.setsockopt fd sol_socket so_reuseaddr 1)
    when (is_nonzero reused) (exit (negsuc 6))
    bound ← call (net.bind fd any)
    when (is_negative bound) (exit (negsuc 5))

  unfoldable pub vapi_establish : M (Machine Ib W) (Unit {0})
  vapi_establish = do
    m ← gets (λ (m : Machine Ib W). m)
    if truth m.args.tr
        then (do
          r ← call (net.connect m.args.commfd m.prot.sin1)
          elim r [ connected ↦ skip | refused ↦ exit (negsuc 9) | unreachable ↦ exit (negsuc 9) ])
        else (do
          ignored ← call (net.listen m.args.servicefd)
          (fd, peer) ← call (net.accept m.args.servicefd)
          set_args (λ p. record p { commfd = fd })
          set_prot (λ t. record t { sin2 = peer })
          when (is_negative fd) (exit (negsuc 11)))

  unfoldable pub vapi_clean_up : M (Machine Ib W) (Unit {0})
  vapi_clean_up = do
    p ← gets (λ (m : Machine Ib W). m.args)
    if truth p.tr
        then (do
          written ← call (net.write p.commfd quit_text)
          answer ← call (net.read p.commfd 5)
          into_literal answer
          closed ← call (net.close p.commfd)
          skip)
        else (do
          request ← call (net.read p.commfd 5)
          into_literal request
          written ← call (net.write p.commfd quit_text)
          closed ← call (net.close p.commfd)
          service ← call (net.close p.servicefd)
          skip)
    vapi_finalize_ib vapi

  unfoldable pub vapi_setup : M (Machine Ib W) (Unit {0})
  unfolding vapi_establish vapi_clean_up
  vapi_setup = do
    t ← gets (λ (m : Machine Ib W). m.prot)
    when (t.commtype == np_comm_rdmawrite && not (t.comptype == np_comp_localpoll))
        (exit (negsuc 0))
    set_prot (λ t. record t { sin1 = no_address; sin2 = no_address })
    fd ← call (net.socket af_inet)
    when (is_negative fd) (exit (negsuc 3))
    proto ← call (net.getprotobyname)
    elim proto [ none ↦ exit (pos 555) | some level ↦ skip ]
    p ← gets (λ (m : Machine Ib W). m.args)
    if truth p.tr then vapi_transmitter_address else vapi_bind_service fd
    if truth p.tr
        then set_args (λ p. record p { commfd = fd })
        else set_args (λ p. record p { servicefd = fd })
    vapi_establish
    result ← vapi_init_ib vapi net
    elim result [ pos n ↦ skip | negsuc n ↦ vapi_clean_up >> exit (negsuc 0) ]
