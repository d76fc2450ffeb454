-- ===== src/Tcp/Setup.antt =====
-- src/tcp.c: Init, Setup, establish, CleanUp and Reset. The local variables `lsin1` and `lsin2` of
-- Setup point into the `ProtocolStruct`.
pub mod Connect
use netpipe5_dev.Base.{
  ℕ, zero, suc, ◌+◌, ◌-◌, ◌*◌, ◌/◌, ◌%◌, ℤ, pos, negsuc, ltb_ℤ, ltb, leb, ◌==◌, Bool, true, false,
  not, ◌&&◌, ◌||◌, if◌then◌else◌, Option, none, some, List, [], ◌∷◌,
}
use netpipe5_dev.Effect.{M, hang, ◌>>=◌, ◌>>◌, gets, exit, skip, when, truth, defined}
use netpipe5_dev.Machine.{Machine, call, set_args, set_prot}
use netpipe5_dev.Sockets.{Sockets, Address, connected, refused, unreachable}
use netpipe5_dev.Tcp.{Tcp}

-- `atoi` of the C library on the bytes of a string, and its test against 0.
abbrev is_space : ℕ → Bool
is_space c = (c == 32) || (leb 9 c && leb c 13)

abbrev is_digit : ℕ → Bool
is_digit c = leb 48 c && leb c 57

atoi_digits : ℕ → List ℕ → ℕ
atoi_digits acc [] = acc
atoi_digits acc (c ∷ cs) = elim (is_digit c) [
  | true ↦ atoi_digits (10 * acc + (c - 48)) cs
  | false ↦ acc
]

pub atoi_positive : List ℕ → Bool
unfolding atoi_digits
atoi_positive [] = false
atoi_positive (c ∷ cs) = elim (is_space c) [
  | true ↦ atoi_positive cs
  | false ↦
      if c == 45
      then false
      else if c == 43
      then ltb 0 (atoi_digits 0 cs)
      else ltb 0 (atoi_digits 0 (c ∷ cs))
]

abbrev pub htons : ℕ → ℕ
htons p = p % 256 * 256 + p / 256 % 256

-- AF_INET, SOL_SOCKET, and the options TCP_NODELAY, SO_REUSEADDR, SO_SNDBUF and SO_RCVBUF
abbrev pub af_inet : ℕ
af_inet = 2

abbrev pub sol_socket : ℕ
sol_socket = 1

abbrev pub tcp_nodelay : ℕ
tcp_nodelay = 1

abbrev pub so_reuseaddr : ℕ
so_reuseaddr = 2

abbrev pub so_sndbuf : ℕ
so_sndbuf = 7

abbrev pub so_rcvbuf : ℕ
so_rcvbuf = 8

abbrev pub defport : ℕ
defport = 5002

abbrev pub no_address : Address
no_address = record { family = 0; addr = 0; port = 0 }

abbrev is_zero : ℤ → Bool
is_zero (pos zero) = true
is_zero (pos (suc n)) = false
is_zero (negsuc n) = false

abbrev pub is_negative : ℤ → Bool
is_negative n = ltb_ℤ n (pos 0)

-- The five bytes "QUIT" with their NUL. The reads go to a string literal, so what they return is
-- not used.
abbrev pub quit_text : List ℕ
quit_text = 81 ∷ 85 ∷ 73 ∷ 84 ∷ 0 ∷ []

-- What read stores into the string literal: without a byte it stores nothing, and to write on a
-- literal is undefined.
abbrev pub into_literal : {P W : Type 0} → Option (List ℕ) → M (Machine P W) (Unit {0})
into_literal none = skip
into_literal (some []) = skip
into_literal (some (b ∷ bs)) = defined none

unfoldable pub init : {W : Type 0} → M (Machine Tcp W) (Unit {0})
init = do
  set_args (λ p. record p { reset_conn = 0 })
  set_prot (λ t. record t { sndbufsz = 0; rcvbufsz = 0 })
  set_args (λ p. record p { port = defport })
  p ← gets (λ m. m.args)
  set_args (λ p. record p { rcv = if truth p.tr then 0 else 1 })

module _ {W : Type 0} (net : Sockets W) where
  -- a `setsockopt` whose failure ends the program
  abbrev pub must_set : ℤ → ℕ → ℕ → ℕ → M (Machine Tcp W) (Unit {0})
  must_set fd level option value = do
    r ← call (net.setsockopt fd level option value)
    when (is_negative r) (exit (pos 556))

  -- "If requested, set the send and receive buffer sizes"
  abbrev pub buffer_sizes : ℤ → M (Machine Tcp W) (Unit {0})
  buffer_sizes fd = do
    t ← gets (λ m. m.prot)
    when (ltb 0 t.sndbufsz)
        do must_set fd sol_socket so_sndbuf t.sndbufsz; must_set fd sol_socket so_rcvbuf t.rcvbufsz

  -- `getprotobyname("tcp")`, then TCP_NODELAY
  abbrev pub no_delay : ℤ → M (Machine Tcp W) (Unit {0})
  no_delay fd = do
    proto ← call (net.getprotobyname)
    elim proto [ none ↦ exit (pos 555) | some level ↦ must_set fd level tcp_nodelay 1 ]

  -- while (connect(..) < 0), in at most so many tries
  pub connect_loop : ℕ → M (Machine Tcp W) (Unit {0})
  connect_loop zero = hang
  connect_loop (suc tries) = do
    m ← gets (λ m. m)
    r ← call (net.connect (m.args.commfd) (m.prot.sin1))
    elim r [
      | connected ↦ skip
      | refused ↦ elim (truth (m.prot.doing_reset)) [
        | true ↦ connect_loop tries
        | false ↦ exit (negsuc 9)
      ]
      | unreachable ↦ exit (negsuc 9)
    ]

  abbrev accept_connection : M (Machine Tcp W) (Unit {0})
  accept_connection = do
    p ← gets (λ m. m.args)
    ignored ← call (net.listen (p.servicefd))
    (fd, peer) ← call (net.accept (p.servicefd))
    set_args (λ p. record p { commfd = fd })
    set_prot (λ t. record t { sin2 = peer })
    when (is_negative fd) (exit (negsuc 11))
    no_delay fd
    buffer_sizes fd

  unfoldable pub establish : ℕ → M (Machine Tcp W) (Unit {0})
  unfolding connect_loop
  establish tries = do
    p ← gets (λ m. m.args)
    if truth p.tr then connect_loop tries else when (truth p.rcv) accept_connection

  -- The address of the receiver: a numerical one, or the host's.
  abbrev transmitter_address : M (Machine Tcp W) (Unit {0})
  transmitter_address = do
    p ← gets (λ m. m.args)
    if atoi_positive p.host
        then set_prot (λ t. record t {
          sin1 = record { family = af_inet; addr = net.inet_addr (p.host); port = htons p.port };
        })
        else do
          entry ← call (net.gethostbyname (p.host))
          elim entry [
            | none ↦ exit (negsuc 4)
            | some (family, addr) ↦ set_prot (λ t. record t {
              sin1 = record { family = family; addr = addr; port = htons p.port };
            })
          ]

  abbrev bind_service : ℤ → M (Machine Tcp W) (Unit {0})
  bind_service fd = do
    p ← gets (λ m. m.args)
    let any : Address = record { family = af_inet; addr = 0; port = htons p.port }
    set_prot (λ t. record t { sin1 = any })
    reuse ← call (net.setsockopt fd sol_socket so_reuseaddr 1)
    when (not (is_zero reuse)) (exit (negsuc 5))
    bound ← call (net.bind fd any)
    when (is_negative bound) (exit (negsuc 6))
    set_args (λ p. record p { servicefd = fd })

  unfoldable pub setup : ℕ → M (Machine Tcp W) (Unit {0})
  unfolding establish atoi_positive
  setup tries = do
    p ← gets (λ m. m.args)
    let socket_family = if truth p.use_sdp then 27 else af_inet
    set_prot (λ t. record t { sin1 = no_address; sin2 = no_address })
    fd ← call (net.socket socket_family)
    when (is_negative fd) (exit (negsuc 3))
    no_delay fd
    buffer_sizes fd
    send_size ← call (net.getsockopt fd sol_socket so_sndbuf)
    recv_size ← call (net.getsockopt fd sol_socket so_rcvbuf)
    if truth p.tr
        then transmitter_address >> set_args (λ p. record p { commfd = fd })
        else when (truth p.rcv) (bind_service fd)
    set_args (λ p. record p { upper = send_size + recv_size })
    establish tries

  unfoldable pub clean_up : M (Machine Tcp W) (Unit {0})
  clean_up = do
    p ← gets (λ m. m.args)
    if truth p.tr
        then (do
          written ← call (net.write (p.commfd) quit_text)
          answer ← call (net.read (p.commfd) 5)
          into_literal answer
          closed ← call (net.close (p.commfd))
          skip)
        else when (truth p.rcv) do
          request ← call (net.read (p.commfd) 5)
          into_literal request
          written ← call (net.write (p.commfd) quit_text)
          closed ← call (net.close (p.commfd))
          service ← call (net.close (p.servicefd))
          skip

  unfoldable pub reset : ℕ → M (Machine Tcp W) (Unit {0})
  unfolding clean_up setup
  reset tries = do
    p ← gets (λ m. m.args)
    when (truth p.reset_conn) do set_prot (λ t. record t { doing_reset = 1 }); clean_up; setup tries
