-- ===== src/Tcp.antt =====
-- src/tcp.c: the TCP module, on the sockets of the system. Its globals and its `ProtocolStruct` are
-- the record `Tcp`.
pub mod Setup
pub mod Receive
pub mod Ends
pub mod Send
pub mod Words
pub mod Quiet
pub mod Delivery
use netpipe5_dev.Base.{
  ℕ, zero, suc, ◌-◌, ℤ, pos, ◌==◌, Bool, true, false, not, ◌&&◌, Option, none, some, List, [], ◌∷◌,
  ◌++◌, length, drop,
}
use netpipe5_dev.Effect.{hang, M, hung, ◌>>=◌, ◌>>◌, pure, gets, exit, skip, when}
use netpipe5_dev.Memory.{Ptr, advance}
use netpipe5_dev.Machine.{Machine, end_of_file, load_bytes, put_bytes, print, call, be32, of_be32}
use netpipe5_dev.Sockets.{Sockets, Address}

pub record Tcp : Type 0 where
  pub sin1 : Address
  pub sin2 : Address
  pub sndbufsz : ℕ
  pub rcvbufsz : ℕ
  pub doing_reset : ℕ

abbrev pub bytes_eq : List ℕ → List ℕ → Bool
bytes_eq [] [] = true
bytes_eq [] (y ∷ ys) = false
bytes_eq (x ∷ xs) [] = false
bytes_eq (x ∷ xs) (y ∷ ys) = (x == y) && bytes_eq xs ys

-- the result of a call is -1
abbrev pub failed : Option ℕ → Bool
failed none = true
failed (some n) = false

-- `if (bytesRead <= 0) return bytesRead; return len;`
abbrev pub full_result : ℕ → Option ℕ × List ℕ → Option ℕ × List ℕ
full_result len (none, got) = (none, got)
full_result len (some zero, got) = (some 0, got)
full_result len (some (suc n), got) = (some len, got)

-- "SyncMe"
abbrev pub sync_text : List ℕ
sync_text = 83 ∷ 121 ∷ 110 ∷ 99 ∷ 77 ∷ 101 ∷ []

-- `response` is six blanks, over which the bytes are read.
abbrev pub response : List ℕ → List ℕ
response got = got ++ drop (length got) (32 ∷ 32 ∷ 32 ∷ 32 ∷ 32 ∷ 32 ∷ [])

module _ {P W : Type 0} (net : Sockets W) where
  abbrev pub commfd : M (Machine P W) ℤ
  commfd = gets (λ m. m.args.commfd)

  -- The loop of readFully with the last result of `read` and the bytes that the buffer holds. It
  -- reads at least one byte in a round.
  unfoldable pub read_loop : ℕ → ℤ → ℕ → Option ℕ → List ℕ → M (Machine P W) (Option ℕ × List ℕ)
  read_loop zero fd left last got = hang
  read_loop (suc fuel) fd zero last got = pure (last, got)
  read_loop (suc fuel) fd (suc left) last got = do
    r ← call (net.read fd (suc left))
    elim r [
      | none ↦ pure (none, got)
      | some [] ↦ pure (some 0, got)
      | some (b ∷ bs) ↦
          read_loop fuel fd (suc left - length (b ∷ bs)) (some (length (b ∷ bs))) (got ++ (b ∷ bs))
    ]

  unfoldable pub read_fully : ℤ → ℕ → M (Machine P W) (Option ℕ × List ℕ)
  unfolding read_loop
  read_fully fd len = do r ← read_loop (suc len) fd len (some 0) []; pure (full_result len r)

  -- the answer of the neighbour
  abbrev pub check_response : Option ℕ × List ℕ → M (Machine P W) (Unit {0})
  check_response (n, got) = do
    when (failed n) (exit (pos 3))
    when (not (bytes_eq sync_text (response got))) (exit (pos 3))

  abbrev pub sync_on : ℤ → M (Machine P W) (Unit {0})
  sync_on fd = do
    sent ← call (net.write fd sync_text)
    when (failed sent) (exit (pos 3))
    answer ← read_fully fd 6
    check_response answer

  unfoldable pub sync : M (Machine P W) (Unit {0})
  sync = do fd ← commfd; sync_on fd

  unfoldable pub prepare_to_receive : M (Machine P W) (Unit {0})
  prepare_to_receive = skip

  -- The loop of SendData: the last result of `write`. It writes at least one byte in a round.
  pub send_loop : ℕ → ℤ → Ptr → ℕ → Option ℕ → M (Machine P W) (Option ℕ)
  send_loop zero fd q left last = hang
  send_loop (suc fuel) fd q zero last = pure last
  send_loop (suc fuel) fd q (suc left) last = do
    bytes ← load_bytes q (suc left)
    r ← call (net.write fd bytes)
    elim r [
      | none ↦ pure none
      | some zero ↦ pure (some 0)
      | some (suc n) ↦ send_loop fuel fd (advance q (suc n)) (suc left - suc n) (some (suc n))
    ]

  unfoldable pub send_data : M (Machine P W) (Unit {0})
  unfolding send_loop
  send_data = do
    p ← gets (λ m. m.args)
    written ← send_loop (suc (p.bufflen)) (p.commfd) (p.s_ptr) (p.bufflen) (some 0)
    when (failed written) (exit (pos 401))

  -- The loop of RecvData: what is left to read, and the last result of `read`.
  pub recv_loop : ℕ → ℤ → Ptr → ℕ → Option ℕ → M (Machine P W) (ℕ × Option ℕ)
  recv_loop zero fd q left last = hang
  recv_loop (suc fuel) fd q zero last = pure (zero, last)
  recv_loop (suc fuel) fd q (suc left) last = do
    r ← call (net.read fd (suc left))
    elim r [
      | none ↦ pure (suc left, none)
      | some [] ↦ pure (suc left, some 0)
      | some (b ∷ bs) ↦ do
        put_bytes q (b ∷ bs)
        recv_loop fuel fd (advance q (length (b ∷ bs))) (suc left - length (b ∷ bs))
            (some (length (b ∷ bs)))
    ]

  -- Nothing is left or something was read: no end of file.
  abbrev pub recv_end : ℕ × Option ℕ → M (Machine P W) (Unit {0})
  recv_end (left, none) = exit (pos 401)
  recv_end (zero, some n) = skip
  recv_end (suc left, some zero) = print end_of_file
  recv_end (suc left, some (suc n)) = skip

  unfoldable pub recv_data : M (Machine P W) (Unit {0})
  unfolding recv_loop
  recv_data = do
    p ← gets (λ m. m.args)
    r ← recv_loop (suc (p.bufflen)) (p.commfd) (p.r_ptr) (p.bufflen) (some 0)
    recv_end r

  -- One write of four bytes; the count that it returns is not looked at.
  unfoldable pub send_repeat : ℕ → M (Machine P W) (Unit {0})
  send_repeat rpt = do
    fd ← commfd
    sent ← call (net.write fd (be32 rpt))
    when (failed sent) (exit (pos 304))

  -- The tests on the result of readFully in RecvRepeat and RecvTime: -1, then not four.
  abbrev pub whole_word : ℤ → ℤ → Option ℕ → M (Machine P W) (Unit {0})
  whole_word error partial none = exit error
  whole_word error partial (some n) = when (not (n == 4)) (exit partial)

  unfoldable pub recv_repeat : M (Machine P W) ℕ
  recv_repeat = do
    fd ← commfd
    (n, got) ← read_fully fd 4
    whole_word (pos 305) (pos 306) n
    pure (of_be32 got)

  -- `ticks` is `(uint32_t)(*t * 1.e8)`, and RecvTime divides what it returns by 1.0e8.
  unfoldable pub send_time : ℕ → M (Machine P W) (Unit {0})
  send_time ticks = do
    fd ← commfd
    sent ← call (net.write fd (be32 ticks))
    when (failed sent) (exit (pos 301))

  unfoldable pub recv_time : M (Machine P W) ℕ
  recv_time = do
    fd ← commfd
    (n, got) ← read_fully fd 4
    whole_word (pos 302) (pos 303) n
    pure (of_be32 got)

  unfoldable pub after_alignment_init : M (Machine P W) (Unit {0})
  after_alignment_init = skip
