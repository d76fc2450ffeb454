-- ===== src/Ibv/Exchange.antt =====
-- src/ibv.c: what goes over the socket beside the adapter: readFully, Sync, the times and the counts,
-- and AfterAlignmentInit. readFully, the times and the counts have the text of src/tcp.c.
pub mod Addresses
use netpipe5_dev.Base.{
  ℕ, ◌+◌, ◌*◌, ◌/◌, ◌%◌, ◌^◌, ◌==◌, ◌||◌, ℤ, pos, negsuc, not, Option, none, some, List, ◌++◌,
  length, drop, take,
}
use netpipe5_dev.Effect.{M, ◌>>=◌, ◌>>◌, pure, gets, exit, when, defined}
use netpipe5_dev.Memory.{tabulate}
use netpipe5_dev.Machine.{Machine, call, be32, of_be32, le32, of_le32, set_prot}
use netpipe5_dev.Sockets.{Sockets}
use netpipe5_dev.Tcp
use netpipe5_dev.Tcp.{bytes_eq, failed, sync_text, whole_word}
use netpipe5_dev.Copy.{address_of}
use netpipe5_dev.Ibv.{Ibv, np_comm_rdmawrite, np_comm_rdmawrite_with_imm}

-- `void *` in memory, the lowest byte first
abbrev pub le64 : ℕ → List ℕ
le64 a = le32 (a % 2 ^ 32) ++ le32 (a / 2 ^ 32)

abbrev pub of_le64 : List ℕ → ℕ
of_le64 bs = of_le32 (take 4 bs) + 2 ^ 32 * of_le32 (drop 4 bs)

module _ {W : Type 0} (net : Sockets W) where
  unfoldable pub read_fully : ℤ → ℕ → M (Machine Ibv W) (Option ℕ × List ℕ)
  read_fully fd len = Tcp.read_fully net fd len

  -- `response` is not initialised: nothing is known of the bytes that are not read.
  unfoldable pub sync : M (Machine Ibv W) (Unit {0})
  unfolding read_fully
  sync = do
    m ← gets (λ m. m)
    sent ← call (net.write m.args.commfd sync_text)
    when (failed sent) (exit (pos 3))
    (n, got) ← read_fully m.args.commfd 6
    when (failed n) (exit (pos 3))
    when (not (bytes_eq sync_text (got ++ drop (length got) (tabulate m.heap.junk 0 6))))
        (exit (pos 3))

  -- `ticks` is `(uint32_t)(*t * 1.e6)`, and RecvTime divides what it returns by 1.0e6.
  unfoldable pub send_time : ℕ → M (Machine Ibv W) (Unit {0})
  send_time ticks = do
    p ← gets (λ m. m.args)
    sent ← call (net.write p.commfd (be32 ticks))
    when (failed sent) (exit (pos 301))

  unfoldable pub recv_time : M (Machine Ibv W) ℕ
  unfolding read_fully
  recv_time = do
    p ← gets (λ m. m.args)
    (n, got) ← read_fully p.commfd 4
    whole_word net (pos 302) (pos 303) n
    pure (of_be32 got)

  unfoldable pub send_repeat : ℕ → M (Machine Ibv W) (Unit {0})
  send_repeat rpt = do
    p ← gets (λ m. m.args)
    sent ← call (net.write p.commfd (be32 rpt))
    when (failed sent) (exit (pos 304))

  unfoldable pub recv_repeat : M (Machine Ibv W) ℕ
  unfolding read_fully
  recv_repeat = do
    p ← gets (λ m. m.args)
    (n, got) ← read_fully p.commfd 4
    whole_word net (pos 305) (pos 306) n
    pure (of_be32 got)

  -- The write of `bytes`, and the read of `size` bytes in full, each ending the program with -1.
  abbrev pub must_write : ℤ → List ℕ → M (Machine Ibv W) (Unit {0})
  must_write fd bytes = do sent ← call (net.write fd bytes); when (failed sent) (exit (negsuc 0))

  abbrev pub must_read : ℤ → ℕ → M (Machine Ibv W) (List ℕ)
  unfolding read_fully
  must_read fd size = do
    (n, got) ← read_fully fd size
    elim n [ none ↦ exit (negsuc 0) | some k ↦ when (not (k == size)) (exit (negsuc 0)) ]
    pure got

  -- `address` is where the system has put the blocks. The key is that of the receive region.
  unfoldable pub after_alignment_init : (ℕ → ℕ) → M (Machine Ibv W) (Unit {0})
  unfolding read_fully
  after_alignment_init address = do
    m ← gets (λ m. m)
    when (m.prot.commtype == np_comm_rdmawrite || m.prot.commtype == np_comm_rdmawrite_with_imm) do
      must_write m.args.commfd (le64 (address_of address m.args.r_buff))
      region ← defined (m.prot.r_mr_hndl)
      must_write m.args.commfd (le32 region.rkey)
      pointer ← must_read m.args.commfd 8
      set_prot (λ t. record t { remote_address = of_le64 pointer })
      key ← must_read m.args.commfd 4
      set_prot (λ t. record t { remote_key = of_le32 key })
