-- ===== src/Ib/Exchange.antt =====
-- src/ib.c: what goes over the socket beside the adapter: readFully, Sync, the times and the counts,
-- and AfterAlignmentInit.
use netpipe5_dev.Base.{
  ℕ, ◌==◌, ◌||◌, ℤ, pos, negsuc, not, Option, none, some, List, ◌++◌, length, drop,
}
use netpipe5_dev.Effect.{M, ◌>>=◌, ◌>>◌, pure, gets, exit, when}
use netpipe5_dev.Memory.{tabulate}
use netpipe5_dev.Machine.{Machine, call, be32, of_be32, le32, of_le32, set_prot}
use netpipe5_dev.Sockets.{Sockets}
use netpipe5_dev.Tcp
use netpipe5_dev.Tcp.{bytes_eq, failed, sync_text, whole_word}
use netpipe5_dev.Copy.{address_of}
use netpipe5_dev.Ibv.{np_comm_rdmawrite, np_comm_rdmawrite_with_imm}
use netpipe5_dev.Ibv.Exchange.{le64, of_le64}
use netpipe5_dev.Ib.{Ib}

module _ {W : Type 0} (net : Sockets W) where
  unfoldable pub vapi_read_fully : ℤ → ℕ → M (Machine Ib W) (Option ℕ × List ℕ)
  vapi_read_fully fd len = Tcp.read_fully net fd len

  -- `response` is not initialised: nothing is known of the bytes that are not read.
  unfoldable pub vapi_sync : M (Machine Ib W) (Unit {0})
  unfolding vapi_read_fully
  vapi_sync = do
    m ← gets (λ (m : Machine Ib W). m)
    sent ← call (net.write m.args.commfd sync_text)
    when (failed sent) (exit (pos 3))
    (n, got) ← vapi_read_fully m.args.commfd 6
    when (failed n) (exit (pos 3))
    when (not (bytes_eq sync_text (got ++ drop (length got) (tabulate m.heap.junk 0 6))))
        (exit (pos 3))

  -- `ticks` is `(uint32_t)(*t * 1.e6)`, and RecvTime divides what it returns by 1.0e6.
  unfoldable pub vapi_send_time : ℕ → M (Machine Ib W) (Unit {0})
  vapi_send_time ticks = do
    p ← gets (λ (m : Machine Ib W). m.args)
    sent ← call (net.write p.commfd (be32 ticks))
    when (failed sent) (exit (pos 301))

  unfoldable pub vapi_recv_time : M (Machine Ib W) ℕ
  unfolding vapi_read_fully
  vapi_recv_time = do
    p ← gets (λ (m : Machine Ib W). m.args)
    (n, got) ← vapi_read_fully p.commfd 4
    whole_word net (pos 302) (pos 303) n
    pure (of_be32 got)

  unfoldable pub vapi_send_repeat : ℕ → M (Machine Ib W) (Unit {0})
  vapi_send_repeat rpt = do
    p ← gets (λ (m : Machine Ib W). m.args)
    sent ← call (net.write p.commfd (be32 rpt))
    when (failed sent) (exit (pos 304))

  unfoldable pub vapi_recv_repeat : M (Machine Ib W) ℕ
  unfolding vapi_read_fully
  vapi_recv_repeat = do
    p ← gets (λ (m : Machine Ib W). m.args)
    (n, got) ← vapi_read_fully p.commfd 4
    whole_word net (pos 305) (pos 306) n
    pure (of_be32 got)

  -- A write, and a read of `size` bytes in full, each ending the program with -1.
  abbrev pub written_or_exit : ℤ → List ℕ → M (Machine Ib W) (Unit {0})
  written_or_exit fd bytes = do
    sent ← call (net.write fd bytes)
    when (failed sent) (exit (negsuc 0))

  abbrev pub read_or_exit : ℤ → ℕ → M (Machine Ib W) (List ℕ)
  unfolding vapi_read_fully
  read_or_exit fd size = do
    (n, got) ← vapi_read_fully fd size
    elim n [ none ↦ exit (negsuc 0) | some k ↦ when (not (k == size)) (exit (negsuc 0)) ]
    pure got

  -- `address` is where the system has put the blocks.
  unfoldable pub vapi_after_alignment_init : (ℕ → ℕ) → M (Machine Ib W) (Unit {0})
  unfolding vapi_read_fully
  vapi_after_alignment_init address = do
    m ← gets (λ (m : Machine Ib W). m)
    when (m.prot.commtype == np_comm_rdmawrite || m.prot.commtype == np_comm_rdmawrite_with_imm) do
      written_or_exit m.args.commfd (le64 (address_of address m.args.r_buff))
      written_or_exit m.args.commfd (le32 m.prot.r_mr_out.rkey)
      pointer ← read_or_exit m.args.commfd 8
      set_prot (λ t. record t { remote_address = of_le64 pointer })
      key ← read_or_exit m.args.commfd 4
      set_prot (λ t. record t { remote_key = of_le32 key })
