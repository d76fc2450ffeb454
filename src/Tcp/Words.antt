-- ===== src/Tcp/Words.antt =====
-- src/tcp.c: SendRepeat, RecvRepeat, SendTime, RecvTime and Sync on a stream.
use netpipe5_dev.Base.{ℕ, ◌^◌, ◌<◌, ◌≡◌, ◌∙◌, ap, arith, ℤ, pos, List, ◌++◌, Option}
use netpipe5_dev.Effect.{Outcome, done, and_then, pure, ◌>>◌}
use netpipe5_dev.Machine.{Machine, be32, of_be32}
use netpipe5_dev.Sockets.{Sockets}
use netpipe5_dev.Sockets.Stream.{IsStream}
use netpipe5_dev.Tcp.{
  read_fully, whole_word, send_repeat, recv_repeat, sync, sync_on, check_response, sync_text,
}
use netpipe5_dev.Tcp.Receive.{read_fully_lem}

pub of_be32-be32 : (w : ℕ) → w < 2 ^ 32 → of_be32 (be32 w) ≡ w
of_be32-be32 w h = omega arith

module _ {P W : Type 0} (net : Sockets W) (fd : ℤ) (stream : IsStream net fd) where
  open stream use {inbox, outbox, small_whole}

  -- SendRepeat puts the four bytes of the count on the stream, the highest first.
  pub send_repeat_lem :
      (rpt : ℕ) (m : Machine P W)
      → m.args.commfd ≡ fd
      → (w : W) × (send_repeat net rpt m ≡ done tt (record m { sys = w }))
        × (outbox w ≡ outbox m.sys ++ be32 rpt)
        × (inbox w ≡ inbox m.sys)
  unfolding send_repeat
  send_repeat_lem rpt m chan =
      let (w, call_eq, sent, quiet) = small_whole (be32 rpt) m.sys (omega arith) in
      (w, rw (chan, call_eq), sent, quiet)

  -- RecvRepeat on a socket that is a stream on which the four bytes of a count below 2 ^ 32, as
  -- SendRepeat writes them, come next: it returns that count, takes these four bytes and no more,
  -- and sends nothing.
  pub recv_repeat_lem :
      (rpt : ℕ) (rest : List ℕ) (m : Machine P W)
      → m.args.commfd ≡ fd
      → rpt < 2 ^ 32
      → inbox m.sys ≡ be32 rpt ++ rest
      → (w : W) × (recv_repeat net m ≡ done rpt (record m { sys = w }))
        × (inbox w ≡ rest)
        × (outbox w ≡ outbox m.sys)
  unfolding recv_repeat
  recv_repeat_lem rpt rest m chan small e =
      let (w, read, taken, sent) = read_fully_lem net fd stream (be32 rpt) rest m (omega arith) e in
      (
        w,
        ap (λ c. and_then (read_fully net c 4 m) finish) chan
            ∙ ap (λ r. and_then r finish) read
            ∙ ap (λ v. done v (record m { sys = w })) (of_be32-be32 rpt small),
        taken,
        sent,
      )
    where
      finish : Option ℕ × List ℕ → Machine P W → Outcome (Machine P W) ℕ
      finish (n, got) = do whole_word net (pos 305) (pos 306) n; pure (of_be32 got)

  -- Sync on a socket that is a stream with the text of the synchronisation to come: it sends its
  -- text, takes the neighbour's from the stream, in whatever pieces it comes, and returns.
  pub sync_lem :
      (rest : List ℕ) (m : Machine P W)
      → m.args.commfd ≡ fd
      → inbox m.sys ≡ sync_text ++ rest
      → (w : W) × (sync net m ≡ done tt (record m { sys = w }))
        × (inbox w ≡ rest)
        × (outbox w ≡ outbox m.sys ++ sync_text)
  unfolding sync
  sync_lem rest m chan e =
      let (w₁, call_eq, sent, quiet) = small_whole (sync_text) m.sys (omega arith) in
      let (w₂, read, taken, sent₂) =
        read_fully_lem net fd stream (sync_text) rest (record m { sys = w₁ }) (omega arith)
          (quiet ∙ e) in
      (
        w₂,
        ap (λ c. sync_on net c m) chan
            ∙ rw call_eq (ap (λ r. and_then r (check_response net)) read),
        taken,
        sent₂ ∙ sent,
      )
