-- ===== src/Tcp/Ends.antt =====
-- src/tcp.c: RecvData on a stream that ends before the buffer is full.
use netpipe5_dev.Base.{
  ℕ, zero, suc, ◌+◌, ◌-◌, ◌≤◌, ◌<◌, ◌≡◌, refl, sym, ◌∙◌, ap, ap₂, arith, ℤ, List, [], ◌∷◌, ◌++◌,
  some, length, length-append,
}
use netpipe5_dev.Effect.{done, and_then}
use netpipe5_dev.Memory.{at, overwrite}
use netpipe5_dev.Memory.Laws.{stored, block-stored, stored-stored, stored_nil, length-overwrite}
use netpipe5_dev.Machine.{Machine, end_of_file}
use netpipe5_dev.Sockets.{Sockets}
use netpipe5_dev.Sockets.Stream.{IsStream}
use netpipe5_dev.Tcp.{recv_loop, recv_end, recv_data}
use netpipe5_dev.Tcp.Receive.{recv_step}

-- The neighbour has closed its side: with nothing left, a read returns 0 and changes nothing.
pub data Closed {W : Type 0} (net : Sockets W) (fd : ℤ) (stream : IsStream net fd) : Type 0 where
  closed :
      ((n : ℕ) (w : W) → stream.inbox w ≡ [] → net.read fd n w ≡ (some [], w))
      → Closed net fd stream

module _ {P W : Type 0} (net : Sockets W) (fd : ℤ) (stream : IsStream net fd) where
  open stream use {inbox, outbox, read_some}

  recv_loop_ends :
      Closed net fd stream
      → (fuel left b off k : ℕ) (xs bytes : List ℕ) (m : Machine P W) → left < fuel
      → m.heap.block b ≡ some xs
      → off + left ≤ length xs
      → length bytes < left
      → inbox m.sys ≡ bytes
      → (w : W) × (j : ℕ) × (recv_loop net fuel fd (at b off) left (some k) m
          ≡ done (suc j, some 0) (record m { heap = stored m.heap b off bytes xs; sys = w }))
        × (inbox w ≡ [])
        × (outbox w ≡ outbox m.sys)
  unfolding recv_loop
  recv_loop_ends (closed at_end) zero left b off k xs bytes m f live fits short e =
      absurd (omega arith)
  recv_loop_ends (closed at_end) (suc fuel) zero b off k xs bytes m f live fits short e =
      absurd (omega arith)
  recv_loop_ends (closed at_end) (suc fuel) (suc left) b off k xs [] m f live fits short e = (
    m.sys,
    left,
    rw (at_end (suc left) (m.sys) e) (
        ap (λ h. done (suc left, some 0) (record m { heap = h }))
          (sym (stored_nil m.heap b off xs live))),
    e,
    refl,
  )
  recv_loop_ends (closed at_end) (suc fuel) (suc left) b off k xs (x ∷ bytes) m f live fits short
        e =
      let (bs, w, call_eq, some_read, at_most, next, quiet) =
        read_some (suc left) m.sys (omega arith)
          (λ none_left. absurd (omega (arith, ap (λ l. length l) (sym e ∙ none_left)))) in
      let parts : bs ++ inbox w ≡ x ∷ bytes = sym next ∙ e in
      let count = ap (λ l. length l) parts in
      let total = length-append bs (inbox w) in
      let m' : Machine P W = record m { heap = stored m.heap b off bs xs; sys = w } in
      let fits' : off + length bs ≤ length xs = omega arith in
      let (w', j, loop, got, sent) =
        recv_loop_ends (closed at_end) fuel (suc left - length bs) b (off + length bs) (length bs)
          (overwrite off bs xs) (inbox w) m' (omega arith) (block-stored m.heap b off bs xs)
          (omega (arith, length-overwrite off bs xs fits')) (omega (arith, count, total)) refl in
      (
        w',
        j,
        recv_step net fuel left b off fd (some k) xs bs w m call_eq some_read live fits'
            ∙ loop
            ∙ ap (λ h. done (suc j, some 0) (record m { heap = h; sys = w' }))
                (stored-stored m.heap b off (off + length bs) bs (inbox w) xs refl fits')
            ∙ ap
                (λ l. done (suc j, some 0) (record m { heap = stored m.heap b off l xs; sys = w' }))
                parts,
        got,
        sent ∙ quiet,
      )

  -- RecvData on a socket that is a stream, with the receive pointer at the start of a live block of
  -- bufflen bytes or more: when the neighbour has closed its side with fewer than bufflen bytes to
  -- come, it returns with these bytes at the start of the block, the rest of the block as it was,
  -- and the end of the file printed.
  pub recv_data_ends :
      Closed net fd stream
      → (b : ℕ) (xs bytes : List ℕ) (m : Machine P W) → m.args.commfd ≡ fd
      → m.args.r_ptr ≡ at b 0
      → m.heap.block b ≡ some xs
      → m.args.bufflen ≤ length xs
      → length bytes < m.args.bufflen
      → inbox m.sys ≡ bytes
      → (w : W) × (recv_data net m
          ≡ done tt (record m {
            heap = stored m.heap b 0 bytes xs;
            sys = w;
            printed = end_of_file ∷ m.printed;
          }))
        × (inbox w ≡ [])
        × (outbox w ≡ outbox m.sys)
  unfolding recv_data
  recv_data_ends ends b xs bytes m chan ptr live fits short e =
      let n : ℕ = m.args.bufflen in
      let (w, j, loop, got, sent) =
        recv_loop_ends ends (suc n) n b 0 0 xs bytes m (omega arith) live (omega arith) short e in
      (
        w,
        ap₂ (λ c q. and_then (recv_loop net (suc n) c q n (some 0) m) (recv_end net)) chan ptr
            ∙ ap (λ r. and_then r (recv_end net)) loop,
        got,
        sent,
      )
