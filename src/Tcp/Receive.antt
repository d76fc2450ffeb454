-- ===== src/Tcp/Receive.antt =====
-- src/tcp.c: RecvData and readFully on a stream that delivers its bytes in pieces, and what RecvData
-- does when the stream ends or fails.
use netpipe5_dev.Base.{
  ℕ, zero, suc, ◌+◌, ◌-◌, ◌≤◌, ◌<◌, ◌≡◌, ◌⊎◌, inl, inr, refl, sym, ◌∙◌, ap, ap₂, arith, ℤ, List, [],
  ◌∷◌, ◌++◌, Option, some, length, length-append, split_front, append-nil, append_assoc,
}
use netpipe5_dev.Effect.{done, and_then, pure}
use netpipe5_dev.Memory.{at, overwrite}
use netpipe5_dev.Memory.Laws.{stored, block-stored, stored-stored, stored_nil, length-overwrite}
use netpipe5_dev.Machine.{Machine}
use netpipe5_dev.Machine.Laws.{put_at}
use netpipe5_dev.Sockets.{Sockets}
use netpipe5_dev.Sockets.Stream.{IsStream}
use netpipe5_dev.Tcp.{recv_loop, recv_end, recv_data, read_loop, read_fully, full_result}

module _ {P W : Type 0} (net : Sockets W) where
  -- One round of the loop that reads `bs`.
  pub recv_step :
      (fuel left b off : ℕ) (fd : ℤ) (last : Option ℕ) (xs bs : List ℕ) (w : W) (m : Machine P W)
      → net.read fd (suc left) m.sys ≡ (some bs, w)
      → 0 < length bs
      → m.heap.block b ≡ some xs
      → off + length bs ≤ length xs
      → recv_loop net (suc fuel) fd (at b off) (suc left) last m
        ≡ recv_loop net fuel fd
            (at b (off + length bs))
            (suc left - length bs)
            (some (length bs))
            (record m { heap = stored m.heap b off bs xs; sys = w })
  unfolding recv_loop
  recv_step fuel left b off fd last xs [] w m e p live fits = absurd (omega arith)
  recv_step fuel left b off fd last xs (c ∷ cs) w m e p live fits =
      let m' : Machine P W = record m { sys = w } in
      rw e (
        ap
          (λ r. and_then r λ _.
            recv_loop net fuel fd (at b (off + suc (length cs))) (suc left - suc (length cs))
              (some (suc (length cs))))
          (put_at m' b off off xs refl live (c ∷ cs) fits))

  module _ (fd : ℤ) (stream : IsStream net fd) where
    open stream use {inbox, outbox, read_some}

    pub recv_loop_lem :
        (fuel left b off k : ℕ) (xs bytes rest : List ℕ) (m : Machine P W)
        → left < fuel
        → m.heap.block b ≡ some xs
        → off + left ≤ length xs
        → length bytes ≡ left
        → inbox m.sys ≡ bytes ++ rest
        → (w : W) × (j : ℕ) × (recv_loop net fuel fd (at b off) left (some k) m
            ≡ done (0, some j) (record m { heap = stored m.heap b off bytes xs; sys = w }))
          × (inbox w ≡ rest)
          × (outbox w ≡ outbox m.sys)
    unfolding recv_loop
    recv_loop_lem zero left b off k xs bytes rest m f live fits len e = absurd (omega arith)
    recv_loop_lem (suc fuel) zero b off k xs [] rest m f live fits len e = (
      m.sys,
      k,
      ap (λ h. done (0, some k) (record m { heap = h })) (sym (stored_nil m.heap b off xs live)),
      e,
      refl,
    )
    recv_loop_lem (suc fuel) zero b off k xs (x ∷ bytes) rest m f live fits len e =
        absurd (omega arith)
    recv_loop_lem (suc fuel) (suc left) b off k xs bytes rest m f live fits len e =
        let (bs, w, call_eq, some_read, at_most, next, quiet) =
          read_some (suc left) m.sys (omega arith) (λ none_left.
            absurd
              (omega (arith, ap (λ l. length l) (sym e ∙ none_left), length-append bytes rest))) in
        let (more, parts, later) =
          split_front bytes rest bs (inbox w) (sym next ∙ e) (omega arith) in
        let m' : Machine P W = record m { heap = stored m.heap b off bs xs; sys = w } in
        let fits' : off + length bs ≤ length xs = omega arith in
        let (w', j, loop, got, sent) =
          recv_loop_lem fuel (suc left - length bs) b (off + length bs) (length bs)
            (overwrite off bs xs) more rest m' (omega arith) (block-stored m.heap b off bs xs)
            (omega (arith, length-overwrite off bs xs fits'))
            (omega (arith, ap (λ l. length l) parts, length-append bs more)) later in
        (
          w',
          j,
          recv_step fuel left b off fd (some k) xs bs w m call_eq some_read live fits'
              ∙ loop
              ∙ ap (λ h. done (0, some j) (record m { heap = h; sys = w' }))
                  (stored-stored m.heap b off (off + length bs) bs more xs refl fits')
              ∙ ap (λ l. done (0, some j) (record m { heap = stored m.heap b off l xs; sys = w' }))
                  (sym parts),
          got,
          sent ∙ quiet,
        )

    -- RecvData on a socket that is a stream, with the receive pointer at the start of a live block
    -- of bufflen bytes or more: if bufflen bytes or more are still to come, in whatever pieces, it
    -- returns with the next bufflen of them at the start of the block, takes nothing more from the
    -- stream, sends nothing, and changes nothing else but the system.
    pub recv_data_lem :
        (b : ℕ) (xs bytes rest : List ℕ) (m : Machine P W)
        → m.args.commfd ≡ fd
        → m.args.r_ptr ≡ at b 0
        → m.heap.block b ≡ some xs
        → m.args.bufflen ≤ length xs
        → length bytes ≡ m.args.bufflen
        → inbox m.sys ≡ bytes ++ rest
        → (w : W) × (recv_data net m
            ≡ done tt (record m { heap = stored m.heap b 0 bytes xs; sys = w }))
          × (inbox w ≡ rest)
          × (outbox w ≡ outbox m.sys)
    unfolding recv_data
    recv_data_lem b xs bytes rest m chan ptr live fits len e =
        let n : ℕ = m.args.bufflen in
        let (w, j, loop, got, sent) =
          recv_loop_lem (suc n) n b 0 0 xs bytes rest m (omega arith) live (omega arith) len e in
        (
          w,
          ap₂ (λ c q. and_then (recv_loop net (suc n) c q n (some 0) m) (recv_end net)) chan ptr
              ∙ ap (λ r. and_then r (recv_end net)) loop,
          got,
          sent,
        )

    -- readFully: the same loop over a local buffer.
    read_step :
        (fuel left : ℕ) (last : Option ℕ) (got bs : List ℕ) (w : W) (m : Machine P W)
        → net.read fd (suc left) m.sys ≡ (some bs, w)
        → 0 < length bs
        → read_loop net (suc fuel) fd (suc left) last got m
          ≡ read_loop net fuel fd
              (suc left - length bs)
              (some (length bs))
              (got ++ bs)
              (record m { sys = w })
    unfolding read_loop
    read_step fuel left last got [] w m e p = absurd (omega arith)
    read_step fuel left last got (c ∷ cs) w m e p = rw e

    read_loop_lem :
        (fuel left k : ℕ) (got bytes rest : List ℕ) (m : Machine P W)
        → left < fuel
        → (0 < k) ⊎ (0 < left)
        → length bytes ≡ left
        → inbox m.sys ≡ bytes ++ rest
        → (w : W) × (j : ℕ) × (read_loop net fuel fd left (some k) got m
            ≡ done (some j, got ++ bytes) (record m { sys = w }))
          × (0 < j)
          × (inbox w ≡ rest)
          × (outbox w ≡ outbox m.sys)
    unfolding read_loop
    read_loop_lem zero left k got bytes rest m f pos_k len e = absurd (omega arith)
    read_loop_lem (suc fuel) zero k got [] rest m f pos_k len e =
        (m.sys, k, ap (λ l. done (some k, l) m) (sym (append-nil got)), omega arith, e, refl)
    read_loop_lem (suc fuel) zero k got (x ∷ bytes) rest m f pos_k len e = absurd (omega arith)
    read_loop_lem (suc fuel) (suc left) k got bytes rest m f pos_k len e =
        let (bs, w, call_eq, some_read, at_most, next, quiet) =
          read_some (suc left) m.sys (omega arith) (λ none_left.
            absurd
              (omega (arith, ap (λ l. length l) (sym e ∙ none_left), length-append bytes rest))) in
        let (more, parts, later) =
          split_front bytes rest bs (inbox w) (sym next ∙ e) (omega arith) in
        let (w', j, loop, pos_j, taken, sent) =
          read_loop_lem fuel (suc left - length bs) (length bs) (got ++ bs) more rest
            (record m { sys = w }) (omega arith) (inl some_read)
            (omega (arith, ap (λ l. length l) parts, length-append bs more)) later in
        (
          w',
          j,
          read_step fuel left (some k) got bs w m call_eq some_read
              ∙ loop
              ∙ ap (λ l. done (some j, l) (record m { sys = w' }))
                  (append_assoc got bs more ∙ ap (λ l. got ++ l) (sym parts)),
          pos_j,
          taken,
          sent ∙ quiet,
        )

    -- readFully of a positive number of bytes that a stream still gives returns that number and
    -- these bytes, in whatever pieces they come, takes nothing more from the stream and sends
    -- nothing.
    pub read_fully_lem :
        (bytes rest : List ℕ) (m : Machine P W)
        → 0 < length bytes
        → inbox m.sys ≡ bytes ++ rest
        → (w : W) × (read_fully net fd (length bytes) m
            ≡ done (some (length bytes), bytes) (record m { sys = w }))
          × (inbox w ≡ rest)
          × (outbox w ≡ outbox m.sys)
    unfolding read_fully
    read_fully_lem bytes rest m some_asked e =
        let (w, j, loop, pos_j, taken, sent) =
          read_loop_lem (suc (length bytes)) (length bytes) 0 [] bytes rest m (omega arith)
            (inr some_asked) refl e in
        (
          w,
          ap (λ r. and_then r (λ x. pure (full_result (length bytes) x))) loop ∙ full w j pos_j,
          taken,
          sent,
        )
      where
        full :
            (w : W) (j : ℕ)
            → 0 < j
            → pure (full_result (length bytes) (some j, bytes)) (record m { sys = w })
              ≡ done (some (length bytes), bytes) (record m { sys = w })
        full w zero h = absurd (omega arith)
        full w (suc j) h = refl
