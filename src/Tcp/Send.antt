-- ===== src/Tcp/Send.antt =====
-- src/tcp.c: SendData on a stream that takes its bytes in pieces.
use netpipe5_dev.Base.{
  ℕ, zero, suc, ◌+◌, ◌-◌, ◌≤◌, ◌<◌, ◌≡◌, refl, sym, ◌∙◌, ap, ap₂, arith, ℤ, pos, List, ◌++◌, Option,
  none, some, length, take, drop, length-take, length-drop, append-nil, append_assoc, take-add,
  take-take, drop-drop,
}
use netpipe5_dev.Effect.{done, and_then, when, exit, pure, ◌>>=◌}
use netpipe5_dev.Memory.{at, advance}
use netpipe5_dev.Machine.{Machine, call}
use netpipe5_dev.Machine.Laws.{fetch_at}
use netpipe5_dev.Sockets.{Sockets}
use netpipe5_dev.Sockets.Stream.{IsStream}
use netpipe5_dev.Tcp.{send_loop, send_data, failed}

module _ {P W : Type 0} (net : Sockets W) where
  send_step :
      (fuel left b off n : ℕ) (fd : ℤ) (last : Option ℕ) (xs : List ℕ) (w : W) (m : Machine P W)
      → net.write fd (take (suc left) (drop off xs)) m.sys ≡ (some n, w)
      → 0 < n
      → m.heap.block b ≡ some xs
      → off + suc left ≤ length xs
      → send_loop net (suc fuel) fd (at b off) (suc left) last m
        ≡ send_loop net fuel fd (at b (off + n)) (suc left - n) (some n) (record m { sys = w })
  unfolding send_loop
  send_step fuel left b off zero fd last xs w m e p live fits = absurd (omega arith)
  send_step fuel left b off (suc n) fd last xs w m e p live fits =
      ap
        (λ r. and_then r λ bytes. do
          r ← call (net.write fd bytes)
          elim r [
            | none ↦ pure none
            | some zero ↦ pure (some 0)
            | some (suc k) ↦
                send_loop net fuel fd (advance (at b off) (suc k)) (suc left - suc k) (some (suc k))
          ])
        (fetch_at m b off off xs refl live (suc left) fits)
      ∙ (rw e)

  module _ (fd : ℤ) (stream : IsStream net fd) where
    open stream use {inbox, outbox, write_some}

    send_loop_lem :
        (fuel left b off k : ℕ) (xs : List ℕ) (m : Machine P W)
        → left < fuel
        → m.heap.block b ≡ some xs
        → off + left ≤ length xs
        → (w : W) × (j : ℕ) × (send_loop net fuel fd (at b off) left (some k) m
            ≡ done (some j) (record m { sys = w }))
          × (outbox w ≡ outbox m.sys ++ take left (drop off xs))
          × (inbox w ≡ inbox m.sys)
    unfolding send_loop
    send_loop_lem zero left b off k xs m f live fits = absurd (omega arith)
    send_loop_lem (suc fuel) zero b off k xs m f live fits =
        (m.sys, k, refl, sym (append-nil (outbox m.sys)), refl)
    send_loop_lem (suc fuel) (suc left) b off k xs m f live fits =
        let ys : List ℕ = drop off xs in
        let enough : length (take (suc left) ys) ≡ suc left =
          omega (arith, length-take (suc left) ys, length-drop off xs) in
        let (n, w, call_eq, some_sent, at_most, sent, quiet) =
          write_some (take (suc left) ys) m.sys
            (λ empty. absurd (omega (arith, ap (λ l. length l) empty, enough))) in
        let (w', j, loop, sent', quiet') =
          send_loop_lem fuel (suc left - n) b (off + n) n xs (record m { sys = w }) (omega arith)
            live (omega arith) in
        let front : take n (take (suc left) ys) ≡ take n ys =
          take-take n (suc left) ys (omega arith) in
        let whole : take (suc left) ys ≡ take n ys ++ take (suc left - n) (drop n ys) =
          ap (λ t. take t ys) (let e : suc left ≡ n + (suc left - n) = omega arith in e)
          ∙ take-add n (suc left - n) ys in
        (
          w',
          j,
          send_step fuel left b off n fd (some k) xs w m call_eq some_sent live fits ∙ loop,
          sent'
              ∙ ap (λ o. o ++ take (suc left - n) (drop (off + n) xs))
                  (sent ∙ ap (λ t. outbox m.sys ++ t) front)
              ∙ append_assoc (outbox m.sys) (take n ys) (take (suc left - n) (drop (off + n) xs))
              ∙ ap (λ t. outbox m.sys ++ t)
                  (ap (λ t. take n ys ++ take (suc left - n) t) (sym (drop-drop off n xs))
                    ∙ sym whole),
          quiet' ∙ quiet,
        )

    -- SendData on a socket that is a stream, with the send pointer at the start of a live block of
    -- bufflen bytes or more: it returns with the first bufflen bytes of the block on the stream, in
    -- order and in whatever pieces the stream takes them, reads nothing, and changes nothing but
    -- the system.
    pub send_data_lem :
        (b : ℕ) (xs : List ℕ) (m : Machine P W)
        → m.args.commfd ≡ fd
        → m.args.s_ptr ≡ at b 0
        → m.heap.block b ≡ some xs
        → m.args.bufflen ≤ length xs
        → (w : W) × (send_data net m ≡ done tt (record m { sys = w }))
          × (outbox w ≡ outbox m.sys ++ take m.args.bufflen xs)
          × (inbox w ≡ inbox m.sys)
    unfolding send_data
    send_data_lem b xs m chan ptr live fits =
        let n : ℕ = m.args.bufflen in
        let (w, j, loop, sent, quiet) =
          send_loop_lem (suc n) n b 0 0 xs m (omega arith) live (omega arith) in
        (
          w,
          ap₂
                (λ c q.
                  and_then (send_loop net (suc n) c q n (some 0) m)
                    (λ r. when (failed r) (exit (pos 401))))
                chan ptr
              ∙ ap (λ r. and_then r (λ r. when (failed r) (exit (pos 401)))) loop,
          sent,
          quiet,
        )
