-- ===== src/Ibv/Device/Handshake.antt =====
-- The steps of initIB on a neighbour that greets, from the ids that it sends to the start of the
-- event thread.
use netpipe5_dev.Base.{
  arith, ℕ, ◌-◌, ◌≡◌, ◌≢◌, refl, ◌∙◌, ap, ◌<◌, ◌==◌, ◌^◌, ℤ, pos, Bool, true, false, not, Option,
  none, some, List, [], ◌∷◌, ◌++◌, length, drop,
}
use netpipe5_dev.Effect.{M, done, and_then, gets, defined, when, exit, pure, ◌>>=◌, ◌>>◌}
use netpipe5_dev.Memory.{tabulate}
use netpipe5_dev.Machine.{Machine, call, set_prot, of_le32, le32}
use netpipe5_dev.Sockets.{Sockets}
use netpipe5_dev.Sockets.Stream.{IsStream}
use netpipe5_dev.Tcp.{failed, bytes_eq, sync_text, read_loop, full_result}
use netpipe5_dev.Tcp
use netpipe5_dev.Verbs.{Verbs, QueuePair, QpChange, to_init, to_rtr, to_rts, remote_access}
use netpipe5_dev.Ibv.{Ibv, waits, np_comp_event, le16, of_le16}
use netpipe5_dev.Ibv.Exchange.{sync, read_fully}
use netpipe5_dev.Ibv.Device.{
  read_all, bytes_read, read_lid, read_qp_num, qp_to_init, qp_to_rtr, sync_ok, qp_to_rts,
  start_events,
}
use netpipe5_dev.Ibv.Device.Greeting.{
  Wires, Says, of_le16-le16, of_le32-le32, write_lem, read_lem, modify_lem, placed,
}

module _ {W : Type 0} {verbs : Verbs W} {net : Sockets W} {fd : ℤ} {stream : IsStream net fd}
    (wires : Wires verbs stream) (m : Machine Ibv W) (chan : m.args.commfd ≡ fd) where
  open stream use {inbox, outbox, small_whole}
  open wires use {changes}

  pub read_lid_goes :
      (t : Ibv) (x : ℕ) (i o : List ℕ) (cs : List QpChange) (w : W)
      → x < 2 ^ 16
      → Says wires (le16 x ++ i) o cs w
      → (w' : W) × (read_lid verbs net (placed wires m chan t w)
          ≡ done true (placed wires m chan (record t { d_lid = x }) w'))
        × Says wires i o cs w'
  unfolding read_lid
  read_lid_goes t x i o cs w small s =
      let (w', call_eq, s') = read_lem wires (le16 x) i o cs w (omega arith) s in
      (
        w',
        ap (λ (c : ℤ). and_then (call (net.read c 2) (placed wires m chan t w)) store) chan
            ∙ ap (λ (r : Option (List ℕ) × W). store r.0 (placed wires m chan t r.1)) call_eq
            ∙ ap (λ (x : ℕ). done true (placed wires m chan (record t { d_lid = x }) w'))
                (of_le16-le16 x small),
        s',
      )
    where
      store : Option (List ℕ) → M (Machine Ibv W) Bool
      store r = elim (read_all 2 r) [
        | false ↦ pure false
        | true ↦ do set_prot (λ (t : Ibv). record t { d_lid = of_le16 (bytes_read r) }); pure true
      ]

  pub read_qp_num_goes :
      (t : Ibv) (x : ℕ) (i o : List ℕ) (cs : List QpChange) (w : W)
      → x < 2 ^ 32
      → Says wires (le32 x ++ i) o cs w
      → (w' : W) × (read_qp_num verbs net (placed wires m chan t w)
          ≡ done true (placed wires m chan (record t { d_qp_num = x }) w'))
        × Says wires i o cs w'
  unfolding read_qp_num
  read_qp_num_goes t x i o cs w small s =
      let (w', call_eq, s') = read_lem wires (le32 x) i o cs w (omega arith) s in
      (
        w',
        ap (λ (c : ℤ). and_then (call (net.read c 4) (placed wires m chan t w)) store) chan
            ∙ ap (λ (r : Option (List ℕ) × W). store r.0 (placed wires m chan t r.1)) call_eq
            ∙ ap (λ (x : ℕ). done true (placed wires m chan (record t { d_qp_num = x }) w'))
                (of_le32-le32 x small),
        s',
      )
    where
      store : Option (List ℕ) → M (Machine Ibv W) Bool
      store r = elim (read_all 4 r) [
        | false ↦ pure false
        | true ↦ do
          set_prot (λ (t : Ibv). record t { d_qp_num = of_le32 (bytes_read r) })
          pure true
      ]

  pub qp_to_init_goes :
      (t : Ibv) (pair : QueuePair) (i o : List ℕ) (cs : List QpChange) (w : W)
      → t.qp_hndl ≡ some pair
      → Says wires i o cs w
      → (w' : W) × (qp_to_init verbs net (placed wires m chan t w)
          ≡ done true (placed wires m chan t w'))
        × Says wires i o (cs ++ (to_init 0 t.port_num remote_access ∷ [])) w'
  unfolding qp_to_init
  qp_to_init_goes t pair i o cs w e s =
      let (w', call_eq, s') =
        modify_lem wires pair.handle (to_init 0 t.port_num remote_access) i o cs w s in
      (w', rw (e, call_eq) refl, s')

  pub qp_to_rtr_goes :
      (t : Ibv) (pair : QueuePair) (i o : List ℕ) (cs : List QpChange) (w : W)
      → t.qp_hndl ≡ some pair
      → Says wires i o cs w
      → (w' : W) × (qp_to_rtr verbs net (placed wires m chan t w)
          ≡ done true (placed wires m chan t w'))
        × Says wires i o (cs ++ (to_rtr t.ib_mtu t.d_qp_num t.d_lid t.port_num 0 1 5 ∷ [])) w'
  unfolding qp_to_rtr
  qp_to_rtr_goes t pair i o cs w e s =
      let (w', call_eq, s') =
        modify_lem wires pair.handle (to_rtr t.ib_mtu t.d_qp_num t.d_lid t.port_num 0 1 5) i o cs w
          s in
      (w', rw (e, call_eq) refl, s')

  pub qp_to_rts_goes :
      (t : Ibv) (pair : QueuePair) (i o : List ℕ) (cs : List QpChange) (w : W)
      → t.qp_hndl ≡ some pair
      → Says wires i o cs w
      → (w' : W) × (qp_to_rts verbs net (placed wires m chan t w)
          ≡ done true (placed wires m chan t w'))
        × Says wires i o (cs ++ (to_rts 31 1 1 0 1 ∷ [])) w'
  unfolding qp_to_rts
  qp_to_rts_goes t pair i o cs w e s =
      let (w', call_eq, s') = modify_lem wires pair.handle (to_rts 31 1 1 0 1) i o cs w s in
      (w', rw (e, call_eq) refl, s')

  pub sync_ok_goes :
      (t : Ibv) (i o : List ℕ) (cs : List QpChange) (w : W)
      → Says wires (sync_text ++ i) o cs w
      → (w' : W) × (sync_ok verbs net (placed wires m chan t w)
          ≡ done true (placed wires m chan t w'))
        × Says wires i (o ++ sync_text) cs w'
  unfolding sync_ok sync read_fully Tcp.read_fully read_loop
  sync_ok_goes t i o cs w s =
      let (w₁, call_eq, s₁) = write_lem wires sync_text (sync_text ++ i) o cs w (omega arith) s in
      let (w₂, read_eq, s₂) = read_lem wires sync_text i (o ++ sync_text) cs w₁ (omega arith) s₁ in
      (
        w₂,
        ap (λ (c : ℤ). and_then (call (net.write c sync_text) (placed wires m chan t w)) (rest c))
              chan
            ∙ ap (λ (r : Option ℕ × W). rest fd r.0 (placed wires m chan t r.1)) call_eq
            ∙ ap
                (λ (r : Option (List ℕ) × W).
                  and_then (and_then (and_then (again r.0 (placed wires m chan t r.1)) whole) judge)
                    (λ _. pure true))
                read_eq,
        s₂,
      )
    where
      again : Option (List ℕ) → M (Machine Ibv W) (Option ℕ × List ℕ)
      again r = elim r [
        | none ↦ pure (none, [])
        | some [] ↦ pure (some 0, [])
        | some (b ∷ bs) ↦
            read_loop net 6 fd (6 - length (b ∷ bs)) (some (length (b ∷ bs))) ([] ++ (b ∷ bs))
      ]

      whole : Option ℕ × List ℕ → M (Machine Ibv W) (Option ℕ × List ℕ)
      whole a = pure (full_result 6 a)

      judge : Option ℕ × List ℕ → M (Machine Ibv W) (Unit {0})
      judge (n, got) = do
        when (failed n) (exit (pos 3))
        when (not (bytes_eq sync_text (got ++ drop (length got) (tabulate m.heap.junk 0 6))))
            (exit (pos 3))

      rest : ℤ → Option ℕ → M (Machine Ibv W) Bool
      rest c sent = do
        (do when (failed sent) (exit (pos 3)); answer ← read_fully net c 6; judge answer)
        pure true

  pub start_events_goes :
      (t : Ibv) (w : W)
      → t.comptype ≢ np_comp_event
      → start_events verbs net (placed wires m chan t w) ≡ done true (placed wires m chan t w)
  unfolding start_events
  start_events_goes t w other =
      ap (λ (event : Bool). starting event (placed wires m chan t w)) (test t.comptype other)
    where
      run : Bool → M (Machine Ibv W) Bool
      run started = elim started [
        | false ↦ pure false
        | true ↦ do
          set_prot (λ (t : Ibv). record t { event_thread = some waits })
          t ← gets (λ (m : Machine Ibv W). m.prot)
          cq ← defined t.r_cq_hndl
          call (verbs.req_notify_cq cq)
          pure true
      ]

      starting : Bool → M (Machine Ibv W) Bool
      starting event = elim event [
        | false ↦ pure true
        | true ↦ do started ← call (verbs.pthread_create); run started
      ]

      test : (n : ℕ) → n ≢ np_comp_event → (n == np_comp_event) ≡ false
      test n h = ground arith
