-- ===== src/Ibv/Device/Connected.antt =====
-- initIB on a neighbour that greets: both learn the ids of the other, and the queue pair goes through
-- INIT, RTR and RTS.
use netpipe5_dev.Base.{
  ℕ, ◌≡◌, ◌≢◌, refl, ◌∙◌, ap, ◌<◌, ◌^◌, ℤ, pos, negsuc, Bool, true, false, some, List, [], ◌∷◌,
  ◌++◌,
}
use netpipe5_dev.Effect.{M, Outcome, done, and_then, pure}
use netpipe5_dev.Machine.{Machine, le32}
use netpipe5_dev.Sockets.{Sockets}
use netpipe5_dev.Sockets.Stream.{IsStream}
use netpipe5_dev.Tcp.{sync_text}
use netpipe5_dev.Verbs.{Verbs, QueuePair, to_init, to_rtr, to_rts, remote_access}
use netpipe5_dev.Ibv.{Ibv, np_comp_event, le16}
use netpipe5_dev.Ibv.Device.{
  or_fail, send_lid, send_qp_num, read_lid, read_qp_num, qp_to_init, qp_to_rtr, sync_ok, qp_to_rts,
  start_events, connect_qp,
}
use netpipe5_dev.Ibv.Device.Greeting.{Wires, Says, placed, send_lid_goes, send_qp_num_goes}
use netpipe5_dev.Ibv.Device.Handshake.{
  read_lid_goes, read_qp_num_goes, qp_to_init_goes, qp_to_rtr_goes, qp_to_rts_goes, sync_ok_goes,
  start_events_goes,
}

-- A step that goes on is followed by the rest.
or_fail_goes :
    {W : Type 0} (step : M (Machine Ibv W) Bool) (rest : M (Machine Ibv W) ℤ) (m m' : Machine Ibv W)
    → step m ≡ done true m'
    → or_fail step rest m ≡ rest m'
or_fail_goes step rest m m' e =
    ap
      (λ (o : Outcome _ Bool). and_then o (λ ok. elim ok [ true ↦ rest | false ↦ pure (negsuc 0) ]))
      e

module _ {W : Type 0} {verbs : Verbs W} {net : Sockets W} {fd : ℤ} {stream : IsStream net fd}
    (wires : Wires verbs stream) (m : Machine Ibv W) (chan : m.args.commfd ≡ fd) where
  open stream use {inbox, outbox, small_whole}
  open wires use {changes}

  -- The second half of initIB, without event completion, on a socket that gives the neighbour's
  -- 16-bit local id, its 32-bit queue pair number and the synchronisation in whole reads, and with
  -- a queue pair whose changes of state succeed: it returns 0 with these two numbers kept and
  -- nothing else of the process changed, has sent its own id, number and synchronisation, and has
  -- asked for INIT with its port, RTR with the neighbour's number and id, and RTS, in this order
  -- and nothing more.
  pub connect_qp_lem :
      (pair : QueuePair) (lid num : ℕ) (rest : List ℕ)
      → m.prot.qp_hndl ≡ some pair
      → m.prot.comptype ≢ np_comp_event
      → lid < 2 ^ 16
      → num < 2 ^ 32
      → inbox m.sys ≡ le16 lid ++ (le32 num ++ (sync_text ++ rest))
      → (w : W) × (connect_qp verbs net m
          ≡ done
              (pos 0)
              (record m { prot = record (m.prot) { d_lid = lid; d_qp_num = num }; sys = w }))
        × (inbox w ≡ rest)
        × (outbox w ≡ ((outbox m.sys ++ le16 m.prot.lid) ++ le32 pair.qp_num) ++ sync_text)
        × (changes w
            ≡ ((changes m.sys ++ (to_init 0 m.prot.port_num remote_access ∷ []))
                ++ (to_rtr m.prot.ib_mtu num lid m.prot.port_num 0 1 5 ∷ []))
              ++ (to_rts 31 1 1 0 1 ∷ []))
  unfolding connect_qp
  connect_qp_lem pair lid num rest e polling small_lid small_num come =
      let t₀ : Ibv = m.prot in
      let t₁ : Ibv = record t₀ { d_lid = lid } in
      let t₂ : Ibv = record t₁ { d_qp_num = num } in
      let s₀ : Says wires (inbox m.sys) (outbox m.sys) (changes m.sys) m.sys = record {
        inbox_is = refl;
        outbox_is = refl;
        changes_is = refl;
      } in
      let (w₁, e₁, s₁) = send_lid_goes wires m chan t₀ _ _ _ m.sys s₀ in
      let (w₂, e₂, s₂) = send_qp_num_goes wires m chan t₀ pair _ _ _ w₁ e s₁ in
      let (w₃, e₃, s₃) = read_lid_goes wires m chan t₀ lid _ _ _ w₂ small_lid (record {
        inbox_is = s₂.inbox_is ∙ come;
        outbox_is = s₂.outbox_is;
        changes_is = s₂.changes_is;
      }) in
      let (w₄, e₄, s₄) = read_qp_num_goes wires m chan t₁ num _ _ _ w₃ small_num s₃ in
      let (w₅, e₅, s₅) = qp_to_init_goes wires m chan t₂ pair _ _ _ w₄ e s₄ in
      let (w₆, e₆, s₆) = qp_to_rtr_goes wires m chan t₂ pair _ _ _ w₅ e s₅ in
      let (w₇, e₇, s₇) = sync_ok_goes wires m chan t₂ _ _ _ w₆ s₆ in
      let (w₈, e₈, s₈) = qp_to_rts_goes wires m chan t₂ pair _ _ _ w₇ e s₇ in
      (
        w₈,
        or_fail_goes (send_lid verbs net) after_send_lid m (placed wires m chan t₀ w₁) e₁
            ∙ or_fail_goes (send_qp_num verbs net) after_send_qp_num (placed wires m chan t₀ w₁)
                (placed wires m chan t₀ w₂) e₂
            ∙ or_fail_goes (read_lid verbs net) after_read_lid (placed wires m chan t₀ w₂)
                (placed wires m chan t₁ w₃) e₃
            ∙ or_fail_goes (read_qp_num verbs net) after_read_qp_num (placed wires m chan t₁ w₃)
                (placed wires m chan t₂ w₄) e₄
            ∙ or_fail_goes (qp_to_init verbs net) after_qp_to_init (placed wires m chan t₂ w₄)
                (placed wires m chan t₂ w₅) e₅
            ∙ or_fail_goes (qp_to_rtr verbs net) after_qp_to_rtr (placed wires m chan t₂ w₅)
                (placed wires m chan t₂ w₆) e₆
            ∙ or_fail_goes (sync_ok verbs net) after_sync_ok (placed wires m chan t₂ w₆)
                (placed wires m chan t₂ w₇) e₇
            ∙ or_fail_goes (qp_to_rts verbs net) after_qp_to_rts (placed wires m chan t₂ w₇)
                (placed wires m chan t₂ w₈) e₈
            ∙ or_fail_goes (start_events verbs net) after_start_events (placed wires m chan t₂ w₈)
                (placed wires m chan t₂ w₈) (start_events_goes wires m chan t₂ w₈ polling),
        s₈.inbox_is,
        s₈.outbox_is,
        s₈.changes_is,
      )
    where
      after_start_events : M (Machine Ibv W) ℤ
      after_start_events = (pure (pos 0))

      after_qp_to_rts : M (Machine Ibv W) ℤ
      after_qp_to_rts = or_fail (start_events verbs net) after_start_events

      after_sync_ok : M (Machine Ibv W) ℤ
      after_sync_ok = or_fail (qp_to_rts verbs net) after_qp_to_rts

      after_qp_to_rtr : M (Machine Ibv W) ℤ
      after_qp_to_rtr = or_fail (sync_ok verbs net) after_sync_ok

      after_qp_to_init : M (Machine Ibv W) ℤ
      after_qp_to_init = or_fail (qp_to_rtr verbs net) after_qp_to_rtr

      after_read_qp_num : M (Machine Ibv W) ℤ
      after_read_qp_num = or_fail (qp_to_init verbs net) after_qp_to_init

      after_read_lid : M (Machine Ibv W) ℤ
      after_read_lid = or_fail (read_qp_num verbs net) after_read_qp_num

      after_send_qp_num : M (Machine Ibv W) ℤ
      after_send_qp_num = or_fail (read_lid verbs net) after_read_lid

      after_send_lid : M (Machine Ibv W) ℤ
      after_send_lid = or_fail (send_qp_num verbs net) after_send_qp_num
