-- ===== src/Ibv/Device/Connect.antt =====
-- initIB step by step: the exchange over the socket and the states of the queue pair.
use netpipe5_dev.Base.{ℕ, ◌≡◌, ◌∙◌, Bool, true, false, Option, some, List, ◌==◌}
use netpipe5_dev.Effect.{M, done, and_then, defined, pure, ◌>>=◌, ◌>>◌}
use netpipe5_dev.Machine.{Machine, call, set_prot, of_le32, le32}
use netpipe5_dev.Sockets.{Sockets}
use netpipe5_dev.Verbs.{Verbs, QueuePair, QpChange, to_init, to_rtr, to_rts, remote_access}
use netpipe5_dev.Ibv.{Ibv, waits, np_comp_event, le16, of_le16}
use netpipe5_dev.Ibv.Device.{
  wrote_all, read_all, bytes_read, send_lid, send_qp_num, read_lid, read_qp_num, qp_to_init,
  qp_to_rtr, qp_to_rts, start_events,
}
use netpipe5_dev.Ibv.Device.Ledger.{Ledger, Owned}
use netpipe5_dev.Ibv.Device.Acquire.{Progress, went, failed_in, Progress-defined}
use netpipe5_dev.Ibv.Device.Objects.{Ready}

module _ {W : Type 0} {verbs : Verbs W} {net : Sockets W} (l : Ledger verbs net) where
  pub Ready-Owned : (m : Machine Ibv W) → Ready l m → Owned l m
  Ready-Owned m r = record { held_is = r.held_is }

  -- The system has moved on, and the same objects are held.
  pub Ready-moved :
      (m : Machine Ibv W) (w : W)
      → l.held w ≡ l.held m.sys
      → Ready l m
      → Ready l (record m { sys = w })
  Ready-moved m w e r = record {
    pair = r.pair;
    recv_queue = r.recv_queue;
    held_is = e ∙ r.held_is;
    qp_is = r.qp_is;
    r_cq_is = r.r_cq_is;
  }

  -- A step whose answer says whether initIB goes on.
  Progress-answer :
      (ok : Bool) (m : Machine Ibv W) (w : W)
      → l.held w ≡ l.held m.sys
      → Ready l m
      → Progress (Ready l) (Owned l) (done ok (record m { sys = w }))
  Progress-answer true m w e r = went _ (Ready-moved m w e r)
  Progress-answer false m w e r = failed_in _ (record { held_is = e ∙ r.held_is })

  pub send_lid_step :
      (m : Machine Ibv W) → Ready l m → Progress (Ready l) (Owned l) (send_lid verbs net m)
  unfolding send_lid
  send_lid_step m r =
      Progress-answer (wrote_all 2 (net.write m.args.commfd (le16 m.prot.lid) m.sys).0) m _
        (l.write_quiet m.args.commfd (le16 m.prot.lid) m.sys) r

  pub send_qp_num_step :
      (m : Machine Ibv W) → Ready l m → Progress (Ready l) (Owned l) (send_qp_num verbs net m)
  unfolding send_qp_num
  send_qp_num_step m r = Progress-defined m.prot.qp_hndl r.pair _ m r.qp_is (
      Progress-answer (wrote_all 4 (net.write m.args.commfd (le32 r.pair.qp_num) m.sys).0) m _
        (l.write_quiet m.args.commfd (le32 r.pair.qp_num) m.sys) r)

  pub read_lid_step :
      (m : Machine Ibv W) → Ready l m → Progress (Ready l) (Owned l) (read_lid verbs net m)
  unfolding read_lid
  read_lid_step m r =
      go (net.read m.args.commfd 2 m.sys).0 (read_all 2 (net.read m.args.commfd 2 m.sys).0)
        (net.read m.args.commfd 2 m.sys).1 (l.read_quiet m.args.commfd 2 m.sys)
    where
      run : Option (List ℕ) → Bool → M (Machine Ibv W) Bool
      run got all = elim all [
        | false ↦ pure false
        | true ↦ do set_prot (λ (t : Ibv). record t { d_lid = of_le16 (bytes_read got) }); pure true
      ]

      go :
          (got : Option (List ℕ)) (all : Bool) (w : W)
          → l.held w ≡ l.held m.sys
          → Progress (Ready l) (Owned l) (run got all (record m { sys = w }))
      go got false w e = failed_in _ (record { held_is = e ∙ r.held_is })
      go got true w e = went _ (record {
        pair = r.pair;
        recv_queue = r.recv_queue;
        held_is = e ∙ r.held_is;
        qp_is = r.qp_is;
        r_cq_is = r.r_cq_is;
      })

  pub read_qp_num_step :
      (m : Machine Ibv W) → Ready l m → Progress (Ready l) (Owned l) (read_qp_num verbs net m)
  unfolding read_qp_num
  read_qp_num_step m r =
      go (net.read m.args.commfd 4 m.sys).0 (read_all 4 (net.read m.args.commfd 4 m.sys).0)
        (net.read m.args.commfd 4 m.sys).1 (l.read_quiet m.args.commfd 4 m.sys)
    where
      run : Option (List ℕ) → Bool → M (Machine Ibv W) Bool
      run got all = elim all [
        | false ↦ pure false
        | true ↦ do
          set_prot (λ (t : Ibv). record t { d_qp_num = of_le32 (bytes_read got) })
          pure true
      ]

      go :
          (got : Option (List ℕ)) (all : Bool) (w : W)
          → l.held w ≡ l.held m.sys
          → Progress (Ready l) (Owned l) (run got all (record m { sys = w }))
      go got false w e = failed_in _ (record { held_is = e ∙ r.held_is })
      go got true w e = went _ (record {
        pair = r.pair;
        recv_queue = r.recv_queue;
        held_is = e ∙ r.held_is;
        qp_is = r.qp_is;
        r_cq_is = r.r_cq_is;
      })

  -- A change of the queue pair.
  Progress-modify :
      (a : QpChange) (m : Machine Ibv W)
      → Ready l m
      → Progress
          (Ready l)
          (Owned l)
          (and_then (defined m.prot.qp_hndl m) λ (q : QueuePair). call (verbs.modify_qp q.handle a))
  Progress-modify a m r =
      Progress-defined m.prot.qp_hndl r.pair (λ (q : QueuePair). call (verbs.modify_qp q.handle a))
        m r.qp_is
        (Progress-answer (verbs.modify_qp r.pair.handle a m.sys).0 m _
          (l.modify_quiet r.pair.handle a m.sys) r)

  pub qp_to_init_step :
      (m : Machine Ibv W) → Ready l m → Progress (Ready l) (Owned l) (qp_to_init verbs net m)
  unfolding qp_to_init
  qp_to_init_step m r = Progress-modify (to_init 0 m.prot.port_num remote_access) m r

  pub qp_to_rtr_step :
      (m : Machine Ibv W) → Ready l m → Progress (Ready l) (Owned l) (qp_to_rtr verbs net m)
  unfolding qp_to_rtr
  qp_to_rtr_step m r =
      Progress-modify (to_rtr m.prot.ib_mtu m.prot.d_qp_num m.prot.d_lid m.prot.port_num 0 1 5) m r

  pub qp_to_rts_step :
      (m : Machine Ibv W) → Ready l m → Progress (Ready l) (Owned l) (qp_to_rts verbs net m)
  unfolding qp_to_rts
  qp_to_rts_step m r = Progress-modify (to_rts 31 1 1 0 1) m r

  pub start_events_step :
      (m : Machine Ibv W) → Ready l m → Progress (Ready l) (Owned l) (start_events verbs net m)
  unfolding start_events
  start_events_step m r = go (m.prot.comptype == np_comp_event)
    where
      m₁ : Machine Ibv W
      m₁ = record m { sys = (verbs.pthread_create m.sys).1 }

      m₂ : Machine Ibv W
      m₂ = record m₁ { prot = record (m.prot) { event_thread = some waits } }

      notify : M (Machine Ibv W) Bool
      notify m =
          and_then (defined m.prot.r_cq_hndl m)
            λ (cq : ℕ). call (verbs.req_notify_cq cq) >> pure true

      run : Bool → M (Machine Ibv W) Bool
      run started = elim started [
        | false ↦ pure false
        | true ↦ do set_prot (λ (t : Ibv). record t { event_thread = some waits }); notify
      ]

      begun : (started : Bool) → Progress (Ready l) (Owned l) (run started m₁)
      begun false = failed_in m₁ (record { held_is = l.thread_quiet m.sys ∙ r.held_is })
      begun true = Progress-defined m.prot.r_cq_hndl r.recv_queue _ m₂ r.r_cq_is (
          went _ (record {
            pair = r.pair;
            recv_queue = r.recv_queue;
            held_is = l.notify_quiet r.recv_queue m₁.sys ∙ l.thread_quiet m.sys ∙ r.held_is;
            qp_is = r.qp_is;
            r_cq_is = r.r_cq_is;
          }))

      starting : Bool → M (Machine Ibv W) Bool
      starting event = elim event [
        | false ↦ pure true
        | true ↦ do started ← call (verbs.pthread_create); run started
      ]

      go : (event : Bool) → Progress (Ready l) (Owned l) (starting event m)
      go false = went m r
      go true = begun (verbs.pthread_create m.sys).0
