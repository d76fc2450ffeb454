-- ===== src/Ibv/Device/Whole.antt =====
-- initIB as a whole: on every path the adapter holds what the module has handles of.
use netpipe5_dev.Base.{
  ℕ, ◌≡◌, ℤ, pos, Bool, true, false, not, Option, none, some, List, ◌++◌, length, drop,
}
use netpipe5_dev.Effect.{M, Outcome, done, and_then, when, exit, pure, ◌>>=◌, ◌>>◌}
use netpipe5_dev.Memory.{tabulate}
use netpipe5_dev.Machine.{Machine}
use netpipe5_dev.Sockets.{Sockets}
use netpipe5_dev.Tcp.{failed, bytes_eq, sync_text}
use netpipe5_dev.Verbs.{Verbs}
use netpipe5_dev.Ibv.{Ibv}
use netpipe5_dev.Ibv.Exchange.{sync, read_fully}
use netpipe5_dev.Ibv.Device.{sync_ok, connect_qp, init_ib, finalize_ib}
use netpipe5_dev.Ibv.Device.Ledger.{nothing, Ledger, Owned}
use netpipe5_dev.Ibv.Device.Release.{finalize_ib-Owned}
use netpipe5_dev.Ibv.Device.Acquire.{
  Progress, went, left, Ends, succeeds, fails, exits, or_fail-Ends,
}
use netpipe5_dev.Tcp.Quiet.{Quiet, returns, ends, read_fully-Quiet}
use netpipe5_dev.Ibv.Device.Stages.{Stage, find_device_step, open_context_step, query_port_step}
use netpipe5_dev.Ibv.Device.Objects.{
  Ready, make_pd_step, make_send_cq_step, make_recv_cq_step, make_qp_step,
}
use netpipe5_dev.Ibv.Device.Connect.{
  Ready-Owned, Ready-moved, send_lid_step, send_qp_num_step, read_lid_step, read_qp_num_step,
  qp_to_init_step, qp_to_rtr_step, qp_to_rts_step, start_events_step,
}

module _ {W : Type 0} {verbs : Verbs W} {net : Sockets W} (l : Ledger verbs net) where
  -- Sync returns true or ends the process.
  sync_ok_step :
      (m : Machine Ibv W) → Ready l m → Progress (Ready l) (Owned l) (sync_ok verbs net m)
  unfolding sync_ok sync read_fully
  sync_ok_step m r = sent (failed (net.write m.args.commfd sync_text m.sys).0)
    where
      w₁ : W
      w₁ = (net.write m.args.commfd sync_text m.sys).1

      text : List ℕ → List ℕ
      text got = got ++ drop (length got) (tabulate m.heap.junk 0 6)

      compare : Bool → M (Machine Ibv W) (Unit {0})
      compare same = when (not same) (exit (pos 3))

      judge : Option ℕ × List ℕ → M (Machine Ibv W) (Unit {0})
      judge (n, got) = when (failed n) (exit (pos 3)) >> compare (bytes_eq sync_text (text got))

      rest : M (Machine Ibv W) (Unit {0})
      rest = read_fully net m.args.commfd 6 >>= judge

      compared :
          (same : Bool) (w : W)
          → l.held w ≡ l.held m.sys
          → Progress (Ready l) (Owned l) ((compare same >> pure true) (record m { sys = w }))
      compared true w e = went _ (Ready-moved l m w e r)
      compared false w e = left _ _

      judged :
          (answer : Option ℕ × List ℕ) (w : W)
          → l.held w ≡ l.held m.sys
          → Progress (Ready l) (Owned l) ((judge answer >> pure true) (record m { sys = w }))
      judged (none, got) w e = left _ _
      judged (some n, got) w e = compared (bytes_eq sync_text (text got)) w e

      heard :
          (o : Outcome (Machine Ibv W) (Option ℕ × List ℕ))
          → Quiet l.held m o
          → Progress (Ready l) (Owned l) (and_then (and_then o judge) (λ _. pure true))
      heard _ (returns a w e) = judged a w e
      heard _ (ends c m') = left _ _

      sent :
          (bad : Bool)
          → Progress
              (Ready l)
              (Owned l)
              ((when bad (exit (pos 3)) >> rest >> pure true) (record m { sys = w₁ }))
      sent true = left _ _
      sent false = heard _ (
          read_fully-Quiet net l.held l.read_quiet m.args.commfd 6 m w₁
            (l.write_quiet m.args.commfd sync_text m.sys))

  connect_qp-Ends : (m : Machine Ibv W) → Ready l m → Ends (Owned l) (connect_qp verbs net m)
  unfolding connect_qp
  connect_qp-Ends = or_fail-Ends (send_lid_step l) (
      or_fail-Ends (send_qp_num_step l) (
        or_fail-Ends (read_lid_step l) (
          or_fail-Ends (read_qp_num_step l) (
            or_fail-Ends (qp_to_init_step l) (
              or_fail-Ends (qp_to_rtr_step l) (
                or_fail-Ends sync_ok_step (
                  or_fail-Ends (qp_to_rts_step l) (
                    or_fail-Ends (start_events_step l) λ m r. succeeds m (Ready-Owned l m r)))))))))

  -- For verbs that keep count of the objects that a process holds, from a machine on which the
  -- module has no context, domain, queue or queue pair and the adapter holds just the regions of
  -- the module: initIB returns 0 or -1 or ends the process, without undefined behaviour or an
  -- endless wait, and when it returns, the adapter holds just what the module has handles of.
  init_ib-Ends :
      (m : Machine Ibv W)
      → Stage l none none none none none m
      → Ends (Owned l) (init_ib verbs net m)
  unfolding init_ib
  init_ib-Ends = or_fail-Ends (find_device_step l) (
      or_fail-Ends (open_context_step l) (
        or_fail-Ends (query_port_step l) (
          or_fail-Ends (make_pd_step l) (
            or_fail-Ends (make_send_cq_step l) (
              or_fail-Ends (make_recv_cq_step l)
                (or_fail-Ends (make_qp_step l) connect_qp-Ends))))))

  -- The end of a run after which finalizeIB leaves nothing held.
  abbrev pub Released : Machine Ibv W → Type 0
  Released m =
      (w : W) × (finalize_ib verbs m ≡ done tt (record m { sys = w })) × (l.held w ≡ nothing)

  -- For verbs that keep count of the objects that a process holds, as their documents say, from a
  -- machine on which the module has no context, domain, queue or queue pair and the adapter holds
  -- just the regions of the module: initIB returns 0 or -1 or ends the process, without undefined
  -- behaviour or an endless wait, and when it returns, whichever step failed, finalizeIB then runs
  -- to its end, changes only the system, and leaves the process nothing held of the adapter.
  pub finalize_ib-init_ib :
      (m : Machine Ibv W) → Stage l none none none none none m → Ends Released (init_ib verbs net m)
  finalize_ib-init_ib m st = go _ (init_ib-Ends m st)
    where
      go : (r : Outcome (Machine Ibv W) ℤ) → Ends (Owned l) r → Ends Released r
      go _ (succeeds m own) = succeeds m (finalize_ib-Owned l m own)
      go _ (fails m own) = fails m (finalize_ib-Owned l m own)
      go _ (exits c m) = exits c m
