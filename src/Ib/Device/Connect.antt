-- ===== src/Ib/Device/Connect.antt =====
-- The steps of initIB of src/ib.c that bring the queue pair up: the stack stays as it is.
use netpipe5_dev.Base.{
  ℕ, ◌==◌, ◌≡◌, refl, ◌∙◌, pos, Bool, true, false, not, Option, none, some, List, ◌++◌, length,
  drop,
}
use netpipe5_dev.Effect.{M, Outcome, done, and_then, ◌>>=◌, ◌>>◌, pure, when, exit}
use netpipe5_dev.Memory.{tabulate}
use netpipe5_dev.Machine.{Machine, le32, of_le32, set_prot, call}
use netpipe5_dev.Sockets.{Sockets}
use netpipe5_dev.Tcp
use netpipe5_dev.Tcp.{bytes_eq, failed, sync_text}
use netpipe5_dev.Tcp.Quiet.{Quiet, returns, ends, read_fully-Quiet}
use netpipe5_dev.Ibv.{np_comp_event, le16, of_le16}
use netpipe5_dev.Ibv.Device.{wrote_all, read_all, bytes_read}
use netpipe5_dev.Ib.{Vapi, Ib, VapiChange, vapi_init_state, vapi_rtr_state, vapi_rts_state}
use netpipe5_dev.Ib.Exchange.{vapi_read_fully, vapi_sync}
use netpipe5_dev.Ib.Device.{
  or_old, vapi_send_lid, vapi_send_qp_num, vapi_read_lid, vapi_read_qp_num, vapi_qp_to_init,
  vapi_qp_to_rtr, vapi_sync_ok, vapi_qp_to_rts, vapi_start_events,
}
use netpipe5_dev.Ib.Device.Stack.{StackLaws, Settled, owns, Owns-same, handles_of}
use netpipe5_dev.Ib.Device.Acquire.{Goes, on, stops, quits, HasQp}

module _ {W : Type 0} {vapi : Vapi W} {net : Sockets W} (l : StackLaws vapi net) where
  HasQp-same :
      (m m' : Machine Ib W)
      → l.live m'.sys ≡ l.live m.sys
      → handles_of m'.prot ≡ handles_of m.prot
      → HasQp l m
      → HasQp l m'
  HasQp-same m m' e same (p, s, r, q, o) =
      (p, s, r, q, Owns-same l (some q) (some r) (some s) (some p) m m' e same o)

  HasQp-moved :
      (m : Machine Ib W) (w : W)
      → l.live w ≡ l.live m.sys
      → HasQp l m
      → HasQp l (record m { sys = w })
  HasQp-moved m w e h = HasQp-same m (record m { sys = w }) e refl h

  pub HasQp-Settled : (m : Machine Ib W) → HasQp l m → Settled l m
  HasQp-Settled m (p, s, r, q, o) = owns (some q) (some r) (some s) (some p) o

  -- The answer of a call that makes nothing.
  Goes-answer :
      (ok : Bool) (m : Machine Ib W) (w : W)
      → l.live w ≡ l.live m.sys
      → HasQp l m
      → Goes (HasQp l) (Settled l) (done ok (record m { sys = w }))
  Goes-answer true m w e h = on _ (HasQp-moved m w e h)
  Goes-answer false m w e h = stops _ (HasQp-Settled _ (HasQp-moved m w e h))

  pub send_lid_step :
      (m : Machine Ib W) → HasQp l m → Goes (HasQp l) (Settled l) (vapi_send_lid vapi net m)
  unfolding vapi_send_lid
  send_lid_step m h =
      Goes-answer (wrote_all 2 (net.write m.args.commfd (le16 m.prot.lid) m.sys).0) m _
        (l.write_quiet m.args.commfd (le16 m.prot.lid) m.sys) h

  pub send_qp_num_step :
      (m : Machine Ib W) → HasQp l m → Goes (HasQp l) (Settled l) (vapi_send_qp_num vapi net m)
  unfolding vapi_send_qp_num
  send_qp_num_step m h =
      Goes-answer (wrote_all 4 (net.write m.args.commfd (le32 m.prot.qp_num) m.sys).0) m _
        (l.write_quiet m.args.commfd (le32 m.prot.qp_num) m.sys) h

  -- A read whose bytes are stored in the globals.
  stored_as :
      (store : Option (List ℕ) → Ib → Ib) (all : Bool) (got : Option (List ℕ)) (m : Machine Ib W)
      (w : W)
      → l.live w ≡ l.live m.sys
      → HasQp l m
      → ((t : Ib) → handles_of (store got t) ≡ handles_of t)
      → Goes (HasQp l) (Settled l) (
          (elim all as (λ _. M (Machine Ib W) Bool) [
            | false ↦ pure false
            | true ↦ do set_prot (store got); pure true
          ])
            (record m { sys = w }))
  stored_as store false got m w e h keep = stops _ (HasQp-Settled _ (HasQp-moved m w e h))
  stored_as store true got m w e h keep = on _ (HasQp-same m _ e (keep m.prot) h)

  pub read_lid_step :
      (m : Machine Ib W) → HasQp l m → Goes (HasQp l) (Settled l) (vapi_read_lid vapi net m)
  unfolding vapi_read_lid
  read_lid_step m h =
      stored_as (λ got t. record t { d_lid = of_le16 (bytes_read got) })
        (read_all 2 (net.read m.args.commfd 2 m.sys).0) (net.read m.args.commfd 2 m.sys).0 m
        (net.read m.args.commfd 2 m.sys).1 (l.read_quiet m.args.commfd 2 m.sys) h (λ t. refl)

  pub read_qp_num_step :
      (m : Machine Ib W) → HasQp l m → Goes (HasQp l) (Settled l) (vapi_read_qp_num vapi net m)
  unfolding vapi_read_qp_num
  read_qp_num_step m h =
      stored_as (λ got t. record t { d_qp_num = of_le32 (bytes_read got) })
        (read_all 4 (net.read m.args.commfd 4 m.sys).0) (net.read m.args.commfd 4 m.sys).0 m
        (net.read m.args.commfd 4 m.sys).1 (l.read_quiet m.args.commfd 4 m.sys) h (λ t. refl)

  Goes-modify :
      (c : VapiChange) (m : Machine Ib W)
      → HasQp l m
      → Goes (HasQp l) (Settled l) (call (vapi.modify_qp m.prot.hca_hndl m.prot.qp_hndl c) m)
  Goes-modify c m h =
      Goes-answer (vapi.modify_qp m.prot.hca_hndl m.prot.qp_hndl c m.sys).0 m _
        (l.modify_quiet m.prot.hca_hndl m.prot.qp_hndl c m.sys) h

  pub qp_to_init_step :
      (m : Machine Ib W) → HasQp l m → Goes (HasQp l) (Settled l) (vapi_qp_to_init vapi net m)
  unfolding vapi_qp_to_init
  qp_to_init_step m h = Goes-modify (vapi_init_state 0 m.prot.port_num) m h

  pub qp_to_rtr_step :
      (m : Machine Ib W) → HasQp l m → Goes (HasQp l) (Settled l) (vapi_qp_to_rtr vapi net m)
  unfolding vapi_qp_to_rtr
  qp_to_rtr_step m h =
      Goes-modify (vapi_rtr_state 1 m.prot.d_qp_num m.prot.d_lid m.prot.ib_mtu 0 0 5) m h

  pub qp_to_rts_step :
      (m : Machine Ib W) → HasQp l m → Goes (HasQp l) (Settled l) (vapi_qp_to_rts vapi net m)
  unfolding vapi_qp_to_rts
  qp_to_rts_step m h = Goes-modify (vapi_rts_state 0 31 1 1 1) m h

  -- Sync returns or ends the process.
  pub sync_step :
      (m : Machine Ib W) → HasQp l m → Goes (HasQp l) (Settled l) (vapi_sync_ok vapi net m)
  unfolding vapi_sync_ok vapi_sync vapi_read_fully
  sync_step m h = sent (failed (net.write m.args.commfd sync_text m.sys).0)
    where
      w₁ : W
      w₁ = (net.write m.args.commfd sync_text m.sys).1

      compare : Bool → M (Machine Ib W) (Unit {0})
      compare same = when (not same) (exit (pos 3))

      judge : Option ℕ × List ℕ → M (Machine Ib W) (Unit {0})
      judge (n, got) =
          when (failed n) (exit (pos 3))
          >> compare (bytes_eq sync_text (got ++ drop (length got) (tabulate m.heap.junk 0 6)))

      compared :
          (same : Bool) (w : W)
          → l.live w ≡ l.live m.sys
          → Goes (HasQp l) (Settled l) ((compare same >> pure true) (record m { sys = w }))
      compared true w e = on _ (HasQp-moved m w e h)
      compared false w e = quits _ _

      judged :
          (answer : Option ℕ × List ℕ) (w : W)
          → l.live w ≡ l.live m.sys
          → Goes (HasQp l) (Settled l) ((judge answer >> pure true) (record m { sys = w }))
      judged (none, got) w e = quits _ _
      judged (some n, got) w e =
          compared (bytes_eq sync_text (got ++ drop (length got) (tabulate m.heap.junk 0 6))) w e

      heard :
          (o : Outcome (Machine Ib W) (Option ℕ × List ℕ))
          → Quiet l.live m o
          → Goes (HasQp l) (Settled l) (and_then (and_then o judge) (λ _. pure true))
      heard _ (returns a w e) = judged a w e
      heard _ (ends c m') = quits _ _

      sent :
          (bad : Bool)
          → Goes (HasQp l) (Settled l) (
              (when bad (exit (pos 3))
                  >> (Tcp.read_fully net m.args.commfd 6 >>= judge)
                  >> pure true)
                (record m { sys = w₁ }))
      sent true = quits _ _
      sent false = heard _ (
          read_fully-Quiet net l.live l.read_quiet m.args.commfd 6 m w₁
            (l.write_quiet m.args.commfd sync_text m.sys))

  -- Setting the handler and asking for notifications return, whatever the library says.
  pub start_events_lem :
      (m : Machine Ib W)
      → HasQp l m
      → (m' : Machine Ib W) × (vapi_start_events vapi net m ≡ done tt m') × HasQp l m'
  unfolding vapi_start_events
  start_events_lem m (p, s, r, q, o) = go (m.prot.comptype == np_comp_event)
    where
      set : Option ℕ × W
      set = vapi.set_comp_eventh m.prot.hca_hndl m.prot.r_cq_hndl m.sys

      starting : M (Machine Ib W) (Unit {0})
      starting = do
        set ← call (vapi.set_comp_eventh m.prot.hca_hndl m.prot.r_cq_hndl)
        set_prot (λ (t : Ib). record t { ceh_hndl = or_old t.ceh_hndl set })
        call (vapi.req_comp_notif m.prot.hca_hndl m.prot.r_cq_hndl)

      final : Machine Ib W
      final = record m {
        sys = (vapi.req_comp_notif m.prot.hca_hndl m.prot.r_cq_hndl set.1).1;
        prot = record (m.prot) { ceh_hndl = or_old m.prot.ceh_hndl set.0 };
      }

      go : (event : Bool) → (m' : Machine Ib W) × (when event starting m ≡ done tt m') × HasQp l m'
      go false = (m, refl, (p, s, r, q, o))
      go true = (
        final,
        refl,
        HasQp-same m final
            (l.notif_quiet m.prot.hca_hndl m.prot.r_cq_hndl set.1
              ∙ l.set_quiet m.prot.hca_hndl m.prot.r_cq_hndl m.sys)
            refl (p, s, r, q, o),
      )
