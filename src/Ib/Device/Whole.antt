-- ===== src/Ib/Device/Whole.antt =====
-- initIB of src/ib.c as a whole, and finalizeIB after it.
use netpipe5_dev.Base.{sym, subst, ℤ, pos}
use netpipe5_dev.Effect.{M, Outcome, and_then, ◌>>◌, pure}
use netpipe5_dev.Machine.{Machine}
use netpipe5_dev.Sockets.{Sockets}
use netpipe5_dev.Ib.{Vapi, Ib}
use netpipe5_dev.Ib.Device.{vapi_start_events, vapi_connect_qp, vapi_init_ib, vapi_finalize_ib}
use netpipe5_dev.Ib.Device.Stack.{StackLaws, Blank, Settled}
use netpipe5_dev.Ib.Device.Release.{Empties, finalize_ib-Empties}
use netpipe5_dev.Ib.Device.Acquire.{
  Finishes, returned, left, or_minus_one-Finishes, HasQp, open_step, query_port_step, make_pd_step,
  make_send_cq_step, make_recv_cq_step, make_qp_step,
}
use netpipe5_dev.Ib.Device.Connect.{
  HasQp-Settled, send_lid_step, send_qp_num_step, read_lid_step, read_qp_num_step, qp_to_init_step,
  qp_to_rtr_step, qp_to_rts_step, sync_step, start_events_lem,
}

module _ {W : Type 0} {vapi : Vapi W} {net : Sockets W} (l : StackLaws vapi net) where
  abbrev ending : M (Machine Ib W) ℤ
  ending = do vapi_start_events vapi net; pure (pos 0)

  ending-Finishes : (m : Machine Ib W) → HasQp l m → Finishes (Settled l) (ending m)
  ending-Finishes m h =
      let s = start_events_lem l m h in
      subst
        (λ (o : Outcome (Machine Ib W) (Unit {0})).
          Finishes (Settled l) (and_then o (λ _. pure (pos 0))))
        (sym s.1) (returned (pos 0) (s.0) (HasQp-Settled l s.0 s.2))

  connect_qp-Finishes :
      (m : Machine Ib W) → HasQp l m → Finishes (Settled l) (vapi_connect_qp vapi net m)
  unfolding vapi_connect_qp
  connect_qp-Finishes = or_minus_one-Finishes (send_lid_step l) (
      or_minus_one-Finishes (send_qp_num_step l) (
        or_minus_one-Finishes (read_lid_step l) (
          or_minus_one-Finishes (read_qp_num_step l) (
            or_minus_one-Finishes (qp_to_init_step l) (
              or_minus_one-Finishes (qp_to_rtr_step l) (
                or_minus_one-Finishes (sync_step l)
                  (or_minus_one-Finishes (qp_to_rts_step l) ending-Finishes)))))))

  pub init_ib-Finishes :
      (m : Machine Ib W) → Blank l m → Finishes (Settled l) (vapi_init_ib vapi net m)
  unfolding vapi_init_ib
  init_ib-Finishes = or_minus_one-Finishes (open_step l) (
      or_minus_one-Finishes (query_port_step l) (
        or_minus_one-Finishes (make_pd_step l) (
          or_minus_one-Finishes (make_send_cq_step l) (
            or_minus_one-Finishes (make_recv_cq_step l)
              (or_minus_one-Finishes (make_qp_step l) connect_qp-Finishes)))))

  -- With the Mellanox VAPI, for calls that put what is made on a stack of objects and can release
  -- what is on top, from a machine with no object and no handle of a domain, a queue, a queue pair
  -- or a region: initIB of src/ib.c returns or ends the process, at whichever step it stops and
  -- with or without event completion, and after a return finalizeIB returns with no object left.
  pub vapi_init_ib-finalize :
      (m : Machine Ib W)
      → Blank l m
      → Finishes (λ m'. Empties l (vapi_finalize_ib vapi m')) (vapi_init_ib vapi net m)
  vapi_init_ib-finalize m b = go (vapi_init_ib vapi net m) (init_ib-Finishes m b)
    where
      go :
          (o : Outcome (Machine Ib W) ℤ)
          → Finishes (Settled l) o
          → Finishes (λ m'. Empties l (vapi_finalize_ib vapi m')) o
      go _ (returned z m' s) = returned z m' (finalize_ib-Empties l m' s)
      go _ (left c m') = left c m'
