-- ===== src/Tests/Vapi.antt =====
-- The theorem on the objects of src/ib.c at a small adapter, which refuses the queue pair.
use netpipe5_dev.Base.{ℕ, suc, refl, ap, pos, true, none, some, List, [], ◌∷◌, length, take, drop}
use netpipe5_dev.Machine.{Machine}
use netpipe5_dev.Sockets.{Sockets, connected}
use netpipe5_dev.Verbs.{empty}
use netpipe5_dev.Netpipe.Object.{zero_args}
use netpipe5_dev.Ib.{Vapi, Ib, away}
use netpipe5_dev.Ib.Device.{vapi_init_ib, vapi_finalize_ib}
use netpipe5_dev.Ib.Device.Stack.{Object, queue, domain, adapter, StackLaws}
use netpipe5_dev.Ib.Device.Acquire.{Finishes}
use netpipe5_dev.Ib.Device.Release.{Empties}
use netpipe5_dev.Ib.Device.Whole.{vapi_init_ib-finalize}
use netpipe5_dev.Tests.World.{here, small_heap}

record Host : Type 0 where
  objects : List Object
  made : ℕ
  incoming : List ℕ

abbrev others : List Object → List Object
others [] = []
others (o ∷ os) = os

abbrev with_new : Host → (ℕ → Object) → Host
with_new w kind = record w { objects = kind w.made ∷ w.objects; made = suc w.made }

abbrev without : Host → Host
without w = record w { objects = others w.objects }

abbrev small_vapi : Vapi Host
small_vapi = record {
  mtu1024 = 3;
  open_hca = λ w. (none, w);
  get_hca_hndl = λ w. (some w.made, with_new w adapter);
  release_hca_hndl = λ h w. (true, without w);
  query_hca_port_prop = λ a n w. (some 21, w);
  alloc_pd = λ a w. (some w.made, with_new w domain);
  dealloc_pd = λ a h w. (true, without w);
  create_cq = λ a n w. (some (w.made, n), with_new w queue);
  destroy_cq = λ a h w. (true, without w);
  create_qp = λ a i w. (none, w);
  destroy_qp = λ a h w. (true, without w);
  modify_qp = λ a q c w. (true, w);
  register_mr = λ a r w. (none, w);
  deregister_mr = λ a h w. (true, w);
  post_rr = λ a q r w. (true, w);
  post_sr = λ a q r w. (true, w);
  poll_cq = λ a q w. (empty, w);
  req_comp_notif = λ a q w. (tt, w);
  set_comp_eventh = λ a q w. (some 9, w);
  clear_comp_eventh = λ a h w. (true, w);
  handler_call = λ w. (none, w);
  dma = λ h w. (h, w);
}

abbrev host_net : Sockets Host
host_net = record {
  read = λ fd n w. (some (take n w.incoming), record w { incoming = drop n w.incoming });
  write = λ fd bs w. (some (length bs), w);
  socket = λ _ w. (pos 3, w);
  getprotobyname = λ w. (some 6, w);
  setsockopt = λ _ _ _ _ w. (pos 0, w);
  getsockopt = λ _ _ _ w. (65536, w);
  inet_addr = λ _. 0;
  gethostbyname = λ _ w. (some (2, 0), w);
  bind = λ _ _ w. (pos 0, w);
  listen = λ _ w. (pos 0, w);
  accept = λ _ w. ((pos 4, here), w);
  connect = λ _ _ w. (connected, w);
  close = λ _ w. (pos 0, w);
}

abbrev host_stack : StackLaws small_vapi host_net
host_stack = record {
  live = λ w. w.objects;
  open_quiet = λ w. refl;
  get_law = λ w. refl;
  alloc_law = λ a w. refl;
  cq_law = λ a n w. refl;
  qp_law = λ a i w. refl;
  destroy_qp_law = λ a h rest w e. (refl, ap others e);
  destroy_cq_law = λ a h rest w e. (refl, ap others e);
  dealloc_law = λ a h rest w e. (refl, ap others e);
  release_law = λ h rest w e. (refl, ap others e);
  release_nothing = λ h w e. ap others e;
  query_quiet = λ a n w. refl;
  modify_quiet = λ a q c w. refl;
  set_quiet = λ a q w. refl;
  clear_quiet = λ a h w. refl;
  notif_quiet = λ a q w. refl;
  read_quiet = λ fd n w. refl;
  write_quiet = λ fd bs w. refl;
}

abbrev idle_host : Machine Ib Host
idle_host = record {
  args = zero_args;
  async_receive = 0;
  bufalign = 0;
  streamopt = 0;
  lfsr_data = 0;
  heap = small_heap;
  printed = [];
  prot = record {
    sin1 = here;
    sin2 = here;
    ib_mtu = 3;
    commtype = 0;
    comptype = 2;
    hca_hndl = none;
    port_num = 0;
    lid = 0;
    d_lid = 0;
    pd_hndl = none;
    num_cqe = 0;
    act_num_cqe = 0;
    s_cq_hndl = none;
    r_cq_hndl = none;
    ceh_hndl = none;
    s_mr_out = record { handle = 0; lkey = 0; rkey = 0 };
    r_mr_out = record { handle = 0; lkey = 0; rkey = 0 };
    s_mr_hndl = none;
    r_mr_hndl = none;
    qp_hndl = none;
    qp_num = 0;
    d_qp_num = 0;
    wc_success = true;
    remote_address = 0;
    remote_key = 0;
    receive_complete = 0;
    handler = away;
  };
  sys = record { objects = []; made = 1; incoming = [] };
}

vapi_init_ib-finalize_example :
    Finishes
      (λ m. Empties host_stack (vapi_finalize_ib small_vapi m))
      (vapi_init_ib small_vapi host_net idle_host)
vapi_init_ib-finalize_example = vapi_init_ib-finalize host_stack idle_host (record {
  live_is = refl;
  qp_is = refl;
  r_cq_is = refl;
  s_cq_is = refl;
  pd_is = refl;
  s_mr_is = refl;
  r_mr_is = refl;
})
