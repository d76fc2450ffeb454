-- ===== src/Tests/Adapter.antt =====
-- A small adapter: it numbers the objects that it makes and gives back the one of a kind that was
-- made last. Its completions, its events and what comes over the socket are lists.
use netpipe5_dev.Base.{
  ◌∙◌, arith, ◌≡◌, ℕ, ◌+◌, refl, ap, pos, true, none, some, List, [], ◌∷◌, ◌++◌, length, take, drop,
}
use netpipe5_dev.Machine.{Machine}
use netpipe5_dev.Sockets.{Sockets, connected}
use netpipe5_dev.Verbs.{Verbs, Poll, empty, CqEvent, pending, QpChange}
use netpipe5_dev.Ibv.{Ibv}
use netpipe5_dev.Ibv.Events.Counted.{one_of, Counter}
use netpipe5_dev.Ibv.Device.Ledger.{Held, nothing, Ledger}
use netpipe5_dev.Netpipe.Object.{zero_args}
use netpipe5_dev.Base.{
  min, ◌<◌, sym, length-take, take-append-drop, take_all, take-append, drop-append,
}
use netpipe5_dev.Sockets.Stream.{IsStream}
use netpipe5_dev.Ibv.Device.Greeting.{Wires}
use netpipe5_dev.Tests.World.{not_empty, here, small_heap}

pub record Adapter : Type 0 where
  pub held : Held
  pub made : ℕ
  pub incoming : List ℕ
  pub outgoing : List ℕ
  pub polls : List Poll
  pub events : List CqEvent
  pub changes : List QpChange
  pub taken : ℕ

abbrev tail : List ℕ → List ℕ
tail [] = []
tail (h ∷ hs) = hs

abbrev with_held : Adapter → (ℕ → Held) → Adapter
with_held w f = record w { held = f (w.made + 1); made = w.made + 1 }

abbrev poll_of : List Poll → Adapter → Poll × Adapter
poll_of [] w = (empty, w)
poll_of (p ∷ ps) w = (p, record w { polls = ps; taken = w.taken + one_of p })

abbrev event_of : List CqEvent → Adapter → CqEvent × Adapter
event_of [] w = (pending, w)
event_of (e ∷ es) w = (e, record w { events = es })

abbrev pub small_verbs : Verbs Adapter
small_verbs = record {
  get_device_list = λ w. (some (40 ∷ []), w);
  free_device_list = λ w. (tt, w);
  open_device = λ d w.
      (some (w.made + 1), with_held w (λ h. record (w.held) { devices = h ∷ (w.held).devices }));
  close_device =
      λ h w. (true, record w { held = record (w.held) { devices = tail (w.held).devices } });
  query_port = λ c n w. (some 21, w);
  alloc_pd = λ c w.
      (some (w.made + 1), with_held w (λ h. record (w.held) { domains = h ∷ (w.held).domains }));
  dealloc_pd =
      λ h w. (true, record w { held = record (w.held) { domains = tail (w.held).domains } });
  create_cq = λ c n channel w.
      (some (w.made + 1, n), with_held w (λ h. record (w.held) { queues = h ∷ (w.held).queues }));
  destroy_cq = λ h w. (true, record w { held = record (w.held) { queues = tail (w.held).queues } });
  create_qp = λ pd a w. (
    some (record { handle = w.made + 1; qp_num = 77 }),
    with_held w (λ h. record (w.held) { pairs = h ∷ (w.held).pairs }),
  );
  destroy_qp = λ h w. (true, record w { held = record (w.held) { pairs = tail (w.held).pairs } });
  modify_qp = λ h a w. (true, record w { changes = w.changes ++ (a ∷ []) });
  reg_mr = λ pd p n writable w. (
    some (record { handle = w.made + 1; lkey = 5; rkey = 6 }),
    with_held w (λ h. record (w.held) { regions = h ∷ (w.held).regions }),
  );
  dereg_mr = λ h w. (true, record w { held = record (w.held) { regions = tail (w.held).regions } });
  post_recv = λ h e w. (true, w);
  post_send = λ h r w. (true, w);
  poll_cq = λ h w. poll_of (w.polls) w;
  req_notify_cq = λ h w. (tt, w);
  get_cq_event = λ channel w. event_of (w.events) w;
  pthread_create = λ w. (true, w);
  dma = λ heap w. (heap, w);
}

abbrev pub small_net : Sockets Adapter
small_net = record {
  read = λ fd n w. (some (take n w.incoming), record w { incoming = drop n w.incoming });
  write = λ fd bs w. (some (length bs), record w { outgoing = w.outgoing ++ bs });
  socket = λ _ w. (pos 3, w);
  getprotobyname = λ w. (some 6, w);
  setsockopt = λ _ _ _ _ w. (pos 0, w);
  getsockopt = λ _ _ _ w. (65536, w);
  inet_addr = λ _. 0;
  gethostbyname = λ _ w. (some (2, 0), w);
  bind = λ _ _ w. (pos 0, w);
  listen = λ _ w. (pos 0, w);
  accept = λ _ w. ((pos 4, here), w);
  connect = λ _ _ w. (connected, w);
  close = λ _ w. (pos 0, w);
}

abbrev pub small_ledger : Ledger small_verbs small_net
small_ledger = record {
  held = λ w. w.held;
  open_law = λ d w. refl;
  alloc_law = λ c w. refl;
  cq_law = λ c n channel w. refl;
  qp_law = λ pd a w. refl;
  destroy_qp_law = λ h hs w e. (refl, ap (λ (hs : List ℕ). record (w.held) { pairs = tail hs }) e);
  destroy_cq_law =
      λ h hs w e _. (refl, ap (λ (hs : List ℕ). record (w.held) { queues = tail hs }) e);
  dereg_law = λ h hs w e. (refl, ap (λ (hs : List ℕ). record (w.held) { regions = tail hs }) e);
  dealloc_law =
      λ h hs w e _ _. (refl, ap (λ (hs : List ℕ). record (w.held) { domains = tail hs }) e);
  close_law = λ h hs w e _ _. (refl, ap (λ (hs : List ℕ). record (w.held) { devices = tail hs }) e);
  reg_law = λ pd p n writable w. refl;
  list_quiet = λ w. refl;
  free_quiet = λ w. refl;
  query_quiet = λ c n w. refl;
  modify_quiet = λ h a w. refl;
  thread_quiet = λ w. refl;
  notify_quiet = λ h w. refl;
  read_quiet = λ fd n w. refl;
  write_quiet = λ fd bs w. refl;
}

abbrev pub idle_ibv : Ibv
idle_ibv = record {
  sin1 = here;
  sin2 = here;
  ib_mtu = 3;
  commtype = 2;
  comptype = 0;
  hca = none;
  ctx = none;
  port_num = 0;
  lid = 0;
  d_lid = 0;
  pd_hndl = none;
  act_num_cqe = 0;
  s_cq_hndl = none;
  r_cq_hndl = none;
  s_mr_hndl = none;
  r_mr_hndl = none;
  qp_hndl = none;
  d_qp_num = 0;
  wc_success = true;
  remote_address = 0;
  remote_key = 0;
  receive_complete = 0;
  event_thread = none;
}

abbrev pub idle_adapter : Adapter
idle_adapter = record {
  held = nothing;
  made = 0;
  incoming = [];
  outgoing = [];
  polls = [];
  events = [];
  changes = [];
  taken = 0;
}

-- A connected process of the module in this state, with this adapter.
abbrev pub adapted : Ibv → Adapter → Machine Ibv Adapter
adapted prot sys = record {
  args = record zero_args { commfd = pos 4 };
  async_receive = 0;
  bufalign = 16384;
  streamopt = 0;
  lfsr_data = 0;
  heap = small_heap;
  printed = [];
  prot = prot;
  sys = sys;
}

pub poll_of-taken :
    (ps : List Poll) (w : Adapter) → (poll_of ps w).1.taken ≡ w.taken + one_of (poll_of ps w).0
poll_of-taken [] w = omega arith
poll_of-taken (p ∷ ps) w = refl

pub event_of-taken : (es : List CqEvent) (w : Adapter) → (event_of es w).1.taken ≡ w.taken
event_of-taken [] w = refl
event_of-taken (e ∷ es) w = refl

abbrev pub small_counter : Counter small_verbs
small_counter = record {
  taken = λ w. w.taken;
  poll_law = λ cq w. poll_of-taken (w.polls) w;
  dma_quiet = λ h w. refl;
  notify_quiet = λ cq w. refl;
  event_quiet = λ channel w. event_of-taken (w.events) w;
}

abbrev pub small_stream : IsStream small_net (pos 4)
small_stream = record {
  inbox = λ w. w.incoming;
  outbox = λ w. w.outgoing;
  read_some = λ n w asked more.
      let got : length (take n w.incoming) ≡ min n (length w.incoming) =
        length-take n (w.incoming) in
      let some_left : 0 < length w.incoming = not_empty (w.incoming) more in
      (
        take n w.incoming,
        record w { incoming = drop n w.incoming },
        refl,
        omega (arith, got, some_left, asked),
        omega (arith, got),
        sym (take-append-drop n (w.incoming)),
        refl,
      );
  write_some = λ bs w given. (
    length bs,
    record w { outgoing = w.outgoing ++ bs },
    refl,
    not_empty bs given,
    omega arith,
    ap (λ (t : List ℕ). w.outgoing ++ t) (sym (take_all (length bs) bs (omega arith))),
    refl,
  );
  small_whole = λ bs w short. (record w { outgoing = w.outgoing ++ bs }, refl, refl, refl);
}

abbrev pub small_wires : Wires small_verbs small_stream
small_wires = record {
  changes = λ w. w.changes;
  modify_law = λ h a w. (record w { changes = w.changes ++ (a ∷ []) }, refl, refl, refl, refl);
  read_whole = λ bs rest w short come. (
    record w { incoming = drop (length bs) (w.incoming) },
    ap (λ (t : List ℕ). (some t, record w { incoming = drop (length bs) (w.incoming) }))
        (ap (λ (t : List ℕ). take (length bs) t) come ∙ take-append bs rest),
    ap (λ (t : List ℕ). drop (length bs) t) come ∙ drop-append bs rest,
    refl,
  );
  read_apart = λ n w. refl;
  write_apart = λ bs w. refl;
}
