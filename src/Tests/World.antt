-- ===== src/Tests/World.antt =====
-- A small system: one socket that gives at most three bytes to a read and takes at most seven
-- from a write, and a clock that ticks once a call.
use netpipe5_dev.Base.{
  ℕ, zero, suc, ◌+◌, ◌-◌, ◌/◌, ◌<◌, ◌≡◌, ◌≢◌, refl, sym, ap, arith, min, pos, List, [], ◌∷◌, ◌++◌,
  Option, none, some, length, take, drop, length-take, take-append-drop, take_all,
}
use netpipe5_dev.Memory.{Heap}
use netpipe5_dev.Machine.{Machine, Args}
use netpipe5_dev.Sockets.{Sockets, Address, connected}
use netpipe5_dev.Sockets.Stream.{IsStream}
use netpipe5_dev.Tcp.{Tcp}
use netpipe5_dev.Netpipe.Object.{zero_args}
use netpipe5_dev.Netpipe.Run.{Clock}

pub record World : Type 0 where
  pub incoming : List ℕ
  pub outgoing : List ℕ
  pub ticks : ℕ

abbrev pub here : Address
here = record { family = 2; addr = 0; port = 0 }

abbrev read_world : ℕ → World → Option (List ℕ) × World
read_world n w =
    (some (take (min n 3) w.incoming), record w { incoming = drop (min n 3) w.incoming })

abbrev write_world : List ℕ → World → Option ℕ × World
write_world bs w = (some (length (take 7 bs)), record w { outgoing = w.outgoing ++ take 7 bs })

abbrev pub world_net : Sockets World
world_net = record {
  read = λ fd n w. read_world n w;
  write = λ fd bs w. write_world bs w;
  socket = λ _ w. (pos 3, w);
  getprotobyname = λ w. (some 6, w);
  setsockopt = λ _ _ _ _ w. (pos 0, w);
  getsockopt = λ _ _ _ w. (65536, w);
  inet_addr = λ _. 0;
  gethostbyname = λ _ w. (some (2, 0), w);
  bind = λ _ _ w. (pos 0, w);
  listen = λ _ w. (pos 0, w);
  accept = λ _ w. ((pos 4, here), w);
  connect = λ _ _ w. (connected, w);
  close = λ _ w. (pos 0, w);
}

pub not_empty : (xs : List ℕ) → xs ≢ [] → 0 < length xs
not_empty [] h = absurd (h refl)
not_empty (x ∷ xs) h = omega arith

pub take-length : (n : ℕ) (xs : List ℕ) → take (length (take n xs)) xs ≡ take n xs
take-length zero xs = refl
take-length (suc n) [] = refl
take-length (suc n) (x ∷ xs) = ap (λ t. x ∷ t) (take-length n xs)

abbrev pub world_stream : IsStream world_net (pos 4)
world_stream = record {
  inbox = λ w. w.incoming;
  outbox = λ w. w.outgoing;
  read_some = λ n w asked more.
      let bs = take (min n 3) (w.incoming) in
      let got : length bs ≡ min (min n 3) (length w.incoming) =
        length-take (min n 3) (w.incoming) in
      let some_left : 0 < length w.incoming = not_empty (w.incoming) more in
      (
        bs,
        record w { incoming = drop (min n 3) w.incoming },
        refl,
        omega (arith, got, some_left, asked),
        omega (arith, got),
        sym (take-append-drop (min n 3) (w.incoming)),
        refl,
      );
  write_some = λ bs w given.
      let took : length (take 7 bs) ≡ min 7 (length bs) = length-take 7 bs in
      let some_given : 0 < length bs = not_empty bs given in
      (
        length (take 7 bs),
        record w { outgoing = w.outgoing ++ take 7 bs },
        refl,
        omega (arith, took, some_given),
        omega (arith, took),
        ap (λ t. w.outgoing ++ t) (sym (take-length 7 bs)),
        refl,
      );
  small_whole = λ bs w short.
      let whole : take 7 bs ≡ bs = take_all 7 bs (omega (arith, short)) in
      (
        record w { outgoing = w.outgoing ++ take 7 bs },
        ap (λ t. (some (length t), record w { outgoing = w.outgoing ++ take 7 bs })) whole,
        ap (λ t. w.outgoing ++ t) whole,
        refl,
      );
}

abbrev pub world_clock : Clock ℕ World
world_clock = record {
  gettimeofday = λ w. ((w.ticks, 0), record w { ticks = w.ticks + 1 });
  of_ℕ = λ n. n;
  micro = 0;
  add = λ a b. a + b;
  sub = λ a b. a - b;
  mul = λ a b. 0;
  div = λ a b. a / b;
}

abbrev pub small_heap : Heap
small_heap = record { next = 0; avail = 64; junk = λ _. 7; block = λ _. none }

abbrev pub idle_tcp : Tcp
idle_tcp = record { sin1 = here; sin2 = here; sndbufsz = 0; rcvbufsz = 0; doing_reset = 0 }

-- A connected process with these bytes to come.
abbrev pub machine : Args → List ℕ → Machine Tcp World
machine args bytes = record {
  args = record args { commfd = pos 4 };
  async_receive = 0;
  bufalign = 16384;
  streamopt = 0;
  lfsr_data = 0;
  heap = small_heap;
  printed = [];
  prot = idle_tcp;
  sys = record { incoming = bytes; outgoing = []; ticks = 0 };
}

abbrev pub receiver : List ℕ → Machine Tcp World
receiver = machine (record zero_args { rcv = 1 })

abbrev pub sender : List ℕ → Machine Tcp World
sender = machine (record zero_args { tr = 1 })
