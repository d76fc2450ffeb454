-- ===== src/Tcp/Delivery.antt =====
-- The TCP module delivers: what netpipe.c relies on, from the theorems about tcp.c.
use netpipe5_dev.Base.{◌≡◌, refl, sym, ◌∙◌, ℤ}
use netpipe5_dev.Effect.{done}
use netpipe5_dev.Machine.{Machine, Args}
use netpipe5_dev.Sockets.{Sockets}
use netpipe5_dev.Sockets.Stream.{IsStream}
use netpipe5_dev.Netpipe.Buffers.{my_malloc, free_buff}
use netpipe5_dev.Netpipe.Run.{Protocol}
use netpipe5_dev.Netpipe.Delivery.{Delivers}
use netpipe5_dev.Tcp
use netpipe5_dev.Tcp.{Tcp, sync_text}
use netpipe5_dev.Tcp.Receive.{recv_data_lem}
use netpipe5_dev.Tcp.Send.{send_data_lem}
use netpipe5_dev.Tcp.Words.{sync_lem, send_repeat_lem, recv_repeat_lem}

-- The functions of tcp.c that netpipe.c is linked with.
abbrev pub tcp_protocol : {W : Type 0} → Sockets W → Protocol Tcp W
tcp_protocol net = record {
  sync = Tcp.sync net;
  prepare_to_receive = Tcp.prepare_to_receive net;
  send_data = Tcp.send_data net;
  recv_data = Tcp.recv_data net;
  send_repeat = Tcp.send_repeat net;
  recv_repeat = Tcp.recv_repeat net;
  after_alignment_init = Tcp.after_alignment_init net;
  my_malloc = my_malloc;
  free_buff = free_buff;
}

abbrev pub OnSocket : ℤ → Args → Type 0
OnSocket fd p = p.commfd ≡ fd

pub after_nothing :
    {W : Type 0} (net : Sockets W) (m : Machine Tcp W) → Tcp.after_alignment_init net m ≡ done tt m
unfolding Tcp.after_alignment_init
after_nothing net m = refl

-- Over a stream tcp.c carries the bytes of netpipe.c.
abbrev pub tcp_delivers :
    {W : Type 0} (net : Sockets W) (fd : ℤ) (stream : IsStream net fd)
    → Delivers (tcp_protocol net) (OnSocket fd)
tcp_delivers net fd stream = record {
  inbox = stream.inbox;
  outbox = stream.outbox;
  token = sync_text;
  stays_ready = λ A B same ready. sym same ∙ ready;
  sync_law = sync_lem net fd stream;
  send_law = send_data_lem net fd stream;
  recv_law = recv_data_lem net fd stream;
  send_repeat_law = send_repeat_lem net fd stream;
  recv_repeat_law = recv_repeat_lem net fd stream;
  after_law = after_nothing net;
  malloc_law = λ n m. refl;
  free_law = λ b c m. refl;
}
