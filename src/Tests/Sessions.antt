-- ===== src/Tests/Sessions.antt =====
-- Whole measurements over TCP, on the small system.
use netpipe5_dev.Base.{
  ℕ, int_of, negsuc, ◌^◌, ◌≡◌, refl, arith, pos, List, [], ◌++◌, none, some, repeated,
}
use netpipe5_dev.Effect.Rules.{Returns}
use netpipe5_dev.Machine.{be32}
use netpipe5_dev.Tcp.{Tcp, sync_text}
use netpipe5_dev.Tcp.Delivery.{OnSocket, tcp_protocol, tcp_delivers}
use netpipe5_dev.Pattern.Words.{pattern_of}
use netpipe5_dev.Netpipe.Run.{Protocol, run_iters, bad_arguments}
use netpipe5_dev.Netpipe.Delivery.{Delivers, KeepsTime}
use netpipe5_dev.Netpipe.Session.Complete.{Measured}
use netpipe5_dev.Netpipe.Session.Sides.{Idle, transmit, receive}
use netpipe5_dev.Tests.World.{World, world_net, world_stream, world_clock, sender, receiver}

abbrev proto : Protocol Tcp World
proto = tcp_protocol world_net

abbrev delivers : Delivers proto (OnSocket (pos 4))
delivers = tcp_delivers world_net (pos 4) world_stream

abbrev keeps : KeepsTime delivers world_clock
keeps w = (refl, refl)

-- Twice a message of 40 bits.
abbrev to_sender : List ℕ
to_sender = sync_text ++ (repeated 2 (pattern_of 98 5) ++ [])

abbrev to_receiver : List ℕ
to_receiver = be32 40 ++ (be32 2 ++ (sync_text ++ (repeated 2 (pattern_of 98 5) ++ [])))

abbrev idle_sender : Idle (OnSocket (pos 4)) 5 (sender to_sender)
idle_sender = record {
  no_cache = refl;
  no_async = refl;
  ready = refl;
  room = omega arith;
  next_new = refl;
  after_new = refl;
}

abbrev idle_receiver : Idle (OnSocket (pos 4)) 5 (receiver to_receiver)
idle_receiver = record {
  no_cache = refl;
  no_async = refl;
  ready = refl;
  room = omega arith;
  next_new = refl;
  after_new = refl;
}

transmit_example :
    Returns
      (Measured world_clock delivers keeps
        (sender to_sender)
        none
        40
        2
        []
        (((([] ++ be32 40) ++ be32 2) ++ sync_text) ++ repeated 2 (pattern_of 98 5)))
      (run_iters world_clock proto (some (40, 2)) (sender to_sender))
transmit_example =
    transmit world_clock delivers keeps 40 2 [] (sender to_sender) (omega arith) (omega arith) refl
      idle_sender refl

receive_example :
    Returns
      (Measured world_clock delivers keeps
        (receiver to_receiver)
        (some bad_arguments)
        40
        2
        []
        (([] ++ sync_text) ++ repeated 2 (pattern_of 98 5)))
      (run_iters world_clock proto none (receiver to_receiver))
receive_example =
    receive world_clock delivers keeps 40 2 [] (receiver to_receiver) (omega arith) (omega arith)
      (omega arith) (omega arith) refl refl idle_receiver refl

-- A count of 2 ^ 31 is negative in the reply.
int_of_half : int_of (2 ^ 31) ≡ negsuc 2147483647
int_of_half = refl
