-- ===== src/Ibv/Device/Greeting.antt =====
-- initIB from the exchange of the local ids on: what goes over the socket, and the states that the
-- queue pair is brought to.
use netpipe5_dev.Base.{
  arith, ℕ, ◌≡◌, refl, sym, ◌∙◌, ap, ◌<◌, ◌≤◌, ◌^◌, ℤ, true, Option, some, List, [], ◌∷◌, ◌++◌,
  length,
}
use netpipe5_dev.Effect.{done}
use netpipe5_dev.Machine.{Machine, of_le32, le32}
use netpipe5_dev.Sockets.{Sockets}
use netpipe5_dev.Sockets.Stream.{IsStream}
use netpipe5_dev.Verbs.{Verbs, QueuePair, QpChange}
use netpipe5_dev.Ibv.{Ibv, le16, of_le16}
use netpipe5_dev.Ibv.Device.{send_lid, send_qp_num}

-- `changes` lists the changes of the queue pair that were asked for, each of which succeeds. The
-- socket does not see them, and a read of at most six bytes that have come gives them all.
pub record Wires {W : Type 0} (verbs : Verbs W) {net : Sockets W} {fd : ℤ}
    (stream : IsStream net fd) : Type 0 where
  pub changes : W → List QpChange
  pub modify_law :
      (h : ℕ) (a : QpChange) (w : W)
      → (w' : W) × (verbs.modify_qp h a w ≡ (true, w'))
        × (changes w' ≡ changes w ++ (a ∷ []))
        × (stream.inbox w' ≡ stream.inbox w)
        × (stream.outbox w' ≡ stream.outbox w)
  pub read_whole :
      (bs rest : List ℕ) (w : W)
      → length bs ≤ 6
      → stream.inbox w ≡ bs ++ rest
      → (w' : W) × (net.read fd (length bs) w ≡ (some bs, w'))
        × (stream.inbox w' ≡ rest)
        × (stream.outbox w' ≡ stream.outbox w)
  pub read_apart : (n : ℕ) (w : W) → changes (net.read fd n w).1 ≡ changes w
  pub write_apart : (bs : List ℕ) (w : W) → changes (net.write fd bs w).1 ≡ changes w

pub of_le16-le16 : (x : ℕ) → x < 2 ^ 16 → of_le16 (le16 x) ≡ x
of_le16-le16 x h = omega arith

pub of_le32-le32 : (x : ℕ) → x < 2 ^ 32 → of_le32 (le32 x) ≡ x
of_le32-le32 x h = omega arith

module _ {W : Type 0} {verbs : Verbs W} {net : Sockets W} {fd : ℤ} {stream : IsStream net fd}
    (wires : Wires verbs stream) where
  open stream use {inbox, outbox, small_whole}
  open wires use {changes}

  -- What is to come, what was sent, and what the queue pair was asked for.
  pub record Says (i o : List ℕ) (cs : List QpChange) (w : W) : Type 0 where
    pub inbox_is : inbox w ≡ i
    pub outbox_is : outbox w ≡ o
    pub changes_is : changes w ≡ cs

  pub write_lem :
      (bs i o : List ℕ) (cs : List QpChange) (w : W)
      → length bs ≤ 6
      → Says i o cs w
      → (w' : W) × (net.write fd bs w ≡ (some (length bs), w')) × Says i (o ++ bs) cs w'
  write_lem bs i o cs w le s =
      let (w', call_eq, sent, quiet) = small_whole bs w le in
      (
        w',
        call_eq,
        record {
          inbox_is = quiet ∙ s.inbox_is;
          outbox_is = sent ∙ ap (λ (o : List ℕ). o ++ bs) s.outbox_is;
          changes_is =
              sym (ap (λ (r : Option ℕ × W). changes r.1) call_eq)
              ∙ wires.write_apart bs w
              ∙ s.changes_is;
        },
      )

  pub read_lem :
      (bs i o : List ℕ) (cs : List QpChange) (w : W)
      → length bs ≤ 6
      → Says (bs ++ i) o cs w
      → (w' : W) × (net.read fd (length bs) w ≡ (some bs, w')) × Says i o cs w'
  read_lem bs i o cs w le s =
      let (w', call_eq, rest, quiet) = wires.read_whole bs i w le (s.inbox_is) in
      (
        w',
        call_eq,
        record {
          inbox_is = rest;
          outbox_is = quiet ∙ s.outbox_is;
          changes_is =
              sym (ap (λ (r : Option (List ℕ) × W). changes r.1) call_eq)
              ∙ wires.read_apart (length bs) w
              ∙ s.changes_is;
        },
      )

  pub modify_lem :
      (h : ℕ) (a : QpChange) (i o : List ℕ) (cs : List QpChange) (w : W)
      → Says i o cs w
      → (w' : W) × (verbs.modify_qp h a w ≡ (true, w')) × Says i o (cs ++ (a ∷ [])) w'
  modify_lem h a i o cs w s =
      let (w', call_eq, asked, quiet_in, quiet_out) = wires.modify_law h a w in
      (
        w',
        call_eq,
        record {
          inbox_is = quiet_in ∙ s.inbox_is;
          outbox_is = quiet_out ∙ s.outbox_is;
          changes_is = asked ∙ ap (λ (cs : List QpChange). cs ++ (a ∷ [])) s.changes_is;
        },
      )

  module _ (m : Machine Ibv W) (chan : m.args.commfd ≡ fd) where
    abbrev pub placed : Ibv → W → Machine Ibv W
    placed t w = record m { prot = t; sys = w }

    pub send_lid_goes :
        (t : Ibv) (i o : List ℕ) (cs : List QpChange) (w : W)
        → Says i o cs w
        → (w' : W) × (send_lid verbs net (placed t w) ≡ done true (placed t w'))
          × Says i (o ++ le16 t.lid) cs w'
    unfolding send_lid
    send_lid_goes t i o cs w s =
        let (w', call_eq, s') = write_lem (le16 t.lid) i o cs w (omega arith) s in
        (w', rw (chan, call_eq) refl, s')

    pub send_qp_num_goes :
        (t : Ibv) (pair : QueuePair) (i o : List ℕ) (cs : List QpChange) (w : W)
        → t.qp_hndl ≡ some pair
        → Says i o cs w
        → (w' : W) × (send_qp_num verbs net (placed t w) ≡ done true (placed t w'))
          × Says i (o ++ le32 pair.qp_num) cs w'
    unfolding send_qp_num
    send_qp_num_goes t pair i o cs w e s =
        let (w', call_eq, s') = write_lem (le32 pair.qp_num) i o cs w (omega arith) s in
        (w', rw (e, chan, call_eq) refl, s')
