-- ===== src/Netpipe/Session/Steps.antt =====
-- Each call of netpipe_run_iters between allocation and release, as a step on the running machine.
use netpipe5_dev.Base.{
  ℕ, zero, suc, ◌≡◌, ◌≢◌, refl, sym, ◌∙◌, ap, ap₂, subst, arith, List, ◌++◌, Option, some, length,
  take_all, drop_all, append-nil, append_assoc, Bool, if◌then◌else◌, Bool-cases, inl, inr, repeated,
}
use mathlib.Core.Path.{subst₂}
use netpipe5_dev.Effect.{truth, Outcome, ◌>>◌}
use netpipe5_dev.Effect.Rules.{Returns, returns, Returns-bind, Returns-mono}
use netpipe5_dev.Memory.{at, update, overwrite}
use netpipe5_dev.Memory.Laws.{overwrite-zero, block-stored}
use netpipe5_dev.Machine.{Machine, Args, Message}
use netpipe5_dev.Netpipe.Run.{Protocol, Clock, ping_pong, round, when_now}
use netpipe5_dev.Netpipe.Delivery.{Delivers, KeepsTime}
use netpipe5_dev.Netpipe.Session.{Running, Placed}

-- Writing a whole buffer replaces it.
pub overwrite_whole : (bs xs : List ℕ) → length bs ≡ length xs → overwrite 0 bs xs ≡ bs
overwrite_whole bs xs e =
    overwrite-zero bs xs (omega arith)
    ∙ ap (λ t. bs ++ t) (drop_all (length bs) xs (omega arith))
    ∙ append-nil bs

pub update_other :
    (f : ℕ → Option (List ℕ)) (b x : ℕ) (v : Option (List ℕ)) → x ≢ b → update f b v x ≡ f x
update_other f b x v ne = ground arith

pub update_here : (f : ℕ → Option (List ℕ)) (b : ℕ) (v : Option (List ℕ)) → update f b v b ≡ v
update_here f b v = ground arith

module _ {P W : Type 0} {proto : Protocol P W} {Ready : Args → Type 0} (d : Delivers proto Ready)
    (old : ℕ → Option (List ℕ)) (A : Args) (b c n avail : ℕ) (printed : List Message)
    (placed : Placed A b c n) (ready : Ready A) (apart : b ≢ c) where
  abbrev Run : List ℕ → List ℕ → List ℕ → List ℕ → Machine P W → Type 0
  Run = Running d old A b c avail printed

  pub recv_step :
      (rb sb bytes due sent : List ℕ) (m : Machine P W)
      → Run rb sb (bytes ++ due) sent m
      → length rb ≡ n
      → length bytes ≡ n
      → Returns (λ _. Run bytes sb due sent) (proto.recv_data m)
  recv_step rb sb bytes due sent m run len_r len =
      let bufflen : m.args.bufflen ≡ n =
        ap (λ (a : Args). a.bufflen) run.args_are ∙ placed.bufflen_is in
      let ptr : m.args.r_ptr ≡ at b 0 = ap (λ (a : Args). a.r_ptr) run.args_are ∙ placed.r_ptr_at in
      let (w, call_eq, taken, sent_same) =
        d.recv_law b rb bytes due m (subst Ready (sym run.args_are) ready) ptr run.r_live
          (omega arith) (len ∙ sym bufflen) run.due_is in
      subst (Returns (λ _. Run bytes sb due sent)) (sym call_eq) (
        returns tt _ (record {
          args_are = run.args_are;
          r_live =
              block-stored m.heap b 0 bytes rb
              ∙ ap some (overwrite_whole bytes rb (len ∙ sym len_r));
          s_live = update_other m.heap.block b c _ (λ e. apart (sym e)) ∙ run.s_live;
          others = λ x nb nc. update_other m.heap.block b x _ nb ∙ run.others x nb nc;
          avail_is = run.avail_is;
          printed_is = run.printed_is;
          async_is = run.async_is;
          due_is = taken;
          sent_is = sent_same ∙ run.sent_is;
        }))

  pub send_step :
      (rb sb due sent : List ℕ) (m : Machine P W)
      → Run rb sb due sent m
      → length sb ≡ n
      → Returns (λ _. Run rb sb due (sent ++ sb)) (proto.send_data m)
  send_step rb sb due sent m run len =
      let bufflen : m.args.bufflen ≡ n =
        ap (λ (a : Args). a.bufflen) run.args_are ∙ placed.bufflen_is in
      let ptr : m.args.s_ptr ≡ at c 0 = ap (λ (a : Args). a.s_ptr) run.args_are ∙ placed.s_ptr_at in
      let (w, call_eq, out, quiet) =
        d.send_law c sb m (subst Ready (sym run.args_are) ready) ptr run.s_live (omega arith) in
      subst (Returns (λ _. Run rb sb due (sent ++ sb))) (sym call_eq) (
        returns tt _ (record {
          args_are = run.args_are;
          r_live = run.r_live;
          s_live = run.s_live;
          others = run.others;
          avail_is = run.avail_is;
          printed_is = run.printed_is;
          async_is = run.async_is;
          due_is = quiet ∙ run.due_is;
          sent_is = out ∙ ap₂ ◌++◌ run.sent_is (take_all m.args.bufflen sb (omega arith));
        }))

  pub sync_step :
      (rb sb due sent : List ℕ) (m : Machine P W)
      → Run rb sb (d.token ++ due) sent m
      → Returns (λ _. Run rb sb due (sent ++ d.token)) (proto.sync m)
  sync_step rb sb due sent m run =
      let (w, call_eq, taken, out) =
        d.sync_law due m (subst Ready (sym run.args_are) ready) run.due_is in
      subst (Returns (λ _. Run rb sb due (sent ++ d.token))) (sym call_eq) (
        returns tt _ (record {
          args_are = run.args_are;
          r_live = run.r_live;
          s_live = run.s_live;
          others = run.others;
          avail_is = run.avail_is;
          printed_is = run.printed_is;
          async_is = run.async_is;
          due_is = taken;
          sent_is = out ∙ ap (λ t. t ++ d.token) run.sent_is;
        }))

  module _ {D : Type 0} (clock : Clock D W) (keeps : KeepsTime d clock) where
    pub clock_step :
        (rb sb due sent : List ℕ) (m : Machine P W)
        → Run rb sb due sent m
        → Returns (λ _. Run rb sb due sent) (when_now clock proto m)
    unfolding when_now
    clock_step rb sb due sent m run = returns _ _ (record {
      args_are = run.args_are;
      r_live = run.r_live;
      s_live = run.s_live;
      others = run.others;
      avail_is = run.avail_is;
      printed_is = run.printed_is;
      async_is = run.async_is;
      due_is = (keeps m.sys).0 ∙ run.due_is;
      sent_is = (keeps m.sys).1 ∙ run.sent_is;
    })

    -- One round, in either role.
    round_step :
        (rb sb bytes due sent : List ℕ) (m : Machine P W)
        → Run rb sb (bytes ++ due) sent m
        → length rb ≡ n
        → length sb ≡ n
        → length bytes ≡ n
        → Returns (λ _. Run bytes sb due (sent ++ sb)) (round clock proto m)
    round_step rb sb bytes due sent m run len_r len_s len = elim (Bool-cases (truth m.args.tr)) [
      | inl first ↦ subst (Returns Q) (sym (ap turn first)) (
          Returns-bind (send_step rb sb (bytes ++ due) sent m run len_s)
            (λ _ m' run'. recv_step rb sb bytes due (sent ++ sb) m' run' len_r len))
      | inr second ↦ subst (Returns Q) (sym (ap turn second)) (
          Returns-bind (recv_step rb sb bytes due sent m run len_r len)
            (λ _ m' run'. send_step bytes sb due sent m' run' len_s))
    ]
      where
        Q : Unit {0} → Machine P W → Type 0
        Q _ = Run bytes sb due (sent ++ sb)

        turn : Bool → Outcome (Machine P W) (Unit {0})
        turn tr =
            (if tr then proto.send_data >> proto.recv_data else proto.recv_data >> proto.send_data)
              m

    -- What the receive buffer holds after `k` rounds.
    abbrev after : ℕ → List ℕ → List ℕ → List ℕ
    after zero rb bytes = rb
    after (suc k) rb bytes = bytes

    after_same : (k : ℕ) (bytes : List ℕ) → after k bytes bytes ≡ bytes
    after_same zero bytes = refl
    after_same (suc k) bytes = refl

    -- The loop: after the first round the receive buffer holds what the neighbour sends.
    pub ping_pong_step :
        (k : ℕ) (rb sb bytes due sent : List ℕ) (m : Machine P W)
        → Run rb sb (repeated k bytes ++ due) sent m
        → length rb ≡ n
        → length sb ≡ n
        → length bytes ≡ n
        → Returns
            (λ _. Run (after k rb bytes) sb due (sent ++ repeated k sb))
            (ping_pong clock proto k m)
    unfolding ping_pong
    ping_pong_step zero rb sb bytes due sent m run len_r len_s len =
        returns tt m (subst (λ t. Run rb sb due t m) (sym (append-nil sent)) run)
    ping_pong_step (suc k) rb sb bytes due sent m run len_r len_s len =
        Returns-bind
          (round_step rb sb bytes (repeated k bytes ++ due) sent m
            (subst (λ t. Run rb sb t sent m) (append_assoc bytes (repeated k bytes) due) run) len_r
            len_s len)
          (λ _ m' run'.
            Returns-mono (ping_pong_step k bytes sb bytes due (sent ++ sb) m' run' len len_s len)
              (λ _ m'' run''.
                subst₂ (λ r t. Run r sb due t m'') (after_same k bytes)
                  (append_assoc sent sb (repeated k sb)) run''))
