-- ===== src/Netpipe/Session/Complete.antt =====
-- netpipe_run_iters from beginning to end, on either side, over a module that delivers.
use netpipe5_dev.Base.{
  ℕ, suc, ◌+◌, ◌^◌, ◌<◌, ◌≡◌, ◌≢◌, refl, sym, ◌∙◌, ap, ap₂, subst, arith, List, ◌++◌, Option, none,
  length, if◌then◌else◌, repeated, int_of,
}
use native.Mathlib.Decide.{ℕ_discrete}
use netpipe5_dev.Effect.{and_then, truth, when, Outcome}
use netpipe5_dev.Effect.Rules.{Returns, returns, Returns-bind}
use netpipe5_dev.Memory.{at, null, update}
use netpipe5_dev.Machine.{Machine, Args}
use netpipe5_dev.Pattern.Words.{pattern_of, length-pattern_of}
use netpipe5_dev.Netpipe.Buffers.{check_buffer_data}
use netpipe5_dev.Netpipe.Buffers.Fill.{free_buff_two}
use netpipe5_dev.Netpipe.Run.{
  Protocol, Clock, Reply, PyError, measured, start, finish, exchange, when_now,
}
use netpipe5_dev.Netpipe.Delivery.{Delivers, KeepsTime}
use netpipe5_dev.Netpipe.Session.{Running, Placed}
use netpipe5_dev.Netpipe.Session.Steps.{
  update_here, sync_step, clock_step, ping_pong_step, update_other,
}
use netpipe5_dev.Netpipe.Session.Data.{init_step, check_step}

module _ {P W D : Type 0} {proto : Protocol P W} {Ready : Args → Type 0} (clock : Clock D W)
    (d : Delivers proto Ready) (keeps : KeepsTime d clock) where
  -- The measurement is over: `due` is still to come and `sent` went out, all memory is given back,
  -- nothing was printed, and the reply has the size and the count that were asked for, as `int`s, and
  -- stands beside the error that was left; its last time is the whole time divided by the count.
  pub record Measured (before : Machine P W) (left : Option PyError) (size nrepeat : ℕ)
      (due sent : List ℕ) (reply : Reply D) (m : Machine P W) : Type 0 where
    pub total : D
    pub each : D
    pub reply_is : reply ≡ measured left (int_of size) (int_of nrepeat) total each
    pub each_is : each ≡ clock.div total (clock.of_ℕ nrepeat)
    pub blocks_are : (x : ℕ) → m.heap.block x ≡ before.heap.block x
    pub avail_is : m.heap.avail ≡ before.heap.avail
    pub printed_is : m.printed ≡ before.printed
    pub due_is : d.inbox m.sys ≡ due
    pub sent_is : d.outbox m.sys ≡ sent

  module _ (before : Machine P W) (A : Args) (b c n avail : ℕ) (placed : Placed A b c n)
      (ready : Ready A) (apart : b ≢ c) (small : n < 2 ^ 64) (b_new : before.heap.block b ≡ none)
      (c_new : before.heap.block c ≡ none) (room : avail + n + n ≡ before.heap.avail) where
    abbrev Run : List ℕ → List ℕ → List ℕ → List ℕ → Machine P W → Type 0
    Run = Running d before.heap.block A b c avail before.printed

    start_step :
        (rb sb due sent : List ℕ) (m : Machine P W)
        → Run rb sb (d.token ++ due) sent m
        → length rb ≡ n
        → length sb ≡ n
        → Returns
            (λ _. Run (pattern_of 97 n) (pattern_of 98 n) due (sent ++ d.token))
            (start clock proto n m)
    unfolding start
    start_step rb sb due sent m run len_r len_s =
        Returns-bind
          (init_step d before.heap.block A b c n avail before.printed placed apart small rb sb
            (d.token ++ due) sent m run len_r len_s)
          λ _ m₁ run₁.
            subst (Returns (λ _. Run (pattern_of 97 n) (pattern_of 98 n) due (sent ++ d.token)))
              (sym (
                ap
                  (λ r. and_then r λ _ s.
                    and_then (when (truth s.async_receive) proto.prepare_to_receive s)
                      (λ _. proto.sync))
                  (d.after_law m₁)
                ∙ ap (λ t. and_then (when (truth t) proto.prepare_to_receive m₁) (λ _. proto.sync))
                    run₁.async_is))
              (sync_step d before.heap.block A b c n avail before.printed placed ready apart
                (pattern_of 97 n) (pattern_of 98 n) due sent m₁ run₁)

    finish_with : Args → Machine P W → Outcome (Machine P W) (Unit {0})
    finish_with p m = and_then (check_buffer_data p.bufflen 0 0 m) λ _.
        if truth p.cache
        then proto.free_buff p.s_buff_orig null
        else proto.free_buff p.s_buff_orig p.r_buff_orig

    released :
        (f : ℕ → Option (List ℕ))
        → ((x : ℕ) → x ≢ b → x ≢ c → f x ≡ before.heap.block x)
        → (x : ℕ) → update (update f c none) b none x ≡ before.heap.block x
    released f others x = elim (ℕ_discrete x b) [
      | yes e ↦ rw e (update_here (update f c none) b none ∙ sym b_new)
      | no nb ↦ elim (ℕ_discrete x c) [
        | yes e ↦
            update_other (update f c none) b x none nb ∙ rw e (update_here f c none ∙ sym c_new)
        | no nc ↦
            update_other (update f c none) b x none nb ∙ update_other f c x none nc ∙ others x nb nc
      ]
    ]

    finish_step :
        (left : Option PyError) (size nrepeat : ℕ) (total : D) (due sent : List ℕ) (m : Machine P W)
        → Run (pattern_of 98 n) (pattern_of 98 n) due sent m
        → Returns
            (λ _. Measured before left size nrepeat due sent (
              measured left
                (int_of size)
                (int_of nrepeat)
                total
                (clock.div total (clock.of_ℕ nrepeat))))
            (finish clock proto m)
    unfolding finish finish_with
    finish_step left size nrepeat total due sent m run = subst (Returns Q) (sym at_end) (
        Returns-bind
          (check_step d before.heap.block A b c n avail before.printed placed apart small
            (pattern_of 98 n) due sent m run)
          (λ _ m₁ run₁.
            subst (Returns Q)
              (sym (
                d.free_law c b m₁
                ∙ free_buff_two c b n (pattern_of 98 n) (pattern_of 98 n) m₁ (λ e. apart (sym e))
                    run₁.s_live run₁.r_live (length-pattern_of 98 n) (length-pattern_of 98 n)))
              (returns tt _ (record {
                total = total;
                each = clock.div total (clock.of_ℕ nrepeat);
                reply_is = refl;
                each_is = refl;
                blocks_are = released m₁.heap.block run₁.others;
                avail_is = omega (arith, run₁.avail_is);
                printed_is = run₁.printed_is;
                due_is = run₁.due_is;
                sent_is = run₁.sent_is;
              }))))
      where
        Q : Unit {0} → Machine P W → Type 0
        Q _ = Measured before left size nrepeat due sent (
            measured left (int_of size) (int_of nrepeat) total
              (clock.div total (clock.of_ℕ nrepeat)))

        at_end :
            finish clock proto m
            ≡ and_then (check_buffer_data n 0 0 m) (λ _. proto.free_buff (at c 0) (at b 0))
        at_end =
            ap (λ p. finish_with p m) run.args_are
            ∙ ap₂
                (λ k t. and_then (check_buffer_data k 0 0 m) λ _.
                  if truth t
                  then proto.free_buff A.s_buff_orig null
                  else proto.free_buff A.s_buff_orig A.r_buff_orig)
                placed.bufflen_is placed.no_cache
            ∙ ap₂ (λ q r. and_then (check_buffer_data n 0 0 m) (λ _. proto.free_buff q r))
                placed.s_orig_at placed.r_orig_at

    pub exchange_step :
        (left : Option PyError) (size k : ℕ) (rb sb due sent : List ℕ) (m : Machine P W)
        → Run rb sb (d.token ++ (repeated (suc k) (pattern_of 98 n) ++ due)) sent m
        → length rb ≡ n
        → length sb ≡ n
        → Returns
            (Measured before left size
              (suc k)
              due
              ((sent ++ d.token) ++ repeated (suc k) (pattern_of 98 n)))
            (exchange clock proto left size (suc k) n m)
    unfolding exchange
    exchange_step left size k rb sb due sent m run len_r len_s =
        Returns-bind (start_step rb sb (repeated (suc k) bytes ++ due) sent m run len_r len_s)
          λ _ m₁ run₁. Returns-bind (clock_now (pattern_of 97 n) bytes _ _ m₁ run₁) λ t₀ m₂ run₂.
            Returns-bind
              (ping_pong_step d before.heap.block A b c n avail before.printed placed ready apart
                clock keeps (suc k) (pattern_of 97 n) bytes bytes due (sent ++ d.token) m₂ run₂
                (length-pattern_of 97 n) len len)
              λ _ m₃ run₃. Returns-bind (clock_now bytes bytes _ _ m₃ run₃) λ t₁ m₄ run₄.
                Returns-bind (finish_step left size (suc k) (clock.sub t₁ t₀) due _ m₄ run₄)
                  λ _ m₅ over. returns _ m₅ over
      where
        bytes : List ℕ
        bytes = pattern_of 98 n

        len : length bytes ≡ n
        len = length-pattern_of 98 n

        clock_now :
            (rb sb due sent : List ℕ) (m : Machine P W)
            → Run rb sb due sent m
            → Returns (λ _. Run rb sb due sent) (when_now clock proto m)
        clock_now =
            clock_step d before.heap.block A b c n avail before.printed placed ready apart clock
              keeps
