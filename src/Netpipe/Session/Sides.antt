-- ===== src/Netpipe/Session/Sides.antt =====
-- netpipe_run_iters on the transmitter and on the receiver.

use netpipe5_dev.Base.{
  ℕ, zero, suc, ◌+◌, ◌-◌, ◌^◌, ◌≤◌, ◌<◌, ◌≡◌, refl, sym, ◌∙◌, ap, subst, arith, List, ◌++◌, Option,
  none, some, true, false, if◌then◌else◌, ◌==◌, ◌||◌, repeated,
}
use netpipe5_dev.Effect.{done, defined, and_then, truth, when, Outcome, ◌>>=◌, ◌>>◌, pure, gets}
use netpipe5_dev.Effect.Rules.{Returns, Returns-mono}
use netpipe5_dev.Memory.{at, update, tabulate}
use netpipe5_dev.Machine.{Machine, Args, be32, set_args}
use netpipe5_dev.Pattern.Words.{pattern_of}
use netpipe5_dev.Netpipe.Buffers.{is_null}
use netpipe5_dev.Netpipe.Buffers.Fill.{my_malloc_two, with_buffers, with_block, length-tabulate}
use netpipe5_dev.Netpipe.Run.{
  Protocol, Clock, Reply, PyError, failed, no_memory, bad_arguments, bytes_of, exchange,
  place_buffers, run_sized, run_iters,
}
use netpipe5_dev.Netpipe.Delivery.{Delivers, KeepsTime}
use netpipe5_dev.Netpipe.Session.{Running, Placed}
use netpipe5_dev.Netpipe.Session.Steps.{update_other, update_here}
use netpipe5_dev.Netpipe.Session.Complete.{Measured, exchange_step}

-- A machine as it stands between measurements: two buffers, no posted receives, room for the
-- buffers, and the names of the next two blocks unused.
pub record Idle {P W : Type 0} (Ready : Args → Type 0) (n : ℕ) (m : Machine P W) : Type 0 where
  pub no_cache : m.args.cache ≡ 0
  pub no_async : m.async_receive ≡ 0
  pub ready : Ready m.args
  pub room : n + n ≤ m.heap.avail
  pub next_new : m.heap.block m.heap.next ≡ none
  pub after_new : m.heap.block (suc m.heap.next) ≡ none

bytes_of-lt : (size : ℕ) → size < 2 ^ 32 → bytes_of size < 2 ^ 64
bytes_of-lt size h = ground arith

module _ {P W D : Type 0} {proto : Protocol P W} {Ready : Args → Type 0} (clock : Clock D W)
    (d : Delivers proto Ready) (keeps : KeepsTime d clock) where
  abbrev placed_args : Args → ℕ → ℕ → ℕ → Args
  placed_args p b c n = record p {
    bufflen = n;
    r_buff = at b 0;
    r_ptr = at b 0;
    r_buff_orig = at b 0;
    s_buff = at c 0;
    s_ptr = at c 0;
    s_buff_orig = at c 0;
  }

  abbrev placed_machine : Machine P W → ℕ → Machine P W
  placed_machine m n = record m {
    heap = with_block (with_block m.heap n) n;
    args = placed_args m.args m.heap.next (suc m.heap.next) n;
  }

  place_step :
      (size : ℕ) (m : Machine P W)
      → Idle Ready (bytes_of size) m
      → place_buffers clock proto size m ≡ done tt (placed_machine m (bytes_of size))
  unfolding place_buffers
  place_step size m idle =
      ap
        (λ r. and_then r λ _. do cache ← gets (λ m. truth m.args.cache); when cache alias; pointers)
        (d.malloc_law n m₁ ∙ my_malloc_two n m₁ idle.no_cache idle.room)
      ∙ ap (λ t. and_then (when (truth t) alias (with_buffers m₁ n)) (λ _. pointers)) idle.no_cache
    where
      n : ℕ
      n = bytes_of size

      m₁ : Machine P W
      m₁ = record m { args = record (m.args) { bufflen = n } }

      alias : Machine P W → Outcome (Machine P W) (Unit {0})
      alias = set_args (λ p. record p { s_buff = p.r_buff })

      pointers : Machine P W → Outcome (Machine P W) (Unit {0})
      pointers = do
        set_args (λ p. record p { r_ptr = p.r_buff; r_buff_orig = p.r_buff })
        set_args (λ p. record p { s_ptr = p.s_buff; s_buff_orig = p.s_buff })

  -- After the size is known: the buffers and the exchange.
  measure : Option PyError → ℕ → ℕ → Machine P W → Outcome (Machine P W) (Reply D)
  measure left size nrepeat = do
    place_buffers clock proto size
    p ← gets (λ m. m.args)
    if is_null p.r_buff_orig || is_null p.s_buff_orig
        then pure (failed no_memory)
        else exchange clock proto left size nrepeat p.bufflen

  measure_step :
      (left : Option PyError) (size k : ℕ) (due sent : List ℕ) (m : Machine P W)
      → size < 2 ^ 32
      → Idle Ready (bytes_of size) m
      → d.inbox m.sys ≡ d.token ++ (repeated (suc k) (pattern_of 98 (bytes_of size)) ++ due)
      → d.outbox m.sys ≡ sent
      → Returns
          (Measured clock d keeps m left size
            (suc k)
            due
            ((sent ++ d.token) ++ repeated (suc k) (pattern_of 98 (bytes_of size))))
          (measure left size (suc k) m)
  unfolding measure
  measure_step left size k due sent m small idle in_eq out_eq =
      subst
        (Returns (
          Measured clock d keeps m left size (suc k) due
            ((sent ++ d.token) ++ repeated (suc k) (pattern_of 98 n))))
        (sym (
          ap
            (λ r. and_then r λ _ s.
              (if is_null s.args.r_buff_orig || is_null s.args.s_buff_orig
                  then pure (failed no_memory)
                  else exchange clock proto left size (suc k) s.args.bufflen)
                s)
            (place_step size m idle)))
        (exchange_step clock d keeps m A b c n (m.heap.avail - n - n) placed
          (d.stays_ready m.args A refl idle.ready) (omega arith) (bytes_of-lt size small)
          idle.next_new idle.after_new (omega (arith, idle.room)) left size k
          (tabulate m.heap.junk 0 n) (tabulate m.heap.junk 0 n) due sent (placed_machine m n) run
          (length-tabulate _ 0 n) (length-tabulate _ 0 n))
    where
      n : ℕ
      n = bytes_of size

      b : ℕ
      b = m.heap.next

      c : ℕ
      c = suc b

      A : Args
      A = placed_args m.args b c n

      placed : Placed A b c n
      placed = record {
        no_cache = idle.no_cache;
        r_buff_at = refl;
        s_buff_at = refl;
        r_ptr_at = refl;
        s_ptr_at = refl;
        r_orig_at = refl;
        s_orig_at = refl;
        bufflen_is = refl;
      }

      bytes : List ℕ
      bytes = tabulate m.heap.junk 0 n

      run :
          Running d m.heap.block A b c
            (m.heap.avail - n - n)
            m.printed
            bytes
            bytes
            (d.token ++ (repeated (suc k) (pattern_of 98 n) ++ due))
            sent
            (placed_machine m n)
      run = record {
        args_are = refl;
        r_live =
            update_other (update m.heap.block b (some bytes)) c b _ (omega arith)
            ∙ update_here m.heap.block b (some bytes);
        s_live = update_here (update m.heap.block b (some bytes)) c (some bytes);
        others = λ x nb nc.
            update_other (update m.heap.block b (some bytes)) c x _ nc
            ∙ update_other m.heap.block b x _ nb;
        avail_is = refl;
        printed_is = refl;
        async_is = idle.no_async;
        due_is = in_eq;
        sent_is = out_eq;
      }

  -- `Measured` looks at the memory and the output of the machine before, not at its sockets.
  Measured-from :
      (m : Machine P W) (w : W) (left : Option PyError) (size nrepeat : ℕ) (due sent : List ℕ)
      (r : Outcome (Machine P W) (Reply D))
      → Returns (Measured clock d keeps (record m { sys = w }) left size nrepeat due sent) r
      → Returns (Measured clock d keeps m left size nrepeat due sent) r
  Measured-from m w left size nrepeat due sent r over = Returns-mono over λ _ _ f. record {
    total = f.total;
    each = f.each;
    reply_is = f.reply_is;
    each_is = f.each_is;
    blocks_are = f.blocks_are;
    avail_is = f.avail_is;
    printed_is = f.printed_is;
    due_is = f.due_is;
    sent_is = f.sent_is;
  }

  -- run_iters on a transmitter, over any module that delivers and a clock whose reading moves no
  -- bytes. For a positive count nrepeat and a size below 2 ^ 32, from an idle machine (a cache of
  -- 0, no posted receives, a connected module, room for two buffers, the next two block names
  -- unused): if the neighbour answers the synchronisation and then sends nrepeat times the pattern
  -- of 'b', the call returns the size and the count, each read as an int (negative from 2 ^ 31 on),
  -- and a last time that is the whole time divided by the count, with no error set; it has sent the
  -- size, the count, the synchronisation and as often its own bytes, has read and printed nothing
  -- more, and all memory is given back.
  pub transmit :
      (size nrepeat : ℕ) (due : List ℕ) (m : Machine P W)
      → 0 < nrepeat
      → size < 2 ^ 32
      → truth m.args.tr ≡ true
      → Idle Ready (bytes_of size) m
      → d.inbox m.sys ≡ d.token ++ (repeated nrepeat (pattern_of 98 (bytes_of size)) ++ due)
      → Returns
          (Measured clock d keeps m none size nrepeat due (
            (((d.outbox m.sys ++ be32 size) ++ be32 nrepeat) ++ d.token)
            ++ repeated nrepeat (pattern_of 98 (bytes_of size))))
          (run_iters clock proto (some (size, nrepeat)) m)
  unfolding run_iters measure
  transmit size zero due m pos small tr idle in_eq = absurd (omega arith)
  transmit size (suc k) due m pos small tr idle in_eq =
      let (w₁, sent₁, out₁, quiet₁) = d.send_repeat_law size m idle.ready in
      let (w₂, sent₂, out₂, quiet₂) =
        d.send_repeat_law (suc k) (record m { sys = w₁ }) idle.ready in
      subst (Returns (Measured clock d keeps m none size (suc k) due _))
        (sym (
          ap
            (λ t.
              and_then (when t (proto.send_repeat size >> proto.send_repeat (suc k)) m)
                (λ _. measure none size (suc k)))
            tr
          ∙ ap
              (λ r.
                and_then (and_then r (λ _. proto.send_repeat (suc k)))
                  (λ _. measure none size (suc k)))
              sent₁
          ∙ ap (λ r. and_then r (λ _. measure none size (suc k))) sent₂))
        (Measured-from m w₂ none size (suc k) due _ _ (
          measure_step none size k due _ (record m { sys = w₂ }) small
            (record {
              no_cache = idle.no_cache;
              no_async = idle.no_async;
              ready = idle.ready;
              room = idle.room;
              next_new = idle.next_new;
              after_new = idle.after_new;
            })
            (quiet₂ ∙ quiet₁ ∙ in_eq) (out₂ ∙ ap (λ t. t ++ be32 (suc k)) out₁)))

  -- run_iters without arguments on a receiver, over any module that delivers and a clock whose
  -- reading moves no bytes, from an idle machine (a cache of 0, no posted receives, a connected
  -- module, room for two buffers, the next two block names unused): if the neighbour sends a
  -- positive size and count below 2 ^ 32, the synchronisation and nrepeat times the pattern of 'b',
  -- the call returns the size and the count, each read as an int (negative from 2 ^ 31 on), and a
  -- last time that is the whole time divided by the count, with the error of the argument parser
  -- still set; it has sent the synchronisation and as often its own bytes, has read and printed
  -- nothing more, and all memory is given back.
  pub receive :
      (size nrepeat : ℕ) (due : List ℕ) (m : Machine P W)
      → 0 < nrepeat
      → 0 < size
      → size < 2 ^ 32
      → nrepeat < 2 ^ 32
      → truth m.args.tr ≡ false
      → truth m.args.rcv ≡ true
      → Idle Ready (bytes_of size) m
      → d.inbox m.sys
        ≡ be32 size
          ++ (be32 nrepeat
              ++ (d.token ++ (repeated nrepeat (pattern_of 98 (bytes_of size)) ++ due)))
      → Returns
          (Measured clock d keeps m
            (some bad_arguments)
            size
            nrepeat
            due
            ((d.outbox m.sys ++ d.token) ++ repeated nrepeat (pattern_of 98 (bytes_of size))))
          (run_iters clock proto none m)
  unfolding run_iters measure
  receive size zero due m pos asked small small_n tr rcv idle in_eq = absurd (omega arith)
  receive size (suc k) due m pos asked small small_n tr rcv idle in_eq =
      let (w₁, size_read, taken₁, quiet₁) = d.recv_repeat_law size _ m idle.ready small in_eq in
      let (w₂, count_read, taken₂, quiet₂) =
        d.recv_repeat_law (suc k) _ (record m { sys = w₁ }) idle.ready small_n taken₁ in
      let m₂ : Machine P W = record m { sys = w₂ } in
      subst (Returns (Measured clock d keeps m (some bad_arguments) size (suc k) due _))
        (sym (
          ap (λ t. (if t then asked_for else pure (failed bad_arguments)) m) rcv
          ∙ ap (λ r. and_then r λ size s. and_then (proto.recv_repeat s) (go size)) size_read
          ∙ ap (λ r. and_then r (go size)) count_read
          ∙ ap
              (λ t.
                (if t
                    then defined none
                    else run_sized clock proto (some bad_arguments) size (suc k))
                  m₂)
              (not_zero size asked)
          ∙ ap
              (λ t.
                and_then (when t (proto.send_repeat size >> proto.send_repeat (suc k)) m₂)
                  (λ _. measure (some bad_arguments) size (suc k)))
              tr))
        (Measured-from m w₂ (some bad_arguments) size (suc k) due _ _ (
          measure_step (some bad_arguments) size k due _ m₂ small
            (record {
              no_cache = idle.no_cache;
              no_async = idle.no_async;
              ready = idle.ready;
              room = idle.room;
              next_new = idle.next_new;
              after_new = idle.after_new;
            })
            taken₂ (quiet₂ ∙ quiet₁)))
    where
      go : ℕ → ℕ → Machine P W → Outcome (Machine P W) (Reply D)
      go size nrepeat =
          if size == 0
          then defined none
          else run_sized clock proto (some bad_arguments) size nrepeat

      asked_for : Machine P W → Outcome (Machine P W) (Reply D)
      asked_for = do size ← proto.recv_repeat; nrepeat ← proto.recv_repeat; go size nrepeat

      not_zero : (n : ℕ) → 0 < n → (n == 0) ≡ false
      not_zero n h = ground arith
