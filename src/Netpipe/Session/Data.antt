-- ===== src/Netpipe/Session/Data.antt =====
-- The steps of netpipe_run_iters that fill, check and release the buffers.
use native.Mathlib.Nat.{add-zero}
use netpipe5_dev.Base.{
  ℕ, ◌+◌, ◌/◌, ◌^◌, ◌<◌, ◌≡◌, ◌≢◌, sym, ◌∙◌, ap, ap₂, subst, arith, List, Option, some, length,
  take_all, if◌then◌else◌,
}
use netpipe5_dev.Effect.{done, and_then, truth, Outcome}
use netpipe5_dev.Effect.Rules.{Returns, returns}
use netpipe5_dev.Memory.{Ptr, at}
use netpipe5_dev.Machine.{Machine, Args, Message}
use netpipe5_dev.Lfsr.{lfsr23}
use netpipe5_dev.Lfsr.Laws.{iterate, iterate-lfsr23_range}
use netpipe5_dev.Pattern.{lfsrset, lfsrcheck}
use netpipe5_dev.Pattern.Words.{pattern_of, length-pattern_of}
use netpipe5_dev.Pattern.Fill.{lfsrset_lem, wrote}
use netpipe5_dev.Pattern.Check.{lfsrcheck_lem, reports}
use netpipe5_dev.Pattern.Clean.{reports_clean}
use netpipe5_dev.Netpipe.Buffers.{init_buffer_data, check_buffer_data, clear_last}
use netpipe5_dev.Netpipe.Run.{Protocol}
use netpipe5_dev.Netpipe.Delivery.{Delivers}
use netpipe5_dev.Netpipe.Session.{Running, Placed}
use netpipe5_dev.Netpipe.Session.Steps.{overwrite_whole, update_other, update_here}

-- InitBufferData with its arguments in place.
init_with : {P W : Type 0} → Ptr → Ptr → ℕ → ℕ → Machine P W → Outcome (Machine P W) (Unit {0})
init_with r s cache k m =
    and_then (lfsrset r 97 k m) (λ _. if truth cache then clear_last r k else lfsrset s 98 k)

module _ {P W : Type 0} {proto : Protocol P W} {Ready : Args → Type 0} (d : Delivers proto Ready)
    (old : ℕ → Option (List ℕ)) (A : Args) (b c n avail : ℕ) (printed : List Message)
    (placed : Placed A b c n) (apart : b ≢ c) (small : n < 2 ^ 64) where
  abbrev Run : List ℕ → List ℕ → List ℕ → List ℕ → Machine P W → Type 0
  Run = Running d old A b c avail printed

  -- InitBufferData leaves the pattern of 'a' in the receive and that of 'b' in the send buffer.
  pub init_step :
      (rb sb due sent : List ℕ) (m : Machine P W)
      → Run rb sb due sent m
      → length rb ≡ n
      → length sb ≡ n
      → Returns (λ _. Run (pattern_of 97 n) (pattern_of 98 n) due sent) (init_buffer_data n 0 0 m)
  unfolding init_buffer_data init_with
  init_step rb sb due sent m run len_r len_s =
      subst (Returns (λ _. Run (pattern_of 97 n) (pattern_of 98 n) due sent)) (sym runs) (
        returns tt m₂ (record {
          args_are = run.args_are;
          r_live =
              update_other m₁.heap.block c b _ apart
              ∙ update_here m.heap.block b _
              ∙ ap some (overwrite_whole (pattern_of 97 n) rb (length-pattern_of 97 n ∙ sym len_r));
          s_live =
              update_here m₁.heap.block c _
              ∙ ap some (overwrite_whole (pattern_of 98 n) sb (length-pattern_of 98 n ∙ sym len_s));
          others = λ x nb nc.
              update_other m₁.heap.block c x _ nc
              ∙ update_other m.heap.block b x _ nb
              ∙ run.others x nb nc;
          avail_is = run.avail_is;
          printed_is = run.printed_is;
          async_is = run.async_is;
          due_is = run.due_is;
          sent_is = run.sent_is;
        }))
    where
      m₁ : Machine P W
      m₁ = wrote m b 0 (pattern_of 97 n) rb (iterate lfsr23 (n / 4 + 1) 97)

      m₂ : Machine P W
      m₂ = wrote m₁ c 0 (pattern_of 98 n) sb (iterate lfsr23 (n / 4 + 1) 98)

      still : m₁.heap.block c ≡ some sb
      still = update_other m.heap.block b c _ (λ e. apart (sym e)) ∙ run.s_live

      places :
          init_with m.args.r_buff m.args.s_buff m.args.cache (n + 0) m
          ≡ init_with (at b 0) (at c 0) 0 n m
      places =
          ap (λ (a : Args). init_with a.r_buff a.s_buff a.cache (n + 0) m) run.args_are
          ∙ ap₂ (λ r s. init_with r s A.cache (n + 0) m) placed.r_buff_at placed.s_buff_at
          ∙ ap₂ (λ k l. init_with (at b 0) (at c 0) k l m) placed.no_cache (add-zero n)

      runs : init_buffer_data n 0 0 m ≡ done tt m₂
      runs =
          places
          ∙ ap (λ r. and_then r (λ _. lfsrset (at c 0) 98 n))
              (lfsrset_lem b 97 n rb m run.r_live (omega arith) small)
          ∙ lfsrset_lem c 98 n sb m₁ still (omega arith) small

  -- CheckBufferData prints nothing on the pattern of 'b'.
  pub check_step :
      (sb due sent : List ℕ) (m : Machine P W)
      → Run (pattern_of 98 n) sb due sent m
      → Returns (λ _. Run (pattern_of 98 n) sb due sent) (check_buffer_data n 0 0 m)
  unfolding check_buffer_data
  check_step sb due sent m run =
      subst (Returns (λ _. Run (pattern_of 98 n) sb due sent)) (sym runs) (
        returns tt _ (record {
          args_are = run.args_are;
          r_live = run.r_live;
          s_live = run.s_live;
          others = run.others;
          avail_is = run.avail_is;
          printed_is = clean ∙ run.printed_is;
          async_is = run.async_is;
          due_is = run.due_is;
          sent_is = run.sent_is;
        }))
    where
      clean : reports 98 n (pattern_of 98 n) m.printed ≡ m.printed
      clean =
          reports_clean 98 n (pattern_of 98 n) m.printed
            (λ j. omega (arith, iterate-lfsr23_range j 98 (omega arith) (omega arith)))
            (take_all n (pattern_of 98 n) (omega (arith, length-pattern_of 98 n)))

      runs :
          check_buffer_data n 0 0 m
          ≡ done tt (record m {
            lfsr_data = iterate lfsr23 (n / 4 + 1) 98;
            printed = reports 98 n (pattern_of 98 n) m.printed;
          })
      runs =
          ap (λ (a : Args). lfsrcheck a.r_buff 98 (n + 0) m) run.args_are
          ∙ ap₂ (λ r k. lfsrcheck r 98 k m) placed.r_buff_at (add-zero n)
          ∙ lfsrcheck_lem b 98 n (pattern_of 98 n) m run.r_live
              (omega (arith, length-pattern_of 98 n)) small
