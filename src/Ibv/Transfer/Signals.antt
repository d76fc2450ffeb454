-- ===== src/Ibv/Transfer/Signals.antt =====
-- RecvData with event completion, beside the event thread: each call consumes one completion.
use netpipe5_dev.Base.{
  arith, ℤ, ℕ, zero, suc, ◌==◌, ◌≡◌, ◌≢◌, refl, sym, ◌∙◌, ap, subst, Bool, true, false,
}
use netpipe5_dev.Effect.{M, Outcome, done, exited, hung, and_then, when, truth}
use netpipe5_dev.Machine.{Machine, set_prot}
use netpipe5_dev.Verbs.{Verbs}
use netpipe5_dev.Ibv.{Ibv, np_comm_rdmawrite, np_comp_event}
use netpipe5_dev.Ibv.Events.{event_step}
use netpipe5_dev.Ibv.Events.Counted.{Counter, Counted, Stays, event_step-Counted}
use netpipe5_dev.Ibv.Events.Counted
use netpipe5_dev.Ibv.Transfer.{wait_flag, recv_data}
use netpipe5_dev.Ibv.Transfer.Waits.{Signalled, loop, kept, flag_up, recv_data_waits}

-- Event completion in the mode where the flag is cleared by RecvData.
pub record EventMode {W : Type 0} (m : Machine Ibv W) : Type 0 where
  pub commtype_is : m.prot.commtype ≢ np_comm_rdmawrite
  pub comptype_is : m.prot.comptype ≡ np_comp_event
  pub preburst_is : truth m.args.preburst ≡ true

-- A run that returns in `P`, ends the process, or has used up its rounds.
data Settles {S A : Type 0} (P : S → Type 0) : Outcome S A → Type 0 where
  comes_back : (a : A) (s : S) → P s → Settles P (done a s)
  leaves : (c : ℤ) (s : S) → Settles P (exited c s)
  waits_on : Settles P hung

Settles-done : {S A : Type 0} {P : S → Type 0} (a : A) (s : S) → Settles P (done a s) → P s
Settles-done a s (comes_back _ _ p) = p

module _ {W : Type 0} {verbs : Verbs W} (c : Counter verbs) where
  -- The flag is cleared.
  consumed : M (Machine Ibv W) (Unit {0})
  consumed = set_prot (λ (t : Ibv). record t { receive_complete = 0 })

  Signalled-Counted :
      (n : ℕ) (m : Machine Ibv W)
      → Signalled c n m
      → Counted c (suc n) (record m { prot = record (m.prot) { receive_complete = 0 } })
  Signalled-Counted n m s =
      let k : Counted c n m = s.counted in
      record {
        queue = k.queue;
        queue_is = k.queue_is;
        flag_le = omega arith;
        sum_is = omega (arith, k.sum_is, s.flag_is);
      }

  -- With event completion RecvData is the wait for the flag, which it then clears.
  recv_data_event :
      (rounds : ℕ) (m : Machine Ibv W)
      → EventMode m
      → recv_data verbs rounds m
        ≡ and_then
            (wait_flag verbs rounds m)
            (λ _. set_prot (λ (t : Ibv). record t { receive_complete = 0 }))
  unfolding consumed
  recv_data_event rounds m e =
      recv_data_waits verbs rounds m e.commtype_is e.comptype_is
      ∙ ap (λ (burst : Bool). and_then (wait_flag verbs rounds m) (λ _. when burst consumed))
          e.preburst_is

  -- The wait for the flag comes back only for the next completion.
  wait_flag-Settles :
      (rounds n : ℕ) (m : Machine Ibv W)
      → Counted c n m
      → Settles (Signalled c n) (wait_flag verbs rounds m)
  unfolding wait_flag
  wait_flag-Settles zero n m k = waits_on
  wait_flag-Settles (suc rounds) n m k =
      go (λ m k. wait_flag-Settles rounds n m k) (m.prot.receive_complete == 0) refl
    where
      stepped :
          ((m : Machine Ibv W) → Counted c n m → Settles (Signalled c n) (wait_flag verbs rounds m))
          → (r : Outcome (Machine Ibv W) (Unit {0})) → Stays (Counted c n) r
          → Settles (Signalled c n) (and_then r (λ _. wait_flag verbs rounds))
      stepped rest _ (Counted.returns a s k) = rest s k
      stepped rest _ (Counted.ends code s) = leaves code s

      go :
          ((m : Machine Ibv W) → Counted c n m → Settles (Signalled c n) (wait_flag verbs rounds m))
          → (down : Bool) → (m.prot.receive_complete == 0) ≡ down
          → Settles (Signalled c n) (loop c rounds down m)
      go rest false e =
          comes_back tt m
            (record { counted = k; flag_is = flag_up m.prot.receive_complete e k.flag_le })
      go rest true e = stepped rest _ (event_step-Counted c n m k)

  recv_data-Settles :
      (rounds n : ℕ) (m : Machine Ibv W)
      → EventMode m
      → Counted c n m
      → Settles (Counted c (suc n)) (recv_data verbs rounds m)
  recv_data-Settles rounds n m e k =
      subst (λ (r : Outcome (Machine Ibv W) (Unit {0})). Settles (Counted c (suc n)) r)
        (sym (recv_data_event rounds m e)) (go _ (wait_flag-Settles rounds n m k))
    where
      go :
          (r : Outcome (Machine Ibv W) (Unit {0}))
          → Settles (Signalled c n) r
          → Settles
              (Counted c (suc n))
              (and_then r (λ _. set_prot (λ (t : Ibv). record t { receive_complete = 0 })))
      go _ (comes_back a s p) = comes_back tt _ (Signalled-Counted n s p)
      go _ (leaves code s) = leaves code s
      go _ waits_on = waits_on

  -- What the process and its thread come to: the thread moves, or RecvData returns.
  pub data Reaches (m₀ : Machine Ibv W) : ℕ → Machine Ibv W → Type 0 where
    begins : Reaches m₀ 0 m₀
    thread_moves :
        (n : ℕ) (m m' : Machine Ibv W)
        → Reaches m₀ n m
        → event_step verbs m ≡ done tt m'
        → Reaches m₀ n m'
    receives :
        (n rounds : ℕ) (m m' : Machine Ibv W)
        → Reaches m₀ n m
        → EventMode m
        → recv_data verbs rounds m ≡ done tt m'
        → Reaches m₀ (suc n) m'

  -- With event completion, from a machine on which no completion has been taken and the flag is
  -- down, whatever steps the event thread takes and wherever RecvData (in the mode that clears the
  -- flag) returns in between: the completions taken are those that RecvData has returned for, one
  -- more if the flag is up, and one more if the thread holds one. None is lost and none counts
  -- twice, and the flag stays 0 or 1.
  pub Reaches-Counted :
      (m₀ m : Machine Ibv W) (n : ℕ) → Counted c 0 m₀ → Reaches m₀ n m → Counted c n m
  Reaches-Counted m₀ _ _ k begins = k
  Reaches-Counted m₀ _ _ k (thread_moves n m m' r e) = kept c n m m' e (Reaches-Counted m₀ m n k r)
  Reaches-Counted m₀ _ _ k (receives n rounds m m' r mode e) = Settles-done tt m' (
      subst (λ (r : Outcome (Machine Ibv W) (Unit {0})). Settles (Counted c (suc n)) r) e
        (recv_data-Settles rounds n m mode (Reaches-Counted m₀ m n k r)))
