-- ===== src/Ibv/Transfer/Waits.antt =====
-- RecvData with event completion and its wait for the flag.
use netpipe5_dev.Base.{
  arith, ℕ, ◌==◌, ◌≡◌, ◌≢◌, ◌≤◌, ◌∙◌, ap, subst, not, if◌then◌else◌, Bool, true, false, [], ◌∷◌,
}
use netpipe5_dev.Effect.{M, Outcome, done, and_then, skip, when, truth, defined, ◌>>=◌, ◌>>◌}
use netpipe5_dev.Machine.{Machine, set_prot, put_bytes}
use netpipe5_dev.Verbs.{Verbs}
use netpipe5_dev.Ibv.{Ibv, np_comm_rdmawrite, np_comp_event}
use netpipe5_dev.Ibv.Events.{event_step}
use netpipe5_dev.Ibv.Events.Counted.{Counter, Counted, Stays, event_step-Counted}
use netpipe5_dev.Ibv.Events.Counted
use netpipe5_dev.Ibv.Transfer.{
  wait_flag, wait_byte, wait_completion, recv_data, last_byte, awaited, put_back,
}

pub Stays-done : {S A : Type 0} {P : S → Type 0} (a : A) (s : S) → Stays P (done a s) → P s
Stays-done a s (Counted.returns _ _ p) = p

pub flag_up : (f : ℕ) → (f == 0) ≡ false → f ≤ 1 → f ≡ 1
flag_up f e le = ground arith

test_false : (a b : ℕ) → a ≢ b → (a == b) ≡ false
test_false a b h = ground arith

module _ {W : Type 0} (verbs : Verbs W) where
  -- With event completion RecvData is the wait for the flag, which it then clears, but for the mode
  -- where PrepareToReceive does.
  pub recv_data_waits :
      (rounds : ℕ) (m : Machine Ibv W)
      → m.prot.commtype ≢ np_comm_rdmawrite
      → m.prot.comptype ≡ np_comp_event
      → recv_data verbs rounds m
        ≡ and_then (wait_flag verbs rounds m) (λ _.
          when (truth m.args.preburst) (set_prot (λ (t : Ibv). record t { receive_complete = 0 })))
  unfolding recv_data
  recv_data_waits rounds m no_rdma event =
      ap (λ (rdma : Bool). run rdma (not (m.prot.comptype == np_comp_event)) m)
        (test_false m.prot.commtype np_comm_rdmawrite no_rdma)
      ∙ ap (λ (t : ℕ). run false (not (t == np_comp_event)) m) event
    where
      run : Bool → Bool → M (Machine Ibv W) (Unit {0})
      run rdma polling =
          if rdma
          then (do
            p ← defined (last_byte m.args)
            wait_byte verbs rounds p (awaited m.args)
            put_bytes p (put_back m.args ∷ []))
          else if polling
          then (do cq ← defined m.prot.r_cq_hndl; wait_completion verbs rounds cq)
          else (do
            wait_flag verbs rounds
            when (truth m.args.preburst)
                (set_prot (λ (t : Ibv). record t { receive_complete = 0 })))

module _ {W : Type 0} {verbs : Verbs W} (c : Counter verbs) where
  -- One step keeps the account.
  pub kept :
      (n : ℕ) (m m₁ : Machine Ibv W)
      → event_step verbs m ≡ done tt m₁
      → Counted c n m
      → Counted c n m₁
  kept n m m₁ e k = Stays-done tt m₁ (
      subst (λ (r : Outcome (Machine Ibv W) (Unit {0})). Stays (Counted c n) r) e
        (event_step-Counted c n m k))

  -- The flag is up for the next completion.
  pub record Signalled (n : ℕ) (m : Machine Ibv W) : Type 0 where
    pub counted : Counted c n m
    pub flag_is : m.prot.receive_complete ≡ 1

  -- The loop of wait_flag with the value of its test.
  abbrev pub loop : ℕ → Bool → M (Machine Ibv W) (Unit {0})
  loop rounds down = elim down [ false ↦ skip | true ↦ do event_step verbs; wait_flag verbs rounds ]
