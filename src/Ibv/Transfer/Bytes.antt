-- ===== src/Ibv/Transfer/Bytes.antt =====
-- RecvData with RDMA writes: it looks at the last byte of the buffer until that is the awaited one.
use netpipe5_dev.Base.{
  arith, ℕ, zero, suc, ◌==◌, ◌≡◌, ◌≢◌, refl, ◌∙◌, ap, ◌<◌, not, if◌then◌else◌, Bool, true, false,
  Option, none, some, List, [], ◌∷◌, get_or,
}
use netpipe5_dev.Effect.{
  M, Outcome, done, hung, and_then, modify, skip, when, truth, defined, ◌>>=◌, ◌>>◌,
}
use netpipe5_dev.Memory
use netpipe5_dev.Memory.{Ptr, Heap, advance}
use netpipe5_dev.Machine.{Machine, put_bytes, set_prot}
use netpipe5_dev.Verbs.{Verbs}
use netpipe5_dev.Ibv.{Ibv, np_comm_rdmawrite, np_comp_event, settle}
use netpipe5_dev.Ibv.Transfer.{wait_flag, wait_byte, wait_completion, recv_data, awaited, put_back}

module _ {W : Type 0} (verbs : Verbs W) where
  -- The machine after the adapter has written what it had to write.
  abbrev pub settled : Machine Ibv W → Machine Ibv W
  settled m = record m { heap = (verbs.dma m.heap m.sys).0; sys = (verbs.dma m.heap m.sys).1 }

  -- The byte `b` comes to `p` after the adapter has written `k` times; before, another byte stands there.
  pub data Arrives (p : Ptr) (b : ℕ) : ℕ → Machine Ibv W → Machine Ibv W → Type 0 where
    stands : (m : Machine Ibv W) → Memory.load p 1 m.heap ≡ some (b ∷ []) → Arrives p b 0 m m
    comes :
        (k x : ℕ) (m m' : Machine Ibv W)
        → Memory.load p 1 m.heap ≡ some (x ∷ [])
        → x ≢ b
        → Arrives p b k (settled m) m'
        → Arrives p b (suc k) m m'

  -- One look at the byte.
  abbrev look : ℕ → Ptr → ℕ → Option (List ℕ) → M (Machine Ibv W) (Unit {0})
  look rounds p b found = do
    bytes ← defined found
    elim (get_or bytes 0 0 == b) [
      | true ↦ skip
      | false ↦ do settle verbs; wait_byte verbs rounds p b
    ]

  abbrev decide : ℕ → Ptr → ℕ → Bool → M (Machine Ibv W) (Unit {0})
  decide rounds p b same = elim same [
    | true ↦ skip
    | false ↦ do settle verbs; wait_byte verbs rounds p b
  ]

  wait_byte_there :
      (rounds : ℕ) (p : Ptr) (b : ℕ) (m : Machine Ibv W)
      → Memory.load p 1 m.heap ≡ some (b ∷ [])
      → wait_byte verbs (suc rounds) p b m ≡ done tt m
  unfolding wait_byte
  wait_byte_there rounds p b m e =
      ap (λ (found : Option (List ℕ)). look rounds p b found m) e
      ∙ ap (λ (same : Bool). decide rounds p b same m) (test b)
    where
      test : (b : ℕ) → (b == b) ≡ true
      test b = ground arith

  wait_byte_other :
      (rounds : ℕ) (p : Ptr) (b x : ℕ) (m : Machine Ibv W)
      → Memory.load p 1 m.heap ≡ some (x ∷ [])
      → x ≢ b
      → wait_byte verbs (suc rounds) p b m ≡ wait_byte verbs rounds p b (settled m)
  unfolding wait_byte
  wait_byte_other rounds p b x m e other =
      ap (λ (found : Option (List ℕ)). look rounds p b found m) e
      ∙ ap (λ (same : Bool). decide rounds p b same m) (test x b other)
    where
      test : (x b : ℕ) → x ≢ b → (x == b) ≡ false
      test x b other = ground arith

  wait_byte_lem :
      (rounds k : ℕ) (p : Ptr) (b : ℕ) (m m' : Machine Ibv W)
      → Arrives p b k m m'
      → k < rounds
      → wait_byte verbs rounds p b m ≡ done tt m'
  wait_byte_lem zero k p b m m' a lt = absurd (omega (arith, lt))
  wait_byte_lem (suc rounds) zero p b m _ (stands _ e) lt = wait_byte_there rounds p b m e
  wait_byte_lem (suc rounds) (suc k) p b m m' (comes _ x _ _ e other rest) lt =
      wait_byte_other rounds p b x m e other
      ∙ wait_byte_lem rounds k p b (settled m) m' rest (omega (arith, lt))

  -- The adapter does not write the byte any more.
  wait_byte_hangs :
      (rounds : ℕ) (p : Ptr) (b x : ℕ) (m : Machine Ibv W)
      → ((h : Heap) (w : W) → Memory.load p 1 (verbs.dma h w).0 ≡ Memory.load p 1 h)
      → Memory.load p 1 m.heap ≡ some (x ∷ [])
      → x ≢ b
      → wait_byte verbs rounds p b m ≡ hung
  unfolding wait_byte
  wait_byte_hangs zero p b x m idle e other = refl
  wait_byte_hangs (suc rounds) p b x m idle e other =
      wait_byte_other rounds p b x m e other
      ∙ wait_byte_hangs rounds p b x (settled m) idle (idle m.heap m.sys ∙ e) other

  -- With RDMA writes RecvData is the wait for the last byte, which it then puts back.
  recv_data_rdma :
      (rounds n : ℕ) (m : Machine Ibv W)
      → m.prot.commtype ≡ np_comm_rdmawrite
      → m.args.bufflen ≡ suc n
      → recv_data verbs rounds m
        ≡ and_then
            (wait_byte verbs rounds (advance m.args.r_ptr n) (awaited m.args) m)
            (λ _. put_bytes (advance m.args.r_ptr n) (put_back m.args ∷ []))
  unfolding recv_data
  recv_data_rdma rounds n m c len =
      ap (λ (t : ℕ). run (t == np_comm_rdmawrite) m.args.bufflen m) c
      ∙ ap (λ (len : ℕ). run true len m) len
    where
      run : Bool → ℕ → M (Machine Ibv W) (Unit {0})
      run rdma len =
          if rdma
          then (do
            p ← defined (elim len [ zero ↦ none | suc n ↦ some (advance m.args.r_ptr n) ])
            wait_byte verbs rounds p (awaited m.args)
            put_bytes p (put_back m.args ∷ []))
          else if not (m.prot.comptype == np_comp_event)
          then (do cq ← defined m.prot.r_cq_hndl; wait_completion verbs rounds cq)
          else (do
            wait_flag verbs rounds
            when (truth m.args.preburst)
                (set_prot (λ (t : Ibv). record t { receive_complete = 0 })))

  -- With RDMA writes and a buffer of n + 1 bytes: if the awaited byte stands at the end of the
  -- buffer after the adapter has written k times, and another one before, then RecvData, looking
  -- for more than k rounds, returns with what the adapter has written, the last byte put back, and
  -- nothing else changed.
  pub recv_data-Arrives :
      (rounds k n : ℕ) (m m' : Machine Ibv W) (h : Heap)
      → m.prot.commtype ≡ np_comm_rdmawrite
      → m.args.bufflen ≡ suc n
      → Arrives (advance m.args.r_ptr n) (awaited m.args) k m m'
      → k < rounds
      → Memory.store (advance m.args.r_ptr n) (put_back m.args ∷ []) m'.heap ≡ some h
      → recv_data verbs rounds m ≡ done tt (record m' { heap = h })
  recv_data-Arrives rounds k n m m' h c len a lt room =
      recv_data_rdma rounds n m c len
      ∙ ap (λ (r : Outcome (Machine Ibv W) (Unit {0})). and_then r (λ _. put))
          (wait_byte_lem rounds k (advance m.args.r_ptr n) (awaited m.args) m m' a lt)
      ∙ ap
          (λ (o : Option Heap).
            and_then (defined o m')
              (λ (h : Heap). modify (λ (m : Machine Ibv W). record m { heap = h })))
          room
    where
      put : M (Machine Ibv W) (Unit {0})
      put = put_bytes (advance m.args.r_ptr n) (put_back m.args ∷ [])

  -- With RDMA writes: if another byte than the awaited one stands at the end of the buffer and the
  -- adapter writes that byte no more, RecvData never returns, however long it looks.
  pub recv_data_starves :
      (rounds n x : ℕ) (m : Machine Ibv W)
      → m.prot.commtype ≡ np_comm_rdmawrite
      → m.args.bufflen ≡ suc n
      → ((h : Heap) (w : W)
          → Memory.load (advance m.args.r_ptr n) 1 (verbs.dma h w).0
            ≡ Memory.load (advance m.args.r_ptr n) 1 h)
      → Memory.load (advance m.args.r_ptr n) 1 m.heap ≡ some (x ∷ [])
      → x ≢ awaited m.args
      → recv_data verbs rounds m ≡ hung
  recv_data_starves rounds n x m c len idle e other =
      recv_data_rdma rounds n m c len
      ∙ ap (λ (r : Outcome (Machine Ibv W) (Unit {0})). and_then r (λ _. put))
          (wait_byte_hangs rounds (advance m.args.r_ptr n) (awaited m.args) x m idle e other)
    where
      put : M (Machine Ibv W) (Unit {0})
      put = put_bytes (advance m.args.r_ptr n) (put_back m.args ∷ [])
