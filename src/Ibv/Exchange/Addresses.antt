-- ===== src/Ibv/Exchange/Addresses.antt =====
-- AfterAlignmentInit on a stream: each side learns where the buffer of the other is.
use netpipe5_dev.Base.{
  arith, ℕ, ◌+◌, ◌*◌, ◌/◌, ◌%◌, ◌^◌, ◌==◌, ◌||◌, ◌<◌, ◌≤◌, ◌≡◌, ◌⊎◌, inl, inr, ◌∙◌, ap, ℤ, negsuc,
  Bool, true, not, Option, none, some, List, ◌++◌, length,
}
use netpipe5_dev.Effect.{M, Outcome, done, and_then, when, exit, pure, defined, ◌>>=◌, ◌>>◌}
use netpipe5_dev.Machine.{Machine, le32, of_le32, set_prot}
use netpipe5_dev.Sockets.{Sockets}
use netpipe5_dev.Sockets.Stream.{IsStream}
use netpipe5_dev.Tcp.{failed}
use netpipe5_dev.Tcp.Receive.{read_fully_lem}
use netpipe5_dev.Copy.{address_of}
use netpipe5_dev.Verbs.{Region}
use netpipe5_dev.Ibv.{Ibv, np_comm_rdmawrite, np_comm_rdmawrite_with_imm}
use netpipe5_dev.Ibv.Exchange.{
  le64, of_le64, must_write, must_read, read_fully, after_alignment_init,
}
use netpipe5_dev.Ibv.Device.Greeting.{of_le32-le32}

of_le64-le64 : (a : ℕ) → a < 2 ^ 64 → of_le64 (le64 a) ≡ a
of_le64-le64 a h =
    let low : of_le32 (le32 (a % 2 ^ 32)) ≡ a % 2 ^ 32 = of_le32-le32 (a % 2 ^ 32) (omega arith) in
    let high : of_le32 (le32 (a / 2 ^ 32)) ≡ a / 2 ^ 32 =
      of_le32-le32 (a / 2 ^ 32) (omega (arith, h)) in
    ap (λ (x : ℕ). x + 2 ^ 32 * of_le32 (le32 (a / 2 ^ 32))) low
    ∙ ap (λ (x : ℕ). a % 2 ^ 32 + 2 ^ 32 * x) high
    ∙ omega arith

module _ {W : Type 0} {net : Sockets W} {fd : ℤ} (stream : IsStream net fd) where
  open stream use {inbox, outbox}

  -- A write of at most eight bytes takes them all.
  pub record WholeWrites : Type 0 where
    pub write_whole :
        (bs : List ℕ) (w : W)
        → length bs ≤ 8
        → (w' : W) × (net.write fd bs w ≡ (some (length bs), w'))
          × (outbox w' ≡ outbox w ++ bs)
          × (inbox w' ≡ inbox w)

  must_write_lem :
      (whole : WholeWrites) (bs : List ℕ) (m : Machine Ibv W)
      → length bs ≤ 8
      → (w : W) × (must_write net fd bs m ≡ done tt (record m { sys = w }))
        × (outbox w ≡ outbox m.sys ++ bs)
        × (inbox w ≡ inbox m.sys)
  must_write_lem whole bs m le =
      let (w, call_eq, sent, quiet) = whole.write_whole bs m.sys le in
      (
        w,
        ap (λ (r : Option ℕ × W). when (failed r.0) (exit (negsuc 0)) (record m { sys = r.1 }))
            call_eq,
        sent,
        quiet,
      )

  must_read_lem :
      (bs rest : List ℕ) (m : Machine Ibv W)
      → 0 < length bs
      → inbox m.sys ≡ bs ++ rest
      → (w : W) × (must_read net fd (length bs) m ≡ done bs (record m { sys = w }))
        × (inbox w ≡ rest)
        × (outbox w ≡ outbox m.sys)
  unfolding read_fully
  must_read_lem bs rest m some_asked come =
      let (w, read, taken, quiet) = read_fully_lem net fd stream bs rest m some_asked come in
      (
        w,
        ap (λ (r : Outcome (Machine Ibv W) (Option ℕ × List ℕ)). and_then r judge) read
            ∙ ap
                (λ (same : Bool).
                  and_then (when (not same) (exit (negsuc 0)) (record m { sys = w }))
                    (λ _. pure bs))
                (same_as (length bs)),
        taken,
        quiet,
      )
    where
      judge : Option ℕ × List ℕ → M (Machine Ibv W) (List ℕ)
      judge (n, got) = do
        elim n [ none ↦ exit (negsuc 0) | some k ↦ when (not (k == length bs)) (exit (negsuc 0)) ]
        pure got

      same_as : (n : ℕ) → (n == n) ≡ true
      same_as n = ground arith

  -- With RDMA the addresses go over the socket.
  abbrev exchange : (ℕ → ℕ) → ℤ → Machine Ibv W → M (Machine Ibv W) (Unit {0})
  exchange address c m = do
    must_write net c (le64 (address_of address m.args.r_buff))
    region ← defined (m.prot.r_mr_hndl)
    must_write net c (le32 region.rkey)
    pointer ← must_read net c 8
    set_prot (λ t. record t { remote_address = of_le64 pointer })
    key ← must_read net c 4
    set_prot (λ t. record t { remote_key = of_le32 key })

  -- AfterAlignmentInit with RDMA, on a socket that is a stream and takes writes of at most eight
  -- bytes whole, when the neighbour's 64-bit address and 32-bit key are to come, in whatever
  -- pieces: it sends the address of the receive buffer and the key of its region, returns with the
  -- address and the key of the neighbour kept, takes these twelve bytes and no more, and changes
  -- nothing else but the system.
  pub after_alignment_init_lem :
      (whole : WholeWrites) (address : ℕ → ℕ) (region : Region) (a k : ℕ) (rest : List ℕ)
      (m : Machine Ibv W)
      → m.args.commfd ≡ fd
      → (m.prot.commtype ≡ np_comm_rdmawrite) ⊎ (m.prot.commtype ≡ np_comm_rdmawrite_with_imm)
      → m.prot.r_mr_hndl ≡ some region
      → a < 2 ^ 64
      → k < 2 ^ 32
      → inbox m.sys ≡ le64 a ++ (le32 k ++ rest)
      → (w : W) × (after_alignment_init net address m
          ≡ done tt
              (record m { prot = record (m.prot) { remote_address = a; remote_key = k }; sys = w }))
        × (inbox w ≡ rest)
        × (outbox w ≡ (outbox m.sys ++ le64 (address_of address m.args.r_buff)) ++ le32 region.rkey)
  unfolding after_alignment_init
  after_alignment_init_lem whole address region a k rest m chan rdma mr small_a small_k come =
      let (w₁, e₁, o₁, i₁) =
        must_write_lem whole (le64 (address_of address m.args.r_buff)) m (omega arith) in
      let m₁ : Machine Ibv W = record m { sys = w₁ } in
      let (w₂, e₂, o₂, i₂) = must_write_lem whole (le32 region.rkey) m₁ (omega arith) in
      let m₂ : Machine Ibv W = record m { sys = w₂ } in
      let (w₃, e₃, i₃, o₃) =
        must_read_lem (le64 a) (le32 k ++ rest) m₂ (omega arith) (i₂ ∙ i₁ ∙ come) in
      let m₃ : Machine Ibv W = record m {
        sys = w₃;
        prot = record (m.prot) { remote_address = of_le64 (le64 a) };
      } in
      let (w₄, e₄, i₄, o₄) = must_read_lem (le32 k) rest m₃ (omega arith) i₃ in
      (
        w₄,
        ap (λ (b : Bool). when b (exchange address m.args.commfd m) m)
              (uses_rdma m.prot.commtype rdma)
            ∙ ap (λ (c : ℤ). exchange address c m m) chan
            ∙ ap
                (λ (r : Outcome (Machine Ibv W) (Unit {0})).
                  and_then r (λ _. after_address m.prot.r_mr_hndl))
                e₁
            ∙ ap (λ (o : Option Region). after_address o m₁) mr
            ∙ ap (λ (r : Outcome (Machine Ibv W) (Unit {0})). and_then r (λ _. reads)) e₂
            ∙ ap (λ (r : Outcome (Machine Ibv W) (List ℕ)). and_then r after_pointer) e₃
            ∙ ap (λ (r : Outcome (Machine Ibv W) (List ℕ)). and_then r after_key) e₄
            ∙ ap (λ (x : ℕ). learned x (of_le32 (le32 k)) w₄) (of_le64-le64 a small_a)
            ∙ ap (λ (x : ℕ). learned a x w₄) (of_le32-le32 k small_k),
        i₄,
        o₄ ∙ o₃ ∙ o₂ ∙ ap (λ (o : List ℕ). o ++ le32 region.rkey) o₁,
      )
    where
      learned : ℕ → ℕ → W → Outcome (Machine Ibv W) (Unit {0})
      learned a k w =
          done tt
            (record m { prot = record (m.prot) { remote_address = a; remote_key = k }; sys = w })

      after_key : List ℕ → M (Machine Ibv W) (Unit {0})
      after_key key = set_prot (λ (t : Ibv). record t { remote_key = of_le32 key })

      after_pointer : List ℕ → M (Machine Ibv W) (Unit {0})
      after_pointer pointer = do
        set_prot (λ (t : Ibv). record t { remote_address = of_le64 pointer })
        key ← must_read net fd 4
        after_key key

      reads : M (Machine Ibv W) (Unit {0})
      reads = do pointer ← must_read net fd 8; after_pointer pointer

      after_address : Option Region → M (Machine Ibv W) (Unit {0})
      after_address o = do region ← defined o; must_write net fd (le32 region.rkey); reads

      uses_rdma :
          (n : ℕ)
          → (n ≡ np_comm_rdmawrite) ⊎ (n ≡ np_comm_rdmawrite_with_imm)
          → ((n == np_comm_rdmawrite) || (n == np_comm_rdmawrite_with_imm)) ≡ true
      uses_rdma n (inl e) =
          ap (λ (n : ℕ). (n == np_comm_rdmawrite) || (n == np_comm_rdmawrite_with_imm)) e
      uses_rdma n (inr e) =
          ap (λ (n : ℕ). (n == np_comm_rdmawrite) || (n == np_comm_rdmawrite_with_imm)) e
