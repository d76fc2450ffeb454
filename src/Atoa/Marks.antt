-- ===== src/Atoa/Marks.antt =====
-- InitBufferData of src/mpi_atoa.c on the transmitter, with a cache.
use netpipe5_dev.Base.{
  arith, ℕ, zero, suc, ◌+◌, ◌*◌, ◌≤◌, ◌≡◌, ◌≢◌, ◌∙◌, refl, sym, ap, Option, some, List, [], ◌∷◌,
  ◌++◌, append_assoc, length, drop, replicate, repeated, if◌then◌else◌, length-append,
  length-replicate,
}
use netpipe5_dev.Effect.{M, Outcome, done, and_then, defined, ◌>>=◌, ◌>>◌, skip, when, truth}
use netpipe5_dev.Memory.{Ptr, at, Heap, overwrite, update}
use netpipe5_dev.Memory.Laws.{stored, store_at, block-stored, overwrite-zero}
use netpipe5_dev.Machine.{Machine, put_bytes}
use netpipe5_dev.Atoa.{Atoa, last_of, mark_all, atoa_init_buffer_data}

abbrev pub letters : ℕ → List ℕ
letters n = replicate n 97

-- A message of `d` bytes 'a' and a 'b'.
abbrev pub marked : ℕ → List ℕ
marked d = letters d ++ 98 ∷ []

overwrite-append :
    (n off : ℕ) (bs front xs : List ℕ)
    → n ≡ length front + off
    → overwrite n bs (front ++ xs) ≡ front ++ overwrite off bs xs
overwrite-append n off bs [] xs e = ap (λ (n : ℕ). overwrite n bs xs) (omega (arith, e))
overwrite-append zero off bs (f ∷ front) xs e = absurd (omega (arith, e))
overwrite-append (suc n) off bs (f ∷ front) xs e =
    ap (λ (ys : List ℕ). f ∷ ys) (overwrite-append n off bs front xs (omega (arith, e)))

overwrite-replicate :
    (d : ℕ) (ys : List ℕ) → overwrite d (98 ∷ []) (letters (suc d) ++ ys) ≡ marked d ++ ys
overwrite-replicate zero ys = refl
overwrite-replicate (suc d) ys = ap (λ (zs : List ℕ). 97 ∷ zs) (overwrite-replicate d ys)

-- The block after one mark.
mark_one :
    (d i : ℕ) (front ys : List ℕ)
    → length front ≡ suc d * i
    → overwrite (length front + d) (98 ∷ []) (front ++ (letters (suc d) ++ ys))
      ≡ (front ++ marked d) ++ ys
mark_one d i front ys e =
    overwrite-append (length front + d) d (98 ∷ []) front (letters (suc d) ++ ys) refl
    ∙ ap (λ (zs : List ℕ). front ++ zs) (overwrite-replicate d ys)
    ∙ sym (append_assoc front (marked d) ys)

-- A run that returns with the block `b` holding `bytes`, and nothing else moved.
pub record Holds {W : Type 0} (b : ℕ) (bytes : List ℕ) (m : Machine Atoa W)
    (o : Outcome (Machine Atoa W) (Unit {0})) : Type 0 where
  pub after : Heap
  pub ran : o ≡ done tt (record m { heap = after })
  pub block_is : after.block b ≡ some bytes
  pub others : (c : ℕ) → c ≢ b → after.block c ≡ m.heap.block c

length-letters : (n : ℕ) → length (letters n) ≡ n
length-letters n = length-replicate {A = ℕ} n 97

length-marked : (d : ℕ) → length (marked d) ≡ suc d
length-marked d = omega (arith, length-append (letters d) (98 ∷ []), length-letters d)

zero-plus : (n : ℕ) → 0 + n ≡ n
zero-plus n = omega arith

step_mul : (d i : ℕ) → suc d * (i + 1) ≡ suc d * i + suc d
step_mul d i = grind arith

-- Where the next mark goes, and the bytes before the one after.
next_mark :
    (d i : ℕ) (front : List ℕ) → length front ≡ suc d * i → suc d * (i + 1) ≡ suc (length front + d)
next_mark d i front e = omega (arith, step_mul d i, e)

longer :
    (d i : ℕ) (front : List ℕ)
    → length front ≡ suc d * i
    → length (front ++ marked d) ≡ suc d * (i + 1)
longer d i front e = omega (arith, step_mul d i, e, length-append front (marked d), length-marked d)

suc_plus : (a b : ℕ) → suc a + b ≡ suc (a + b)
suc_plus a b = omega arith

mul_zero : (n : ℕ) → n * 0 ≡ 0
mul_zero n = omega arith

mul_suc : (n k : ℕ) → n * suc k ≡ n + n * k
mul_suc n k = grind arith

replicate-plus : (a b : ℕ) → letters (a + b) ≡ letters a ++ letters b
replicate-plus zero b = ap letters (zero-plus b)
replicate-plus (suc a) b =
    ap letters (suc_plus a b) ∙ ap (λ (zs : List ℕ). 97 ∷ zs) (replicate-plus a b)

replicate-repeated : (k n : ℕ) → letters (n * k) ≡ repeated k (letters n)
replicate-repeated zero n = ap letters (mul_zero n)
replicate-repeated (suc k) n =
    ap letters (mul_suc n k)
    ∙ replicate-plus n (n * k)
    ∙ ap (λ (zs : List ℕ). letters n ++ zs) (replicate-repeated k n)

update_other :
    (f : ℕ → Option (List ℕ)) (b c : ℕ) (v : Option (List ℕ)) → c ≢ b → update f b v c ≡ f c
update_other f b c v h = ground arith

module _ {W : Type 0} where
  -- The mark at the pointer, and the rest of the loop.
  abbrev then_mark : ℕ → ℕ → ℕ → Option Ptr → M (Machine Atoa W) (Unit {0})
  then_mark left i d found = do
    q ← defined found
    put_bytes q (98 ∷ [])
    mark_all left (i + 1) (suc d)

  mark_all_lem :
      (left i d b : ℕ) (front rest : List ℕ) (m : Machine Atoa W)
      → m.args.r_buff ≡ at b 0
      → length front ≡ suc d * i
      → m.heap.block b ≡ some (front ++ (repeated left (letters (suc d)) ++ rest))
      → Holds b (front ++ (repeated left (marked d) ++ rest)) m (mark_all left i (suc d) m)
  unfolding mark_all
  mark_all_lem zero i d b front rest m pe le be = record {
    after = m.heap;
    ran = refl;
    block_is = be;
    others = λ c ne. refl;
  }
  mark_all_lem (suc left) i d b front rest m pe le be =
      let off = length front + d in
      let tail = repeated left (letters (suc d)) ++ rest in
      let xs : List ℕ = front ++ (letters (suc d) ++ tail) in
      let be' : m.heap.block b ≡ some xs =
        be
        ∙ ap (λ (zs : List ℕ). some (front ++ zs))
            (append_assoc (letters (suc d)) (repeated left (letters (suc d))) rest) in
      let room : off + 1 ≤ length xs = omega (
        arith,
        length-append front (letters (suc d) ++ tail),
        length-append (letters (suc d)) tail,
        length-letters (suc d),
      ) in
      let m₁ : Machine Atoa W = record m { heap = stored m.heap b off (98 ∷ []) xs } in
      let h =
        mark_all_lem left (i + 1) d b (front ++ marked d) rest m₁ pe (longer d i front le)
          (block-stored m.heap b off (98 ∷ []) xs ∙ ap some (mark_one d i front tail le)) in
      record {
        after = h.after;
        ran =
            ap (λ (r : Ptr). then_mark left i d (last_of r (suc d * (i + 1))) m) pe
            ∙ ap (λ (k : ℕ). then_mark left i d (last_of (at b 0) k) m) (next_mark d i front le)
            ∙ ap (λ (o : ℕ). then_mark left i d (some (at b o)) m) (zero-plus off)
            ∙ ap
                (λ (found : Option Heap).
                  and_then
                    (and_then (defined found m)
                      (λ h (m : Machine Atoa W). done tt (record m { heap = h })))
                    (λ _. mark_all left (i + 1) (suc d)))
                (store_at m.heap b off (98 ∷ []) xs be' room)
            ∙ h.ran;
        block_is =
            h.block_is
            ∙ ap some (
                append_assoc front (marked d) (repeated left (marked d) ++ rest)
                ∙ ap (λ (zs : List ℕ). front ++ zs)
                    (sym (append_assoc (marked d) (repeated left (marked d)) rest)));
        others = λ c ne.
            h.others c ne ∙ update_other m.heap.block b c (some (overwrite off (98 ∷ []) xs)) ne;
      }

  -- The marks after the buffer is filled.
  abbrev marks : ℕ → ℕ → ℕ → ℕ → ℕ → Ptr → Ptr → M (Machine Atoa W) (Unit {0})
  marks cache tr rcv nprocs nbytes r s =
      if truth cache
      then (do
        when (truth tr) (mark_all nprocs 0 nbytes)
        when (truth rcv) do q ← defined (last_of r nbytes); put_bytes q (98 ∷ []))
      else put_bytes s (replicate nbytes 98)

  -- A run that is followed by nothing.
  Holds-skip :
      (b : ℕ) (bytes : List ℕ) (m : Machine Atoa W) (o : Outcome (Machine Atoa W) (Unit {0}))
      → Holds b bytes m o
      → Holds b bytes m (and_then o (λ _. skip))
  Holds-skip b bytes m o h = record {
    after = h.after;
    ran = ap (λ (o : Outcome (Machine Atoa W) (Unit {0})). and_then o (λ _. skip)) h.ran;
    block_is = h.block_is;
    others = h.others;
  }

  -- InitBufferData of src/mpi_atoa.c on a transmitter with a cache, for messages of one byte or
  -- more and with the receive buffer at the start of a live block with room for one for each
  -- process: the block then begins with as many messages as there are processes, each of 'a' bytes
  -- and a 'b' at its end, the rest of the block is as it was, and nothing else is changed.
  pub atoa_init_buffer_data_lem :
      (d b soffset roffset : ℕ) (xs : List ℕ) (m : Machine Atoa W)
      → m.args.r_buff ≡ at b 0
      → m.heap.block b ≡ some xs
      → suc d * m.prot.nprocs ≤ length xs
      → m.args.cache ≡ 1
      → m.args.tr ≡ 1
      → m.args.rcv ≡ 0
      → Holds b
          (repeated m.prot.nprocs (marked d) ++ drop (suc d * m.prot.nprocs) xs)
          m
          (atoa_init_buffer_data (suc d) soffset roffset m)
  unfolding atoa_init_buffer_data
  atoa_init_buffer_data_lem d b soffset roffset xs m pe be room ce te re =
      let k = m.prot.nprocs in
      let size = suc d * k in
      let h : Heap = stored m.heap b 0 (letters size) xs in
      let m₁ : Machine Atoa W = record m { heap = h } in
      let fits : length (letters size) ≤ length xs = omega (arith, room, length-letters size) in
      let filled : h.block b ≡ some ([] ++ (repeated k (letters (suc d)) ++ drop size xs)) =
        block-stored m.heap b 0 (letters size) xs
        ∙ ap some (
            overwrite-zero (letters size) xs fits
            ∙ ap (λ (n : ℕ). letters size ++ drop n xs) (length-letters size)
            ∙ ap (λ (zs : List ℕ). zs ++ drop size xs) (replicate-repeated k (suc d))) in
      let done_all =
        Holds-skip b _ m₁ _
          (mark_all_lem k 0 d b [] (drop size xs) m₁ pe (sym (mul_zero (suc d))) filled) in
      record {
        after = done_all.after;
        ran =
            ap
              (λ (r : Ptr). and_then (put_bytes r (letters size) m) (λ _.
                marks m.args.cache m.args.tr m.args.rcv k (suc d) m.args.r_buff m.args.s_buff))
              pe
            ∙ ap
                (λ (found : Option Heap).
                  and_then
                    (and_then (defined found m)
                      (λ h (m : Machine Atoa W). done tt (record m { heap = h })))
                    (λ _.
                      marks m.args.cache m.args.tr m.args.rcv k (suc d) m.args.r_buff
                        m.args.s_buff))
                (store_at m.heap b 0 (letters size) xs be (omega (arith, fits)))
            ∙ ap (λ (c : ℕ). marks c m.args.tr m.args.rcv k (suc d) m.args.r_buff m.args.s_buff m₁)
                ce
            ∙ ap (λ (t : ℕ). marks 1 t m.args.rcv k (suc d) m.args.r_buff m.args.s_buff m₁) te
            ∙ ap (λ (r : ℕ). marks 1 1 r k (suc d) m.args.r_buff m.args.s_buff m₁) re
            ∙ done_all.ran;
        block_is = done_all.block_is;
        others = λ c ne.
            done_all.others c ne
            ∙ update_other m.heap.block b c (some (overwrite 0 (letters size) xs)) ne;
      }
