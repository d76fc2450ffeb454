-- ===== src/Copy/Whole.antt =====
-- The split copies copy the whole range.
use mathlib.Core.Bool.{false≢true}
use native.Mathlib.Nat.{mod-le}
use netpipe5_dev.Base.{
  Option, subst, ℕ, zero, suc, ◌+◌, ◌-◌, ◌%◌, ◌≤◌, ◌≡◌, ◌≢◌, inl, inr, refl, sym, ◌∙◌, ap, arith,
  ltb, leb, ◌==◌, Bool, true, false, not, ◌&&◌, Bool-cases, leb→le, lt→ltb, List, ◌++◌, some,
  length, take, drop, take-add, drop-drop, length-take, length-drop, if◌then◌else◌,
}
use netpipe5_dev.Effect.{M, done, and_then, when, ◌>>◌}
use netpipe5_dev.Memory.{Ptr, at, overwrite, update}
use netpipe5_dev.Memory.Laws.{stored, block-stored, stored-stored, stored_nil, length-overwrite}
use netpipe5_dev.Machine.{Machine, put_bytes}
use netpipe5_dev.Machine.Laws.{put_at, fetch_at}
use netpipe5_dev.Copy.{
  copy_bytes, copy_main, copy_split, memcpy_8, memcpy_16, mp_memcpy, address_of, before_16,
  before_8,
}

piece-length : (j n : ℕ) (ys : List ℕ) → j + n ≤ length ys → length (take n (drop j ys)) ≡ n
piece-length j n ys h = omega (arith, length-take n (drop j ys), length-drop j ys)

module _ {P W : Type 0} where
  -- The machine after `n` bytes from offset `j` of `ys` went to offset `i` of the block `b`.
  abbrev pub copied : Machine P W → ℕ → ℕ → ℕ → ℕ → List ℕ → List ℕ → Machine P W
  copied m b i j n xs ys = record m { heap = stored m.heap b i (take n (drop j ys)) xs }

  module _ (b c : ℕ) (apart : b ≢ c) where
    -- The two blocks hold `xs` and `ys`, with room for the copy.
    record Ready (i j n : ℕ) (xs ys : List ℕ) (m : Machine P W) : Type 0 where
      dest_live : m.heap.block b ≡ some xs
      src_live : m.heap.block c ≡ some ys
      dest_room : i + n ≤ length xs
      src_room : j + n ≤ length ys

    copy_bytes_lem :
        (i j n : ℕ) (xs ys : List ℕ) (m : Machine P W)
        → Ready i j n xs ys m
        → copy_bytes (at b i) (at c j) n m ≡ done tt (copied m b i j n xs ys)
    copy_bytes_lem i j n xs ys m ready =
        ap (λ r. and_then r (λ bytes. put_bytes (at b i) bytes))
          (fetch_at m c j j ys refl ready.src_live n ready.src_room)
        ∙ put_at m b i i xs refl ready.dest_live (take n (drop j ys))
            (omega (arith, ready.dest_room, piece-length j n ys ready.src_room))

    when_some :
        (i j n : ℕ) (xs ys : List ℕ) (m : Machine P W)
        → Ready i j n xs ys m
        → when (ltb 0 n) (copy_bytes (at b i) (at c j) n) m ≡ done tt (copied m b i j n xs ys)
    when_some i j zero xs ys m ready =
        ap (λ h. done tt (record m { heap = h })) (sym (stored_nil m.heap b i xs ready.dest_live))
    when_some i j (suc n) xs ys m ready =
        ap (λ t. when t (copy_bytes (at b i) (at c j) (suc n)) m) (lt→ltb 0 (suc n) (omega arith))
        ∙ copy_bytes_lem i j (suc n) xs ys m ready

    -- After the first `n` bytes the next `k` can be copied, and both copies are one.
    Ready-next :
        (i j n k : ℕ) (xs ys : List ℕ) (m : Machine P W)
        → Ready i j (n + k) xs ys m
        → Ready (i + n) (j + n) k (overwrite i (take n (drop j ys)) xs) ys (copied m b i j n xs ys)
    Ready-next i j n k xs ys m ready = record {
      dest_live = block-stored m.heap b i (take n (drop j ys)) xs;
      src_live = other (m.heap.block) (some (overwrite i (take n (drop j ys)) xs)) ∙ ready.src_live;
      dest_room = omega (
        arith,
        ready.dest_room,
        length-overwrite i (take n (drop j ys)) xs (
            omega (
              arith,
              ready.dest_room,
              ready.src_room,
              piece-length j n ys (omega (arith, ready.src_room)),
            )),
      );
      src_room = omega (arith, ready.src_room);
    }
      where
        other : (f : ℕ → Option (List ℕ)) (v : Option (List ℕ)) → update f b v c ≡ f c
        other f v = ground arith

    Ready-first :
        (i j n k : ℕ) (xs ys : List ℕ) (m : Machine P W)
        → Ready i j (n + k) xs ys m
        → Ready i j n xs ys m
    Ready-first i j n k xs ys m ready = record {
      dest_live = ready.dest_live;
      src_live = ready.src_live;
      dest_room = omega (arith, ready.dest_room);
      src_room = omega (arith, ready.src_room);
    }

    copied-copied :
        (i j n k : ℕ) (xs ys : List ℕ) (m : Machine P W)
        → Ready i j (n + k) xs ys m
        → copied
            (copied m b i j n xs ys)
            b
            (i + n)
            (j + n)
            k
            (overwrite i (take n (drop j ys)) xs)
            ys
          ≡ copied m b i j (n + k) xs ys
    copied-copied i j n k xs ys m ready =
        let len = piece-length j n ys (omega (arith, ready.src_room)) in
        ap (λ h. record m { heap = h })
          (stored-stored m.heap b i (i + n) (take n (drop j ys)) (take k (drop (j + n) ys)) xs
            (omega (arith, len)) (omega (arith, len, ready.dest_room)))
        ∙ ap (λ l. record m { heap = stored m.heap b i l xs })
            (ap (λ l. take n (drop j ys) ++ take k l) (sym (drop-drop j n ys))
              ∙ sym (take-add n k (drop j ys)))

    -- A copy of `n` bytes followed by `rest`, which copies the next `k`.
    then_rest :
        (first rest : M (Machine P W) (Unit {0})) (i j n k : ℕ) (xs ys : List ℕ) (m : Machine P W)
        → Ready i j (n + k) xs ys m
        → first m ≡ done tt (copied m b i j n xs ys)
        → rest (copied m b i j n xs ys)
          ≡ done tt (
              copied
                (copied m b i j n xs ys)
                b
                (i + n)
                (j + n)
                k
                (overwrite i (take n (drop j ys)) xs)
                ys)
        → (first >> rest) m ≡ done tt (copied m b i j (n + k) xs ys)
    then_rest first rest i j n k xs ys m ready first_eq rest_eq =
        ap (λ r. and_then r (λ _. rest)) first_eq
        ∙ rest_eq
        ∙ ap (λ s. done tt s) (copied-copied i j n k xs ys m ready)

    copy_main_lem :
        (width i j n : ℕ) (xs ys : List ℕ) (m : Machine P W)
        → Ready i j n xs ys m
        → copy_main width (at b i) (at c j) n m ≡ done tt (copied m b i j n xs ys)
    copy_main_lem width i j n xs ys m ready =
        then_rest (when (ltb 0 main) (copy_bytes (at b i) (at c j) main))
          (when (ltb 0 after) (copy_bytes (at b (i + main)) (at c (j + main)) after)) i j main after
          xs ys m whole (when_some i j main xs ys m (Ready-first i j main after xs ys m whole))
          (when_some (i + main) (j + main) after _ ys _ (Ready-next i j main after xs ys m whole))
        ∙ ap (λ k. done tt (copied m b i j k xs ys)) sum
      where
        after : ℕ
        after = n % width

        main : ℕ
        main = n - after

        sum : main + after ≡ n
        sum = omega (arith, mod-le n width)

        whole : Ready i j (main + after) xs ys m
        whole = subst (λ k. Ready i j k xs ys m) (sym sum) ready

    copy_split_lem :
        (width nb_b4 i j n : ℕ) (xs ys : List ℕ) (m : Machine P W)
        → Ready i j n xs ys m
        → copy_split width nb_b4 (at b i) (at c j) n m ≡ done tt (copied m b i j n xs ys)
    copy_split_lem width nb_b4 i j n xs ys m ready =
        elim (Bool-cases (not (nb_b4 == width) && leb nb_b4 n)) [
          | inl e ↦ ap (λ t. branch t m) e ∙ split (fits (not (nb_b4 == width)) e)
          | inr e ↦ ap (λ t. branch t m) e ∙ copy_main_lem width i j n xs ys m ready
        ]
      where
        rest : M (Machine P W) (Unit {0})
        rest = copy_main width (at b (i + nb_b4)) (at c (j + nb_b4)) (n - nb_b4)

        branch : Bool → M (Machine P W) (Unit {0})
        branch t =
            if t
            then copy_bytes (at b i) (at c j) nb_b4 >> rest
            else copy_main width (at b i) (at c j) n

        fits : (t : Bool) → (t && leb nb_b4 n) ≡ true → nb_b4 ≤ n
        fits true e = leb→le nb_b4 n e
        fits false e = absurd (false≢true e)

        split : nb_b4 ≤ n → branch true m ≡ done tt (copied m b i j n xs ys)
        split le =
            let sum : nb_b4 + (n - nb_b4) ≡ n = omega arith in
            let whole = subst (λ k. Ready i j k xs ys m) (sym sum) ready in
            then_rest (copy_bytes (at b i) (at c j) nb_b4) rest i j nb_b4 (n - nb_b4) xs ys m whole
              (copy_bytes_lem i j nb_b4 xs ys m (Ready-first i j nb_b4 (n - nb_b4) xs ys m whole))
              (copy_main_lem width (i + nb_b4) (j + nb_b4) (n - nb_b4) _ ys _
                (Ready-next i j nb_b4 (n - nb_b4) xs ys m whole))
            ∙ ap (λ k. done tt (copied m b i j k xs ys)) sum

    -- memcpy_8, between ranges inside two different live blocks and wherever the system has put
    -- them, copies as the C library's memcpy does: the bytes of the one range go to the other and
    -- nothing else changes.
    pub memcpy_8_copies :
        (address : ℕ → ℕ) (i j n : ℕ) (xs ys : List ℕ) (m : Machine P W)
        → m.heap.block b ≡ some xs
        → m.heap.block c ≡ some ys
        → i + n ≤ length xs
        → j + n ≤ length ys
        → memcpy_8 address (at b i) (at c j) n m ≡ done tt (copied m b i j n xs ys)
    unfolding memcpy_8
    memcpy_8_copies address i j n xs ys m dest src dest_fits src_fits =
        copy_split_lem 8 (before_8 (address_of address (at c j))) i j n xs ys m
          (record { dest_live = dest; src_live = src; dest_room = dest_fits; src_room = src_fits })

    -- MP_memcpy of at most LONGMSGSIZE bytes, between ranges inside two different live blocks and
    -- wherever the system has put them, copies as the C library's memcpy does: the bytes of the one
    -- range go to the other and nothing else changes.
    pub mp_memcpy_copies :
        (address : ℕ → ℕ) (ntcopy : Ptr → Ptr → ℕ → M (Machine P W) (Unit {0})) (i j n : ℕ)
        (xs ys : List ℕ) (m : Machine P W)
        → n ≤ 327680
        → m.heap.block b ≡ some xs
        → m.heap.block c ≡ some ys
        → i + n ≤ length xs
        → j + n ≤ length ys
        → mp_memcpy address ntcopy (at b i) (at c j) n m ≡ done tt (copied m b i j n xs ys)
    unfolding mp_memcpy memcpy_16
    mp_memcpy_copies address ntcopy i j n xs ys m short dest src dest_fits src_fits =
        ap
          (λ t. (if t then ntcopy (at b i) (at c j) n else memcpy_16 address (at b i) (at c j) n) m)
          (not_long n short)
        ∙ copy_split_lem 16 (before_16 (address_of address (at b i))) i j n xs ys m (record {
          dest_live = dest;
          src_live = src;
          dest_room = dest_fits;
          src_room = src_fits;
        })
      where
        not_long : (n : ℕ) → n ≤ 327680 → ltb 327680 n ≡ false
        not_long n h = ground arith
