-- ===== src/Pattern/Fill.antt =====
-- `lfsrset` stays inside the buffer and writes exactly the pattern.

use netpipe5_dev.Base.{
  ℕ, zero, suc, ◌+◌, ◌-◌, ◌*◌, ◌/◌, ◌%◌, ◌^◌, ◌≤◌, ◌<◌, ◌≡◌, sym, ◌∙◌, ap, arith, List, [], ◌∷◌,
  some, length, take, get_or,
}
use netpipe5_dev.Base.Bits.{bit_and_clear_two, bit_and_three}
use netpipe5_dev.Effect.{Outcome, done, and_then, ◌>>=◌}
use netpipe5_dev.Memory.{at, overwrite}
use netpipe5_dev.Memory.Laws.{stored, block-stored, stored-stored, stored_nil, length-overwrite}
use netpipe5_dev.Machine.{Machine, le32}
use netpipe5_dev.Machine.Laws.{put_at}
use netpipe5_dev.Lfsr.{lfsr23}
use netpipe5_dev.Lfsr.Laws.{iterate}
use netpipe5_dev.Pattern.{lfsr, set_words, set_rest, lfsrset}
use netpipe5_dev.Pattern.Words.{
  tail_of, tail_of_three, rounds_whole, iterate_suc, words, pattern_of, length-words,
}

module _ {P W : Type 0} where
  -- The machine after the bytes `bs` were written at offset `off` of the block `b`.
  abbrev pub wrote : Machine P W → ℕ → ℕ → List ℕ → List ℕ → ℕ → Machine P W
  wrote m b off bs xs d = record m { heap = stored m.heap b off bs xs; lfsr_data = d }

  set_words_lem :
      (k b i : ℕ) (xs : List ℕ) (m : Machine P W)
      → m.heap.block b ≡ some xs
      → i + 4 * k ≤ length xs
      → set_words k (at b 0) i m
        ≡ done tt (wrote m b i (words k m.lfsr_data) xs (iterate lfsr23 k m.lfsr_data))
  unfolding set_words lfsr
  set_words_lem zero b i xs m e h =
      ap (λ heap. done tt (record m { heap = heap })) (sym (stored_nil m.heap b i xs e))
  set_words_lem (suc k) b i xs m e h =
      let w = lfsr23 m.lfsr_data in
      let m' : Machine P W = record m { lfsr_data = w } in
      ap (λ r. and_then r (λ _. set_words k (at b 0) (i + 4)))
        (put_at m' b (0 + i) i xs (omega arith) e (le32 w) (omega arith))
      ∙ set_words_lem k b (i + 4) (overwrite i (le32 w) xs) (wrote m b i (le32 w) xs w)
          (block-stored m.heap b i (le32 w) xs)
          (omega (arith, length-overwrite i (le32 w) xs (omega arith)))
      ∙ ap (λ heap. done tt (record m { heap = heap; lfsr_data = iterate lfsr23 k w }))
          (stored-stored m.heap b i (i + 4) (le32 w) (words k w) xs (omega arith) (omega arith))

  set_rest_lem :
      (left b end w i : ℕ) (xs : List ℕ) (m : Machine P W)
      → m.heap.block b ≡ some xs
      → i + end + left ≤ length xs
      → set_rest left (at b 0) end w i m
        ≡ done tt (wrote m b (i + end) (tail_of w i left) xs m.lfsr_data)
  unfolding set_rest
  set_rest_lem zero b end w i xs m e h =
      ap (λ heap. done tt (record m { heap = heap })) (sym (stored_nil m.heap b (i + end) xs e))
  set_rest_lem (suc left) b end w i xs m e h =
      let byte : List ℕ = get_or (le32 w) i 0 ∷ [] in
      ap (λ r. and_then r (λ _. set_rest left (at b 0) end w (i + 1)))
        (put_at m b (0 + (i + end)) (i + end) xs (omega arith) e byte (omega arith))
      ∙ set_rest_lem left b end w (i + 1) (overwrite (i + end) byte xs)
          (wrote m b (i + end) byte xs m.lfsr_data) (block-stored m.heap b (i + end) byte xs)
          (omega (arith, length-overwrite (i + end) byte xs (omega arith)))
      ∙ ap (λ heap. done tt (record m { heap = heap }))
          (stored-stored m.heap b (i + end) (i + 1 + end) byte (tail_of w (i + 1) left) xs
            (omega arith) (omega arith))

module _ {P W : Type 0} where
  -- lfsrset at the start of a live block with room for n bytes, n below 2 ^ 64, writes exactly the
  -- first n bytes of the sequence after the seed, changes nothing else of the memory, and leaves
  -- the last word in the register.
  pub lfsrset_lem :
      (b c n : ℕ) (xs : List ℕ) (m : Machine P W)
      → m.heap.block b ≡ some xs
      → n ≤ length xs
      → n < 2 ^ 64
      → lfsrset (at b 0) c n m
        ≡ done tt (wrote m b 0 (pattern_of c n) xs (iterate lfsr23 (n / 4 + 1) c))
  unfolding lfsrset pattern_of
  lfsrset_lem b c n xs m e h small =
      rw (bit_and_three n, bit_and_clear_two n small, rounds_whole n)
        (ap (λ r. and_then r (λ _. after)) (set_words_lem k b 0 xs m₀ e (omega arith))
          ∙ set_rest_lem (n % 4) b (n - n % 4) last 0 (overwrite 0 (words k c) xs)
              (wrote m₀ b 0 (words k c) xs last) (block-stored m.heap b 0 (words k c) xs)
              (omega (arith, length-overwrite 0 (words k c) xs (omega (arith, length-words k c))))
          ∙ rw (tail_of_three last (n % 4) (omega arith), iterate_suc lfsr23 k c)
              (ap (λ heap. done tt (record m { heap = heap; lfsr_data = last }))
                (stored-stored m.heap b 0 (0 + (n - n % 4)) (words k c) (take (n % 4) (le32 last))
                  xs (omega (arith, length-words k c)) (omega (arith, length-words k c)))))
    where
      k : ℕ
      k = n / 4

      last : ℕ
      last = lfsr23 (iterate lfsr23 k c)

      m₀ : Machine P W
      m₀ = record m { lfsr_data = c }

      after : Machine P W → Outcome (Machine P W) (Unit {0})
      after = do w ← lfsr; set_rest (n % 4) (at b 0) (n - n % 4) w 0
