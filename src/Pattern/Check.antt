-- ===== src/Pattern/Check.antt =====
-- `lfsrcheck` prints nothing exactly when the buffer holds the pattern.
use netpipe5_dev.Base.{
  ℕ, zero, suc, ◌+◌, ◌-◌, ◌*◌, ◌/◌, ◌%◌, ◌^◌, ◌≤◌, ◌<◌, ◌≡◌, refl, sym, ◌∙◌, ap, arith, List, ◌∷◌,
  some, length, take, drop, get_or, Bool, true, false, not, ◌==◌, drop-drop,
}
use netpipe5_dev.Base.Bits.{bit_and_clear_two, bit_and_three}
use netpipe5_dev.Effect.{Outcome, done, and_then, when, ◌>>=◌, ◌>>◌}
use netpipe5_dev.Memory.{at}
use netpipe5_dev.Machine.{Machine, Message, mismatch, le32, of_le32, print}
use netpipe5_dev.Machine.Laws.{fetch_at}
use netpipe5_dev.Lfsr.{lfsr23}
use netpipe5_dev.Lfsr.Laws.{iterate}
use netpipe5_dev.Pattern.{lfsr, check_words, check_rest, lfsrcheck}
use netpipe5_dev.Pattern.Words.{rounds_whole, iterate_suc}

abbrev pub note : Bool → Message → List Message → List Message
note true e acc = acc
note false e acc = e ∷ acc

-- What the loop over words prints on top of `acc`, for the bytes `ys` from index `i`.
abbrev pub word_reports : ℕ → ℕ → ℕ → List ℕ → List Message → List Message
word_reports zero d i ys acc = acc
word_reports (suc k) d i ys acc =
    let got = of_le32 (take 4 ys) in
    word_reports k (lfsr23 d) (i + 4) (drop 4 ys)
      (note (got == lfsr23 d) (mismatch i (lfsr23 d) got) acc)

abbrev pub byte_reports : ℕ → ℕ → ℕ → ℕ → List ℕ → List Message → List Message
byte_reports zero w end i ys acc = acc
byte_reports (suc left) w end i ys acc =
    let expected = get_or (le32 w) i 0 in
    let got = get_or (take 1 ys) 0 0 in
    byte_reports left w end (i + 1) (drop 1 ys)
      (note (got == expected) (mismatch (i + end) expected got) acc)

-- What `lfsrcheck` prints on top of `acc`.
abbrev pub reports : ℕ → ℕ → List ℕ → List Message → List Message
reports c n xs acc =
    byte_reports (n % 4) (iterate lfsr23 (n / 4 + 1) c) (n - n % 4) 0 (drop (n - n % 4) xs)
      (word_reports (n / 4) c 0 xs acc)

when-note :
    {P W : Type 0} (same : Bool) (e : Message) (m : Machine P W)
    → when (not same) (print e) m ≡ done tt (record m { printed = note same e m.printed })
when-note true e m = refl
when-note false e m = refl

module _ {P W : Type 0} where
  check_words_lem :
      (k b i : ℕ) (xs : List ℕ) (m : Machine P W)
      → m.heap.block b ≡ some xs
      → i + 4 * k ≤ length xs
      → check_words k (at b 0) i m
        ≡ done tt (record m {
          lfsr_data = iterate lfsr23 k m.lfsr_data;
          printed = word_reports k m.lfsr_data i (drop i xs) m.printed;
        })
  unfolding check_words lfsr
  check_words_lem zero b i xs m e h = refl
  check_words_lem (suc k) b i xs m e h =
      let w = lfsr23 m.lfsr_data in
      let got = of_le32 (take 4 (drop i xs)) in
      let m' : Machine P W = record m {
        lfsr_data = w;
        printed = note (got == w) (mismatch i w got) m.printed;
      } in
      ap
        (λ r. and_then r λ bytes. do
          v ← lfsr
          when (not (of_le32 bytes == v)) (print (mismatch i v (of_le32 bytes)))
          check_words k (at b 0) (i + 4))
        (fetch_at m b (0 + i) i xs (omega arith) e 4 (omega arith))
      ∙ ap (λ r. and_then r (λ _. check_words k (at b 0) (i + 4)))
          (when-note (got == w) (mismatch i w got) (record m { lfsr_data = w }))
      ∙ check_words_lem k b (i + 4) xs m' e (omega arith)
      ∙ ap
          (λ ys. done tt (record m {
            lfsr_data = iterate lfsr23 k w;
            printed = word_reports k w (i + 4) ys (note (got == w) (mismatch i w got) m.printed);
          }))
          (sym (drop-drop i 4 xs))

  check_rest_lem :
      (left b end w i : ℕ) (xs : List ℕ) (m : Machine P W)
      → m.heap.block b ≡ some xs
      → i + end + left ≤ length xs
      → check_rest left (at b 0) end w i m
        ≡ done tt (record m { printed = byte_reports left w end i (drop (i + end) xs) m.printed })
  unfolding check_rest
  check_rest_lem zero b end w i xs m e h = refl
  check_rest_lem (suc left) b end w i xs m e h =
      let expected = get_or (le32 w) i 0 in
      let got = get_or (take 1 (drop (i + end) xs)) 0 0 in
      let report = mismatch (i + end) expected got in
      let m' : Machine P W = record m { printed = note (got == expected) report m.printed } in
      ap
        (λ r. and_then r λ bytes. do
          when (not (get_or bytes 0 0 == expected))
              (print (mismatch (i + end) expected (get_or bytes 0 0)))
          check_rest left (at b 0) end w (i + 1))
        (fetch_at m b (0 + (i + end)) (i + end) xs (omega arith) e 1 (omega arith))
      ∙ ap (λ r. and_then r (λ _. check_rest left (at b 0) end w (i + 1)))
          (when-note (got == expected) report m)
      ∙ check_rest_lem left b end w (i + 1) xs m' e (omega arith)
      ∙ ap
          (λ ys. done tt (record m {
            printed = byte_reports left w end (i + 1) ys (note (got == expected) report m.printed);
          }))
          (next_index i end ∙ sym (drop-drop (i + end) 1 xs))
    where
      next_index : (i end : ℕ) → drop (i + 1 + end) xs ≡ drop (i + end + 1) xs
      next_index i end = let e : i + 1 + end ≡ i + end + 1 = omega arith in ap (λ k. drop k xs) e

  -- `lfsrcheck` reads inside the block and changes nothing but the register and what is printed.
  pub lfsrcheck_lem :
      (b c n : ℕ) (xs : List ℕ) (m : Machine P W)
      → m.heap.block b ≡ some xs
      → n ≤ length xs
      → n < 2 ^ 64
      → lfsrcheck (at b 0) c n m
        ≡ done tt (record m {
          lfsr_data = iterate lfsr23 (n / 4 + 1) c;
          printed = reports c n xs m.printed;
        })
  unfolding lfsrcheck
  lfsrcheck_lem b c n xs m e h small =
      rw (bit_and_three n, bit_and_clear_two n small, rounds_whole n, iterate_suc lfsr23 k c)
        (ap (λ r. and_then r (λ _. after)) (check_words_lem k b 0 xs m₀ e (omega arith))
          ∙ check_rest_lem (n % 4) b (n - n % 4) last 0 xs m₁ e (omega arith)
          ∙ ap
              (λ i. done tt (record m₁ {
                printed = byte_reports (n % 4) last (n - n % 4) 0 (drop i xs) m₁.printed;
              }))
              from_zero)
    where
      k : ℕ
      k = n / 4

      last : ℕ
      last = lfsr23 (iterate lfsr23 k c)

      m₀ : Machine P W
      m₀ = record m { lfsr_data = c }

      m₁ : Machine P W
      m₁ = record m { lfsr_data = last; printed = word_reports k c 0 xs m.printed }

      after : Machine P W → Outcome (Machine P W) (Unit {0})
      after = do w ← lfsr; check_rest (n % 4) (at b 0) (n - n % 4) w 0

      from_zero : 0 + (n - n % 4) ≡ n - n % 4
      from_zero = omega arith
