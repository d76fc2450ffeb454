-- ===== src/Pattern.antt =====
-- `lfsrset` and `lfsrcheck` of src/netpipe.c: a buffer is filled with the words of the register,
-- and compared with them.
pub mod Words
pub mod Fill
pub mod Check
pub mod Clean
use netpipe5_dev.Base.{ℕ, zero, suc, ◌+◌, ◌-◌, ◌/◌, ◌%◌, bit_and, not, ◌==◌, List, [], ◌∷◌, get_or}
use netpipe5_dev.Effect.{M, ◌>>=◌, ◌>>◌, pure, gets, modify, skip, when}
use netpipe5_dev.Memory.{Ptr, advance}
use netpipe5_dev.Machine.{Machine, le32, of_le32, put_bytes, load_bytes, print, mismatch}
use netpipe5_dev.Lfsr.{lfsr23}

-- `n & ~(inc - 1)` on size_t, `n & (inc - 1)`, and the rounds of a loop that goes up by `inc`
abbrev pub whole : ℕ → ℕ
whole n = bit_and n 0xFFFFFFFFFFFFFFFC

abbrev pub remaining : ℕ → ℕ
remaining n = bit_and n 3

abbrev pub rounds : ℕ → ℕ
rounds end = (end + 3) / 4

module _ {P W : Type 0} where
  -- `LFSR()`, which netpipe.c defines as `lfsr23`: the step, and the new word.
  pub lfsr : M (Machine P W) ℕ
  lfsr = do modify (λ m. record m { lfsr_data = lfsr23 m.lfsr_data }); gets (λ m. m.lfsr_data)

  -- `for (i = 0; i < end; i += inc)` with the rounds left; `i` counts bytes.
  pub set_words : ℕ → Ptr → ℕ → M (Machine P W) (Unit {0})
  set_words zero s i = skip
  set_words (suc left) s i = do w ← lfsr; put_bytes (advance s i) (le32 w); set_words left s (i + 4)

  -- The loop over the last bytes, whose values are those of `last`.
  pub set_rest : ℕ → Ptr → ℕ → ℕ → ℕ → M (Machine P W) (Unit {0})
  set_rest zero s end last i = skip
  set_rest (suc left) s end last i = do
    put_bytes (advance s (i + end)) (get_or (le32 last) i 0 ∷ [])
    set_rest left s end last (i + 1)

  unfoldable pub lfsrset : Ptr → ℕ → ℕ → M (Machine P W) (Unit {0})
  unfolding lfsr set_words set_rest
  lfsrset s c n = do
    let end = whole n
    let rem = remaining n
    modify (λ m. record m { lfsr_data = c })
    set_words (rounds end) s 0
    last ← lfsr
    set_rest rem s end last 0

  pub check_words : ℕ → Ptr → ℕ → M (Machine P W) (Unit {0})
  check_words zero s i = skip
  check_words (suc left) s i = do
    bytes ← load_bytes (advance s i) 4
    w ← lfsr
    when (not (of_le32 bytes == w)) (print (mismatch i w (of_le32 bytes)))
    check_words left s (i + 4)

  pub check_rest : ℕ → Ptr → ℕ → ℕ → ℕ → M (Machine P W) (Unit {0})
  check_rest zero s end last i = skip
  check_rest (suc left) s end last i = do
    bytes ← load_bytes (advance s (i + end)) 1
    let expected = get_or (le32 last) i 0
    let got = get_or bytes 0 0
    when (not (got == expected)) (print (mismatch (i + end) expected got))
    check_rest left s end last (i + 1)

  unfoldable pub lfsrcheck : Ptr → ℕ → ℕ → M (Machine P W) (Unit {0})
  unfolding lfsr check_words check_rest
  lfsrcheck s c n = do
    let end = whole n
    let rem = remaining n
    modify (λ m. record m { lfsr_data = c })
    check_words (rounds end) s 0
    last ← lfsr
    check_rest rem s end last 0
