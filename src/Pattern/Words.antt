-- ===== src/Pattern/Words.antt =====
-- The bytes that `lfsrset` is to write, described without the loops.
use native.Mathlib.Numerals.{add-one}
use netpipe5_dev.Base.{
  ◌∷◌, [], ◌<◌, get_or, ◌-◌, ℕ, zero, suc, ◌+◌, ◌*◌, ◌/◌, ◌%◌, ◌≡◌, refl, arith, List, [], ◌++◌,
  length, take, length-append, length-take,
}
use netpipe5_dev.Machine.{le32}
use netpipe5_dev.Lfsr.{lfsr23}
use netpipe5_dev.Lfsr.Laws.{iterate}

-- The next `k` words after `d`, as bytes.
abbrev pub words : ℕ → ℕ → List ℕ
words zero d = []
words (suc k) d = le32 (lfsr23 d) ++ words k (lfsr23 d)

-- The first `n` bytes of the sequence after the seed `c`.
unfoldable pub pattern_of : ℕ → ℕ → List ℕ
pattern_of c n = words (n / 4) c ++ take (n % 4) (le32 (iterate lfsr23 (n / 4 + 1) c))

pub length-words : (k d : ℕ) → length (words k d) ≡ 4 * k
length-words zero d = refl
length-words (suc k) d = omega (arith, length-words k (lfsr23 d))

pub length-pattern_of : (c n : ℕ) → length (pattern_of c n) ≡ n
unfolding pattern_of
length-pattern_of c n =
    let last = le32 (iterate lfsr23 (n / 4 + 1) c) in
    omega (
      arith,
      length-append (words (n / 4) c) (take (n % 4) last),
      length-words (n / 4) c,
      length-take (n % 4) last,
    )

pub rounds_whole : (n : ℕ) → (n - n % 4 + 3) / 4 ≡ n / 4
rounds_whole n = omega arith

pub iterate_suc : (f : ℕ → ℕ) (n d : ℕ) → iterate f (n + 1) d ≡ f (iterate f n d)
iterate_suc f n d = rw add-one (go n d)
  where
    go : (n d : ℕ) → iterate f (suc n) d ≡ f (iterate f n d)
    go zero d = refl
    go (suc n) d = go n (f d)

-- the bytes `i` to `i + left` of `w`
abbrev pub tail_of : ℕ → ℕ → ℕ → List ℕ
tail_of w i zero = []
tail_of w i (suc left) = get_or (le32 w) i 0 ∷ tail_of w (i + 1) left

pub tail_of_three : (w r : ℕ) → r < 4 → tail_of w 0 r ≡ take r (le32 w)
tail_of_three w zero h = refl
tail_of_three w (suc zero) h = refl
tail_of_three w (suc (suc zero)) h = refl
tail_of_three w (suc (suc (suc zero))) h = refl
tail_of_three w (suc (suc (suc (suc r)))) h = absurd (omega arith)
