-- ===== src/Pattern/Clean.antt =====
-- `lfsrcheck` prints nothing exactly when the buffer holds the pattern.
use netpipe5_dev.Base.{
  ℕ, zero, suc, ◌+◌, ◌-◌, ◌*◌, ◌/◌, ◌%◌, ◌^◌, ◌≤◌, ◌<◌, ◌≡◌, refl, sym, ◌∙◌, ap, ap₂, arith, List,
  [], ◌∷◌, ◌++◌, length, take, drop, get_or, append_assoc, Bool, true, false, ◌==◌, length-drop,
  ==_iff, subst, take-add, take-append-drop, drop-append_at, some, ◌↔◌,
}
use netpipe5_dev.Effect.{done}
use netpipe5_dev.Memory.{at}
use netpipe5_dev.Pattern.{lfsrcheck}
use netpipe5_dev.Machine.{Machine, Message, mismatch, le32, of_le32}
use netpipe5_dev.Lfsr.{lfsr23}
use netpipe5_dev.Lfsr.Laws.{iterate, iterate-lfsr23_range}
use netpipe5_dev.Pattern.Check.{note, word_reports, byte_reports, reports, lfsrcheck_lem}
use netpipe5_dev.Pattern.Words.{tail_of, tail_of_three, words, pattern_of, length-words}

abbrev pub IsBytes : List ℕ → Type 0
IsBytes [] = Unit
IsBytes (x ∷ xs) = (x < 256) × IsBytes xs

pub IsBytes-drop : (n : ℕ) (xs : List ℕ) → IsBytes xs → IsBytes (drop n xs)
IsBytes-drop zero xs h = h
IsBytes-drop (suc n) [] h = h
IsBytes-drop (suc n) (x ∷ xs) h = IsBytes-drop n xs h.1

pub of_le32-le32 : (w : ℕ) → w < 2 ^ 32 → of_le32 (le32 w) ≡ w
of_le32-le32 w h = omega arith

le32-of_le32 :
    (a b c d : ℕ)
    → a < 256
    → b < 256
    → c < 256
    → d < 256
    → le32 (of_le32 (a ∷ b ∷ c ∷ d ∷ [])) ≡ a ∷ b ∷ c ∷ d ∷ []
le32-of_le32 a b c d ha hb hc hd = ground arith

-- Reports are only added.
length-word_reports :
    (k d i : ℕ) (ys : List ℕ) (acc : List Message) → length acc ≤ length (word_reports k d i ys acc)
length-word_reports zero d i ys acc = omega arith
length-word_reports (suc k) d i ys acc = ground (
  arith,
  length-word_reports k (lfsr23 d) (i + 4) (drop 4 ys)
      (note (of_le32 (take 4 ys) == lfsr23 d) (mismatch i (lfsr23 d) (of_le32 (take 4 ys))) acc),
)

length-byte_reports :
    (left w end i : ℕ) (ys : List ℕ) (acc : List Message)
    → length acc ≤ length (byte_reports left w end i ys acc)
length-byte_reports zero w end i ys acc = omega arith
length-byte_reports (suc left) w end i ys acc =
    let got = get_or (take 1 ys) 0 0 in
    let expected = get_or (le32 w) i 0 in
    ground (
      arith,
      length-byte_reports left w end (i + 1) (drop 1 ys)
          (note (got == expected) (mismatch (i + end) expected got) acc),
    )

clean_words :
    (k d i : ℕ) (zs : List ℕ) (acc : List Message)
    → ((j : ℕ) → iterate lfsr23 j d < 2 ^ 32)
    → word_reports k d i (words k d ++ zs) acc ≡ acc
clean_words zero d i zs acc h = refl
clean_words (suc k) d i zs acc h =
    let w = lfsr23 d in
    let same : (of_le32 (le32 w) == w) ≡ true = (==_iff _ w).1 (of_le32-le32 w (h 1)) in
    ap
      (λ t.
        word_reports k w (i + 4) (words k w ++ zs) (note t (mismatch i w (of_le32 (le32 w))) acc))
      same
    ∙ clean_words k w (i + 4) zs acc (λ j. h (suc j))

clean_rest :
    (left w end i : ℕ) (zs : List ℕ) (acc : List Message)
    → byte_reports left w end i (tail_of w i left ++ zs) acc ≡ acc
clean_rest zero w end i zs acc = refl
clean_rest (suc left) w end i zs acc =
    let byte = get_or (le32 w) i 0 in
    let same : (byte == byte) ≡ true = (==_iff byte byte).1 refl in
    ap
      (λ t.
        byte_reports left w end (i + 1) (tail_of w (i + 1) left ++ zs)
          (note t (mismatch (i + end) byte byte) acc))
      same
    ∙ clean_rest left w end (i + 1) zs acc

pub four_bytes : (ys : List ℕ) → IsBytes ys → 4 ≤ length ys → le32 (of_le32 (take 4 ys)) ≡ take 4 ys
four_bytes (a ∷ b ∷ c ∷ d ∷ ys) h le = le32-of_le32 a b c d h.0 h.1.0 h.1.1.0 h.1.1.1.0
four_bytes [] h le = absurd (omega arith)
four_bytes (a ∷ []) h le = absurd (omega arith)
four_bytes (a ∷ b ∷ []) h le = absurd (omega arith)
four_bytes (a ∷ b ∷ c ∷ []) h le = absurd (omega arith)

-- No report means that each word passed its test.
only_words :
    (k d i : ℕ) (ys : List ℕ) (acc : List Message)
    → IsBytes ys
    → 4 * k ≤ length ys
    → length (word_reports k d i ys acc) ≤ length acc
    → take (4 * k) ys ≡ words k d
only_words zero d i ys acc bytes le h = refl
only_words (suc k) d i ys acc bytes le h =
    let w = lfsr23 d in
    let got = of_le32 (take 4 ys) in
    let same = passed (got == w) h in
    let word : take 4 ys ≡ le32 w =
      sym (four_bytes ys bytes (omega arith)) ∙ ap le32 ((==_iff got w).0 same) in
    let tail =
      only_words k w (i + 4) (drop 4 ys) acc (IsBytes-drop 4 ys bytes)
        (omega (arith, length-drop 4 ys))
        (subst
          (λ t.
            length (word_reports k w (i + 4) (drop 4 ys) (note t (mismatch i w got) acc))
            ≤ length acc)
          same h) in
    let e : 4 * suc k ≡ 4 + 4 * k = omega arith in
    ap (λ n. take n ys) e ∙ take-add 4 (4 * k) ys ∙ ap₂ ◌++◌ word tail
  where
    passed :
        (t : Bool)
        → length (
            word_reports k
              (lfsr23 d)
              (i + 4)
              (drop 4 ys)
              (note t (mismatch i (lfsr23 d) (of_le32 (take 4 ys))) acc))
          ≤ length acc
        → t ≡ true
    passed true le = refl
    passed false le = absurd (
        omega (
          arith,
          length-word_reports k (lfsr23 d) (i + 4) (drop 4 ys)
              (mismatch i (lfsr23 d) (of_le32 (take 4 ys)) ∷ acc),
        ))

only_rest :
    (left w end i : ℕ) (ys : List ℕ) (acc : List Message)
    → left ≤ length ys
    → length (byte_reports left w end i ys acc) ≤ length acc
    → take left ys ≡ tail_of w i left
only_rest zero w end i ys acc le h = refl
only_rest (suc left) w end i [] acc le h = absurd (omega arith)
only_rest (suc left) w end i (y ∷ ys) acc le h =
    let byte = get_or (le32 w) i 0 in
    let same = passed (y == byte) h in
    ap₂ ◌∷◌ ((==_iff y byte).0 same) (
      only_rest left w end (i + 1) ys acc (omega arith) (
        subst
          (λ t.
            length (byte_reports left w end (i + 1) ys (note t (mismatch (i + end) byte y) acc))
            ≤ length acc)
          same h))
  where
    passed :
        (t : Bool)
        → length (
            byte_reports left w end
              (i + 1)
              ys
              (note t (mismatch (i + end) (get_or (le32 w) i 0) y) acc))
          ≤ length acc
        → t ≡ true
    passed true le = refl
    passed false le = absurd (
        omega (
          arith,
          length-byte_reports left w end (i + 1) ys
              (mismatch (i + end) (get_or (le32 w) i 0) y ∷ acc),
        ))

-- A buffer whose first `n` bytes are the pattern is reported clean.
pub reports_clean :
    (c n : ℕ) (xs : List ℕ) (acc : List Message)
    → ((j : ℕ) → iterate lfsr23 j c < 2 ^ 32)
    → take n xs ≡ pattern_of c n
    → reports c n xs acc ≡ acc
unfolding pattern_of
reports_clean c n xs acc range e =
    ap (λ ys. reports c n ys acc) split
    ∙ ap₂ (λ ys a. byte_reports (n % 4) last (n - n % 4) 0 ys a)
        (drop-append_at (n - n % 4) (words k c) _ (omega (arith, length-words k c))
          ∙ ap (λ t. t ++ drop n xs) (sym (tail_of_three last (n % 4) (omega arith))))
        (clean_words k c 0 (take (n % 4) (le32 last) ++ drop n xs) acc range)
    ∙ clean_rest (n % 4) last (n - n % 4) 0 (drop n xs) acc
  where
    k : ℕ
    k = n / 4

    last : ℕ
    last = iterate lfsr23 (k + 1) c

    split : xs ≡ words k c ++ (take (n % 4) (le32 last) ++ drop n xs)
    split =
        sym (take-append-drop n xs)
        ∙ ap (λ t. t ++ drop n xs) e
        ∙ append_assoc (words k c) (take (n % 4) (le32 last)) (drop n xs)

-- A buffer that is reported clean has the pattern for its first `n` bytes.
clean_reports :
    (c n : ℕ) (xs : List ℕ) (acc : List Message)
    → IsBytes xs
    → n ≤ length xs
    → length (reports c n xs acc) ≤ length acc
    → take n xs ≡ pattern_of c n
unfolding pattern_of
clean_reports c n xs acc bytes le h =
    ap (λ t. take t xs) split
    ∙ take-add (4 * k) (n % 4) xs
    ∙ ap₂ ◌++◌ (only_words k c 0 xs acc bytes (omega arith) (omega (arith, bytes_added))) (
        ap (λ t. take (n % 4) (drop t xs)) fours
        ∙ only_rest (n % 4) last (n - n % 4) 0 (drop (n - n % 4) xs) after
            (omega (arith, length-drop (n - n % 4) xs)) (omega (arith, words_added))
        ∙ tail_of_three last (n % 4) (omega arith))
  where
    k : ℕ
    k = n / 4

    last : ℕ
    last = iterate lfsr23 (k + 1) c

    after : List Message
    after = word_reports k c 0 xs acc

    words_added : length acc ≤ length after
    words_added = length-word_reports k c 0 xs acc

    bytes_added : length after ≤ length (reports c n xs acc)
    bytes_added = length-byte_reports (n % 4) last (n - n % 4) 0 (drop (n - n % 4) xs) after

    split : n ≡ 4 * k + n % 4
    split = omega arith

    fours : 4 * k ≡ n - n % 4
    fours = omega arith

module _ {P W : Type 0} where
  -- With a nonzero 23-bit seed and n bytes, n below 2 ^ 64, at the start of a live block of bytes,
  -- lfsrcheck returns, leaves the memory alone, and prints nothing exactly when these bytes are the
  -- pattern of the seed.
  pub lfsrcheck_finds :
      (b c n : ℕ) (xs : List ℕ) (m : Machine P W)
      → 0 < c
      → c < 2 ^ 23
      → IsBytes xs
      → m.heap.block b ≡ some xs
      → n ≤ length xs
      → n < 2 ^ 64
      → (m' : Machine P W) × (lfsrcheck (at b 0) c n m ≡ done tt m')
        × (m'.heap ≡ m.heap)
        × ((m'.printed ≡ m.printed) ↔ (take n xs ≡ pattern_of c n))
  lfsrcheck_finds b c n xs m pos h bytes live le small = (
    record m { lfsr_data = iterate lfsr23 (n / 4 + 1) c; printed = reports c n xs m.printed },
    lfsrcheck_lem b c n xs m live le small,
    refl,
    (
      λ same. clean_reports c n xs m.printed bytes le (
          let e : length (reports c n xs m.printed) ≡ length m.printed = ap (λ t. length t) same in
          omega (arith, e)),
      λ e. reports_clean c n xs m.printed range e,
    ),
  )
    where
      range : (j : ℕ) → iterate lfsr23 j c < 2 ^ 32
      range j = omega (arith, iterate-lfsr23_range j c pos h)
