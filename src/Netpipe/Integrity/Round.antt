-- ===== src/Netpipe/Integrity/Round.antt =====
-- SetIntegrityData and VerifyIntegrity against each other.
use netpipe5_dev.Base.{
  ℕ, zero, suc, ◌+◌, ◌*◌, ◌/◌, ◌^◌, ◌≤◌, ◌<◌, ◌≡◌, refl, subst, sym, ◌∙◌, ap, ap₂, arith, Bool,
  Bool-cases, ◌⊎◌, inl, inr, ◌↔◌, ◌≢◌, ==_iff, take-add, length-drop, length-take, true, false, not,
  List, [], ◌∷◌, ◌++◌, some, length, take, drop, drop-append_at, take-append_at, drop-drop, negsuc,
  ◌==◌,
}
use mathlib.Core.Bool.{false≢true}
use netpipe5_dev.Effect.{Outcome, done, exited, and_then, when, exit, pure, ◌>>◌}
use netpipe5_dev.Memory.{at, overwrite}
use netpipe5_dev.Memory.Laws.{
  stored, block-stored, stored-stored, stored_nil, length-overwrite, overwrite-zero,
}
use netpipe5_dev.Machine.{Machine, le32, of_le32}
use netpipe5_dev.Machine.Laws.{put_at, fetch_at}
use netpipe5_dev.Pattern.Clean.{IsBytes, IsBytes-drop, four_bytes, of_le32-le32}
use netpipe5_dev.Netpipe.Integrity.{
  set_segments, set_integrity_data, verify_segments, verify_integrity,
}

-- The bytes of the ints `i`, `i + 1`, and so on.
abbrev pub counted : ℕ → ℕ → List ℕ
counted zero i = []
counted (suc n) i = le32 i ++ counted n (i + 1)

pub length-counted : (n i : ℕ) → length (counted n i) ≡ 4 * n
length-counted zero i = refl
length-counted (suc n) i = omega (arith, length-counted n (i + 1))

IsBytes-append : (xs ys : List ℕ) → IsBytes xs → IsBytes ys → IsBytes (xs ++ ys)
IsBytes-append [] ys h k = k
IsBytes-append (x ∷ xs) ys h k = (h.0, IsBytes-append xs ys h.1 k)

IsBytes-counted : (n i : ℕ) → IsBytes (counted n i)
IsBytes-counted zero i = tt
IsBytes-counted (suc n) i =
    (omega arith, (omega arith, (omega arith, (omega arith, IsBytes-counted n (i + 1)))))

-- The first test, with the segments after it.
first_segment :
    (left i : ℕ) (ys : List ℕ)
    → IsBytes ys
    → 4 + 4 * left ≤ length ys
    → i < 2 ^ 32
    → ((of_le32 (take 4 ys) ≡ i) × (take (4 * left) (drop 4 ys) ≡ counted left (i + 1)))
      ↔ (take (4 * suc left) ys ≡ counted (suc left) i)
first_segment left i ys bytes fits small = (
  λ h. parts ∙ ap₂ ◌++◌ (sym (four_bytes ys bytes (omega arith)) ∙ ap le32 h.0) h.1,
  λ e. (
    ap of_le32 (front ∙ ap (λ l. take 4 l) (sym parts ∙ e)) ∙ of_le32-le32 i small,
    back ∙ ap (λ l. drop 4 l) (sym parts ∙ e),
  ),
)
  where
    parts : take (4 * suc left) ys ≡ take 4 ys ++ take (4 * left) (drop 4 ys)
    parts =
        (let e : 4 * suc left ≡ 4 + 4 * left = omega arith in ap (λ k. take k ys) e)
        ∙ take-add 4 (4 * left) ys

    four : length (take 4 ys) ≡ 4
    four = omega (arith, length-take 4 ys)

    front : take 4 ys ≡ take 4 (take 4 ys ++ take (4 * left) (drop 4 ys))
    front = sym (take-append_at 4 (take 4 ys) _ four)

    back : take (4 * left) (drop 4 ys) ≡ drop 4 (take 4 ys ++ take (4 * left) (drop 4 ys))
    back = sym (drop-append_at 4 (take 4 ys) _ four)

module _ {P W : Type 0} where
  set_segments_lem :
      (left b i : ℕ) (xs : List ℕ) (m : Machine P W)
      → m.heap.block b ≡ some xs
      → 4 * i + 4 * left ≤ length xs
      → set_segments left (at b 0) i m
        ≡ done tt (record m { heap = stored m.heap b (4 * i) (counted left i) xs })
  unfolding set_segments
  set_segments_lem zero b i xs m live fits =
      ap (λ h. done tt (record m { heap = h })) (sym (stored_nil m.heap b (4 * i) xs live))
  set_segments_lem (suc left) b i xs m live fits =
      ap (λ r. and_then r (λ _. set_segments left (at b 0) (i + 1)))
        (put_at m b (0 + 4 * i) (4 * i) xs (omega arith) live (le32 i) (omega arith))
      ∙ set_segments_lem left b (i + 1) (overwrite (4 * i) (le32 i) xs)
          (record m { heap = stored m.heap b (4 * i) (le32 i) xs })
          (block-stored m.heap b (4 * i) (le32 i) xs)
          (omega (arith, length-overwrite (4 * i) (le32 i) xs (omega arith)))
      ∙ ap (λ h. done tt (record m { heap = h }))
          (stored-stored m.heap b (4 * i) (4 * (i + 1)) (le32 i) (counted left (i + 1)) xs
            (omega arith) (omega arith))

  verify_segments_lem :
      (left b i : ℕ) (xs : List ℕ) (m : Machine P W)
      → m.heap.block b ≡ some xs
      → IsBytes xs
      → 4 * i + 4 * left ≤ length xs
      → i + left ≤ 2 ^ 32
      → (t : Bool) × (verify_segments left (at b 0) i m ≡ done t m)
        × ((t ≡ true) ↔ (take (4 * left) (drop (4 * i) xs) ≡ counted left i))
  unfolding verify_segments
  verify_segments_lem zero b i xs m live bytes fits small = (true, refl, (λ _. refl, λ _. refl))
  verify_segments_lem (suc left) b i xs m live bytes fits small = elim (Bool-cases test) [
    | inl e₁ ↦
        let (t, run, iff) =
          verify_segments_lem left b (i + 1) xs m live bytes (omega arith) (omega arith) in
        (
          t,
          opened ∙ ap (λ t. branch t m) e₁ ∙ run,
          (
            λ h. (segment).0 ((==_iff got i).0 e₁, ap (λ l. take (4 * left) l) next ∙ iff.0 h),
            λ e. iff.1 (ap (λ l. take (4 * left) l) (sym next) ∙ ((segment).1 e).1),
          ),
        )
    | inr e₂ ↦ (
      false,
      opened ∙ ap (λ t. branch t m) e₂,
      (
        λ h. absurd (false≢true h),
        λ e. absurd (false≢true (sym e₂ ∙ (==_iff got i).1 ((segment).1 e).0)),
      ),
    )
  ]
    where
      ys : List ℕ
      ys = drop (4 * i) xs

      got : ℕ
      got = of_le32 (take 4 ys)

      test : Bool
      test = got == i

      next : drop 4 ys ≡ drop (4 * (i + 1)) xs
      next =
          drop-drop (4 * i) 4 xs
          ∙ (let e : 4 * i + 4 ≡ 4 * (i + 1) = omega arith in ap (λ k. drop k xs) e)

      segment :
          ((got ≡ i) × (take (4 * left) (drop 4 ys) ≡ counted left (i + 1)))
          ↔ (take (4 * suc left) ys ≡ counted (suc left) i)
      segment =
          first_segment left i ys (IsBytes-drop (4 * i) xs bytes)
            (omega (arith, length-drop (4 * i) xs)) (omega arith)

      branch : Bool → Machine P W → Outcome (Machine P W) Bool
      branch t = elim t [ true ↦ verify_segments left (at b 0) (i + 1) | false ↦ pure false ]

      opened : verify_segments (suc left) (at b 0) i m ≡ branch test m
      opened =
          ap (λ r. and_then r (λ bytes. branch (of_le32 bytes == i)))
            (fetch_at m b (0 + 4 * i) (4 * i) xs (omega arith) live 4 (omega arith))

  -- VerifyIntegrity with the receive pointer at the start of a live block of bytes, with room for a
  -- bufflen below 2 ^ 31: either it returns with nothing changed and the ints of the buffer count
  -- up from 0, or it ends the program with -1 and they do not.
  pub verify_integrity_lem :
      (b : ℕ) (xs : List ℕ) (m : Machine P W)
      → m.args.r_ptr ≡ at b 0
      → m.heap.block b ≡ some xs
      → IsBytes xs
      → m.args.bufflen ≤ length xs
      → m.args.bufflen < 2 ^ 31
      → ((verify_integrity m ≡ done tt m)
          × (take (4 * (m.args.bufflen / 4)) xs ≡ counted (m.args.bufflen / 4) 0))
        ⊎ ((verify_integrity m ≡ exited (negsuc 0) m)
            × (take (4 * (m.args.bufflen / 4)) xs ≢ counted (m.args.bufflen / 4) 0))
  unfolding verify_integrity
  verify_integrity_lem b xs m ptr live bytes fits small =
      let (t, run, iff) = verify_segments_lem k b 0 xs m live bytes (omega arith) (omega arith) in
      let ran : verify_integrity m ≡ when (not t) (exit (negsuc 0)) m =
        ap (λ p. and_then (verify_segments k p 0 m) (λ t. when (not t) (exit (negsuc 0)))) ptr
        ∙ ap (λ r. and_then r (λ t. when (not t) (exit (negsuc 0)))) run in
      elim (Bool-cases t) [
        | inl e ↦ inl (ran ∙ ap (λ t. when (not t) (exit (negsuc 0)) m) e, iff.0 e)
        | inr e ↦ inr (
          ran ∙ ap (λ t. when (not t) (exit (negsuc 0)) m) e,
          λ same. absurd (false≢true (sym e ∙ iff.1 same)),
        )
      ]
    where
      k : ℕ
      k = m.args.bufflen / 4

  -- With both pointers at the start of one live block of bytes, with room for a bufflen below 2 ^
  -- 31, SetIntegrityData and then VerifyIntegrity return, and only the first bufflen / 4 ints of
  -- the block are changed.
  pub verify-set_integrity :
      (b : ℕ) (xs : List ℕ) (m : Machine P W)
      → m.args.s_ptr ≡ at b 0
      → m.args.r_ptr ≡ at b 0
      → m.heap.block b ≡ some xs
      → IsBytes xs
      → m.args.bufflen ≤ length xs
      → m.args.bufflen < 2 ^ 31
      → (set_integrity_data >> verify_integrity) m
        ≡ done tt (record m { heap = stored m.heap b 0 (counted (m.args.bufflen / 4) 0) xs })
  unfolding set_integrity_data
  verify-set_integrity b xs m s_at r_at live bytes fits small =
      ap (λ p. and_then (set_segments k p 0 m) (λ _. verify_integrity)) s_at
      ∙ ap (λ r. and_then r (λ _. verify_integrity))
          (set_segments_lem k b 0 xs m live (omega arith))
      ∙ verified
    where
      k : ℕ
      k = m.args.bufflen / 4

      after : Machine P W
      after = record m { heap = stored m.heap b 0 (counted k 0) xs }

      ys : List ℕ
      ys = overwrite 0 (counted k 0) xs

      whole : ys ≡ counted k 0 ++ drop (length (counted k 0)) xs
      whole = overwrite-zero (counted k 0) xs (omega (arith, length-counted k 0))

      ys_bytes : IsBytes ys
      ys_bytes = subst IsBytes (sym whole) (
          IsBytes-append (counted k 0) _ (IsBytes-counted k 0)
            (IsBytes-drop (length (counted k 0)) xs bytes))

      counts : take (4 * k) ys ≡ counted k 0
      counts =
          ap (λ l. take (4 * k) l) whole
          ∙ take-append_at (4 * k) (counted k 0) _ (length-counted k 0)

      verified : verify_integrity after ≡ done tt after
      verified =
          elim (verify_integrity_lem b ys after r_at (block-stored m.heap b 0 (counted k 0) xs)
            ys_bytes
            (omega (arith, length-overwrite 0 (counted k 0) xs (omega (arith, length-counted k 0))))
            small) [ inl ok ↦ ok.0 | inr bad ↦ absurd (bad.1 counts) ]
