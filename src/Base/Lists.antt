-- ===== src/Base/Lists.antt =====
-- Lists measured and indexed by native numbers, under the library's names, and their laws.
use Prim.Native.Nat.{ℕ, zero, suc, ◌+◌, ◌-◌, ◌≤◌, min}
use mathlib.Core.Path.{◌≡◌, refl, ap, ap₂, sym, ◌∙◌}
use mathlib.Core.List.{List, [], ◌∷◌, ◌++◌}
use mathlib.Core.Option.{Option, none, some}
use native.Mathlib.Omega.{arith}

module _ {ℓ} {A : Type ℓ} where
  abbrev pub length : List A → ℕ
  length [] = 0
  length (x ∷ xs) = suc (length xs)

  abbrev pub get_elem? : List A → ℕ → Option A
  get_elem? [] i = none
  get_elem? (x ∷ xs) zero = some x
  get_elem? (x ∷ xs) (suc i) = get_elem? xs i

  abbrev pub get_or : List A → ℕ → A → A
  get_or [] i d = d
  get_or (x ∷ xs) zero d = x
  get_or (x ∷ xs) (suc i) d = get_or xs i d

  abbrev pub take : ℕ → List A → List A
  take zero xs = []
  take (suc n) [] = []
  take (suc n) (x ∷ xs) = x ∷ take n xs

  abbrev pub drop : ℕ → List A → List A
  drop zero xs = xs
  drop (suc n) [] = []
  drop (suc n) (x ∷ xs) = drop n xs

  -- a list `k` times, one after the other
  abbrev pub repeated : ℕ → List A → List A
  repeated zero xs = []
  repeated (suc k) xs = xs ++ repeated k xs

  abbrev pub replicate : ℕ → A → List A
  replicate zero a = []
  replicate (suc n) a = a ∷ replicate n a

take_nil {ℓ} : (A : Type ℓ) (n : ℕ) → take {A = A} n [] ≡ []
take_nil A zero = refl
take_nil A (suc n) = refl

drop_nil {ℓ} : (A : Type ℓ) (n : ℕ) → [] ≡ drop {A = A} n []
drop_nil A zero = refl
drop_nil A (suc n) = refl

module _ {ℓ} {A : Type ℓ} where
  pub length-append : (xs ys : List A) → length (xs ++ ys) ≡ length xs + length ys
  length-append [] ys = omega arith
  length-append (x ∷ xs) ys = omega (arith, length-append xs ys)

  pub length-take : (n : ℕ) (xs : List A) → length (take n xs) ≡ min n (length xs)
  length-take zero xs = omega arith
  length-take (suc n) [] = omega arith
  length-take (suc n) (x ∷ xs) = omega (arith, length-take n xs)

  pub length-drop : (n : ℕ) (xs : List A) → length (drop n xs) ≡ length xs - n
  length-drop zero xs = omega arith
  length-drop (suc n) [] = omega arith
  length-drop (suc n) (x ∷ xs) = omega (arith, length-drop n xs)

  pub length-replicate : (n : ℕ) (a : A) → length (replicate n a) ≡ n
  length-replicate zero a = refl
  length-replicate (suc n) a = ap suc (length-replicate n a)

  pub take-append-drop : (n : ℕ) (xs : List A) → take n xs ++ drop n xs ≡ xs
  take-append-drop zero xs = refl
  take-append-drop (suc n) [] = refl
  take-append-drop (suc n) (x ∷ xs) = rw (take-append-drop n xs)

  pub take_all : (n : ℕ) (xs : List A) → length xs ≤ n → take n xs ≡ xs
  take_all zero [] h = refl
  take_all zero (x ∷ xs) h = absurd (omega arith)
  take_all (suc n) [] h = refl
  take_all (suc n) (x ∷ xs) h = ap (λ t. x ∷ t) (take_all n xs (omega arith))

  pub drop_all : (n : ℕ) (xs : List A) → length xs ≤ n → drop n xs ≡ []
  drop_all zero [] h = refl
  drop_all zero (x ∷ xs) h = absurd (omega arith)
  drop_all (suc n) [] h = refl
  drop_all (suc n) (x ∷ xs) h = drop_all n xs (omega arith)

  -- The front of a list whose first part is known.
  pub take-append : (xs ys : List A) → take (length xs) (xs ++ ys) ≡ xs
  take-append [] ys = refl
  take-append (x ∷ xs) ys = ap (λ t. x ∷ t) (take-append xs ys)

  pub drop-append : (xs ys : List A) → drop (length xs) (xs ++ ys) ≡ ys
  drop-append [] ys = refl
  drop-append (x ∷ xs) ys = drop-append xs ys

  pub drop-drop : (m n : ℕ) (xs : List A) → drop n (drop m xs) ≡ drop (m + n) xs
  drop-drop zero n xs = let e : n ≡ 0 + n = omega arith in ap (λ k. drop k xs) e
  drop-drop (suc m) zero [] = drop_nil A (suc m + 0)
  drop-drop (suc m) (suc n) [] = drop_nil A (suc m + suc n)
  drop-drop (suc m) n (x ∷ xs) =
      let e : suc (m + n) ≡ suc m + n = omega arith in
      drop-drop m n xs ∙ ap (λ k. drop k (x ∷ xs)) e

  pub append-cancel_left : (xs : List A) {ys zs : List A} → xs ++ ys ≡ xs ++ zs → ys ≡ zs
  append-cancel_left [] h = h
  append-cancel_left (x ∷ xs) {ys} {zs} h = append-cancel_left xs (ap (drop 1) h)

  pub take-add : (m n : ℕ) (xs : List A) → take (m + n) xs ≡ take m xs ++ take n (drop m xs)
  take-add zero n xs = let e : zero + n ≡ n = omega arith in ap (λ k. take k xs) e
  take-add (suc m) n [] = take_nil A (suc m + n) ∙ ap (λ t. t) (take_nil_sym n)
    where
      take_nil_sym : (n : ℕ) → [] ≡ take {A = A} n []
      take_nil_sym zero = refl
      take_nil_sym (suc n) = refl
  take-add (suc m) n (x ∷ xs) =
      let e : suc m + n ≡ suc (m + n) = omega arith in
      ap (λ k. take k (x ∷ xs)) e ∙ ap (λ t. x ∷ t) (take-add m n xs)

  pub drop-append_at : (n : ℕ) (xs ys : List A) → length xs ≡ n → drop n (xs ++ ys) ≡ ys
  drop-append_at n xs ys e = rw (← e) (drop-append xs ys)

  pub take-append_at : (n : ℕ) (xs ys : List A) → length xs ≡ n → take n (xs ++ ys) ≡ xs
  take-append_at n xs ys e = rw (← e) (take-append xs ys)

-- Two ways to split one list: the shorter front is the front of the longer.
module _ {ℓ} {A : Type ℓ} where
  pub split_front :
      (xs ys front rest : List A)
      → front ++ rest ≡ xs ++ ys
      → length front ≤ length xs
      → (more : List A) × (xs ≡ front ++ more) × (rest ≡ more ++ ys)
  split_front xs ys [] rest e h = (xs, refl, e)
  split_front [] ys (f ∷ front) rest e h = absurd (omega arith)
  split_front (x ∷ xs) ys (f ∷ front) rest e h =
      let tails : front ++ rest ≡ xs ++ ys = ap (drop 1) e in
      let heads : f ≡ x = ap (λ l. get_or l 0 x) e in
      let (more, p, q) = split_front xs ys front rest tails (omega arith) in
      (more, ap₂ ◌∷◌ (sym heads) p, q)

  pub take-take : (m n : ℕ) (xs : List A) → m ≤ n → take m (take n xs) ≡ take m xs
  take-take zero n xs h = refl
  take-take (suc m) zero xs h = absurd (omega arith)
  take-take (suc m) (suc n) [] h = refl
  take-take (suc m) (suc n) (x ∷ xs) h = ap (λ t. x ∷ t) (take-take m n xs (omega arith))
