-- ===== src/Memory/Laws.antt =====
-- Laws of loads and stores: writes next to each other are one write, and a write is read back.
use mathlib.Core.Path.{fun_ext}
use netpipe5_dev.Base.{
  ℕ, zero, suc, ◌+◌, ◌≤◌, Option, none, some, List, [], ◌∷◌, ◌++◌, ◌≡◌, refl, ap, arith, length,
  take, drop,
}
use netpipe5_dev.Memory.{Ptr, at, Heap, update, slice, overwrite, splice, load, store}

pub length-overwrite :
    (off : ℕ) (bs xs : List ℕ)
    → off + length bs ≤ length xs
    → length (overwrite off bs xs) ≡ length xs
length-overwrite zero [] xs h = refl
length-overwrite zero (b ∷ bs) [] h = absurd (omega arith)
length-overwrite zero (b ∷ bs) (x ∷ xs) h = ap suc (length-overwrite zero bs xs (omega arith))
length-overwrite (suc off) bs [] h = refl
length-overwrite (suc off) bs (x ∷ xs) h = ap suc (length-overwrite off bs xs (omega arith))

pub overwrite-overwrite :
    (off next : ℕ) (bs cs xs : List ℕ)
    → next ≡ off + length bs
    → off + length bs ≤ length xs
    → overwrite next cs (overwrite off bs xs) ≡ overwrite off (bs ++ cs) xs
overwrite-overwrite zero next [] cs xs e h = let e' : next ≡ 0 = omega arith in rw e'
overwrite-overwrite zero zero (b ∷ bs) cs xs e h = absurd (omega arith)
overwrite-overwrite zero (suc next) (b ∷ bs) cs [] e h = refl
overwrite-overwrite zero (suc next) (b ∷ bs) cs (x ∷ xs) e h =
    ap (λ t. b ∷ t) (overwrite-overwrite zero next bs cs xs (omega arith) (omega arith))
overwrite-overwrite (suc off) zero bs cs xs e h = absurd (omega arith)
overwrite-overwrite (suc off) (suc next) bs cs [] e h = refl
overwrite-overwrite (suc off) (suc next) bs cs (x ∷ xs) e h =
    ap (λ t. x ∷ t) (overwrite-overwrite off next bs cs xs (omega arith) (omega arith))

pub overwrite-zero :
    (bs xs : List ℕ) → length bs ≤ length xs → overwrite zero bs xs ≡ bs ++ drop (length bs) xs
overwrite-zero [] xs h = refl
overwrite-zero (b ∷ bs) [] h = absurd (omega arith)
overwrite-zero (b ∷ bs) (x ∷ xs) h = ap (λ t. b ∷ t) (overwrite-zero bs xs (omega arith))

pub overwrite_nil : (off : ℕ) (xs : List ℕ) → overwrite off [] xs ≡ xs
overwrite_nil zero xs = refl
overwrite_nil (suc off) [] = refl
overwrite_nil (suc off) (x ∷ xs) = ap (λ t. x ∷ t) (overwrite_nil off xs)

-- `p` points to `xs`: the block of `p` is live, and holds `xs` from its start.
pub data PointsTo (h : Heap) : Ptr → List ℕ → Type 0 where
  points : (b : ℕ) (xs : List ℕ) → h.block b ≡ some xs → PointsTo h (at b 0) xs

-- A store within the bounds of the block.
abbrev pub stored : Heap → ℕ → ℕ → List ℕ → List ℕ → Heap
stored h b off bs xs = record h { block = update h.block b (some (overwrite off bs xs)) }

pub store_at :
    (h : Heap) (b off : ℕ) (bs xs : List ℕ)
    → h.block b ≡ some xs
    → off + length bs ≤ length xs
    → store (at b off) bs h ≡ some (stored h b off bs xs)
unfolding store splice
store_at h b off bs xs e le = ground arith

-- A store past the end of the block is undefined.
pub store_past :
    (h : Heap) (b off : ℕ) (bs xs : List ℕ)
    → h.block b ≡ some xs
    → length xs + 1 ≤ off + length bs
    → store (at b off) bs h ≡ none
unfolding store splice
store_past h b off bs xs e le = ground arith

pub load_at :
    (h : Heap) (b off n : ℕ) (xs : List ℕ)
    → h.block b ≡ some xs
    → off + n ≤ length xs
    → load (at b off) n h ≡ some (take n (drop off xs))
unfolding load slice
load_at h b off n xs e le = ground arith

update-update :
    (f : ℕ → Option (List ℕ)) (b : ℕ) (u v : Option (List ℕ))
    → update (update f b u) b v ≡ update f b v
update-update f b u v = fun_ext λ c. ground arith

update_self : (f : ℕ → Option (List ℕ)) (b : ℕ) (v : Option (List ℕ)) → f b ≡ v → update f b v ≡ f
update_self f b v e = fun_ext λ c. ground arith

pub block-stored :
    (h : Heap) (b off : ℕ) (bs xs : List ℕ)
    → (stored h b off bs xs).block b ≡ some (overwrite off bs xs)
block-stored h b off bs xs = ground arith

-- Two stores, the second where the first ends, are one.
pub stored-stored :
    (h : Heap) (b off next : ℕ) (bs cs xs : List ℕ)
    → next ≡ off + length bs
    → off + length bs ≤ length xs
    → stored (stored h b off bs xs) b next cs (overwrite off bs xs) ≡ stored h b off (bs ++ cs) xs
stored-stored h b off next bs cs xs e le =
    rw (overwrite-overwrite off next bs cs xs e le)
      (ap (λ f. record h { block = f }) (update-update h.block b _ _))

pub stored_nil :
    (h : Heap) (b off : ℕ) (xs : List ℕ) → h.block b ≡ some xs → stored h b off [] xs ≡ h
stored_nil h b off xs e =
    rw (overwrite_nil off xs) (ap (λ f. record h { block = f }) (update_self h.block b _ e))
