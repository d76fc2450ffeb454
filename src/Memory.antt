-- ===== src/Memory.antt =====
-- The C heap: `malloc` and `free` of the standard library, loads and stores of bytes.
-- A block is a list of bytes and a pointer is a block with an offset, so an access is checked
-- against the bounds of its block; none stands for undefined behaviour.
pub mod Laws
use netpipe5_dev.Base.{
  ℕ, zero, suc, ◌+◌, ◌-◌, Bool, true, false, Option, none, some, List, [], ◌∷◌, ◌++◌, ltb, leb,
  ◌==◌, if◌then◌else◌, length, take, drop,
}

pub data Ptr : Type 0 where
  null : Ptr
  at : ℕ → ℕ → Ptr

pub record Heap : Type 0 where
  -- the name of the next block
  pub next : ℕ
  -- the bytes that malloc can still give
  pub avail : ℕ
  -- what a new block holds: nothing is known of it
  pub junk : ℕ → ℕ
  pub block : ℕ → Option (List ℕ)

abbrev pub update : (ℕ → Option (List ℕ)) → ℕ → Option (List ℕ) → ℕ → Option (List ℕ)
update f b v c = if b == c then v else f c

abbrev pub tabulate : (ℕ → ℕ) → ℕ → ℕ → List ℕ
tabulate f i zero = []
tabulate f i (suc n) = f i ∷ tabulate f (suc i) n

unfoldable pub malloc : ℕ → Heap → Ptr × Heap
malloc n h = if ltb h.avail n then (null, h) else (
  at h.next 0,
  record h {
    next = suc h.next;
    avail = h.avail - n;
    block = update h.block h.next (some (tabulate h.junk 0 n));
  },
)

-- `free(NULL)` does nothing; any other pointer must be the start of a live block.
free_block : ℕ → Heap → Option (List ℕ) → Option Heap
free_block b h none = none
free_block b h (some bytes) =
    some (record h { avail = h.avail + length bytes; block = update h.block b none })

unfoldable pub free : Ptr → Heap → Option Heap
unfolding free_block
free null h = some h
free (at b zero) h = free_block b h (h.block b)
free (at b (suc off)) h = none

-- pointer arithmetic
abbrev pub advance : Ptr → ℕ → Ptr
advance null n = null
advance (at b off) n = at b (off + n)

-- The `n` bytes from offset `off`.
unfoldable pub slice : ℕ → ℕ → List ℕ → Option (List ℕ)
slice off n xs = if leb (off + n) (length xs) then some (take n (drop off xs)) else none

-- The bytes with `bs` written over those from offset `off`, if there is room.
abbrev pub overwrite : ℕ → List ℕ → List ℕ → List ℕ
overwrite zero [] xs = xs
overwrite zero (b ∷ bs) [] = []
overwrite zero (b ∷ bs) (x ∷ xs) = b ∷ overwrite zero bs xs
overwrite (suc off) bs [] = []
overwrite (suc off) bs (x ∷ xs) = x ∷ overwrite off bs xs

unfoldable pub splice : ℕ → List ℕ → List ℕ → Option (List ℕ)
splice off bs xs = if leb (off + length bs) (length xs) then some (overwrite off bs xs) else none

load_block : ℕ → ℕ → Option (List ℕ) → Option (List ℕ)
load_block off n none = none
load_block off n (some xs) = slice off n xs

unfoldable pub load : Ptr → ℕ → Heap → Option (List ℕ)
unfolding load_block
load null n h = none
load (at b off) n h = load_block off n (h.block b)

put_block : ℕ → Heap → Option (List ℕ) → Option Heap
put_block b h none = none
put_block b h (some xs) = some (record h { block = update h.block b (some xs) })

splice_block : ℕ → List ℕ → Option (List ℕ) → Option (List ℕ)
splice_block off bs none = none
splice_block off bs (some xs) = splice off bs xs

unfoldable pub store : Ptr → List ℕ → Heap → Option Heap
unfolding put_block splice_block
store null bs h = none
store (at b off) bs h = put_block b h (splice_block off bs (h.block b))
