-- ===== src/Armci/Represents.antt =====
-- What it is for the linked list of src/armci.c to stand for a list of allocations.
use netpipe5_dev.Base.{
  arith, ℕ, suc, ◌<◌, ◌≡◌, refl, ap, negsuc, Bool, Option, none, some, List, [], ◌∷◌, length,
}
use netpipe5_dev.Effect.{Outcome, done, exited}
use netpipe5_dev.Machine.{Machine}
use netpipe5_dev.Armci.{Armci}
use netpipe5_dev.Armci.Chain.{Alloc, Cell, head_addr, Chain, index_of}
use netpipe5_dev.Armci.Refine.{allocs}

-- The machine's list stands for these allocations, the newest first.
pub record Represents {W : Type 0} (who : Bool) (xs : List Alloc) (m : Machine Armci W)
    : Type 0 where
  pub cells : List Cell
  pub same : allocs cells ≡ xs
  pub here : m.prot.mype ≡ index_of who
  pub first : m.prot.m_first ≡ head_addr cells
  pub chained : Chain m.prot.nodes cells

-- The code returns this value and leaves these allocations, or exits with -1.
abbrev pub Meets :
    {W A : Type 0} → Bool → Option (A × List Alloc) → Outcome (Machine Armci W) A → Type 0
Meets {W} who none r = (m' : Machine Armci W) × (r ≡ exited (negsuc 0) m')
Meets {W} who (some (v, xs)) r = (m' : Machine Armci W) × (r ≡ done v m') × Represents who xs m'

length-allocs : (cs : List Cell) → length (allocs cs) ≡ length cs
length-allocs [] = refl
length-allocs (c ∷ cs) = ap suc (length-allocs cs)

pub length_lem :
    {W : Type 0} {who : Bool} {xs : List Alloc} {m : Machine Armci W} {rounds : ℕ}
    (r : Represents who xs m)
    → length xs < rounds
    → length (r.cells) < rounds
length_lem r lt = omega (arith, lt, length-allocs r.cells, ap length r.same)
