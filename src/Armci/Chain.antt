-- ===== src/Armci/Chain.antt =====
-- The linked list of allocations as a list of cells, and mfind on it.
use netpipe5_dev.Base.{
  arith, ℕ, zero, suc, ◌<◌, ◌==◌, ◌≡◌, ◌≢◌, ◌∙◌, refl, ap, negsuc, Bool, true, false, Option, none,
  some, List, [], ◌∷◌, length,
}
use netpipe5_dev.Effect.{M, Outcome, done, exited, and_then, ◌>>=◌, pure, exit, defined}
use netpipe5_dev.Memory.{Ptr}
use netpipe5_dev.Machine.{Machine}
use netpipe5_dev.Armci.{Mnode, Armci, ptr_eq}
use netpipe5_dev.Armci.Nodes.{ptr_of, put_node, node_at, mine, mfind_loop, mfind}

-- An allocation: the pointers of the two processes, and the size.
pub record Alloc : Type 0 where
  pub first : Ptr
  pub second : Ptr
  pub size : ℕ

-- A node: where it stands, and the allocation that it holds.
pub record Cell : Type 0 where
  pub addr : ℕ
  pub alloc : Alloc

abbrev pub node_of : Cell → ℕ → Mnode
node_of c next = record {
  first_ptr = c.alloc.first;
  second_ptr = c.alloc.second;
  nbytes = c.alloc.size;
  next = next;
}

abbrev pub head_addr : List Cell → ℕ
head_addr [] = 0
head_addr (c ∷ cs) = c.addr

abbrev pub Apart : ℕ → List Cell → Type 0
Apart a [] = Unit
Apart a (c ∷ cs) = (a ≢ c.addr) × Apart a cs

-- The nodes of the cells are linked in this order.
abbrev pub Chain : (ℕ → Option Mnode) → List Cell → Type 0
Chain nodes [] = Unit
Chain nodes (c ∷ cs) =
    (c.addr ≢ 0)
    × (nodes c.addr ≡ some (node_of c (head_addr cs)))
    × Apart c.addr cs
    × Chain nodes cs

-- Which of the two processes this is, and its pointer and the other's.
abbrev pub index_of : Bool → ℕ
index_of false = 0
index_of true = 1

abbrev pub own : Bool → Alloc → Ptr
own false c = c.first
own true c = c.second

abbrev pub theirs : Bool → Alloc → Ptr
theirs false c = c.second
theirs true c = c.first

-- The first cell whose own pointer this is, after `prev`: its address and the one before.
abbrev pub search_from : Bool → Ptr → ℕ → List Cell → Option (ℕ × ℕ)
search_from who ptr prev [] = none
search_from who ptr prev (c ∷ cs) = elim (ptr_eq (own who c.alloc) ptr) [
  | true ↦ some (c.addr, prev)
  | false ↦ search_from who ptr c.addr cs
]

-- What mfind gives: no node of an empty list, and otherwise what the search gives.
abbrev pub search : Bool → Ptr → List Cell → Option (ℕ × ℕ)
search who ptr [] = some (0, 0)
search who ptr (c ∷ cs) = search_from who ptr 0 (c ∷ cs)

pub eq_self : (a : ℕ) → (a == a) ≡ true
eq_self a = ground arith

pub eq_of_ne : (a b : ℕ) → a ≢ b → (a == b) ≡ false
eq_of_ne a b h = ground arith

-- A node outside a chain may change.
pub Chain-put_node :
    (nodes : ℕ → Option Mnode) (a : ℕ) (n : Mnode) (cs : List Cell)
    → Apart a cs
    → Chain nodes cs
    → Chain (put_node nodes a n) cs
Chain-put_node nodes a n [] ap_ ch = tt
Chain-put_node nodes a n (c ∷ cs) (ne, apart) (nz, e, fresh, ch) = (
  nz,
  ap (λ (b : Bool). elim b as (λ _. Option Mnode) [ true ↦ some n | false ↦ nodes c.addr ])
        (eq_of_ne a c.addr ne)
      ∙ e,
  fresh,
  Chain-put_node nodes a n cs apart ch,
)

pub ptr_of-own :
    (who : Bool) (c : Cell) (k : ℕ) → ptr_of (index_of who) (node_of c k) ≡ some (own who c.alloc)
ptr_of-own false c k = refl
ptr_of-own true c k = refl

module _ {W : Type 0} where
  pub node_at_lem :
      (a : ℕ) (n : Mnode) (m : Machine Armci W)
      → a ≢ 0
      → m.prot.nodes a ≡ some n
      → node_at a m ≡ done n m
  node_at_lem a n m nz e =
      ap
        (λ (b : Bool).
          (elim b as (λ _. M (Machine Armci W) Mnode) [
            | true ↦ defined none
            | false ↦ defined (m.prot.nodes a)
          ])
            m)
        (eq_of_ne a 0 nz)
      ∙ ap (λ (n : Option Mnode). defined n m) e

  pub mine_lem :
      (who : Bool) (c : Cell) (k : ℕ) (ptr : Ptr) (m : Machine Armci W)
      → m.prot.mype ≡ index_of who
      → mine (node_of c k) ptr m ≡ done (ptr_eq (own who c.alloc) ptr) m
  mine_lem who c k ptr m e =
      ap (λ (i : ℕ). and_then (defined (ptr_of i (node_of c k)) m) (λ p. pure (ptr_eq p ptr))) e
      ∙ ap (λ (r : Option Ptr). and_then (defined r m) (λ p. pure (ptr_eq p ptr)))
          (ptr_of-own who c k)

  -- What a search gives.
  abbrev pub answer : Machine Armci W → Option (ℕ × ℕ) → Outcome (Machine Armci W) (ℕ × ℕ)
  answer m none = exited (negsuc 0) m
  answer m (some r) = done r m

  abbrev hit_or : ℕ → Ptr → ℕ → ℕ → ℕ → Bool → M (Machine Armci W) (ℕ × ℕ)
  hit_or rounds ptr p n next hit = elim hit [
    | true ↦ pure (n, p)
    | false ↦ mfind_loop rounds ptr n next
  ]

  abbrev visit : ℕ → Ptr → ℕ → ℕ → Bool → M (Machine Armci W) (ℕ × ℕ)
  visit rounds ptr p n over = elim over [
    | true ↦ exit (negsuc 0)
    | false ↦ do
      found ← node_at n
      hit ← mine found ptr
      elim hit [ true ↦ pure (n, p) | false ↦ mfind_loop rounds ptr n found.next ]
  ]

  -- A node of the chain is looked at.
  visit_lem :
      (rounds : ℕ) (who : Bool) (ptr : Ptr) (p : ℕ) (c : Cell) (cs : List Cell)
      (m : Machine Armci W)
      → m.prot.mype ≡ index_of who
      → Chain m.prot.nodes (c ∷ cs)
      → visit rounds ptr p c.addr false m
        ≡ hit_or rounds ptr p c.addr (head_addr cs) (ptr_eq (own who c.alloc) ptr) m
  visit_lem rounds who ptr p c cs m pe (nz, e, fresh, ch) =
      ap
        (λ (r : Outcome (Machine Armci W) Mnode). and_then r (λ found m.
          and_then (mine found ptr m) (λ hit m. hit_or rounds ptr p c.addr found.next hit m)))
        (node_at_lem c.addr (node_of c (head_addr cs)) m nz e)
      ∙ ap
          (λ (r : Outcome (Machine Armci W) Bool).
            and_then r (λ hit m. hit_or rounds ptr p c.addr (head_addr cs) hit m))
          (mine_lem who c (head_addr cs) ptr m pe)

  pub mfind_loop_lem :
      (rounds : ℕ) (who : Bool) (ptr : Ptr) (p : ℕ) (cs : List Cell) (m : Machine Armci W)
      → m.prot.mype ≡ index_of who
      → Chain m.prot.nodes cs
      → length cs < rounds
      → mfind_loop rounds ptr p (head_addr cs) m ≡ answer m (search_from who ptr p cs)
  unfolding mfind_loop
  mfind_loop_lem zero who ptr p cs m pe ch lt = absurd (omega (arith, lt))
  mfind_loop_lem (suc rounds) who ptr p [] m pe ch lt = refl
  mfind_loop_lem (suc rounds) who ptr p (c ∷ cs) m pe ch lt =
      ap (λ (over : Bool). visit rounds ptr p c.addr over m) (eq_of_ne c.addr 0 ch.0)
      ∙ visit_lem rounds who ptr p c cs m pe ch
      ∙ rest (ptr_eq (own who c.alloc) ptr)
          (mfind_loop_lem rounds who ptr c.addr cs m pe ch.3 (omega (arith, lt)))
    where
      rest :
          (hit : Bool)
          → mfind_loop rounds ptr c.addr (head_addr cs) m ≡ answer m (search_from who ptr c.addr cs)
          → hit_or rounds ptr p c.addr (head_addr cs) hit m
            ≡ answer m
                (elim hit [ true ↦ some (c.addr, p) | false ↦ search_from who ptr c.addr cs ])
      rest true h = refl
      rest false h = h

  abbrev start : ℕ → Ptr → ℕ → Bool → M (Machine Armci W) (ℕ × ℕ)
  start rounds ptr first empty = elim empty [
    | true ↦ pure (0, 0)
    | false ↦ do
      found ← node_at first
      hit ← mine found ptr
      elim hit [ true ↦ pure (first, 0) | false ↦ mfind_loop rounds ptr first found.next ]
  ]

  pub mfind_lem :
      (rounds : ℕ) (who : Bool) (ptr : Ptr) (cs : List Cell) (m : Machine Armci W)
      → m.prot.mype ≡ index_of who
      → m.prot.m_first ≡ head_addr cs
      → Chain m.prot.nodes cs
      → length cs < rounds
      → mfind rounds ptr m ≡ answer m (search who ptr cs)
  unfolding mfind
  mfind_lem rounds who ptr [] m pe fe ch lt =
      ap (λ (first : ℕ). start rounds ptr first (first == 0) m) fe
  mfind_lem rounds who ptr (c ∷ cs) m pe fe ch lt =
      ap (λ (first : ℕ). start rounds ptr first (first == 0) m) fe
      ∙ ap (λ (empty : Bool). start rounds ptr c.addr empty m) (eq_of_ne c.addr 0 ch.0)
      ∙ visit_lem rounds who ptr 0 c cs m pe ch
      ∙ rest (ptr_eq (own who c.alloc) ptr)
    where
      rest :
          (hit : Bool)
          → hit_or rounds ptr 0 c.addr (head_addr cs) hit m
            ≡ answer m
                (elim hit [ true ↦ some (c.addr, 0) | false ↦ search_from who ptr c.addr cs ])
      rest true = refl
      rest false = mfind_loop_lem rounds who ptr c.addr cs m pe ch.3 (omega (arith, lt))
