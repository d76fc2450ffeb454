-- ===== src/Armci/Simulation/Allocate.antt =====
-- armci_malloc puts the new allocation in front.
use netpipe5_dev.Base.{
  ℕ, ◌==◌, ◌≡◌, ◌≢◌, ◌∙◌, refl, sym, ap, subst, negsuc, Bool, true, false, Option, none, some, List,
  [], ◌∷◌,
}
use netpipe5_dev.Effect.{M, Outcome, done, and_then, ◌>>=◌, ◌>>◌, gets, modify, exit, defined}
use netpipe5_dev.Memory.{Ptr, Heap}
use netpipe5_dev.Machine.{Machine, call, set_prot}
use netpipe5_dev.Armci.{ArmciLibrary, Mnode, Armci}
use netpipe5_dev.Armci.Nodes.{
  ptr_of, put_node, node_at, set_node, set_next, mlink_front, armci_malloc,
}
use netpipe5_dev.Armci.Chain.{
  Alloc, Cell, node_of, head_addr, Apart, Chain, index_of, own, eq_self, eq_of_ne, Chain-put_node,
  node_at_lem, ptr_of-own,
}
use netpipe5_dev.Armci.Refine.{allocs, relinked, headed}
use netpipe5_dev.Armci.Represents.{Represents, Meets}

-- An address at which there is no node is that of no cell.
Apart-fresh :
    (nodes : ℕ → Option Mnode) (a : ℕ) (cs : List Cell)
    → nodes a ≡ none
    → Chain nodes cs
    → Apart a cs
Apart-fresh nodes a [] e ch = tt
Apart-fresh nodes a (c ∷ cs) e ch =
    (λ same. differ (sym (ap nodes same) ∙ e), Apart-fresh nodes a cs e ch.3)
  where
    differ : nodes c.addr ≡ none → ⊥
    differ e' = cc (ch.1)

put_node_self : (nodes : ℕ → Option Mnode) (a : ℕ) (n : Mnode) → put_node nodes a n a ≡ some n
put_node_self nodes a n =
    ap (λ (b : Bool). elim b as (λ _. Option Mnode) [ true ↦ some n | false ↦ nodes a ]) (eq_self a)

module _ {W : Type 0} where
  abbrev front : ℕ → ℕ → Bool → M (Machine Armci W) (Unit {0})
  front a first empty = do
    elim empty [ true ↦ set_next a 0 | false ↦ set_next a first ]
    set_prot (λ t. record t { m_first = a })

  abbrev linked : ℕ → Mnode → Machine Armci W → Machine Armci W
  linked a n m = headed a (relinked (put_node m.prot.nodes a n) m)

  -- The node becomes the first, with the list behind it.
  mlink_front_lem :
      (a : ℕ) (n : Mnode) (cs : List Cell) (m : Machine Armci W)
      → a ≢ 0
      → m.prot.nodes a ≡ some n
      → m.prot.m_first ≡ head_addr cs
      → Chain m.prot.nodes cs
      → mlink_front a m ≡ done tt (linked a (record n { next = head_addr cs }) m)
  unfolding mlink_front
  mlink_front_lem a n [] m nz e fe ch =
      ap (λ (first : ℕ). front a first (first == 0) m) fe
      ∙ ap
          (λ (r : Outcome (Machine Armci W) Mnode).
            and_then (and_then r (λ n. set_node a (record n { next = 0 })))
              (λ _. set_prot (λ t. record t { m_first = a })))
          (node_at_lem a n m nz e)
  mlink_front_lem a n (c ∷ cs) m nz e fe ch =
      ap (λ (first : ℕ). front a first (first == 0) m) fe
      ∙ ap (λ (empty : Bool). front a c.addr empty m) (eq_of_ne c.addr 0 ch.0)
      ∙ ap
          (λ (r : Outcome (Machine Armci W) Mnode).
            and_then (and_then r (λ n. set_node a (record n { next = c.addr })))
              (λ _. set_prot (λ t. record t { m_first = a })))
          (node_at_lem a n m nz e)

  -- The pointer that is returned.
  abbrev returned : ℕ → M (Machine Armci W) Ptr
  returned a = do
    n ← node_at a
    t ← gets (λ (m : Machine Armci W). m.prot)
    defined (ptr_of t.mype n)

  returned_lem :
      (a : ℕ) (who : Bool) (x : Alloc) (k : ℕ) (m : Machine Armci W)
      → a ≢ 0
      → m.prot.nodes a ≡ some (node_of (record { addr = a; alloc = x }) k)
      → m.prot.mype ≡ index_of who
      → returned a m ≡ done (own who x) m
  returned_lem a who x k m nz e pe =
      let n = node_of (record { addr = a; alloc = x }) k in
      ap
        (λ (r : Outcome (Machine Armci W) Mnode).
          and_then r (λ n m. defined (ptr_of m.prot.mype n) m))
        (node_at_lem a n m nz e)
      ∙ ap (λ (i : ℕ). defined (ptr_of i n) m) pe
      ∙ ap (λ (q : Option Ptr). defined q m) (ptr_of-own who (record { addr = a; alloc = x }) k)

module _ {W : Type 0} (lib : ArmciLibrary W) where
  -- What ARMCI_Malloc gives after `malloc` of the node.
  abbrev pub given : ℕ → Machine Armci W → (Ptr × Ptr × Heap) × W
  given nbytes m = lib.shared_malloc nbytes m.heap (lib.malloc_node m.sys).1

  abbrev pub new_alloc : ℕ → Machine Armci W → Alloc
  new_alloc nbytes m = record {
    first = (given nbytes m).0.0;
    second = (given nbytes m).0.1;
    size = nbytes;
  }

  abbrev new_cell : ℕ → ℕ → Machine Armci W → Cell
  new_cell a nbytes m = record { addr = a; alloc = new_alloc nbytes m }

  -- The machine with the node filled in.
  abbrev filled : ℕ → ℕ → Machine Armci W → Machine Armci W
  filled a nbytes m = record m {
    heap = (given nbytes m).0.2;
    sys = (given nbytes m).1;
    prot = record (m.prot) { nodes = put_node m.prot.nodes a (node_of (new_cell a nbytes m) 0) };
  }

  abbrev with_node : ℕ → Option ℕ → M (Machine Armci W) Ptr
  with_node nbytes got = elim got [
    | none ↦ exit (negsuc 0)
    | some a ↦ do
      h ← gets (λ (m : Machine Armci W). m.heap)
      (p, q, h') ← call (lib.shared_malloc nbytes h)
      modify (λ m. record m { heap = h' })
      set_node a (record { first_ptr = p; second_ptr = q; nbytes = nbytes; next = 0 })
      mlink_front a
      n ← node_at a
      t ← gets (λ (m : Machine Armci W). m.prot)
      defined (ptr_of t.mype n)
  ]

  -- The node that `malloc` gives is new.
  abbrev pub IsFresh : Machine Armci W → Type 0
  IsFresh m = (a : ℕ) → (lib.malloc_node m.sys).0 ≡ some a → (a ≢ 0) × (m.prot.nodes a ≡ none)

  -- The value and the allocations after armci_malloc, by what `malloc` gives.
  abbrev pub allocated :
      Bool → ℕ → Machine Armci W → List Alloc → Option ℕ → Option (Ptr × List Alloc)
  allocated who nbytes m xs none = none
  allocated who nbytes m xs (some a) = some (own who (new_alloc nbytes m), new_alloc nbytes m ∷ xs)

  malloc_fresh :
      (who : Bool) (nbytes a : ℕ) (cs : List Cell) (m : Machine Armci W)
      → m.prot.mype ≡ index_of who
      → m.prot.m_first ≡ head_addr cs
      → Chain m.prot.nodes cs
      → a ≢ 0
      → m.prot.nodes a ≡ none
      → Meets who
          (allocated who nbytes m (allocs cs) (some a))
          (and_then (mlink_front a (filled a nbytes m)) (λ _. returned a))
  malloc_fresh who nbytes a cs m pe fe ch nz e =
      let c = new_cell a nbytes m in
      let nodes = put_node m.prot.nodes a (node_of c 0) in
      let apart = Apart-fresh m.prot.nodes a cs e ch in
      let chain : Chain nodes cs = Chain-put_node m.prot.nodes a (node_of c 0) cs apart ch in
      let final : Machine Armci W = linked a (node_of c (head_addr cs)) (filled a nbytes m) in
      let self = put_node_self nodes a (node_of c (head_addr cs)) in
      (
        final,
        ap (λ (r : Outcome (Machine Armci W) (Unit {0})). and_then r (λ _. returned a))
              (mlink_front_lem a (node_of c 0) cs (filled a nbytes m) nz
                (put_node_self m.prot.nodes a (node_of c 0)) fe chain)
            ∙ returned_lem a who (new_alloc nbytes m) (head_addr cs) final nz self pe,
        record {
          cells = c ∷ cs;
          same = refl;
          here = pe;
          first = refl;
          chained =
              (nz, self, apart, Chain-put_node nodes a (node_of c (head_addr cs)) cs apart chain);
        },
      )

  pub armci_malloc_lem :
      (who : Bool) (nbytes : ℕ) (xs : List Alloc) (m : Machine Armci W)
      → Represents who xs m
      → IsFresh m
      → Meets who (allocated who nbytes m xs (lib.malloc_node m.sys).0) (armci_malloc lib nbytes m)
  unfolding armci_malloc
  armci_malloc_lem who nbytes xs m r fresh =
      subst
        (λ (xs : List Alloc).
          Meets who (allocated who nbytes m xs (lib.malloc_node m.sys).0)
            (armci_malloc lib nbytes m))
        r.same (go (lib.malloc_node m.sys).0 refl)
    where
      go :
          (got : Option ℕ)
          → (lib.malloc_node m.sys).0 ≡ got
          → Meets who
              (allocated who nbytes m (allocs r.cells) got)
              (with_node nbytes got (record m { sys = (lib.malloc_node m.sys).1 }))
      go none e = (record m { sys = (lib.malloc_node m.sys).1 }, refl)
      go (some a) e =
          malloc_fresh who nbytes a r.cells m r.here r.first r.chained (fresh a e).0 (fresh a e).1
