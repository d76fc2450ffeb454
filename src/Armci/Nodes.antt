-- ===== src/Armci/Nodes.antt =====
-- src/armci.c: the linked list of allocations. ARMCI_Error terminates everything.
use netpipe5_dev.Base.{ℕ, zero, suc, ◌==◌, negsuc, Bool, true, false, not, Option, none, some}
use netpipe5_dev.Effect.{M, ◌>>=◌, ◌>>◌, pure, gets, modify, exit, skip, hang, when, defined}
use netpipe5_dev.Memory.{Ptr, null}
use netpipe5_dev.Machine.{Machine, call, set_prot}
use netpipe5_dev.Armci.{ArmciLibrary, Mnode, Armci, ptr_eq}

-- node->ptrs[i]
abbrev pub ptr_of : ℕ → Mnode → Option Ptr
ptr_of zero n = some n.first_ptr
ptr_of (suc zero) n = some n.second_ptr
ptr_of (suc (suc i)) n = none

-- `1 - mype` is an index only for the processes 0 and 1.
abbrev pub other_ptr : ℕ → Mnode → Option Ptr
other_ptr zero n = some n.second_ptr
other_ptr (suc zero) n = some n.first_ptr
other_ptr (suc (suc i)) n = none

abbrev pub put_node : (ℕ → Option Mnode) → ℕ → Mnode → ℕ → Option Mnode
put_node nodes a n b = elim (a == b) [ true ↦ some n | false ↦ nodes b ]

module _ {W : Type 0} where
  -- `*p` on a node
  abbrev pub node_at : ℕ → M (Machine Armci W) Mnode
  node_at a = do
    t ← gets (λ (m : Machine Armci W). m.prot)
    elim (a == 0) [ true ↦ defined none | false ↦ defined (t.nodes a) ]

  abbrev pub set_node : ℕ → Mnode → M (Machine Armci W) (Unit {0})
  set_node a n = set_prot (λ t. record t { nodes = put_node t.nodes a n })

  abbrev pub set_next : ℕ → ℕ → M (Machine Armci W) (Unit {0})
  set_next a q = do n ← node_at a; set_node a (record n { next = q })

  -- node->ptrs[mype] == ptr
  abbrev pub mine : Mnode → Ptr → M (Machine Armci W) Bool
  mine n ptr = do
    t ← gets (λ (m : Machine Armci W). m.prot)
    p ← defined (ptr_of t.mype n)
    pure (ptr_eq p ptr)

  -- The node that `mlink_front` is given has its pointers and its size.
  unfoldable pub mlink_front : ℕ → M (Machine Armci W) (Unit {0})
  mlink_front a = do
    t ← gets (λ (m : Machine Armci W). m.prot)
    elim (t.m_first == 0) [ true ↦ set_next a 0 | false ↦ set_next a t.m_first ]
    set_prot (λ t. record t { m_first = a })

  -- The loop of mfind, with the node before.
  unfoldable pub mfind_loop : ℕ → Ptr → ℕ → ℕ → M (Machine Armci W) (ℕ × ℕ)
  mfind_loop zero ptr p n = hang
  mfind_loop (suc rounds) ptr p n = elim (n == 0) [
    | true ↦ exit (negsuc 0)
    | false ↦ do
      found ← node_at n
      hit ← mine found ptr
      elim hit [ true ↦ pure (n, p) | false ↦ mfind_loop rounds ptr n found.next ]
  ]

  -- The node and the one before; both are 0 if the list is empty.
  unfoldable pub mfind : ℕ → Ptr → M (Machine Armci W) (ℕ × ℕ)
  mfind rounds ptr = do
    t ← gets (λ (m : Machine Armci W). m.prot)
    elim (t.m_first == 0) [
      | true ↦ pure (0, 0)
      | false ↦ do
        found ← node_at t.m_first
        hit ← mine found ptr
        elim hit [ true ↦ pure (t.m_first, 0) | false ↦ mfind_loop rounds ptr t.m_first found.next ]
    ]

  unfoldable pub munlink : ℕ → ℕ → M (Machine Armci W) (Unit {0})
  munlink node prev = elim (node == 0) [
    | true ↦ skip
    | false ↦ do
      n ← node_at node
      elim (prev == 0) [
        | true ↦ set_prot (λ t. record t { m_first = n.next })
        | false ↦ set_next prev n.next
      ]
  ]

module _ {W : Type 0} (lib : ArmciLibrary W) where
  unfoldable pub armci_malloc : ℕ → M (Machine Armci W) Ptr
  unfolding mlink_front
  armci_malloc nbytes = do
    got ← call (lib.malloc_node)
    elim got [
      | none ↦ exit (negsuc 0)
      | some a ↦ do
        h ← gets (λ m. m.heap)
        (p, q, h') ← call (lib.shared_malloc nbytes h)
        modify (λ m. record m { heap = h' })
        set_node a (record { first_ptr = p; second_ptr = q; nbytes = nbytes; next = 0 })
        mlink_front a
        n ← node_at a
        t ← gets (λ (m : Machine Armci W). m.prot)
        defined (ptr_of t.mype n)
    ]

  -- The node itself is not freed.
  unfoldable pub armci_free : ℕ → Ptr → M (Machine Armci W) (Unit {0})
  unfolding mfind munlink
  armci_free rounds ptr = do
    (n, p) ← mfind rounds ptr
    when (not (n == 0)) (munlink n p)
    h ← gets (λ m. m.heap)
    h' ← call (lib.shared_free ptr h)
    modify (λ m. record m { heap = h' })

  unfoldable pub remote_ptr : ℕ → Ptr → M (Machine Armci W) Ptr
  unfolding mfind
  remote_ptr rounds local = do
    (n, p) ← mfind rounds local
    elim (n == 0) [
      | true ↦ pure null
      | false ↦ do
        found ← node_at n
        t ← gets (λ (m : Machine Armci W). m.prot)
        defined (other_ptr t.mype found)
    ]
