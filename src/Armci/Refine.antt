-- ===== src/Armci/Refine.antt =====
-- The linked list as the list of the allocations that it stands for.
use netpipe5_dev.Base.{
  ℕ, ◌==◌, ◌≡◌, ◌≢◌, ◌∙◌, refl, sym, ap, subst, Bool, true, false, inl, inr, Bool-cases, Option,
  none, some, List, [], ◌∷◌,
}
use mathlib.Core.Option.{some-injective}
use netpipe5_dev.Effect.{M, Outcome, done, and_then, ◌>>=◌, pure}
use netpipe5_dev.Memory.{Ptr, null}
use netpipe5_dev.Machine.{Machine, set_prot}
use netpipe5_dev.Armci.{Mnode, Armci, ptr_eq}
use netpipe5_dev.Armci.Nodes.{put_node, node_at, set_next, munlink}
use netpipe5_dev.Armci.Chain.{
  Alloc, Cell, node_of, head_addr, Apart, Chain, own, theirs, search_from, eq_self, eq_of_ne,
  Chain-put_node, node_at_lem,
}

abbrev pub allocs : List Cell → List Alloc
allocs [] = []
allocs (c ∷ cs) = c.alloc ∷ allocs cs

abbrev pub with_front : Alloc → Option (List Alloc) → Option (List Alloc)
with_front x none = none
with_front x (some xs) = some (x ∷ xs)

-- The first allocation whose own pointer this is taken out; none if there is none.
abbrev pub erase : Bool → Ptr → List Alloc → Option (List Alloc)
erase who ptr [] = none
erase who ptr (x ∷ xs) = elim (ptr_eq (own who x) ptr) [
  | true ↦ some xs
  | false ↦ with_front x (erase who ptr xs)
]

-- The other process's pointer in it.
abbrev pub partner_in : Bool → Ptr → List Alloc → Option Ptr
partner_in who ptr [] = none
partner_in who ptr (x ∷ xs) = elim (ptr_eq (own who x) ptr) [
  | true ↦ some (theirs who x)
  | false ↦ partner_in who ptr xs
]

-- With no allocations at all nothing is an error.
abbrev pub released : Bool → Ptr → List Alloc → Option (List Alloc)
released who ptr [] = some []
released who ptr (x ∷ xs) = erase who ptr (x ∷ xs)

abbrev pub partner : Bool → Ptr → List Alloc → Option Ptr
partner who ptr [] = some null
partner who ptr (x ∷ xs) = partner_in who ptr (x ∷ xs)

-- What a search that finds nothing says of the allocations.
pub search_from-erase-none :
    (who : Bool) (ptr : Ptr) (prev : ℕ) (cs : List Cell)
    → search_from who ptr prev cs ≡ none
    → (erase who ptr (allocs cs) ≡ none) × (partner_in who ptr (allocs cs) ≡ none)
search_from-erase-none who ptr prev [] e = (refl, refl)
search_from-erase-none who ptr prev (c ∷ cs) e =
    go (ptr_eq (own who c.alloc) ptr) (search_from-erase-none who ptr c.addr cs) e
  where
    go :
        (hit : Bool)
        → (search_from who ptr c.addr cs ≡ none
            → (erase who ptr (allocs cs) ≡ none) × (partner_in who ptr (allocs cs) ≡ none))
        → (elim hit as (λ _. Option (ℕ × ℕ)) [
          | true ↦ some (c.addr, prev)
          | false ↦ search_from who ptr c.addr cs
        ])
          ≡ none
        → ((elim hit as (λ _. Option (List Alloc)) [
          | true ↦ some (allocs cs)
          | false ↦ with_front c.alloc (erase who ptr (allocs cs))
        ])
            ≡ none)
          × ((elim hit as (λ _. Option Ptr) [
            | true ↦ some (theirs who c.alloc)
            | false ↦ partner_in who ptr (allocs cs)
          ])
              ≡ none)
    go true ih e = cc
    go false ih e = (ap (with_front c.alloc) (ih e).0, (ih e).1)

module _ {W : Type 0} where
  abbrev pub relinked : (ℕ → Option Mnode) → Machine Armci W → Machine Armci W
  relinked links m = record m { prot = record (m.prot) { nodes = links } }

  abbrev pub headed : ℕ → Machine Armci W → Machine Armci W
  headed a m = record m { prot = record (m.prot) { m_first = a } }

  -- munlink of the node `n` after `p`, where the cells `cs` stand behind the cell `b`.
  pub record Unlinked (who : Bool) (ptr : Ptr) (b : Cell) (cs : List Cell) (n p : ℕ)
      (m : Machine Armci W) : Type 0 where
    pub left : List Cell
    pub links : ℕ → Option Mnode
    pub erased : erase who ptr (allocs cs) ≡ some (allocs left)
    pub real : n ≢ 0
    pub ran : munlink n p m ≡ done tt (relinked links m)
    pub chained : Chain links (b ∷ left)
    pub kept : (a : ℕ) → Apart a (b ∷ cs) → links a ≡ m.prot.nodes a
    pub apart : (a : ℕ) → Apart a cs → Apart a left

  abbrev unlink : ℕ → ℕ → Bool → Bool → M (Machine Armci W) (Unit {0})
  unlink node prev void first = elim void [
    | true ↦ pure tt
    | false ↦ do
      n ← node_at node
      elim first [
        | true ↦ set_prot (λ t. record t { m_first = n.next })
        | false ↦ set_next prev n.next
      ]
  ]

  -- The second of two neighbours is taken out.
  munlink_behind :
      (b c : Cell) (cs : List Cell) (m : Machine Armci W)
      → Chain m.prot.nodes (b ∷ c ∷ cs)
      → munlink c.addr b.addr m
        ≡ done tt (relinked (put_node m.prot.nodes b.addr (node_of b (head_addr cs))) m)
  unfolding munlink
  munlink_behind b c cs m (bz, be, _, (cz, ce, _, _)) =
      ap (λ (void : Bool). unlink c.addr b.addr void (b.addr == 0) m) (eq_of_ne c.addr 0 cz)
      ∙ ap (λ (first : Bool). unlink c.addr b.addr false first m) (eq_of_ne b.addr 0 bz)
      ∙ ap (λ (r : Outcome (Machine Armci W) Mnode). and_then r (λ n. set_next b.addr n.next))
          (node_at_lem c.addr (node_of c (head_addr cs)) m cz ce)
      ∙ ap
          (λ (r : Outcome (Machine Armci W) Mnode). and_then r (λ n m.
            done tt (relinked (put_node m.prot.nodes b.addr (record n { next = head_addr cs })) m)))
          (node_at_lem b.addr (node_of b c.addr) m bz be)

  pub munlink_first :
      (c : Cell) (cs : List Cell) (m : Machine Armci W)
      → Chain m.prot.nodes (c ∷ cs)
      → munlink c.addr 0 m ≡ done tt (headed (head_addr cs) m)
  unfolding munlink
  munlink_first c cs m (cz, ce, _, _) =
      ap (λ (void : Bool). unlink c.addr 0 void true m) (eq_of_ne c.addr 0 cz)
      ∙ ap (λ (r : Outcome (Machine Armci W) Mnode). and_then r (λ n m. done tt (headed n.next m)))
          (node_at_lem c.addr (node_of c (head_addr cs)) m cz ce)

  -- The cell found stands right behind `b`.
  Unlinked-here :
      (who : Bool) (ptr : Ptr) (b c : Cell) (cs : List Cell) (m : Machine Armci W)
      → Chain m.prot.nodes (b ∷ c ∷ cs)
      → ptr_eq (own who c.alloc) ptr ≡ true
      → Unlinked who ptr b (c ∷ cs) c.addr b.addr m
  Unlinked-here who ptr b c cs m (bz, be, (bc, bcs), (cz, ce, fresh, rest)) hit = record {
    left = cs;
    links = put_node m.prot.nodes b.addr (node_of b (head_addr cs));
    erased =
        ap
          (λ (hit : Bool). elim hit as (λ _. Option (List Alloc)) [
            | true ↦ some (allocs cs)
            | false ↦ with_front c.alloc (erase who ptr (allocs cs))
          ])
          hit;
    real = cz;
    ran = munlink_behind b c cs m (bz, be, (bc, bcs), (cz, ce, fresh, rest));
    chained = (
      bz,
      ap
          (λ (b' : Bool). elim b' as (λ _. Option Mnode) [
            | true ↦ some (node_of b (head_addr cs))
            | false ↦ m.prot.nodes b.addr
          ])
          (eq_self b.addr),
      bcs,
      Chain-put_node m.prot.nodes b.addr (node_of b (head_addr cs)) cs bcs rest,
    );
    kept = λ a apart.
        ap
          (λ (b' : Bool). elim b' as (λ _. Option Mnode) [
            | true ↦ some (node_of b (head_addr cs))
            | false ↦ m.prot.nodes a
          ])
          (eq_of_ne b.addr a (λ e. apart.0 (sym e)));
    apart = λ a apart. apart.1;
  }

  -- The cell found stands further on.
  Unlinked-there :
      (who : Bool) (ptr : Ptr) (b c : Cell) (cs : List Cell) (n p : ℕ) (m : Machine Armci W)
      → Chain m.prot.nodes (b ∷ c ∷ cs)
      → ptr_eq (own who c.alloc) ptr ≡ false
      → Unlinked who ptr c cs n p m
      → Unlinked who ptr b (c ∷ cs) n p m
  Unlinked-there who ptr b c cs n p m (bz, be, (bc, bcs), (cz, ce, fresh, rest)) miss u = record {
    left = c ∷ u.left;
    links = u.links;
    erased =
        ap
          (λ (hit : Bool). elim hit as (λ _. Option (List Alloc)) [
            | true ↦ some (allocs cs)
            | false ↦ with_front c.alloc (erase who ptr (allocs cs))
          ])
          miss
        ∙ ap (with_front c.alloc) u.erased;
    real = u.real;
    ran = u.ran;
    chained = (bz, u.kept b.addr (bc, bcs) ∙ be, (bc, u.apart b.addr bcs), u.chained);
    kept = λ a apart. u.kept a apart.1;
    apart = λ a apart. (apart.0, u.apart a apart.1);
  }

  pub search_from-Unlinked :
      (who : Bool) (ptr : Ptr) (b : Cell) (cs : List Cell) (n p : ℕ) (m : Machine Armci W)
      → Chain m.prot.nodes (b ∷ cs)
      → search_from who ptr b.addr cs ≡ some (n, p)
      → Unlinked who ptr b cs n p m
  search_from-Unlinked who ptr b [] n p m ch found = cc
  search_from-Unlinked who ptr b (c ∷ cs) n p m ch found =
      elim (Bool-cases (ptr_eq (own who c.alloc) ptr)) [
        | inl hit ↦
            let e : ◌≡◌ {A = Option (ℕ × ℕ)} (some (c.addr, b.addr)) (some (n, p)) =
              sym (choose hit) ∙ found in
            subst (λ (r : ℕ × ℕ). Unlinked who ptr b (c ∷ cs) r.0 r.1 m)
              (some-injective (c.addr, b.addr) (n, p) e) (Unlinked-here who ptr b c cs m ch hit)
        | inr miss ↦
            Unlinked-there who ptr b c cs n p m ch miss
              (search_from-Unlinked who ptr c cs n p m ch.3 (sym (choose miss) ∙ found))
      ]
    where
      choose :
          {hit : Bool}
          → ptr_eq (own who c.alloc) ptr ≡ hit
          → search_from who ptr b.addr (c ∷ cs) ≡ (elim hit as (λ _. Option (ℕ × ℕ)) [
            | true ↦ some (c.addr, b.addr)
            | false ↦ search_from who ptr c.addr cs
          ])
      choose e =
          ap
            (λ (hit : Bool). elim hit as (λ _. Option (ℕ × ℕ)) [
              | true ↦ some (c.addr, b.addr)
              | false ↦ search_from who ptr c.addr cs
            ])
            e
