-- ===== src/Armci/Simulation/Partner.antt =====
-- remote_ptr looks the other process's pointer up.
use netpipe5_dev.Base.{
  ℕ, ◌<◌, ◌==◌, ◌≡◌, ◌≢◌, ◌∙◌, refl, sym, ap, subst, negsuc, Bool, true, false, Option, none, some,
  List, [], ◌∷◌, length,
}
use mathlib.Core.Option.{some-injective}
use netpipe5_dev.Effect.{M, Outcome, done, exited, and_then, ◌>>=◌, pure, gets, defined}
use netpipe5_dev.Memory.{Ptr, null}
use netpipe5_dev.Machine.{Machine}
use netpipe5_dev.Armci.{ArmciLibrary, Mnode, Armci, ptr_eq}
use netpipe5_dev.Armci.Nodes.{other_ptr, node_at, remote_ptr}
use netpipe5_dev.Armci.Chain.{
  Alloc, Cell, node_of, head_addr, Chain, index_of, own, theirs, search_from, search, eq_of_ne,
  node_at_lem, answer, mfind_lem,
}
use netpipe5_dev.Armci.Refine.{allocs, partner_in, partner, search_from-erase-none}
use netpipe5_dev.Armci.Represents.{Represents, Meets, length_lem}

-- The node of a cell that a search finds.
record Reached (who : Bool) (ptr : Ptr) (nodes : ℕ → Option Mnode) (n : ℕ) (cs : List Cell)
    : Type 0 where
  cell : Cell
  next : ℕ
  real : n ≢ 0
  stored : nodes n ≡ some (node_of cell next)
  found : partner_in who ptr (allocs cs) ≡ some (theirs who cell.alloc)

abbrev found_by : Bool → Ptr → Cell → List Cell → Bool → Option Ptr
found_by who ptr c cs hit = elim hit [
  | true ↦ some (theirs who c.alloc)
  | false ↦ partner_in who ptr (allocs cs)
]

search_from-Reached :
    (who : Bool) (ptr : Ptr) (nodes : ℕ → Option Mnode) (n p prev : ℕ) (cs : List Cell)
    → Chain nodes cs
    → search_from who ptr prev cs ≡ some (n, p)
    → Reached who ptr nodes n cs
search_from-Reached who ptr nodes n p prev [] ch e = cc
search_from-Reached who ptr nodes n p prev (c ∷ cs) ch e =
    go (ptr_eq (own who c.alloc) ptr) refl (search_from-Reached who ptr nodes n p c.addr cs ch.3) e
  where
    go :
        (hit : Bool)
        → ptr_eq (own who c.alloc) ptr ≡ hit
        → (search_from who ptr c.addr cs ≡ some (n, p) → Reached who ptr nodes n cs)
        → (elim hit as (λ _. Option (ℕ × ℕ)) [
          | true ↦ some (c.addr, prev)
          | false ↦ search_from who ptr c.addr cs
        ])
          ≡ some (n, p)
        → Reached who ptr nodes n (c ∷ cs)
    go true hit ih e =
        let same : c.addr ≡ n = ap (λ (r : ℕ × ℕ). r.0) (some-injective (c.addr, prev) (n, p) e) in
        record {
          cell = c;
          next = head_addr cs;
          real = λ z. ch.0 (same ∙ z);
          stored = subst (λ (a : ℕ). nodes a ≡ some (node_of c (head_addr cs))) same ch.1;
          found = ap (found_by who ptr c cs) hit;
        }
    go false hit ih e =
        let r = ih e in
        record {
          cell = r.cell;
          next = r.next;
          real = r.real;
          stored = r.stored;
          found = ap (found_by who ptr c cs) hit ∙ r.found;
        }

other_ptr-theirs :
    (who : Bool) (c : Cell) (k : ℕ)
    → other_ptr (index_of who) (node_of c k) ≡ some (theirs who c.alloc)
other_ptr-theirs false c k = refl
other_ptr-theirs true c k = refl

abbrev pub looked_up : List Alloc → Option Ptr → Option (Ptr × List Alloc)
looked_up xs none = none
looked_up xs (some q) = some (q, xs)

module _ {W : Type 0} where
  abbrev after_find : ℕ × ℕ → M (Machine Armci W) Ptr
  after_find r = elim (r.0 == 0) [
    | true ↦ pure null
    | false ↦ do
      found ← node_at r.0
      t ← gets (λ (m : Machine Armci W). m.prot)
      defined (other_ptr t.mype found)
  ]

  abbrev after_test : ℕ → Bool → M (Machine Armci W) Ptr
  after_test n void = elim void [
    | true ↦ pure null
    | false ↦ do
      found ← node_at n
      t ← gets (λ (m : Machine Armci W). m.prot)
      defined (other_ptr t.mype found)
  ]

  after_find_lem :
      (who : Bool) (n p : ℕ) (c : Cell) (k : ℕ) (m : Machine Armci W)
      → m.prot.mype ≡ index_of who
      → n ≢ 0
      → m.prot.nodes n ≡ some (node_of c k)
      → after_find (n, p) m ≡ done (theirs who c.alloc) m
  after_find_lem who n p c k m pe nz e =
      ap (λ (void : Bool). after_test n void m) (eq_of_ne n 0 nz)
      ∙ ap
          (λ (r : Outcome (Machine Armci W) Mnode).
            and_then r (λ found m. defined (other_ptr m.prot.mype found) m))
          (node_at_lem n (node_of c k) m nz e)
      ∙ ap (λ (i : ℕ). defined (other_ptr i (node_of c k)) m) pe
      ∙ ap (λ (q : Option Ptr). defined q m) (other_ptr-theirs who c k)

  -- The machine is left as it is.
  abbrev pub Looks : Machine Armci W → Option Ptr → Outcome (Machine Armci W) Ptr → Type 0
  Looks m none o = o ≡ exited (negsuc 0) m
  Looks m (some q) o = o ≡ done q m

  -- After a search of a list that is not empty.
  partner_found :
      (who : Bool) (ptr : Ptr) (c : Cell) (cs : List Cell) (m : Machine Armci W)
      → m.prot.mype ≡ index_of who
      → Chain m.prot.nodes (c ∷ cs)
      → (found : Option (ℕ × ℕ)) → search_from who ptr 0 (c ∷ cs) ≡ found
      → Looks m (partner_in who ptr (allocs (c ∷ cs))) (and_then (answer m found) after_find)
  partner_found who ptr c cs m pe ch none e =
      subst (λ (q : Option Ptr). Looks m q (exited (negsuc 0) m))
        (sym (search_from-erase-none who ptr 0 (c ∷ cs) e).1) refl
  partner_found who ptr c cs m pe ch (some (n, p)) e =
      let u = search_from-Reached who ptr m.prot.nodes n p 0 (c ∷ cs) ch e in
      subst (λ (q : Option Ptr). Looks m q (after_find (n, p) m)) (sym u.found)
        (after_find_lem who n p u.cell u.next m pe u.real u.stored)

  partner_any :
      (who : Bool) (ptr : Ptr) (cs : List Cell) (m : Machine Armci W)
      → m.prot.mype ≡ index_of who
      → Chain m.prot.nodes cs
      → Looks m (partner who ptr (allocs cs)) (and_then (answer m (search who ptr cs)) after_find)
  partner_any who ptr [] m pe ch = refl
  partner_any who ptr (c ∷ cs) m pe ch =
      partner_found who ptr c cs m pe ch (search_from who ptr 0 (c ∷ cs)) refl

  pub remote_ptr-Looks :
      (lib : ArmciLibrary W) (rounds : ℕ) (who : Bool) (ptr : Ptr) (xs : List Alloc)
      (m : Machine Armci W)
      → Represents who xs m
      → length xs < rounds
      → Looks m (partner who ptr xs) (remote_ptr lib rounds ptr m)
  unfolding remote_ptr
  remote_ptr-Looks lib rounds who ptr xs m r lt =
      subst (λ (xs : List Alloc). Looks m (partner who ptr xs) (remote_ptr lib rounds ptr m)) r.same
        (subst
          (λ (o : Outcome (Machine Armci W) (ℕ × ℕ)).
            Looks m (partner who ptr (allocs r.cells)) (and_then o after_find))
          (sym (mfind_lem rounds who ptr r.cells m r.here r.first r.chained (length_lem r lt)))
          (partner_any who ptr r.cells m r.here r.chained))

  pub remote_ptr_lem :
      (lib : ArmciLibrary W) (rounds : ℕ) (who : Bool) (ptr : Ptr) (xs : List Alloc)
      (m : Machine Armci W)
      → Represents who xs m
      → length xs < rounds
      → Meets who (looked_up xs (partner who ptr xs)) (remote_ptr lib rounds ptr m)
  remote_ptr_lem lib rounds who ptr xs m r lt =
      go (partner who ptr xs) (remote_ptr lib rounds ptr m)
        (remote_ptr-Looks lib rounds who ptr xs m r lt)
    where
      go :
          (q : Option Ptr) (o : Outcome (Machine Armci W) Ptr)
          → Looks m q o
          → Meets who (looked_up xs q) o
      go none o e = (m, e)
      go (some q) o e = (m, e, r)
