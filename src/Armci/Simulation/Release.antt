-- ===== src/Armci/Simulation/Release.antt =====
-- armci_free takes the first node with the pointer out of the linked list.
use netpipe5_dev.Base.{
  ℕ, ◌<◌, ◌==◌, ◌≡◌, ◌≢◌, ◌∙◌, refl, sym, ap, subst, negsuc, Bool, true, false, not, Option, none,
  some, List, [], ◌∷◌, length,
}
use netpipe5_dev.Effect.{M, Outcome, done, exited, and_then, ◌>>=◌, ◌>>◌, gets, modify, when}
use netpipe5_dev.Memory.{Ptr}
use netpipe5_dev.Machine.{Machine, call}
use netpipe5_dev.Armci.{ArmciLibrary, Armci, ptr_eq}
use netpipe5_dev.Armci.Nodes.{munlink, armci_free}
use netpipe5_dev.Armci.Chain.{
  Alloc, Cell, head_addr, Chain, index_of, own, search_from, search, eq_of_ne, answer, mfind_lem,
}
use netpipe5_dev.Armci.Represents.{Represents, Meets, length_lem}
use netpipe5_dev.Armci.Refine.{
  allocs, with_front, erase, released, relinked, headed, munlink_first, search_from-Unlinked,
  search_from-erase-none,
}

module _ {W : Type 0} (lib : ArmciLibrary W) where
  -- ARMCI_Free leaves the list alone.
  abbrev freed : Ptr → Machine Armci W → Machine Armci W
  freed ptr m = record m {
    heap = (lib.shared_free ptr m.heap m.sys).0;
    sys = (lib.shared_free ptr m.heap m.sys).1;
  }

  abbrev after_find : Ptr → ℕ × ℕ → M (Machine Armci W) (Unit {0})
  after_find ptr r = do
    when (not (r.0 == 0)) (munlink r.0 r.1)
    h ← gets (λ m. m.heap)
    h' ← call (lib.shared_free ptr h)
    modify (λ m. record m { heap = h' })

  abbrev after_test : Ptr → ℕ × ℕ → Bool → M (Machine Armci W) (Unit {0})
  after_test ptr r void = do
    when (not void) (munlink r.0 r.1)
    h ← gets (λ m. m.heap)
    h' ← call (lib.shared_free ptr h)
    modify (λ m. record m { heap = h' })

  after_find_lem :
      (ptr : Ptr) (n p : ℕ) (m m' : Machine Armci W)
      → n ≢ 0
      → munlink n p m ≡ done tt m'
      → after_find ptr (n, p) m ≡ done tt (freed ptr m')
  after_find_lem ptr n p m m' nz e =
      ap (λ (void : Bool). after_test ptr (n, p) void m) (eq_of_ne n 0 nz)
      ∙ ap (λ (r : Outcome (Machine Armci W) (Unit {0})). and_then r (λ _ m. done tt (freed ptr m)))
          e

  abbrev pub left_by : Option (List Alloc) → Option (Unit {0} × List Alloc)
  left_by none = none
  left_by (some xs) = some (tt, xs)

  free_cells :
      (who : Bool) (ptr : Ptr) (cs : List Cell) (m : Machine Armci W)
      → m.prot.mype ≡ index_of who
      → m.prot.m_first ≡ head_addr cs
      → Chain m.prot.nodes cs
      → Meets who
          (left_by (released who ptr (allocs cs)))
          (and_then (answer m (search who ptr cs)) (after_find ptr))
  free_cells who ptr [] m pe fe ch =
      (freed ptr m, refl, record { cells = []; same = refl; here = pe; first = fe; chained = tt })
  free_cells who ptr (c ∷ cs) m pe fe ch = go (ptr_eq (own who c.alloc) ptr)
    where
      deep :
          (found : Option (ℕ × ℕ))
          → search_from who ptr c.addr cs ≡ found
          → Meets who
              (left_by (with_front c.alloc (erase who ptr (allocs cs))))
              (and_then (answer m found) (after_find ptr))
      deep none e =
          subst
            (λ (xs : Option (List Alloc)).
              Meets who (left_by (with_front c.alloc xs)) (exited (negsuc 0) m))
            (sym (search_from-erase-none who ptr c.addr cs e).0) (m, refl)
      deep (some (n, p)) e =
          let u = search_from-Unlinked who ptr c cs n p m ch e in
          subst
            (λ (xs : Option (List Alloc)).
              Meets who (left_by (with_front c.alloc xs)) (after_find ptr (n, p) m))
            (sym u.erased)
            (
              freed ptr (relinked u.links m),
              after_find_lem ptr n p m (relinked u.links m) u.real u.ran,
              record {
                cells = c ∷ u.left;
                same = refl;
                here = pe;
                first = fe;
                chained = u.chained;
              },
            )

      go :
          (hit : Bool)
          → Meets who
              (left_by (elim hit [
                | true ↦ some (allocs cs)
                | false ↦ with_front c.alloc (erase who ptr (allocs cs))
              ]))
              (and_then
                (answer m
                  (elim hit [ true ↦ some (c.addr, 0) | false ↦ search_from who ptr c.addr cs ]))
                (after_find ptr))
      go true = (
        freed ptr (headed (head_addr cs) m),
        after_find_lem ptr c.addr 0 m (headed (head_addr cs) m) ch.0 (munlink_first c cs m ch),
        record { cells = cs; same = refl; here = pe; first = refl; chained = ch.3 },
      )
      go false = deep (search_from who ptr c.addr cs) refl

  pub armci_free_lem :
      (rounds : ℕ) (who : Bool) (ptr : Ptr) (xs : List Alloc) (m : Machine Armci W)
      → Represents who xs m
      → length xs < rounds
      → Meets who (left_by (released who ptr xs)) (armci_free lib rounds ptr m)
  unfolding armci_free
  armci_free_lem rounds who ptr xs m r lt =
      subst
        (λ (xs : List Alloc).
          Meets who (left_by (released who ptr xs)) (armci_free lib rounds ptr m))
        r.same
        (subst
          (λ (o : Outcome (Machine Armci W) (ℕ × ℕ)).
            Meets who (left_by (released who ptr (allocs r.cells))) (and_then o (after_find ptr)))
          (sym (mfind_lem rounds who ptr r.cells m r.here r.first r.chained (length_lem r lt)))
          (free_cells who ptr r.cells m r.here r.first r.chained))
