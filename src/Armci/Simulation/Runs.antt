-- ===== src/Armci/Simulation/Runs.antt =====
-- Runs of operations on the linked list of src/armci.c.
use netpipe5_dev.Base.{
  arith, ℕ, suc, ◌+◌, ◌<◌, ◌≤◌, ◌≡◌, refl, sym, ap, subst, Bool, true, false, Option, none, some,
  List, [], ◌∷◌, length,
}
use mathlib.Core.Option.{some-injective}
use netpipe5_dev.Effect.{M, Outcome, done, and_then, ◌>>=◌, pure}
use netpipe5_dev.Memory.{Ptr, null}
use netpipe5_dev.Machine.{Machine}
use netpipe5_dev.Armci.{ArmciLibrary, Armci, ptr_eq}
use netpipe5_dev.Armci.Chain.{Alloc, own}
use netpipe5_dev.Armci.Refine.{erase, with_front, released, partner}
use netpipe5_dev.Armci.Represents.{Represents, Meets}
use netpipe5_dev.Armci.Simulation.Partner.{looked_up}
use netpipe5_dev.Armci.Simulation.Allocate.{IsFresh, new_alloc, allocated}
use netpipe5_dev.Armci.Simulation.Release.{left_by}
use netpipe5_dev.Armci.Simulation.{
  Operation, allocate, release, partner_of, perform, valued, specified, perform-specified,
}

-- A step on a list of allocations: its value and the allocations after it, or an error. A new
-- allocation has the size asked for, and the library is free to have none.
pub data Step {W : Type 0} (lib : ArmciLibrary W) (who : Bool)
    : Operation → List Alloc → Option (Ptr × List Alloc) → Type 0 where
  allocates :
      (x : Alloc) (xs : List Alloc) → Step lib who (allocate x.size) xs (some (own who x, x ∷ xs))
  refuses : (n : ℕ) (xs : List Alloc) → Step lib who (allocate n) xs none
  releases :
      (p : Ptr) (xs : List Alloc)
      → Step lib who (release p) xs (valued lib (left_by lib (released who p xs)))
  finds :
      (p : Ptr) (xs : List Alloc) → Step lib who (partner_of p) xs (looked_up xs (partner who p xs))

-- A run of steps, with the values of all, or the first error.
pub data Run {W : Type 0} (lib : ArmciLibrary W) (who : Bool)
    : List Operation → List Alloc → Option (List Ptr × List Alloc) → Type 0 where
  ends : (xs : List Alloc) → Run lib who [] xs (some ([], xs))
  stops :
      (op : Operation) (ops : List Operation) (xs : List Alloc)
      → Step lib who op xs none
      → Run lib who (op ∷ ops) xs none
  goes :
      (op : Operation) (ops : List Operation) (xs ys zs : List Alloc) (v : Ptr) (vs : List Ptr)
      → Step lib who op xs (some (v, ys))
      → Run lib who ops ys (some (vs, zs))
      → Run lib who (op ∷ ops) xs (some (v ∷ vs, zs))
  fails :
      (op : Operation) (ops : List Operation) (xs ys : List Alloc) (v : Ptr)
      → Step lib who op xs (some (v, ys))
      → Run lib who ops ys none
      → Run lib who (op ∷ ops) xs none

length-erase :
    (who : Bool) (p : Ptr) (xs ys : List Alloc) → erase who p xs ≡ some ys → length ys ≤ length xs
length-erase who p [] ys e = cc
length-erase who p (x ∷ xs) ys e =
    go (ptr_eq (own who x) p) (erase who p xs) (length-erase who p xs) e
  where
    go :
        (hit : Bool) (rest : Option (List Alloc))
        → ((zs : List Alloc) → rest ≡ some zs → length zs ≤ length xs)
        → (elim hit as (λ _. Option (List Alloc)) [ true ↦ some xs | false ↦ with_front x rest ])
          ≡ some ys
        → length ys ≤ suc (length xs)
    go true rest ih e = omega (arith, ap length (some-injective xs ys e))
    go false none ih e = cc
    go false (some zs) ih e = omega (arith, ih zs refl, ap length (some-injective (x ∷ zs) ys e))

module _ {W : Type 0} (lib : ArmciLibrary W) (who : Bool) where
  -- The code's calls one after the other.
  unfoldable pub perform_all : ℕ → List Operation → M (Machine Armci W) (List Ptr)
  perform_all rounds [] = pure []
  perform_all rounds (op ∷ ops) = do
    v ← perform lib rounds op
    vs ← perform_all rounds ops
    pure (v ∷ vs)

  -- Whenever malloc is called for a node, what it gives is new.
  abbrev pub AlwaysFresh : ℕ → List Operation → Machine Armci W → Type 0
  AlwaysFresh rounds [] m = Unit
  AlwaysFresh rounds (op ∷ ops) m =
      IsFresh lib m
      × ((v : Ptr) (m' : Machine Armci W)
          → perform lib rounds op m ≡ done v m'
          → AlwaysFresh rounds ops m')

  -- What the code meets is a step, and makes the list longer by one at most.
  record Stepped (op : Operation) (xs : List Alloc) (s : Option (Ptr × List Alloc)) : Type 0 where
    step : Step lib who op xs s
    grows : (v : Ptr) (ys : List Alloc) → s ≡ some (v, ys) → length ys ≤ suc (length xs)

  same_length :
      (v w : Ptr) (xs ys : List Alloc)
      → ◌≡◌ {A = Option (Ptr × List Alloc)} (some (v, xs)) (some (w, ys))
      → length ys ≡ length xs
  same_length v w xs ys e =
      ap (λ (r : Ptr × List Alloc). length (r.1)) (sym (some-injective (v, xs) (w, ys) e))

  specified-Stepped :
      (op : Operation) (m : Machine Armci W) (xs : List Alloc)
      → Stepped op xs (specified lib who op m xs)
  specified-Stepped (allocate n) m xs = go (lib.malloc_node m.sys).0
    where
      go : (got : Option ℕ) → Stepped (allocate n) xs (allocated lib who n m xs got)
      go none = record { step = refuses n xs; grows = λ v ys e. cc }
      go (some a) = record {
        step = allocates (new_alloc lib n m) xs;
        grows = λ v ys e. omega (arith, same_length _ v (new_alloc lib n m ∷ xs) ys e);
      }
  specified-Stepped (release p) m xs = record {
    step = releases p xs;
    grows = λ v ys e. shrinks xs (released who p xs) (λ zs e'. kept xs zs e') v ys e;
  }
    where
      kept : (xs zs : List Alloc) → released who p xs ≡ some zs → length zs ≤ length xs
      kept [] zs e = omega (arith, ap length (some-injective [] zs e))
      kept (x ∷ xs) zs e = length-erase who p (x ∷ xs) zs e

      shrinks :
          (xs : List Alloc) (r : Option (List Alloc))
          → ((zs : List Alloc) → r ≡ some zs → length zs ≤ length xs)
          → (v : Ptr) (ys : List Alloc) → valued lib (left_by lib r) ≡ some (v, ys)
          → length ys ≤ suc (length xs)
      shrinks xs none h v ys e = cc
      shrinks xs (some zs) h v ys e = omega (arith, h zs refl, same_length null v zs ys e)
  specified-Stepped (partner_of p) m xs = record {
    step = finds p xs;
    grows = λ v ys e. unmoved (partner who p xs) v ys e;
  }
    where
      unmoved :
          (q : Option Ptr) (v : Ptr) (ys : List Alloc)
          → looked_up xs q ≡ some (v, ys)
          → length ys ≤ suc (length xs)
      unmoved none v ys e = cc
      unmoved (some q) v ys e = omega (arith, same_length q v xs ys e)

  -- Calls of armci_malloc, armci_free and remote_ptr of src/armci.c in any order, from a machine
  -- whose linked list stands for a list of allocations, when every address that malloc gives for a
  -- node is new and the rounds are more than the allocations and the calls together: the calls
  -- return, or end the program with -1, as some run on the list of allocations does, and after a
  -- return the linked list stands for its result. There armci_malloc puts an allocation of the size
  -- asked for in front and returns this process's pointer, or is an error; armci_free takes out the
  -- first allocation with this pointer of the process and remote_ptr returns the other process's
  -- pointer in it; with no such allocation both are an error, but on an empty list armci_free takes
  -- nothing out and remote_ptr gives NULL.
  pub perform_all-Run :
      (rounds : ℕ) (ops : List Operation) (xs : List Alloc) (m : Machine Armci W)
      → Represents who xs m
      → length xs + length ops < rounds
      → AlwaysFresh rounds ops m
      → (r : Option (List Ptr × List Alloc)) × Run lib who ops xs r
        × Meets who r (perform_all rounds ops m)
  unfolding perform_all
  perform_all-Run rounds [] xs m rep lt fresh = (some ([], xs), ends xs, (m, refl, rep))
  perform_all-Run rounds (op ∷ ops) xs m rep lt fresh =
      let st = specified-Stepped op m xs in
      go (specified lib who op m xs) (perform lib rounds op m) st.step st.grows
        (perform-specified lib rounds who op xs m rep (omega (arith, lt)) fresh.0) fresh.1
        (λ ys m' rep' le fresh'.
          perform_all-Run rounds ops ys m' rep' (omega (arith, lt, le)) fresh')
    where
      -- After a step that returns.
      rest : Ptr → Outcome (Machine Armci W) (List Ptr) → Outcome (Machine Armci W) (List Ptr)
      rest v o = and_then o (λ vs. pure (v ∷ vs))

      Result : Outcome (Machine Armci W) (List Ptr) → Type 0
      Result o = (r : Option (List Ptr × List Alloc)) × Run lib who (op ∷ ops) xs r × Meets who r o

      after :
          (v : Ptr) (ys : List Alloc) (o : Outcome (Machine Armci W) (List Ptr))
          (r : Option (List Ptr × List Alloc))
          → Step lib who op xs (some (v, ys))
          → Run lib who ops ys r
          → Meets who r o
          → Result (rest v o)
      after v ys o none st run (m', e) = (none, fails op ops xs ys v st run, (m', ap (rest v) e))
      after v ys o (some (vs, zs)) st run (m', e, rep') =
          (some (v ∷ vs, zs), goes op ops xs ys zs v vs st run, (m', ap (rest v) e, rep'))

      go :
          (s : Option (Ptr × List Alloc)) (o : Outcome (Machine Armci W) Ptr)
          → Step lib who op xs s
          → ((v : Ptr) (ys : List Alloc) → s ≡ some (v, ys) → length ys ≤ suc (length xs))
          → Meets who s o
          → ((v : Ptr) (m' : Machine Armci W) → o ≡ done v m' → AlwaysFresh rounds ops m')
          → ((ys : List Alloc) (m' : Machine Armci W)
              → Represents who ys m'
              → length ys ≤ suc (length xs)
              → AlwaysFresh rounds ops m'
              → (r : Option (List Ptr × List Alloc)) × Run lib who ops ys r
                × Meets who r (perform_all rounds ops m'))
          → Result (and_then o (λ v m'. rest v (perform_all rounds ops m')))
      go none o st grows (m', e) fresh ih = (
        none,
        stops op ops xs st,
        (
          m',
          ap
              (λ (o : Outcome (Machine Armci W) Ptr).
                and_then o (λ v m'. rest v (perform_all rounds ops m')))
              e,
        ),
      )
      go (some (v, ys)) o st grows (m', e, rep') fresh ih =
          let next = ih ys m' rep' (grows v ys refl) (fresh v m' e) in
          subst
            (λ (o : Outcome (Machine Armci W) Ptr).
              Result (and_then o (λ v m'. rest v (perform_all rounds ops m'))))
            (sym e) (after v ys (perform_all rounds ops m') next.0 st next.1 next.2)
