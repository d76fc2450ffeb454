-- ===== src/Armci/Simulation.antt =====
-- The operations on the linked list of src/armci.c do what those on a list of allocations do.
pub mod Partner
pub mod Allocate
pub mod Release
pub mod Runs
use netpipe5_dev.Base.{ℕ, ◌<◌, ◌≡◌, ap, Bool, Option, none, some, List, length}
use netpipe5_dev.Effect.{M, Outcome, and_then, ◌>>=◌, ◌>>◌, pure}
use netpipe5_dev.Memory.{Ptr, null}
use netpipe5_dev.Machine.{Machine}
use netpipe5_dev.Armci.{ArmciLibrary, Armci}
use netpipe5_dev.Armci.Nodes.{armci_malloc, armci_free, remote_ptr}
use netpipe5_dev.Armci.Chain.{Alloc}
use netpipe5_dev.Armci.Refine.{released, partner}
use netpipe5_dev.Armci.Represents.{Represents, Meets}
use netpipe5_dev.Armci.Simulation.Partner.{looked_up, remote_ptr_lem}
use netpipe5_dev.Armci.Simulation.Allocate.{IsFresh, allocated, armci_malloc_lem}
use netpipe5_dev.Armci.Simulation.Release.{left_by, armci_free_lem}

pub data Operation : Type 0 where
  allocate : ℕ → Operation
  release : Ptr → Operation
  partner_of : Ptr → Operation

module _ {W : Type 0} (lib : ArmciLibrary W) where
  -- The call of the code; armci_free has no value.
  unfoldable pub perform : ℕ → Operation → M (Machine Armci W) Ptr
  perform rounds (allocate nbytes) = armci_malloc lib nbytes
  perform rounds (release ptr) = do armci_free lib rounds ptr; pure null
  perform rounds (partner_of ptr) = remote_ptr lib rounds ptr

  abbrev pub valued : Option (Unit {0} × List Alloc) → Option (Ptr × List Alloc)
  valued none = none
  valued (some (u, xs)) = some (null, xs)

  -- The value and the allocations after it; none is an error. A new allocation is what the libraries
  -- give.
  abbrev pub specified : Bool → Operation → Machine Armci W → List Alloc → Option (Ptr × List Alloc)
  specified who (allocate nbytes) m xs = allocated lib who nbytes m xs (lib.malloc_node m.sys).0
  specified who (release ptr) m xs = valued (left_by lib (released who ptr xs))
  specified who (partner_of ptr) m xs = looked_up xs (partner who ptr xs)

  -- Each operation on the linked list does what is specified.
  pub perform-specified :
      (rounds : ℕ) (who : Bool) (op : Operation) (xs : List Alloc) (m : Machine Armci W)
      → Represents who xs m
      → length xs < rounds
      → IsFresh lib m
      → Meets who (specified who op m xs) (perform rounds op m)
  unfolding perform
  perform-specified rounds who (allocate nbytes) xs m r lt fresh =
      armci_malloc_lem lib who nbytes xs m r fresh
  perform-specified rounds who (release ptr) xs m r lt fresh =
      go (left_by lib (released who ptr xs)) (armci_free lib rounds ptr m)
        (armci_free_lem lib rounds who ptr xs m r lt)
    where
      go :
          (s : Option (Unit {0} × List Alloc)) (o : Outcome (Machine Armci W) (Unit {0}))
          → Meets who s o
          → Meets who (valued s) (and_then o (λ _. pure null))
      go none o (m', e) =
          (m', ap (λ (o : Outcome (Machine Armci W) (Unit {0})). and_then o (λ _. pure null)) e)
      go (some (u, ys)) o (m', e, r') =
          (m', ap (λ (o : Outcome (Machine Armci W) (Unit {0})). and_then o (λ _. pure null)) e, r')
  perform-specified rounds who (partner_of ptr) xs m r lt fresh =
      remote_ptr_lem lib rounds who ptr xs m r lt
