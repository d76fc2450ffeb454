-- ===== src/Armci/Words.antt =====
-- The flag that SendTime, SendRepeat and their receivers share.
use netpipe5_dev.Base.{
  arith, ℕ, ◌<◌, ◌^◌, ◌==◌, ◌≡◌, ◌∙◌, ap, subst, Bool, Option, some, List, length,
}
use netpipe5_dev.Effect.{Outcome, done, and_then, ◌>>=◌, ◌>>◌, pure, defined}
use netpipe5_dev.Memory
use netpipe5_dev.Memory.{Ptr, Heap}
use netpipe5_dev.Machine.{Machine, load_bytes, put_bytes, call, le32, of_le32}
use netpipe5_dev.Polling.Arrival.{Comes, wait_for_lem}
use netpipe5_dev.Armci.{ArmciLibrary, Armci}
use netpipe5_dev.Armci.Nodes.{remote_ptr}
use netpipe5_dev.Armci.Chain.{Alloc}
use netpipe5_dev.Armci.Refine.{partner}
use netpipe5_dev.Armci.Represents.{Represents}
use netpipe5_dev.Armci.Simulation.Partner.{Looks, remote_ptr-Looks}
use netpipe5_dev.Armci.Transfer.{put_to_nbor, put_shared, armci_send_repeat, armci_recv_repeat}

module _ {W : Type 0} (lib : ArmciLibrary W) where
  -- The system after the bytes were put at `to`.
  abbrev pub put_sys : List ℕ → Ptr → Machine Armci W → Machine Armci W
  put_sys bytes to m = record m { sys = (lib.put bytes to m.prot.nbor m.sys).1 }

  -- A shared variable whose other copy is known is put there.
  put_shared_lem :
      (rounds : ℕ) (who : Bool) (p to : Ptr) (size : ℕ) (bytes : List ℕ) (xs : List Alloc)
      (m : Machine Armci W)
      → Represents who xs m
      → length xs < rounds
      → partner who p xs ≡ some to
      → Memory.load p size m.heap ≡ some bytes
      → put_shared lib rounds p size m ≡ done tt (put_sys bytes to m)
  put_shared_lem rounds who p to size bytes xs m r lt known loaded =
      ap (λ (o : Outcome (Machine Armci W) Ptr). and_then o (λ q. put_to_nbor lib rounds p q size))
        (subst (λ (q : Option Ptr). Looks m q (remote_ptr lib rounds p m)) known
          (remote_ptr-Looks lib rounds who p xs m r lt))
      ∙ ap
          (λ (found : Option (List ℕ)).
            and_then (defined found m)
              (λ (bytes : List ℕ) (m : Machine Armci W). call (lib.put bytes to m.prot.nbor) m))
          loaded

  -- SendRepeat of src/armci.c, when the linked list stands for allocations among which the count
  -- and the flag have the neighbour's pointers, with more rounds than there are nodes and both in
  -- live blocks: it stores the count, puts its four bytes at the neighbour's count and only then
  -- the flag at the neighbour's flag, and returns.
  pub armci_send_repeat_lem :
      (rounds : ℕ) (who : Bool) (rpt : ℕ) (word flag : Ptr) (flagged : List ℕ) (h : Heap)
      (xs : List Alloc) (m : Machine Armci W)
      → Represents who xs m
      → length xs < rounds
      → partner who m.prot.p_nrepeat xs ≡ some word
      → partner who m.prot.flag xs ≡ some flag
      → Memory.store m.prot.p_nrepeat (le32 rpt) m.heap ≡ some h
      → Memory.load m.prot.p_nrepeat 4 h ≡ some (le32 rpt)
      → Memory.load m.prot.flag 4 h ≡ some flagged
      → armci_send_repeat lib rounds rpt m
        ≡ done tt (put_sys flagged flag (put_sys (le32 rpt) word (record m { heap = h })))
  unfolding armci_send_repeat
  armci_send_repeat_lem rounds who rpt word flag flagged h xs m r lt ew ef stored loaded kept =
      let m1 : Machine Armci W = record m { heap = h } in
      let m2 = put_sys (le32 rpt) word m1 in
      ap
        (λ (found : Option Heap).
          and_then
            (and_then (defined found m)
              (λ h (m : Machine Armci W). done tt (record m { heap = h })))
            (λ _ n.
              and_then (put_shared lib rounds m.prot.p_nrepeat 4 n)
                (λ _. put_shared lib rounds m.prot.flag 4)))
        stored
      ∙ ap
          (λ (o : Outcome (Machine Armci W) (Unit {0})).
            and_then o (λ _. put_shared lib rounds m.prot.flag 4))
          (put_shared_lem rounds who m.prot.p_nrepeat word 4 (le32 rpt) xs m1
            (record {
              cells = r.cells;
              same = r.same;
              here = r.here;
              first = r.first;
              chained = r.chained;
            })
            lt ew loaded)
      ∙ put_shared_lem rounds who m.prot.flag flag 4 flagged xs m2
          (record {
            cells = r.cells;
            same = r.same;
            here = r.here;
            first = r.first;
            chained = r.chained;
          })
          lt ef kept

  -- RecvRepeat of src/armci.c, when the flag becomes the number of this process after k arrivals of
  -- what the other process puts, k below the rounds, with a 32-bit count in its place at that look
  -- and the flag in a live block: it returns the count, and leaves the flag at the number of the
  -- neighbour.
  pub armci_recv_repeat_lem :
      (rounds k rpt : ℕ) (h : Heap) (m m' : Machine Armci W)
      → rpt < 2 ^ 32
      → Comes lib.dma m.prot.flag 4 (λ bytes. of_le32 bytes == m.prot.ipe) k m m'
      → k < rounds
      → Memory.load m.prot.p_nrepeat 4 m'.heap ≡ some (le32 rpt)
      → Memory.store m.prot.flag (le32 m.prot.nbor) m'.heap ≡ some h
      → armci_recv_repeat lib rounds m ≡ done rpt (record m' { heap = h })
  unfolding armci_recv_repeat
  armci_recv_repeat_lem rounds k rpt h m m' small comes lt loaded stored =
      ap
        (λ (o : Outcome (Machine Armci W) (Unit {0})). and_then o (λ _. do
          bytes ← load_bytes m.prot.p_nrepeat 4
          put_bytes m.prot.flag (le32 m.prot.nbor)
          pure (of_le32 bytes)))
        (wait_for_lem lib.dma rounds k m.prot.flag 4 (λ bytes. of_le32 bytes == m.prot.ipe) m m'
          comes lt)
      ∙ ap
          (λ (found : Option (List ℕ)).
            and_then (defined found m')
              (λ bytes. do put_bytes m.prot.flag (le32 m.prot.nbor); pure (of_le32 bytes)))
          loaded
      ∙ ap
          (λ (found : Option Heap).
            and_then
              (and_then (defined found m')
                (λ h (m : Machine Armci W). done tt (record m { heap = h })))
              (λ _. pure (of_le32 (le32 rpt))))
          stored
      ∙ ap (λ (n : ℕ). done n (record m' { heap = h })) (omega (arith, small))
