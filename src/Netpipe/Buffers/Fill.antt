-- ===== src/Netpipe/Buffers/Fill.antt =====
-- MyMalloc, InitBufferData and CheckBufferData without offsets and with two buffers, as
-- netpipe_run_iters calls them.
use native.Mathlib.Nat.{add-zero}
use netpipe5_dev.Base.{
  ℕ, zero, suc, ◌+◌, ◌-◌, ◌≤◌, ◌<◌, ◌≡◌, ◌≢◌, refl, ap, arith, List, Option, none, some, length,
  negsuc,
}
use netpipe5_dev.Effect.{done, exited}
use netpipe5_dev.Memory.{null, at, Heap, update, tabulate, malloc, free}
use netpipe5_dev.Machine.{Machine}
use netpipe5_dev.Netpipe.Buffers.{my_malloc, free_buff}

pub length-tabulate : (f : ℕ → ℕ) (i n : ℕ) → length (tabulate f i n) ≡ n
length-tabulate f i zero = refl
length-tabulate f i (suc n) = ap suc (length-tabulate f (suc i) n)

-- The heap with one more block.
abbrev pub with_block : Heap → ℕ → Heap
with_block h n = record h {
  next = suc h.next;
  avail = h.avail - n;
  block = update h.block h.next (some (tabulate h.junk 0 n));
}

pub malloc-ok : (n : ℕ) (h : Heap) → n ≤ h.avail → malloc n h ≡ (at h.next 0, with_block h n)
unfolding malloc
malloc-ok n h le = ground arith

pub malloc-null : (n : ℕ) (h : Heap) → h.avail < n → malloc n h ≡ (null, h)
unfolding malloc
malloc-null n h lt = ground arith

-- The heap without two blocks.
abbrev pub without_blocks : Heap → ℕ → ℕ → ℕ → Heap
without_blocks h b c n = record h {
  avail = h.avail + n + n;
  block = update (update h.block b none) c none;
}

module _ {P W : Type 0} where
  -- The machine with two new buffers.
  abbrev pub with_buffers : Machine P W → ℕ → Machine P W
  with_buffers m n = record m {
    heap = with_block (with_block m.heap n) n;
    args = record (m.args) { r_buff = at m.heap.next 0; s_buff = at (suc m.heap.next) 0 };
  }

  -- With a cache of 0 MyMalloc makes two buffers of the length asked for.
  pub my_malloc_two :
      (n : ℕ) (m : Machine P W)
      → m.args.cache ≡ 0
      → n + n ≤ m.heap.avail
      → my_malloc n 0 0 m ≡ done tt (with_buffers m n)
  unfolding my_malloc
  my_malloc_two n m no_cache room = rw (
    add-zero,
    malloc-ok n m.heap (omega arith),
    no_cache,
    malloc-ok n (with_block m.heap n) (omega arith),
  )

  -- MyMalloc ends the program when the receive buffer does not fit.
  pub my_malloc_fails :
      (n : ℕ) (m : Machine P W)
      → m.heap.avail < n
      → my_malloc n 0 0 m
        ≡ exited (negsuc 0) (record m { args = record (m.args) { r_buff = null } })
  unfolding my_malloc
  my_malloc_fails n m full = rw (add-zero, malloc-null n m.heap full)

  -- FreeBuff releases both buffers.
  pub free_buff_two :
      (b c n : ℕ) (xs ys : List ℕ) (m : Machine P W)
      → b ≢ c
      → m.heap.block b ≡ some xs
      → m.heap.block c ≡ some ys
      → length xs ≡ n
      → length ys ≡ n
      → free_buff (at b 0) (at c 0) m ≡ done tt (record m { heap = without_blocks m.heap b c n })
  unfolding free_buff free
  free_buff_two b c n xs ys m ne live_b live_c len_b len_c =
      rw live_b (rw (other (m.heap.block) none, live_c) (rw (len_b, len_c) refl))
    where
      other : (f : ℕ → Option (List ℕ)) (v : Option (List ℕ)) → update f b v c ≡ f c
      other f v = ground arith
