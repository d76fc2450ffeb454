-- ===== src/Machine/Laws.antt =====
-- Loads, stores, allocation and release as seen from the machine.
use netpipe5_dev.Base.{ℕ, ◌+◌, ◌≤◌, ◌≡◌, List, some, length, take, drop}
use netpipe5_dev.Effect.{done}
use netpipe5_dev.Memory.{at}
use netpipe5_dev.Memory.Laws.{stored, store_at, load_at}
use netpipe5_dev.Machine.{Machine, put_bytes, load_bytes}

module _ {P W : Type 0} (m : Machine P W) (b off i : ℕ) (xs : List ℕ) (same : off ≡ i)
    (live : m.heap.block b ≡ some xs) where
  pub put_at :
      (bs : List ℕ)
      → i + length bs ≤ length xs
      → put_bytes (at b off) bs m ≡ done tt (record m { heap = stored m.heap b i bs xs })
  put_at bs fits = rw (same, store_at m.heap b i bs xs live fits)

  pub fetch_at :
      (n : ℕ) → i + n ≤ length xs → load_bytes (at b off) n m ≡ done (take n (drop i xs)) m
  fetch_at n fits = rw (same, load_at m.heap b i n xs live fits)
