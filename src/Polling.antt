-- ===== src/Polling.antt =====
-- Busy waits on memory that another process writes, as src/armci.c, src/shmem.c, src/mpi2.c
-- and src/ib.c have them. A wait is looked at in rounds; between two looks what has arrived is written.
pub mod Arrival
use netpipe5_dev.Base.{ℕ, zero, suc, ◌==◌, Bool, true, false, List, [], ◌∷◌, get_or}
use netpipe5_dev.Effect.{M, ◌>>=◌, ◌>>◌, gets, modify, skip, hang, defined}
use netpipe5_dev.Memory.{Ptr, Heap}
use netpipe5_dev.Machine.{Machine, Args, load_bytes, put_bytes, of_le32}
use netpipe5_dev.Ibv.Transfer.{last_byte, awaited, put_back}

module _ {P W : Type 0} (dma : Heap → W → Heap × W) where
  -- What the other process has sent is written into memory.
  abbrev pub arrive : M (Machine P W) (Unit {0})
  arrive = do
    m ← gets (λ m. m)
    let (h, w) = dma m.heap m.sys
    modify (λ m. record m { heap = h; sys = w })

  -- Wait until the `size` bytes at `p` pass the test.
  unfoldable pub wait_for : ℕ → Ptr → ℕ → (List ℕ → Bool) → M (Machine P W) (Unit {0})
  wait_for zero p size test = hang
  wait_for (suc rounds) p size test = do
    bytes ← load_bytes p size
    elim (test bytes) [ true ↦ skip | false ↦ do arrive; wait_for rounds p size test ]

  -- while (*flag != v);
  abbrev pub wait_word : ℕ → Ptr → ℕ → M (Machine P W) (Unit {0})
  wait_word rounds flag v = wait_for rounds flag 4 (λ bytes. of_le32 bytes == v)

  -- The wait for the last byte of a message, which is then put back.
  abbrev pub take_message : ℕ → M (Machine P W) (Unit {0})
  take_message rounds = do
    p ← gets (λ m. m.args)
    at_end ← defined (last_byte p)
    wait_for rounds at_end 1 (λ bytes. get_or bytes 0 0 == awaited p)
    put_bytes at_end (put_back p ∷ [])
