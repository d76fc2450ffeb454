-- ===== src/Polling/Arrival.antt =====
-- A busy wait returns when what it waits for arrives.
use netpipe5_dev.Base.{
  arith, ℕ, zero, suc, ◌<◌, ◌≡◌, ◌∙◌, ap, Bool, true, false, Option, some, List,
}
use netpipe5_dev.Effect.{M, done, defined, skip, ◌>>=◌, ◌>>◌}
use netpipe5_dev.Memory
use netpipe5_dev.Memory.{Ptr, Heap}
use netpipe5_dev.Machine.{Machine}
use netpipe5_dev.Polling.{arrive, wait_for}

module _ {P W : Type 0} (dma : Heap → W → Heap × W) where
  -- The machine after what has arrived was written.
  abbrev pub arrived : Machine P W → Machine P W
  arrived m = record m { heap = (dma m.heap m.sys).0; sys = (dma m.heap m.sys).1 }

  -- The bytes at `p` pass the test after `k` arrivals, and not before.
  pub data Comes (p : Ptr) (size : ℕ) (test : List ℕ → Bool)
      : ℕ → Machine P W → Machine P W → Type 0 where
    there :
        (bytes : List ℕ) (m : Machine P W)
        → Memory.load p size m.heap ≡ some bytes
        → test bytes ≡ true
        → Comes p size test 0 m m
    later :
        (k : ℕ) (bytes : List ℕ) (m m' : Machine P W)
        → Memory.load p size m.heap ≡ some bytes
        → test bytes ≡ false
        → Comes p size test k (arrived m) m'
        → Comes p size test (suc k) m m'

  abbrev look : ℕ → Ptr → ℕ → (List ℕ → Bool) → Option (List ℕ) → M (Machine P W) (Unit {0})
  look rounds p size test found = do
    bytes ← defined found
    elim (test bytes) [ true ↦ skip | false ↦ do arrive dma; wait_for dma rounds p size test ]

  abbrev decide : ℕ → Ptr → ℕ → (List ℕ → Bool) → Bool → M (Machine P W) (Unit {0})
  decide rounds p size test passed = elim passed [
    | true ↦ skip
    | false ↦ do arrive dma; wait_for dma rounds p size test
  ]

  pub wait_for_lem :
      (rounds k : ℕ) (p : Ptr) (size : ℕ) (test : List ℕ → Bool) (m m' : Machine P W)
      → Comes p size test k m m'
      → k < rounds
      → wait_for dma rounds p size test m ≡ done tt m'
  unfolding wait_for
  wait_for_lem zero k p size test m m' c lt = absurd (omega (arith, lt))
  wait_for_lem (suc rounds) zero p size test m _ (there bytes _ e passed) lt =
      ap (λ (found : Option (List ℕ)). look rounds p size test found m) e
      ∙ ap (λ (passed : Bool). decide rounds p size test passed m) passed
  wait_for_lem (suc rounds) (suc k) p size test m m' (later _ bytes _ _ e failed rest) lt =
      ap (λ (found : Option (List ℕ)). look rounds p size test found m) e
      ∙ ap (λ (passed : Bool). decide rounds p size test passed m) failed
      ∙ wait_for_lem rounds k p size test (arrived m) m' rest (omega (arith, lt))
