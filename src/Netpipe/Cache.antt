-- ===== src/Netpipe/Cache.antt =====
-- src/netpipe.c: mymemset and flushcache, on memory as 32-bit ints.
use netpipe5_dev.Base.{ℕ, zero, suc, ◌+◌, ◌-◌, ◌*◌, ◌%◌, ◌^◌, ◌==◌, if◌then◌else◌}
use netpipe5_dev.Effect.{M, ◌>>=◌, ◌>>◌, pure, skip}
use netpipe5_dev.Memory.{Ptr, advance}
use netpipe5_dev.Machine.{Machine, le32, of_le32, put_bytes, load_bytes}

module _ {P W : Type 0} where
  -- the loop of mymemset, with the rounds left
  pub set_ints : ℕ → Ptr → ℕ → ℕ → M (Machine P W) (Unit {0})
  set_ints zero ptr c i = skip
  set_ints (suc left) ptr c i = do
    put_bytes (advance ptr (4 * i)) (le32 c)
    set_ints left ptr c (i + 1)

  unfoldable pub mymemset : Ptr → ℕ → ℕ → M (Machine P W) (Unit {0})
  unfolding set_ints
  mymemset ptr c n = set_ints n ptr c 0

  -- `*(ptr + i) = *(ptr + i) + amount`, on 32 bits
  pub add_to_ints : ℕ → Ptr → ℕ → ℕ → M (Machine P W) (Unit {0})
  add_to_ints zero ptr amount i = skip
  add_to_ints (suc left) ptr amount i = do
    bytes ← load_bytes (advance ptr (4 * i)) 4
    put_bytes (advance ptr (4 * i)) (le32 ((of_le32 bytes + amount) % 2 ^ 32))
    add_to_ints left ptr amount (i + 1)

  -- The static flag is an argument, and its new value the result.
  unfoldable pub flushcache : Ptr → ℕ → ℕ → M (Machine P W) ℕ
  unfolding add_to_ints
  flushcache ptr n flag = do
    let flag' = (flag + 1) % 2
    if flag' == 0 then add_to_ints n ptr 1 0 else add_to_ints n ptr (2 ^ 32 - 1) 0
    pure flag'
