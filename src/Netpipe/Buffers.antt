-- ===== src/Netpipe/Buffers.antt =====
-- src/netpipe.c: MyMalloc, FreeBuff, InitBufferData and CheckBufferData, as all modules but those
-- for InfiniBand and shared memory use them.
pub mod Fill
use netpipe5_dev.Base.{
  ℕ, zero, suc, ◌+◌, ◌-◌, negsuc, ltb, Bool, true, false, not, if◌then◌else◌, [], ◌∷◌, none,
}
use netpipe5_dev.Effect.{M, ◌>>=◌, ◌>>◌, gets, modify, exit, when, truth, defined, skip}
use netpipe5_dev.Memory.{Ptr, null, at, advance}
use netpipe5_dev.Machine.{Machine, Args, set_args, put_bytes, new_block, free_ptr}
use netpipe5_dev.Pattern.{lfsrset, lfsrcheck}

abbrev pub max : ℕ → ℕ → ℕ
max x y = if ltb y x then x else y

abbrev pub is_null : Ptr → Bool
is_null null = true
is_null (at b off) = false

module _ {P W : Type 0} where
  unfoldable pub my_malloc : ℕ → ℕ → ℕ → M (Machine P W) (Unit {0})
  my_malloc bufflen soffset roffset = do
    r ← new_block (bufflen + max soffset roffset)
    set_args (λ p. record p { r_buff = r })
    when (is_null r) (exit (negsuc 0))
    p ← gets (λ m. m.args)
    when (not (truth p.cache)) do
      s ← new_block (bufflen + soffset)
      set_args (λ p. record p { s_buff = s })
      when (is_null s) (exit (negsuc 0))

  unfoldable pub free_buff : Ptr → Ptr → M (Machine P W) (Unit {0})
  free_buff buff1 buff2 = do
    when (not (is_null buff1)) (free_ptr buff1)
    when (not (is_null buff2)) (free_ptr buff2)

  -- `p[n - 1] = 0`; with `n` 0 the byte before the buffer is written.
  abbrev pub clear_last : Ptr → ℕ → M (Machine P W) (Unit {0})
  clear_last p zero = defined none
  clear_last p (suc n) = put_bytes (advance p n) (0 ∷ [])

  unfoldable pub init_buffer_data : ℕ → ℕ → ℕ → M (Machine P W) (Unit {0})
  init_buffer_data nbytes soffset roffset = do
    p ← gets (λ m. m.args)
    lfsrset (p.r_buff) 97 (nbytes + max soffset roffset)
    if truth p.cache
        then clear_last (p.r_buff) (nbytes + max soffset roffset)
        else lfsrset (p.s_buff) 98 (nbytes + max soffset roffset)

  unfoldable pub check_buffer_data : ℕ → ℕ → ℕ → M (Machine P W) (Unit {0})
  check_buffer_data nbytes soffset roffset = do
    p ← gets (λ m. m.args)
    lfsrcheck (p.r_buff) 98 (nbytes + max soffset roffset)
