-- ===== src/Ibv/Buffers.antt =====
-- src/ibv.c: MyMalloc and FreeBuff, which also register the buffers with the adapter.
pub mod Registered
pub mod Whole
use netpipe5_dev.Base.{ℕ, ◌+◌, negsuc, true, false, not, if◌then◌else◌, Option, none, some}
use netpipe5_dev.Effect.{M, ◌>>=◌, ◌>>◌, gets, exit, when, truth, defined, skip}
use netpipe5_dev.Memory.{Ptr}
use netpipe5_dev.Machine.{
  Machine, not_released, set_args, set_prot, print, call, new_block, free_ptr,
}
use netpipe5_dev.Netpipe.Buffers.{max, is_null}
use netpipe5_dev.Verbs.{Verbs, Region}
use netpipe5_dev.Ibv.{Ibv}
use netpipe5_dev.Ibv.Device.{is_some}

module _ {W : Type 0} (verbs : Verbs W) where
  -- With a cache both pointers are to one buffer, which is registered twice.
  unfoldable pub my_malloc : ℕ → ℕ → ℕ → M (Machine Ibv W) (Unit {0})
  my_malloc bufflen soffset roffset = do
    r ← new_block (bufflen + max soffset roffset)
    set_args (λ p. record p { r_buff = r })
    when (is_null r) (exit (negsuc 0))
    p ← gets (λ m. m.args)
    if truth p.cache then set_args (λ p. record p { s_buff = r }) else (do
      s ← new_block (bufflen + soffset)
      set_args (λ p. record p { s_buff = s })
      when (is_null s) (exit (negsuc 0)))
    m ← gets (λ m. m)
    pd ← defined m.prot.pd_hndl
    r_mr ← call (verbs.reg_mr pd m.args.r_buff (bufflen + max soffset roffset) true)
    set_prot (λ t. record t { r_mr_hndl = r_mr })
    when (not (is_some r_mr)) (exit (negsuc 0))
    s_mr ← call (verbs.reg_mr pd m.args.s_buff (bufflen + soffset) false)
    set_prot (λ t. record t { s_mr_hndl = s_mr })
    when (not (is_some s_mr)) (exit (negsuc 0))

  -- A region that was given back is forgotten.
  abbrev pub deregister : Option Region → (Ibv → Ibv) → M (Machine Ibv W) (Unit {0})
  deregister none forget = skip
  deregister (some region) forget = do
    ok ← call (verbs.dereg_mr region.handle)
    if ok then set_prot forget else print not_released

  unfoldable pub free_buff : Ptr → Ptr → M (Machine Ibv W) (Unit {0})
  free_buff buff1 buff2 = do
    t ← gets (λ m. m.prot)
    deregister t.s_mr_hndl (λ t. record t { s_mr_hndl = none })
    deregister t.r_mr_hndl (λ t. record t { r_mr_hndl = none })
    when (not (is_null buff1)) (free_ptr buff1)
    when (not (is_null buff2)) (free_ptr buff2)
