-- ===== src/Ib/Buffers.antt =====
-- src/ib.c: MyMalloc and FreeBuff, which also register the buffers with the adapter.
use netpipe5_dev.Base.{ℕ, ◌+◌, negsuc, true, false, not, if◌then◌else◌, Option, none, some}
use netpipe5_dev.Effect.{M, ◌>>=◌, ◌>>◌, gets, exit, when, truth, skip}
use netpipe5_dev.Memory.{Ptr}
use netpipe5_dev.Machine.{
  Machine, not_released, set_args, set_prot, print, call, new_block, free_ptr,
}
use netpipe5_dev.Netpipe.Buffers.{max, is_null}
use netpipe5_dev.Ib.{Vapi, Ib, RegionRequest}

module _ {W : Type 0} (vapi : Vapi W) where
  abbrev pub register_recv : ℕ → M (Machine Ib W) (Unit {0})
  register_recv size = do
    m ← gets (λ (m : Machine Ib W). m)
    let request : RegionRequest = record {
      remote_write = true;
      pd = m.prot.pd_hndl;
      start = m.args.r_buff;
      size = size;
    }
    made ← call (vapi.register_mr m.prot.hca_hndl request)
    elim made [
      | none ↦ exit (negsuc 0)
      | some r ↦ set_prot (λ t. record t { r_mr_hndl = some r.handle; r_mr_out = r })
    ]

  abbrev pub register_send : ℕ → M (Machine Ib W) (Unit {0})
  register_send size = do
    m ← gets (λ (m : Machine Ib W). m)
    let request : RegionRequest = record {
      remote_write = false;
      pd = m.prot.pd_hndl;
      start = m.args.s_buff;
      size = size;
    }
    made ← call (vapi.register_mr m.prot.hca_hndl request)
    elim made [
      | none ↦ exit (negsuc 0)
      | some r ↦ set_prot (λ t. record t { s_mr_hndl = some r.handle; s_mr_out = r })
    ]

  -- With a cache both pointers are to one buffer, which is registered twice.
  unfoldable pub vapi_my_malloc : ℕ → ℕ → ℕ → M (Machine Ib W) (Unit {0})
  vapi_my_malloc bufflen soffset roffset = do
    r ← new_block (bufflen + max soffset roffset)
    set_args (λ p. record p { r_buff = r })
    when (is_null r) (exit (negsuc 0))
    p ← gets (λ (m : Machine Ib W). m.args)
    if truth p.cache then set_args (λ p. record p { s_buff = r }) else (do
      s ← new_block (bufflen + soffset)
      set_args (λ p. record p { s_buff = s })
      when (is_null s) (exit (negsuc 0)))
    register_recv (bufflen + max soffset roffset)
    register_send (bufflen + soffset)

  -- A region that was given back is forgotten.
  abbrev pub vapi_deregister : Option ℕ → (Ib → Ib) → M (Machine Ib W) (Unit {0})
  vapi_deregister none forget = skip
  vapi_deregister (some region) forget = do
    t ← gets (λ (m : Machine Ib W). m.prot)
    ok ← call (vapi.deregister_mr t.hca_hndl region)
    if ok then set_prot forget else print not_released

  unfoldable pub vapi_free_buff : Ptr → Ptr → M (Machine Ib W) (Unit {0})
  vapi_free_buff buff1 buff2 = do
    t ← gets (λ (m : Machine Ib W). m.prot)
    vapi_deregister t.s_mr_hndl (λ t. record t { s_mr_hndl = none })
    vapi_deregister t.r_mr_hndl (λ t. record t { r_mr_hndl = none })
    when (not (is_null buff1)) (free_ptr buff1)
    when (not (is_null buff2)) (free_ptr buff2)
