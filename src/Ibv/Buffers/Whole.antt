-- ===== src/Ibv/Buffers/Whole.antt =====
-- MyMalloc and FreeBuff as a whole: what is registered is given back.
use netpipe5_dev.Base.{
  ℕ, ◌+◌, ◌≡◌, ◌∙◌, ap, negsuc, Bool, true, false, not, if◌then◌else◌, Option, none, some, [], ◌∷◌,
  ◌++◌, suc, ◌≤◌, ◌<◌,
}
use netpipe5_dev.Effect.{
  M, Outcome, done, exited, and_then, when, truth, exit, defined, modify, ◌>>=◌, ◌>>◌,
}
use netpipe5_dev.Memory
use netpipe5_dev.Memory.{Ptr, at, Heap}
use netpipe5_dev.Machine.{Machine, set_args, set_prot, new_block, free_ptr, print, not_released}
use netpipe5_dev.Netpipe.Buffers.{is_null}
use netpipe5_dev.Netpipe.Buffers.Fill.{with_block}
use netpipe5_dev.Sockets.{Sockets}
use netpipe5_dev.Verbs.{Verbs, Region}
use netpipe5_dev.Ibv.{Ibv}
use netpipe5_dev.Ibv.Device.{mr_handle}
use netpipe5_dev.Ibv.Device.Ledger.{Held, handles, Gone, Ledger}
use netpipe5_dev.Ibv.Buffers.{deregister, free_buff}
use netpipe5_dev.Ibv.Buffers.Registered.{Registered, Registers, register}

-- The bytes that MyMalloc takes; a cache has one buffer for both.
abbrev pub needed : Bool → ℕ → ℕ → ℕ
needed cache recv_len send_len = if cache then recv_len else recv_len + send_len

module _ {W : Type 0} {verbs : Verbs W} {net : Sockets W} (l : Ledger verbs net) where
  -- The machine with the new blocks: `recv_len` bytes for the receive buffer and, without a cache,
  -- `send_len` bytes for the send buffer.
  abbrev pub with_memory : Bool → ℕ → ℕ → Machine Ibv W → Machine Ibv W
  with_memory true recv_len send_len m = record m {
    args = record (m.args) { r_buff = at m.heap.next 0; s_buff = at m.heap.next 0 };
    heap = with_block m.heap recv_len;
  }
  with_memory false recv_len send_len m = record m {
    args = record (m.args) { r_buff = at m.heap.next 0; s_buff = at (suc m.heap.next) 0 };
    heap = with_block (with_block m.heap recv_len) send_len;
  }

  -- What comes of MyMalloc: with enough memory, of the registration of the new blocks; without, the
  -- process ends with -1.
  pub data Allocates (pd recv_len send_len : ℕ) (m : Machine Ibv W)
      : Outcome (Machine Ibv W) (Unit {0}) → Type 0 where
    has_memory :
        {r : Outcome (Machine Ibv W) (Unit {0})}
        → needed (truth m.args.cache) recv_len send_len ≤ m.heap.avail
        → Registers l pd recv_len send_len (with_memory (truth m.args.cache) recv_len send_len m) r
        → Allocates pd recv_len send_len m r
    no_memory :
        (m' : Machine Ibv W)
        → m.heap.avail < needed (truth m.args.cache) recv_len send_len
        → Allocates pd recv_len send_len m (exited (negsuc 0) m')

  -- The send buffer and the registration.
  abbrev from_send : ℕ → ℕ → Ptr → Bool → M (Machine Ibv W) (Unit {0})
  from_send recv_len send_len r cache = do
    if cache then set_args (λ p. record p { s_buff = r }) else (do
      s ← new_block send_len
      set_args (λ p. record p { s_buff = s })
      when (is_null s) (exit (negsuc 0)))
    register l recv_len send_len

  -- The machine with its receive buffer.
  abbrev with_recv : ℕ → Machine Ibv W → Machine Ibv W
  with_recv recv_len m = record m {
    args = record (m.args) { r_buff = at m.heap.next 0 };
    heap = with_block m.heap recv_len;
  }

  -- A region that is given back.
  deregister_lem :
      (o : Option Region) (forget : Ibv → Ibv) (left : Held) (region : Region) (m : Machine Ibv W)
      → o ≡ some region
      → Gone (l.held) (verbs.dereg_mr region.handle m.sys) left
      → (w : W) × (deregister verbs o forget m
          ≡ done tt (record m { sys = w; prot = forget m.prot }))
        × (l.held w ≡ left)
  deregister_lem o forget left region m e gone =
      let (ok, after) = gone in
      (
        (verbs.dereg_mr region.handle m.sys).1,
        ap (λ (o : Option Region). deregister verbs o forget m) e
            ∙ ap (λ (ok : Bool). answer ok) ok,
        after,
      )
    where
      answer : Bool → Outcome (Machine Ibv W) (Unit {0})
      answer ok =
          (if ok then set_prot forget else print not_released)
            (record m { sys = (verbs.dereg_mr region.handle m.sys).1 })

  -- FreeBuff of two pointers that are not NULL and can be freed, when both regions are registered
  -- and the adapter holds just what the module has handles of: it gives both regions back, forgets
  -- their handles, frees the memory, prints nothing, and the adapter holds no region of the
  -- process.
  pub free_buff-Registered :
      (p q : Ptr) (h h' : Heap) (m : Machine Ibv W)
      → Registered l m
      → is_null p ≡ false
      → is_null q ≡ false
      → Memory.free p m.heap ≡ some h
      → Memory.free q h ≡ some h'
      → (w : W) × (free_buff verbs p q m
          ≡ done tt (record m {
            heap = h';
            sys = w;
            prot = record (m.prot) { s_mr_hndl = none; r_mr_hndl = none };
          }))
        × (l.held w ≡ record (l.held m.sys) { regions = [] })
  unfolding free_buff
  free_buff-Registered p q h h' m reg p_there q_there free_p free_q =
      let both : (l.held m.sys).regions ≡ reg.s_region.handle ∷ (reg.r_region.handle ∷ []) =
        ap (λ (x : Held). x.regions) reg.held_is
        ∙ ap (λ (o : Option Region). handles (mr_handle o) ++ handles (mr_handle m.prot.r_mr_hndl))
            reg.s_mr_is
        ∙ ap (λ (o : Option Region). reg.s_region.handle ∷ handles (mr_handle o)) reg.r_mr_is in
      let (w₁, e₁, g₁) =
        deregister_lem m.prot.s_mr_hndl forget_s
          (record (l.held m.sys) { regions = reg.r_region.handle ∷ [] }) reg.s_region m reg.s_mr_is
          (l.dereg_law reg.s_region.handle (reg.r_region.handle ∷ []) m.sys both) in
      let m₁ : Machine Ibv W = record m { sys = w₁; prot = record (m.prot) { s_mr_hndl = none } } in
      let (ok, g) = l.dereg_law reg.r_region.handle [] w₁ (ap (λ (x : Held). x.regions) g₁) in
      let (w₂, e₂, g₂) =
        deregister_lem m.prot.r_mr_hndl forget_r (record (l.held m.sys) { regions = [] })
          reg.r_region m₁ reg.r_mr_is (ok, g ∙ ap (λ (x : Held). record x { regions = [] }) g₁) in
      (
        w₂,
        ap (λ (r : Outcome (Machine Ibv W) (Unit {0})). and_then r (λ _. after_s)) e₁
            ∙ ap (λ (r : Outcome (Machine Ibv W) (Unit {0})). and_then r (λ _. after_r)) e₂
            ∙ ap (λ (b : Bool). memory b (is_null q) (finished w₂)) p_there
            ∙ ap
                (λ (o : Option Heap).
                  and_then (and_then (defined o (finished w₂)) put)
                    (λ _. when (not (is_null q)) (free_ptr q)))
                free_p
            ∙ ap (λ (b : Bool). when (not b) (free_ptr q) (record (finished w₂) { heap = h }))
                q_there
            ∙ ap (λ (o : Option Heap). and_then (defined o (record (finished w₂) { heap = h })) put)
                free_q,
        g₂,
      )
    where
      forget_s : Ibv → Ibv
      forget_s t = record t { s_mr_hndl = none }

      forget_r : Ibv → Ibv
      forget_r t = record t { r_mr_hndl = none }

      finished : W → Machine Ibv W
      finished w = record m {
        sys = w;
        prot = record (m.prot) { s_mr_hndl = none; r_mr_hndl = none };
      }

      put : Heap → M (Machine Ibv W) (Unit {0})
      put h = modify (λ (m : Machine Ibv W). record m { heap = h })

      memory : Bool → Bool → M (Machine Ibv W) (Unit {0})
      memory p_null q_null = when (not p_null) (free_ptr p) >> when (not q_null) (free_ptr q)

      after_r : M (Machine Ibv W) (Unit {0})
      after_r = memory (is_null p) (is_null q)

      after_s : M (Machine Ibv W) (Unit {0})
      after_s = deregister verbs m.prot.r_mr_hndl forget_r >> after_r
