-- ===== src/Ibv/Device/Ledger.antt =====
-- The objects that an adapter holds for a process, and what the verbs are documented to do to them.
use netpipe5_dev.Base.{ℕ, ℤ, ◌≡◌, Bool, true, Option, none, some, List, [], ◌∷◌, ◌++◌}
use netpipe5_dev.Memory.{Ptr}
use netpipe5_dev.Machine.{Machine}
use netpipe5_dev.Sockets.{Sockets}
use netpipe5_dev.Verbs.{Verbs, QpInit, QpChange}
use netpipe5_dev.Ibv.{Ibv}
use netpipe5_dev.Ibv.Device.{qp_handle, mr_handle}

-- The handles that are in use, by the kind of the object.
pub record Held : Type 0 where
  pub devices : List ℕ
  pub domains : List ℕ
  pub queues : List ℕ
  pub pairs : List ℕ
  pub regions : List ℕ

abbrev pub nothing : Held
nothing = record { devices = []; domains = []; queues = []; pairs = []; regions = [] }

abbrev pub handles : Option ℕ → List ℕ
handles none = []
handles (some h) = h ∷ []

-- The objects behind the handles of the module, the latest first.
abbrev pub owned : Ibv → Held
owned t = record {
  devices = handles t.ctx;
  domains = handles t.pd_hndl;
  queues = handles t.r_cq_hndl ++ handles t.s_cq_hndl;
  pairs = handles (qp_handle t.qp_hndl);
  regions = handles (mr_handle t.s_mr_hndl) ++ handles (mr_handle t.r_mr_hndl);
}

-- A call that makes an object adds its handle, and one that gives NULL adds nothing.
abbrev pub Created : Option ℕ → (ℕ → Held) → Held → Held → Type 0
Created none added old new = new ≡ old
Created (some h) added old new = new ≡ added h

-- A call that releases the handle which was made last succeeds and takes it away.
abbrev pub Gone {ℓ} : {W : Type ℓ} → (W → Held) → Bool × W → Held → Type 0
Gone held r left = (r.0 ≡ true) × (held r.1 ≡ left)

abbrev pub cq_handle : Option (ℕ × ℕ) → Option ℕ
cq_handle none = none
cq_handle (some (cq, cqe)) = some cq

-- `held` follows the calls. An object that others need is released only when those are gone: a
-- queue after the queue pairs, a protection domain after the pairs and the regions, a device last.
pub record Ledger {W : Type 0} (verbs : Verbs W) (net : Sockets W) : Type 0 where
  pub held : W → Held
  pub open_law :
      (d : ℕ) (w : W)
      → Created
          (verbs.open_device d w).0
          (λ h. record (held w) { devices = h ∷ (held w).devices })
          (held w)
          (held (verbs.open_device d w).1)
  pub alloc_law :
      (c : ℕ) (w : W)
      → Created
          (verbs.alloc_pd c w).0
          (λ h. record (held w) { domains = h ∷ (held w).domains })
          (held w)
          (held (verbs.alloc_pd c w).1)
  pub cq_law :
      (c n : ℕ) (channel : Option ℕ) (w : W)
      → Created
          (cq_handle (verbs.create_cq c n channel w).0)
          (λ h. record (held w) { queues = h ∷ (held w).queues })
          (held w)
          (held (verbs.create_cq c n channel w).1)
  pub qp_law :
      (pd : ℕ) (a : QpInit) (w : W)
      → Created
          (qp_handle (verbs.create_qp pd a w).0)
          (λ h. record (held w) { pairs = h ∷ (held w).pairs })
          (held w)
          (held (verbs.create_qp pd a w).1)
  pub destroy_qp_law :
      (h : ℕ) (hs : List ℕ) (w : W)
      → (held w).pairs ≡ h ∷ hs
      → Gone held (verbs.destroy_qp h w) (record (held w) { pairs = hs })
  pub destroy_cq_law :
      (h : ℕ) (hs : List ℕ) (w : W)
      → (held w).queues ≡ h ∷ hs
      → (held w).pairs ≡ []
      → Gone held (verbs.destroy_cq h w) (record (held w) { queues = hs })
  pub dereg_law :
      (h : ℕ) (hs : List ℕ) (w : W)
      → (held w).regions ≡ h ∷ hs
      → Gone held (verbs.dereg_mr h w) (record (held w) { regions = hs })
  pub dealloc_law :
      (h : ℕ) (hs : List ℕ) (w : W)
      → (held w).domains ≡ h ∷ hs
      → (held w).pairs ≡ []
      → (held w).regions ≡ []
      → Gone held (verbs.dealloc_pd h w) (record (held w) { domains = hs })
  pub close_law :
      (h : ℕ) (hs : List ℕ) (w : W)
      → (held w).devices ≡ h ∷ hs
      → (held w).domains ≡ []
      → (held w).queues ≡ []
      → Gone held (verbs.close_device h w) (record (held w) { devices = hs })
  pub reg_law :
      (pd : ℕ) (p : Ptr) (n : ℕ) (writable : Bool) (w : W)
      → Created
          (mr_handle (verbs.reg_mr pd p n writable w).0)
          (λ h. record (held w) { regions = h ∷ (held w).regions })
          (held w)
          (held (verbs.reg_mr pd p n writable w).1)
  -- The other calls make and release nothing.
  pub list_quiet : (w : W) → held (verbs.get_device_list w).1 ≡ held w
  pub free_quiet : (w : W) → held (verbs.free_device_list w).1 ≡ held w
  pub query_quiet : (c n : ℕ) (w : W) → held (verbs.query_port c n w).1 ≡ held w
  pub modify_quiet : (h : ℕ) (a : QpChange) (w : W) → held (verbs.modify_qp h a w).1 ≡ held w
  pub thread_quiet : (w : W) → held (verbs.pthread_create w).1 ≡ held w
  pub notify_quiet : (h : ℕ) (w : W) → held (verbs.req_notify_cq h w).1 ≡ held w
  pub read_quiet : (fd : ℤ) (n : ℕ) (w : W) → held (net.read fd n w).1 ≡ held w
  pub write_quiet : (fd : ℤ) (bs : List ℕ) (w : W) → held (net.write fd bs w).1 ≡ held w

-- The adapter holds for the process what the module has handles of, and nothing else.
pub record Owned {W : Type 0} {verbs : Verbs W} {net : Sockets W} (l : Ledger verbs net)
    (m : Machine Ibv W) : Type 0 where
  pub held_is : l.held m.sys ≡ owned m.prot
