-- ===== src/Ib/Device/Stack.antt =====
-- The objects that an adapter of the Mellanox VAPI holds for a process, the latest first, and what the
-- calls are documented to do to them.
use netpipe5_dev.Base.{ℕ, ℤ, ◌≡◌, ◌∙◌, refl, sym, ap, Bool, true, Option, none, some, List, [], ◌∷◌}
use netpipe5_dev.Machine.{Machine}
use netpipe5_dev.Sockets.{Sockets}
use netpipe5_dev.Ib.{Vapi, Ib, VapiQpInit, VapiChange}

pub data Object : Type 0 where
  pair : ℕ → Object
  queue : ℕ → Object
  domain : ℕ → Object
  adapter : ℕ → Object

-- The object of a valid handle.
abbrev pub over : (ℕ → Object) → Option ℕ → List Object → List Object
over kind none xs = xs
over kind (some h) xs = kind h ∷ xs

abbrev pub first_of : Option (ℕ × ℕ) → Option ℕ
first_of none = none
first_of (some (h, n)) = some h

-- The objects of the queue pair, the two queues, the domain and the adapter.
abbrev pub stack : Option ℕ → Option ℕ → Option ℕ → Option ℕ → Option ℕ → List Object
stack q r s p a = over pair q (over queue r (over queue s (over domain p (over adapter a []))))

-- A call that releases the object made last succeeds and takes it away.
abbrev pub Popped : {W : Type 0} → (W → List Object) → (ℕ → Object) → (ℕ → W → Bool × W) → Type 0
Popped {W} live kind release =
    (h : ℕ) (rest : List Object) (w : W)
    → live w ≡ kind h ∷ rest
    → ((release h w).0 ≡ true) × (live (release h w).1 ≡ rest)

-- `live` follows the calls: what is made comes on top, and what is on top can be released. To open
-- the adapter gives the process no object; the handle that EVAPI_get_hca_hndl gives is one.
pub record StackLaws {W : Type 0} (vapi : Vapi W) (net : Sockets W) : Type 0 where
  pub live : W → List Object
  pub open_quiet : (w : W) → live (vapi.open_hca w).1 ≡ live w
  pub get_law :
      (w : W) → live (vapi.get_hca_hndl w).1 ≡ over adapter (vapi.get_hca_hndl w).0 (live w)
  pub alloc_law :
      (a : Option ℕ) (w : W)
      → live (vapi.alloc_pd a w).1 ≡ over domain (vapi.alloc_pd a w).0 (live w)
  pub cq_law :
      (a : Option ℕ) (n : ℕ) (w : W)
      → live (vapi.create_cq a n w).1 ≡ over queue (first_of (vapi.create_cq a n w).0) (live w)
  pub qp_law :
      (a : Option ℕ) (i : VapiQpInit) (w : W)
      → live (vapi.create_qp a i w).1 ≡ over pair (first_of (vapi.create_qp a i w).0) (live w)
  pub destroy_qp_law : (a : Option ℕ) → Popped live pair (vapi.destroy_qp a)
  pub destroy_cq_law : (a : Option ℕ) → Popped live queue (vapi.destroy_cq a)
  pub dealloc_law : (a : Option ℕ) → Popped live domain (vapi.dealloc_pd a)
  pub release_law : Popped live adapter (vapi.release_hca_hndl)
  pub release_nothing : (h : ℕ) (w : W) → live w ≡ [] → live (vapi.release_hca_hndl h w).1 ≡ []
  -- The other calls make and release nothing.
  pub query_quiet :
      (a : Option ℕ) (n : ℕ) (w : W) → live (vapi.query_hca_port_prop a n w).1 ≡ live w
  pub modify_quiet :
      (a q : Option ℕ) (c : VapiChange) (w : W) → live (vapi.modify_qp a q c w).1 ≡ live w
  pub set_quiet : (a q : Option ℕ) (w : W) → live (vapi.set_comp_eventh a q w).1 ≡ live w
  pub clear_quiet : (a h : Option ℕ) (w : W) → live (vapi.clear_comp_eventh a h w).1 ≡ live w
  pub notif_quiet : (a q : Option ℕ) (w : W) → live (vapi.req_comp_notif a q w).1 ≡ live w
  pub read_quiet : (fd : ℤ) (n : ℕ) (w : W) → live (net.read fd n w).1 ≡ live w
  pub write_quiet : (fd : ℤ) (bs : List ℕ) (w : W) → live (net.write fd bs w).1 ≡ live w

abbrev pub Handles : Type 0
Handles = Option ℕ × Option ℕ × Option ℕ × Option ℕ × Option ℕ × Option ℕ × Option ℕ

abbrev pub handles_of : Ib → Handles
handles_of t =
    (t.hca_hndl, t.qp_hndl, t.r_cq_hndl, t.s_cq_hndl, t.pd_hndl, t.s_mr_hndl, t.r_mr_hndl)

module _ {W : Type 0} {vapi : Vapi W} {net : Sockets W} (l : StackLaws vapi net) where
  -- These are the handles, and the adapter holds their objects and nothing else.
  pub record Owns (q r s p : Option ℕ) (m : Machine Ib W) : Type 0 where
    pub live_is : l.live m.sys ≡ stack q r s p m.prot.hca_hndl
    pub qp_is : m.prot.qp_hndl ≡ q
    pub r_cq_is : m.prot.r_cq_hndl ≡ r
    pub s_cq_is : m.prot.s_cq_hndl ≡ s
    pub pd_is : m.prot.pd_hndl ≡ p
    pub s_mr_is : m.prot.s_mr_hndl ≡ none
    pub r_mr_is : m.prot.r_mr_hndl ≡ none

  -- No object is held and there is no handle but that of the adapter.
  pub record Blank (m : Machine Ib W) : Type 0 where
    pub live_is : l.live m.sys ≡ []
    pub qp_is : m.prot.qp_hndl ≡ none
    pub r_cq_is : m.prot.r_cq_hndl ≡ none
    pub s_cq_is : m.prot.s_cq_hndl ≡ none
    pub pd_is : m.prot.pd_hndl ≡ none
    pub s_mr_is : m.prot.s_mr_hndl ≡ none
    pub r_mr_is : m.prot.r_mr_hndl ≡ none

  pub data Settled (m : Machine Ib W) : Type 0 where
    owns : (q r s p : Option ℕ) → Owns q r s p m → Settled m
    blank : Blank m → Settled m

  -- A machine with the same objects and the same handles.
  pub Owns-same :
      (q r s p : Option ℕ) (m m' : Machine Ib W)
      → l.live m'.sys ≡ l.live m.sys
      → handles_of m'.prot ≡ handles_of m.prot
      → Owns q r s p m
      → Owns q r s p m'
  Owns-same q r s p m m' e same o = record {
    live_is = e ∙ o.live_is ∙ ap (λ (t : Handles). stack q r s p (t.0)) (sym same);
    qp_is = ap (λ (t : Handles). t.1) same ∙ o.qp_is;
    r_cq_is = ap (λ (t : Handles). t.2) same ∙ o.r_cq_is;
    s_cq_is = ap (λ (t : Handles). t.3) same ∙ o.s_cq_is;
    pd_is = ap (λ (t : Handles). t.4) same ∙ o.pd_is;
    s_mr_is = ap (λ (t : Handles). t.5) same ∙ o.s_mr_is;
    r_mr_is = ap (λ (t : Handles). t.6) same ∙ o.r_mr_is;
  }

  pub Owns-moved :
      (q r s p : Option ℕ) (m : Machine Ib W) (w : W)
      → l.live w ≡ l.live m.sys
      → Owns q r s p m
      → Owns q r s p (record m { sys = w })
  Owns-moved q r s p m w e o = Owns-same q r s p m (record m { sys = w }) e refl o
