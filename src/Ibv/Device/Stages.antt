-- ===== src/Ibv/Device/Stages.antt =====
-- initIB step by step: which handles are there, and that the adapter holds just these objects.
use netpipe5_dev.Base.{
  ℕ, ◌≡◌, refl, ◌∙◌, ap, Bool, true, false, not, ◌&&◌, Option, none, some, List, [], ◌∷◌,
}
use netpipe5_dev.Effect.{M, done, and_then, when, ◌>>◌, pure}
use netpipe5_dev.Machine.{Machine, call, set_prot}
use netpipe5_dev.Sockets.{Sockets}
use netpipe5_dev.Verbs.{Verbs, QueuePair}
use netpipe5_dev.Ibv.{Ibv}
use netpipe5_dev.Ibv.Device.{
  first_device, no_devices, is_some, find_device, open_context, query_port,
}
use netpipe5_dev.Ibv.Device.Ledger.{Held, handles, owned, Created, Ledger, Owned}
use netpipe5_dev.Ibv.Device.Acquire.{Progress, went, failed_in, Progress-defined}

module _ {W : Type 0} {verbs : Verbs W} {net : Sockets W} (l : Ledger verbs net) where
  -- The adapter holds what the module has handles of, and these are the handles.
  pub record Stage (c p s r : Option ℕ) (q : Option QueuePair) (m : Machine Ibv W) : Type 0 where
    pub held_is : l.held m.sys ≡ owned m.prot
    pub ctx_is : m.prot.ctx ≡ c
    pub pd_is : m.prot.pd_hndl ≡ p
    pub s_cq_is : m.prot.s_cq_hndl ≡ s
    pub r_cq_is : m.prot.r_cq_hndl ≡ r
    pub qp_is : m.prot.qp_hndl ≡ q

  pub Stage-Owned :
      (c p s r : Option ℕ) (q : Option QueuePair) (m : Machine Ibv W)
      → Stage c p s r q m
      → Owned l m
  Stage-Owned c p s r q m st = record { held_is = st.held_is }

  -- A device was found.
  pub record Found (m : Machine Ibv W) : Type 0 where
    pub device : ℕ
    pub hca_is : m.prot.hca ≡ some device
    pub stage : Stage none none none none none m

  pub find_device_step :
      (m : Machine Ibv W)
      → Stage none none none none none m
      → Progress Found (Owned l) (find_device verbs net m)
  unfolding find_device
  find_device_step m st =
      go (verbs.get_device_list m.sys).0 m.prot.hca (verbs.get_device_list m.sys).1
        (l.list_quiet m.sys)
    where
      after : Option ℕ → W → Machine Ibv W
      after hca w = record m { sys = w; prot = record (m.prot) { hca = hca } }

      own :
          (hca : Option ℕ) (w : W)
          → l.held w ≡ l.held m.sys
          → Stage none none none none none (after hca w)
      own hca w e = record {
        held_is = e ∙ st.held_is;
        ctx_is = st.ctx_is;
        pd_is = st.pd_is;
        s_cq_is = st.s_cq_is;
        r_cq_is = st.r_cq_is;
        qp_is = st.qp_is;
      }

      fail : (hca : Option ℕ) (w : W) → l.held w ≡ l.held m.sys → Owned l (after hca w)
      fail hca w e = Stage-Owned none none none none none (after hca w) (own hca w e)

      go :
          (devices : Option (List ℕ)) (old : Option ℕ) (w : W)
          → l.held w ≡ l.held m.sys
          → Progress Found (Owned l) (
              done
                (is_some (first_device old devices) && not (no_devices devices))
                (after (first_device old devices) w))
      go none old w e = failed_in _ (fail none w e)
      go (some []) none w e = failed_in _ (fail none w e)
      go (some []) (some d) w e = failed_in _ (fail (some d) w e)
      go (some (d ∷ ds)) old w e =
          went _ (record { device = d; hca_is = refl; stage = own (some d) w e })

  -- The context is open.
  pub record Opened (m : Machine Ibv W) : Type 0 where
    pub context : ℕ
    pub stage : Stage (some context) none none none none m

  pub open_context_step :
      (m : Machine Ibv W) → Found m → Progress Opened (Owned l) (open_context verbs net m)
  unfolding open_context
  open_context_step m found = Progress-defined m.prot.hca found.device _ m found.hca_is (
      go (verbs.open_device found.device m.sys).0 (verbs.open_device found.device m.sys).1
        (l.open_law found.device m.sys))
    where
      st : Stage none none none none none m
      st = found.stage

      after : Option ℕ → W → Machine Ibv W
      after c w = record m { sys = w; prot = record (m.prot) { ctx = c } }

      go :
          (c : Option ℕ) (w : W)
          → Created c
              (λ h. record (l.held m.sys) { devices = h ∷ (l.held m.sys).devices })
              (l.held m.sys)
              (l.held w)
          → Progress Opened (Owned l) (
              and_then
                (when (is_some c) (call (verbs.free_device_list)) (after c w))
                λ _. pure (is_some c))
      go none w e = failed_in _ (record {
        held_is = e ∙ st.held_is ∙ ap (λ c. owned (record (m.prot) { ctx = c })) st.ctx_is;
      })
      go (some h) w e = went _ (record {
        context = h;
        stage = record {
          held_is =
              l.free_quiet w
              ∙ e
              ∙ ap (λ (x : Held). record x { devices = h ∷ x.devices }) st.held_is
              ∙ ap (λ c. record (owned m.prot) { devices = h ∷ handles c }) st.ctx_is;
          ctx_is = refl;
          pd_is = st.pd_is;
          s_cq_is = st.s_cq_is;
          r_cq_is = st.r_cq_is;
          qp_is = st.qp_is;
        };
      })

  pub query_port_step :
      (m : Machine Ibv W) → Opened m → Progress Opened (Owned l) (query_port verbs net m)
  unfolding query_port
  query_port_step m opened = Progress-defined m.prot.ctx opened.context _ _ st.ctx_is (
      go (verbs.query_port opened.context 1 m.sys).0 (verbs.query_port opened.context 1 m.sys).1
        (l.query_quiet opened.context 1 m.sys))
    where
      st : Stage (some opened.context) none none none none m
      st = opened.stage

      m₁ : Machine Ibv W
      m₁ = record m { prot = record (m.prot) { port_num = 1 } }

      run : Option ℕ → M (Machine Ibv W) Bool
      run found = elim found [
        | none ↦ pure false
        | some lid ↦ do set_prot (λ (t : Ibv). record t { lid = lid }); pure true
      ]

      go :
          (found : Option ℕ) (w : W)
          → l.held w ≡ l.held m.sys
          → Progress Opened (Owned l) (run found (record m₁ { sys = w }))
      go none w e = failed_in _ (record { held_is = e ∙ st.held_is })
      go (some lid) w e = went _ (record {
        context = opened.context;
        stage = record {
          held_is = e ∙ st.held_is;
          ctx_is = st.ctx_is;
          pd_is = st.pd_is;
          s_cq_is = st.s_cq_is;
          r_cq_is = st.r_cq_is;
          qp_is = st.qp_is;
        };
      })
