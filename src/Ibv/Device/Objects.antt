-- ===== src/Ibv/Device/Objects.antt =====
-- initIB step by step: the protection domain, the completion queues and the queue pair.
use netpipe5_dev.Base.{
  ℕ, ◌≡◌, refl, sym, ◌∙◌, ap, Bool, true, false, Option, none, some, [], ◌∷◌, ◌++◌,
}
use netpipe5_dev.Effect.{M, done, ◌>>◌, pure}
use netpipe5_dev.Machine.{Machine, set_prot}
use netpipe5_dev.Sockets.{Sockets}
use netpipe5_dev.Verbs.{Verbs, QueuePair, QpInit}
use netpipe5_dev.Ibv.{Ibv, max_wq}
use netpipe5_dev.Ibv.Device.{is_some, qp_handle, make_pd, make_send_cq, make_recv_cq, make_qp}
use netpipe5_dev.Ibv.Device.Ledger.{Held, handles, owned, Created, cq_handle, Ledger, Owned}
use netpipe5_dev.Ibv.Device.Acquire.{Progress, went, failed_in, Progress-defined}
use netpipe5_dev.Ibv.Device.Stages.{Stage, Opened}

module _ {W : Type 0} {verbs : Verbs W} {net : Sockets W} (l : Ledger verbs net) where
  -- The protection domain is there.
  pub record Domain (m : Machine Ibv W) : Type 0 where
    pub context : ℕ
    pub domain : ℕ
    pub stage : Stage l (some context) (some domain) none none none m

  pub make_pd_step :
      (m : Machine Ibv W) → Opened l m → Progress Domain (Owned l) (make_pd verbs net m)
  unfolding make_pd
  make_pd_step m opened = Progress-defined m.prot.ctx opened.context _ m st.ctx_is (
      go (verbs.alloc_pd opened.context m.sys).0 (verbs.alloc_pd opened.context m.sys).1
        (l.alloc_law opened.context m.sys))
    where
      st : Stage l (some opened.context) none none none none m
      st = opened.stage

      go :
          (r : Option ℕ) (w : W)
          → Created r
              (λ h. record (l.held m.sys) { domains = h ∷ (l.held m.sys).domains })
              (l.held m.sys)
              (l.held w)
          → Progress Domain
              (Owned l)
              (done (is_some r) (record m { sys = w; prot = record (m.prot) { pd_hndl = r } }))
      go none w e = failed_in _ (record {
        held_is =
            e
            ∙ st.held_is
            ∙ ap (λ (p : Option ℕ). owned (record (m.prot) { pd_hndl = p })) st.pd_is;
      })
      go (some h) w e = went _ (record {
        context = opened.context;
        domain = h;
        stage = record {
          held_is =
              e
              ∙ ap (λ (x : Held). record x { domains = h ∷ x.domains }) st.held_is
              ∙ ap (λ (p : Option ℕ). record (owned m.prot) { domains = h ∷ handles p }) st.pd_is;
          ctx_is = st.ctx_is;
          pd_is = refl;
          s_cq_is = st.s_cq_is;
          r_cq_is = st.r_cq_is;
          qp_is = st.qp_is;
        };
      })

  -- The send queue is there.
  pub record Sending (m : Machine Ibv W) : Type 0 where
    pub context : ℕ
    pub domain : ℕ
    pub send_queue : ℕ
    pub stage : Stage l (some context) (some domain) (some send_queue) none none m

  pub make_send_cq_step :
      (m : Machine Ibv W) → Domain m → Progress Sending (Owned l) (make_send_cq verbs net m)
  unfolding make_send_cq
  make_send_cq_step m d = Progress-defined m.prot.ctx d.context _ m st.ctx_is (
      go (verbs.create_cq d.context 30000 none m.sys).0
        (verbs.create_cq d.context 30000 none m.sys).1 (l.cq_law d.context 30000 none m.sys))
    where
      st : Stage l (some d.context) (some d.domain) none none none m
      st = d.stage

      run : Option (ℕ × ℕ) → M (Machine Ibv W) Bool
      run r = elim r [
        | none ↦ do set_prot (λ (t : Ibv). record t { s_cq_hndl = none }); pure false
        | some (cq, cqe) ↦ do
          set_prot (λ (t : Ibv). record t { s_cq_hndl = some cq; act_num_cqe = cqe })
          pure true
      ]

      go :
          (r : Option (ℕ × ℕ)) (w : W)
          → Created
              (cq_handle r)
              (λ h. record (l.held m.sys) { queues = h ∷ (l.held m.sys).queues })
              (l.held m.sys)
              (l.held w)
          → Progress Sending (Owned l) (run r (record m { sys = w }))
      go none w e = failed_in _ (record {
        held_is =
            e
            ∙ st.held_is
            ∙ ap (λ (s : Option ℕ). owned (record (m.prot) { s_cq_hndl = s })) st.s_cq_is;
      })
      go (some (h, n)) w e = went _ (record {
        context = d.context;
        domain = d.domain;
        send_queue = h;
        stage = record {
          held_is =
              e
              ∙ ap (λ (x : Held). record x { queues = h ∷ x.queues }) st.held_is
              ∙ ap
                  (λ (s : Option ℕ). record (owned m.prot) {
                    queues = h ∷ (handles m.prot.r_cq_hndl ++ handles s);
                  })
                  st.s_cq_is
              ∙ ap (λ (r : Option ℕ). record (owned m.prot) { queues = h ∷ (handles r ++ []) })
                  st.r_cq_is
              ∙ sym (
                  ap (λ (r : Option ℕ). record (owned m.prot) { queues = handles r ++ (h ∷ []) })
                    st.r_cq_is);
          ctx_is = st.ctx_is;
          pd_is = st.pd_is;
          s_cq_is = refl;
          r_cq_is = st.r_cq_is;
          qp_is = st.qp_is;
        };
      })

  -- Both queues are there.
  pub record Receiving (m : Machine Ibv W) : Type 0 where
    pub context : ℕ
    pub domain : ℕ
    pub send_queue : ℕ
    pub recv_queue : ℕ
    pub stage : Stage l (some context) (some domain) (some send_queue) (some recv_queue) none m

  pub make_recv_cq_step :
      (m : Machine Ibv W) → Sending m → Progress Receiving (Owned l) (make_recv_cq verbs net m)
  unfolding make_recv_cq
  make_recv_cq_step m d = Progress-defined m.prot.ctx d.context _ m st.ctx_is (
      go (verbs.create_cq d.context 20000 none m.sys).0
        (verbs.create_cq d.context 20000 none m.sys).1 (l.cq_law d.context 20000 none m.sys))
    where
      st : Stage l (some d.context) (some d.domain) (some d.send_queue) none none m
      st = d.stage

      run : Option (ℕ × ℕ) → M (Machine Ibv W) Bool
      run r = elim r [
        | none ↦ do set_prot (λ (t : Ibv). record t { r_cq_hndl = none }); pure false
        | some (cq, cqe) ↦ do
          set_prot (λ (t : Ibv). record t { r_cq_hndl = some cq; act_num_cqe = cqe })
          pure true
      ]

      go :
          (r : Option (ℕ × ℕ)) (w : W)
          → Created
              (cq_handle r)
              (λ h. record (l.held m.sys) { queues = h ∷ (l.held m.sys).queues })
              (l.held m.sys)
              (l.held w)
          → Progress Receiving (Owned l) (run r (record m { sys = w }))
      go none w e = failed_in _ (record {
        held_is =
            e
            ∙ st.held_is
            ∙ ap (λ (r : Option ℕ). owned (record (m.prot) { r_cq_hndl = r })) st.r_cq_is;
      })
      go (some (h, n)) w e = went _ (record {
        context = d.context;
        domain = d.domain;
        send_queue = d.send_queue;
        recv_queue = h;
        stage = record {
          held_is =
              e
              ∙ ap (λ (x : Held). record x { queues = h ∷ x.queues }) st.held_is
              ∙ ap
                  (λ (r : Option ℕ). record (owned m.prot) {
                    queues = h ∷ (handles r ++ handles m.prot.s_cq_hndl);
                  })
                  st.r_cq_is;
          ctx_is = st.ctx_is;
          pd_is = st.pd_is;
          s_cq_is = st.s_cq_is;
          r_cq_is = refl;
          qp_is = st.qp_is;
        };
      })

  -- The queue pair is there, and the queue of its receives.
  pub record Ready (m : Machine Ibv W) : Type 0 where
    pub pair : QueuePair
    pub recv_queue : ℕ
    pub held_is : l.held m.sys ≡ owned m.prot
    pub qp_is : m.prot.qp_hndl ≡ some pair
    pub r_cq_is : m.prot.r_cq_hndl ≡ some recv_queue

  pub make_qp_step :
      (m : Machine Ibv W) → Receiving m → Progress Ready (Owned l) (make_qp verbs net m)
  unfolding make_qp
  make_qp_step m d = Progress-defined m.prot.pd_hndl d.domain _ m st.pd_is (
      Progress-defined m.prot.r_cq_hndl d.recv_queue _ m st.r_cq_is (
        Progress-defined m.prot.s_cq_hndl d.send_queue _ m st.s_cq_is (
          go (verbs.create_qp d.domain attr m.sys).0 (verbs.create_qp d.domain attr m.sys).1
            (l.qp_law d.domain attr m.sys))))
    where
      st : Stage l (some d.context) (some d.domain) (some d.send_queue) (some d.recv_queue) none m
      st = d.stage

      attr : QpInit
      attr = record {
        max_recv_wr = max_wq;
        max_send_wr = max_wq;
        max_recv_sge = 1;
        max_send_sge = 1;
        recv_cq = d.recv_queue;
        send_cq = d.send_queue;
        sq_sig_all = 0;
      }

      go :
          (q : Option QueuePair) (w : W)
          → Created
              (qp_handle q)
              (λ h. record (l.held m.sys) { pairs = h ∷ (l.held m.sys).pairs })
              (l.held m.sys)
              (l.held w)
          → Progress Ready
              (Owned l)
              (done (is_some q) (record m { sys = w; prot = record (m.prot) { qp_hndl = q } }))
      go none w e = failed_in _ (record {
        held_is =
            e
            ∙ st.held_is
            ∙ ap (λ (q : Option QueuePair). owned (record (m.prot) { qp_hndl = q })) st.qp_is;
      })
      go (some q) w e = went _ (record {
        pair = q;
        recv_queue = d.recv_queue;
        held_is =
            e
            ∙ ap (λ (x : Held). record x { pairs = q.handle ∷ x.pairs }) st.held_is
            ∙ ap
                (λ (o : Option QueuePair). record (owned m.prot) {
                  pairs = q.handle ∷ handles (qp_handle o);
                })
                st.qp_is;
        qp_is = refl;
        r_cq_is = st.r_cq_is;
      })
