-- ===== src/Ib/Device/Acquire.antt =====
-- The steps of initIB of src/ib.c that make objects: what is made goes on top of the stack.
use netpipe5_dev.Base.{
  ℕ, ◌≡◌, refl, ◌∙◌, ap, ℤ, negsuc, Bool, true, false, Option, none, some, List, ◌∷◌,
}
use netpipe5_dev.Effect.{M, Outcome, done, exited, and_then, ◌>>◌, pure}
use netpipe5_dev.Machine.{Machine, set_prot}
use netpipe5_dev.Sockets.{Sockets}
use netpipe5_dev.Ibv.{max_wq}
use netpipe5_dev.Ib.{Vapi, Ib, VapiQpInit}
use netpipe5_dev.Ib.Device.{
  or_old, or_minus_one, vapi_open, vapi_query_port, vapi_make_pd, vapi_make_send_cq,
  vapi_make_recv_cq, vapi_make_qp,
}
use netpipe5_dev.Ib.Device.Stack.{
  Object, pair, queue, domain, adapter, over, first_of, StackLaws, Owns, Blank, Settled, owns,
  blank, Owns-moved, Owns-same,
}

-- A step goes on in `A`, or stops in `B`, or ends the process.
pub data Goes {W : Type 0} (A B : Machine Ib W → Type 0)
    : Outcome (Machine Ib W) Bool → Type 0 where
  on : (m : Machine Ib W) → A m → Goes A B (done true m)
  stops : (m : Machine Ib W) → B m → Goes A B (done false m)
  quits : (c : ℤ) (m : Machine Ib W) → Goes A B (exited c m)

-- A run returns in `B` or ends the process.
pub data Finishes {W : Type 0} (B : Machine Ib W → Type 0) : Outcome (Machine Ib W) ℤ → Type 0 where
  returned : (z : ℤ) (m : Machine Ib W) → B m → Finishes B (done z m)
  left : (c : ℤ) (m : Machine Ib W) → Finishes B (exited c m)

pub or_minus_one-Finishes :
    {W : Type 0} {A B C : Machine Ib W → Type 0} {step : M (Machine Ib W) Bool}
    {rest : M (Machine Ib W) ℤ}
    → ((m : Machine Ib W) → A m → Goes C B (step m))
    → ((m : Machine Ib W) → C m → Finishes B (rest m))
    → (m : Machine Ib W) → A m
    → Finishes B (or_minus_one step rest m)
or_minus_one-Finishes {W} {A} {B} {C} {step} {rest} this next m a = go (step m) (this m a)
  where
    go :
        (r : Outcome (Machine Ib W) Bool)
        → Goes C B r
        → Finishes B (and_then r (λ ok. elim ok [ true ↦ rest | false ↦ pure (negsuc 0) ]))
    go _ (on m c) = next m c
    go _ (stops m b) = returned (negsuc 0) m b
    go _ (quits c m) = left c m

module _ {W : Type 0} {vapi : Vapi W} {net : Sockets W} (l : StackLaws vapi net) where
  abbrev pub HasPd : Machine Ib W → Type 0
  HasPd m = (p : ℕ) × Owns l none none none (some p) m

  abbrev pub HasSendCq : Machine Ib W → Type 0
  HasSendCq m = (p s : ℕ) × Owns l none none (some s) (some p) m

  abbrev pub HasRecvCq : Machine Ib W → Type 0
  HasRecvCq m = (p s r : ℕ) × Owns l none (some r) (some s) (some p) m

  abbrev pub HasQp : Machine Ib W → Type 0
  HasQp m = (p s r q : ℕ) × Owns l (some q) (some r) (some s) (some p) m

  pub open_step :
      (m : Machine Ib W)
      → Blank l m
      → Goes (Owns l none none none none) (Settled l) (vapi_open vapi net m)
  unfolding vapi_open
  open_step m b = go (vapi.get_hca_hndl m₁.sys).0 (vapi.get_hca_hndl m₁.sys).1 (l.get_law m₁.sys)
    where
      m₁ : Machine Ib W
      m₁ = record m {
        sys = (vapi.open_hca m.sys).1;
        prot = record (m.prot) { hca_hndl = or_old m.prot.hca_hndl (vapi.open_hca m.sys).0 };
      }

      run : Option ℕ → M (Machine Ib W) Bool
      run got = elim got [
        | none ↦ pure false
        | some h ↦ do set_prot (λ (t : Ib). record t { hca_hndl = some h }); pure true
      ]

      go :
          (got : Option ℕ) (w : W)
          → l.live w ≡ over adapter got (l.live m₁.sys)
          → Goes (Owns l none none none none) (Settled l) (run got (record m₁ { sys = w }))
      go none w e = stops _ (
          blank (record {
            live_is = e ∙ l.open_quiet m.sys ∙ b.live_is;
            qp_is = b.qp_is;
            r_cq_is = b.r_cq_is;
            s_cq_is = b.s_cq_is;
            pd_is = b.pd_is;
            s_mr_is = b.s_mr_is;
            r_mr_is = b.r_mr_is;
          }))
      go (some h) w e = on _ (record {
        live_is = e ∙ ap (λ (xs : List Object). adapter h ∷ xs) (l.open_quiet m.sys ∙ b.live_is);
        qp_is = b.qp_is;
        r_cq_is = b.r_cq_is;
        s_cq_is = b.s_cq_is;
        pd_is = b.pd_is;
        s_mr_is = b.s_mr_is;
        r_mr_is = b.r_mr_is;
      })

  pub query_port_step :
      (m : Machine Ib W)
      → Owns l none none none none m
      → Goes (Owns l none none none none) (Settled l) (vapi_query_port vapi net m)
  unfolding vapi_query_port
  query_port_step m o =
      go (vapi.query_hca_port_prop m.prot.hca_hndl 1 m.sys).0
        (vapi.query_hca_port_prop m.prot.hca_hndl 1 m.sys).1 (l.query_quiet m.prot.hca_hndl 1 m.sys)
    where
      m₁ : Machine Ib W
      m₁ = record m { prot = record (m.prot) { port_num = 1 } }

      run : Option ℕ → M (Machine Ib W) Bool
      run found = elim found [
        | none ↦ pure false
        | some n ↦ do set_prot (λ (t : Ib). record t { lid = n }); pure true
      ]

      go :
          (found : Option ℕ) (w : W)
          → l.live w ≡ l.live m.sys
          → Goes (Owns l none none none none) (Settled l) (run found (record m₁ { sys = w }))
      go none w e =
          stops _ (owns none none none none (Owns-same l none none none none m _ e refl o))
      go (some n) w e = on _ (Owns-same l none none none none m _ e refl o)

  pub make_pd_step :
      (m : Machine Ib W)
      → Owns l none none none none m
      → Goes HasPd (Settled l) (vapi_make_pd vapi net m)
  unfolding vapi_make_pd
  make_pd_step m o =
      go (vapi.alloc_pd m.prot.hca_hndl m.sys).0 (vapi.alloc_pd m.prot.hca_hndl m.sys).1
        (l.alloc_law m.prot.hca_hndl m.sys)
    where
      run : Option ℕ → M (Machine Ib W) Bool
      run made = elim made [
        | none ↦ pure false
        | some h ↦ do set_prot (λ (t : Ib). record t { pd_hndl = some h }); pure true
      ]

      go :
          (made : Option ℕ) (w : W)
          → l.live w ≡ over domain made (l.live m.sys)
          → Goes HasPd (Settled l) (run made (record m { sys = w }))
      go none w e = stops _ (owns none none none none (Owns-moved l none none none none m w e o))
      go (some h) w e = on _ (
        h,
        record {
          live_is = e ∙ ap (λ (xs : List Object). domain h ∷ xs) o.live_is;
          qp_is = o.qp_is;
          r_cq_is = o.r_cq_is;
          s_cq_is = o.s_cq_is;
          pd_is = refl;
          s_mr_is = o.s_mr_is;
          r_mr_is = o.r_mr_is;
        },
      )

  pub make_send_cq_step :
      (m : Machine Ib W) → HasPd m → Goes HasSendCq (Settled l) (vapi_make_send_cq vapi net m)
  unfolding vapi_make_send_cq
  make_send_cq_step m (p, o) =
      go (vapi.create_cq m.prot.hca_hndl 30000 m.sys).0
        (vapi.create_cq m.prot.hca_hndl 30000 m.sys).1 (l.cq_law m.prot.hca_hndl 30000 m.sys)
    where
      m₁ : Machine Ib W
      m₁ = record m { prot = record (m.prot) { num_cqe = 30000 } }

      run : Option (ℕ × ℕ) → M (Machine Ib W) Bool
      run made = elim made [
        | none ↦ pure false
        | some (cq, cqe) ↦ do
          set_prot (λ (t : Ib). record t { s_cq_hndl = some cq; act_num_cqe = cqe })
          pure true
      ]

      go :
          (made : Option (ℕ × ℕ)) (w : W)
          → l.live w ≡ over queue (first_of made) (l.live m.sys)
          → Goes HasSendCq (Settled l) (run made (record m₁ { sys = w }))
      go none w e =
          stops _ (owns none none none (some p) (Owns-same l none none none (some p) m _ e refl o))
      go (some (cq, cqe)) w e = on _ (
        p,
        cq,
        record {
          live_is = e ∙ ap (λ (xs : List Object). queue cq ∷ xs) o.live_is;
          qp_is = o.qp_is;
          r_cq_is = o.r_cq_is;
          s_cq_is = refl;
          pd_is = o.pd_is;
          s_mr_is = o.s_mr_is;
          r_mr_is = o.r_mr_is;
        },
      )

  pub make_recv_cq_step :
      (m : Machine Ib W) → HasSendCq m → Goes HasRecvCq (Settled l) (vapi_make_recv_cq vapi net m)
  unfolding vapi_make_recv_cq
  make_recv_cq_step m (p, s, o) =
      go (vapi.create_cq m.prot.hca_hndl 20000 m.sys).0
        (vapi.create_cq m.prot.hca_hndl 20000 m.sys).1 (l.cq_law m.prot.hca_hndl 20000 m.sys)
    where
      m₁ : Machine Ib W
      m₁ = record m { prot = record (m.prot) { num_cqe = 20000 } }

      run : Option (ℕ × ℕ) → M (Machine Ib W) Bool
      run made = elim made [
        | none ↦ pure false
        | some (cq, cqe) ↦ do
          set_prot (λ (t : Ib). record t { r_cq_hndl = some cq; act_num_cqe = cqe })
          pure true
      ]

      go :
          (made : Option (ℕ × ℕ)) (w : W)
          → l.live w ≡ over queue (first_of made) (l.live m.sys)
          → Goes HasRecvCq (Settled l) (run made (record m₁ { sys = w }))
      go none w e =
          stops _ (
            owns none none (some s) (some p) (Owns-same l none none (some s) (some p) m _ e refl o))
      go (some (cq, cqe)) w e = on _ (
        p,
        s,
        cq,
        record {
          live_is = e ∙ ap (λ (xs : List Object). queue cq ∷ xs) o.live_is;
          qp_is = o.qp_is;
          r_cq_is = refl;
          s_cq_is = o.s_cq_is;
          pd_is = o.pd_is;
          s_mr_is = o.s_mr_is;
          r_mr_is = o.r_mr_is;
        },
      )

  pub make_qp_step :
      (m : Machine Ib W) → HasRecvCq m → Goes HasQp (Settled l) (vapi_make_qp vapi net m)
  unfolding vapi_make_qp
  make_qp_step m (p, s, r, o) =
      go (vapi.create_qp m.prot.hca_hndl attr m.sys).0 (vapi.create_qp m.prot.hca_hndl attr m.sys).1
        (l.qp_law m.prot.hca_hndl attr m.sys)
    where
      attr : VapiQpInit
      attr = record {
        max_wr = max_wq;
        max_sg = 1;
        pd = m.prot.pd_hndl;
        rq_cq = m.prot.r_cq_hndl;
        sq_cq = m.prot.s_cq_hndl;
      }

      run : Option (ℕ × ℕ) → M (Machine Ib W) Bool
      run made = elim made [
        | none ↦ pure false
        | some (qp, num) ↦ do
          set_prot (λ (t : Ib). record t { qp_hndl = some qp; qp_num = num })
          pure true
      ]

      go :
          (made : Option (ℕ × ℕ)) (w : W)
          → l.live w ≡ over pair (first_of made) (l.live m.sys)
          → Goes HasQp (Settled l) (run made (record m { sys = w }))
      go none w e = stops _ (
          owns none (some r) (some s) (some p)
            (Owns-moved l none (some r) (some s) (some p) m w e o))
      go (some (qp, num)) w e = on _ (
        p,
        s,
        r,
        qp,
        record {
          live_is = e ∙ ap (λ (xs : List Object). pair qp ∷ xs) o.live_is;
          qp_is = refl;
          r_cq_is = o.r_cq_is;
          s_cq_is = o.s_cq_is;
          pd_is = o.pd_is;
          s_mr_is = o.s_mr_is;
          r_mr_is = o.r_mr_is;
        },
      )
