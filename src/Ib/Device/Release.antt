-- ===== src/Ib/Device/Release.antt =====
-- finalizeIB of src/ib.c takes the whole stack of objects down.
use netpipe5_dev.Base.{
  ℕ, ◌==◌, ◌≡◌, refl, ◌∙◌, sym, ap, subst, Bool, true, false, not, Option, none, some, List, [],
  ◌∷◌,
}
use netpipe5_dev.Effect.{M, Outcome, done, and_then, ◌>>=◌, ◌>>◌, when}
use netpipe5_dev.Machine.{Machine, not_released, print, call}
use netpipe5_dev.Sockets.{Sockets}
use netpipe5_dev.Ibv.{np_comp_event}
use netpipe5_dev.Ib.{Vapi, Ib}
use netpipe5_dev.Ib.Device.{give_back, clear_handler, vapi_finalize_ib}
use netpipe5_dev.Ib.Device.Stack.{
  Object, pair, queue, domain, adapter, over, stack, StackLaws, Popped, Settled, owns, Owns-same,
  handles_of, blank,
}

module _ {W : Type 0} {vapi : Vapi W} {net : Sockets W} (l : StackLaws vapi net) where
  abbrev at_sys : Machine Ib W → W → Machine Ib W
  at_sys m w = record m { sys = w }

  -- The object on top, if the handle is valid, is taken away, and nothing is printed.
  record Given (o : Option ℕ) (release : ℕ → W → Bool × W) (rest : List Object) (m : Machine Ib W)
      : Type 0 where
    after : W
    ran : give_back o release m ≡ done tt (at_sys m after)
    left_over : l.live after ≡ rest

  give_back_lem :
      (kind : ℕ → Object) (release : ℕ → W → Bool × W)
      → Popped l.live kind release
      → (o : Option ℕ) (rest : List Object) (m : Machine Ib W) → l.live m.sys ≡ over kind o rest
      → Given o release rest m
  give_back_lem kind release law none rest m e = record { after = m.sys; ran = refl; left_over = e }
  give_back_lem kind release law (some h) rest m e = record {
    after = (release h m.sys).1;
    ran =
        ap (λ (ok : Bool). when (not ok) (print not_released) (at_sys m (release h m.sys).1))
          (law h rest m.sys e).0;
    left_over = (law h rest m.sys e).1;
  }

  abbrev pub Empties : Outcome (Machine Ib W) (Unit {0}) → Type 0
  Empties o = (m' : Machine Ib W) × (o ≡ done tt m') × (l.live m'.sys ≡ [])

  Empties-then :
      (step rest : M (Machine Ib W) (Unit {0})) (m m' : Machine Ib W)
      → step m ≡ done tt m'
      → Empties (rest m')
      → Empties ((step >> rest) m)
  Empties-then step rest m m' e (f, e', empty) =
      (f, ap (λ (o : Outcome (Machine Ib W) (Unit {0})). and_then o (λ _. rest)) e ∙ e', empty)

  -- finalizeIB after the handler, with the handles.
  abbrev releases :
      Option ℕ
      → Option ℕ
      → Option ℕ
      → Option ℕ
      → Option ℕ
      → Option ℕ
      → Option ℕ
      → Option ℕ
      → M (Machine Ib W) (Unit {0})
  releases hca q r s sm rm p a = do
    give_back q (vapi.destroy_qp hca)
    give_back r (vapi.destroy_cq hca)
    give_back s (vapi.destroy_cq hca)
    give_back sm (vapi.deregister_mr hca)
    give_back rm (vapi.deregister_mr hca)
    give_back p (vapi.dealloc_pd hca)
    give_back a (vapi.release_hca_hndl)

  releases_all :
      (hca q r s p a : Option ℕ) (m : Machine Ib W)
      → l.live m.sys ≡ stack q r s p a
      → Empties (releases hca q r s none none p a m)
  releases_all hca q r s p a m e =
      let g₁ =
        give_back_lem pair (vapi.destroy_qp hca) (l.destroy_qp_law hca) q
          (over queue r (over queue s (over domain p (over adapter a [])))) m e in
      let g₂ =
        give_back_lem queue (vapi.destroy_cq hca) (l.destroy_cq_law hca) r
          (over queue s (over domain p (over adapter a []))) (at_sys m g₁.after) g₁.left_over in
      let g₃ =
        give_back_lem queue (vapi.destroy_cq hca) (l.destroy_cq_law hca) s
          (over domain p (over adapter a [])) (at_sys m g₂.after) g₂.left_over in
      let g₄ =
        give_back_lem domain (vapi.dealloc_pd hca) (l.dealloc_law hca) p (over adapter a [])
          (at_sys m g₃.after) g₃.left_over in
      let g₅ =
        give_back_lem adapter (vapi.release_hca_hndl) l.release_law a [] (at_sys m g₄.after)
          g₄.left_over in
      Empties-then (give_back q (vapi.destroy_qp hca)) _ m _ g₁.ran (
        Empties-then (give_back r (vapi.destroy_cq hca)) _ _ _ g₂.ran (
          Empties-then (give_back s (vapi.destroy_cq hca)) _ _ _ g₃.ran (
            Empties-then (give_back p (vapi.dealloc_pd hca)) _ _ _ g₄.ran
              (at_sys m g₅.after, g₅.ran, g₅.left_over))))

  -- With no object left the handle of the adapter may be stale.
  release_stale :
      (a : Option ℕ) (m : Machine Ib W)
      → l.live m.sys ≡ []
      → Empties (give_back a (vapi.release_hca_hndl) m)
  release_stale none m e = (m, refl, e)
  release_stale (some h) m e = go (vapi.release_hca_hndl h m.sys).0
    where
      m₁ : Machine Ib W
      m₁ = at_sys m (vapi.release_hca_hndl h m.sys).1

      go : (ok : Bool) → Empties (when (not ok) (print not_released) m₁)
      go true = (m₁, refl, l.release_nothing h m.sys e)
      go false =
          (record m₁ { printed = not_released ∷ m.printed }, refl, l.release_nothing h m.sys e)

  -- The handles as they are.
  abbrev ReleasesOf :
      Machine Ib W → Option ℕ → Option ℕ → Option ℕ → Option ℕ → Option ℕ → Option ℕ → Type 0
  ReleasesOf m q r s sm rm p = Empties (releases m.prot.hca_hndl q r s sm rm p m.prot.hca_hndl m)

  settle_handles :
      (q r s p : Option ℕ) (m : Machine Ib W)
      → m.prot.qp_hndl ≡ q
      → m.prot.r_cq_hndl ≡ r
      → m.prot.s_cq_hndl ≡ s
      → m.prot.pd_hndl ≡ p
      → m.prot.s_mr_hndl ≡ none
      → m.prot.r_mr_hndl ≡ none
      → ReleasesOf m q r s none none p
      → ReleasesOf m m.prot.qp_hndl m.prot.r_cq_hndl m.prot.s_cq_hndl m.prot.s_mr_hndl
          m.prot.r_mr_hndl m.prot.pd_hndl
  settle_handles q r s p m eq er es ep esm erm e =
      subst
        (λ (q : Option ℕ).
          ReleasesOf m q m.prot.r_cq_hndl m.prot.s_cq_hndl m.prot.s_mr_hndl m.prot.r_mr_hndl
            m.prot.pd_hndl)
        (sym eq)
        (subst
          (λ (r : Option ℕ).
            ReleasesOf m q r m.prot.s_cq_hndl m.prot.s_mr_hndl m.prot.r_mr_hndl m.prot.pd_hndl)
          (sym er)
          (subst
            (λ (s : Option ℕ). ReleasesOf m q r s m.prot.s_mr_hndl m.prot.r_mr_hndl m.prot.pd_hndl)
            (sym es)
            (subst (λ (x : Option ℕ). ReleasesOf m q r s x m.prot.r_mr_hndl m.prot.pd_hndl)
              (sym esm)
              (subst (λ (x : Option ℕ). ReleasesOf m q r s none x m.prot.pd_hndl) (sym erm)
                (subst (λ (p : Option ℕ). ReleasesOf m q r s none none p) (sym ep) e)))))

  releases_settled :
      (m : Machine Ib W)
      → Settled l m
      → ReleasesOf m m.prot.qp_hndl m.prot.r_cq_hndl m.prot.s_cq_hndl m.prot.s_mr_hndl
          m.prot.r_mr_hndl m.prot.pd_hndl
  releases_settled m (owns q r s p o) =
      settle_handles q r s p m o.qp_is o.r_cq_is o.s_cq_is o.pd_is o.s_mr_is o.r_mr_is
        (releases_all m.prot.hca_hndl q r s p m.prot.hca_hndl m o.live_is)
  releases_settled m (blank b) =
      settle_handles none none none none m b.qp_is b.r_cq_is b.s_cq_is b.pd_is b.s_mr_is b.r_mr_is
        (release_stale m.prot.hca_hndl m b.live_is)

  -- The handler is cleared, if there is one; a failure is printed.
  record Cleared (m : Machine Ib W) : Type 0 where
    after : Machine Ib W
    ran : clear_handler vapi m ≡ done tt after
    settled : Settled l after

  Settled-same :
      (m m' : Machine Ib W)
      → l.live m'.sys ≡ l.live m.sys
      → m'.prot ≡ m.prot
      → Settled l m
      → Settled l m'
  Settled-same m m' e same (owns q r s p o) =
      owns q r s p (Owns-same l q r s p m m' e (ap handles_of same) o)
  Settled-same m m' e same (blank b) = blank (record {
    live_is = e ∙ b.live_is;
    qp_is = ap (λ (t : Ib). t.qp_hndl) same ∙ b.qp_is;
    r_cq_is = ap (λ (t : Ib). t.r_cq_hndl) same ∙ b.r_cq_is;
    s_cq_is = ap (λ (t : Ib). t.s_cq_hndl) same ∙ b.s_cq_is;
    pd_is = ap (λ (t : Ib). t.pd_hndl) same ∙ b.pd_is;
    s_mr_is = ap (λ (t : Ib). t.s_mr_hndl) same ∙ b.s_mr_is;
    r_mr_is = ap (λ (t : Ib). t.r_mr_hndl) same ∙ b.r_mr_is;
  })

  clear_handler_lem : (m : Machine Ib W) → Settled l m → Cleared m
  unfolding clear_handler
  clear_handler_lem m s = go (m.prot.comptype == np_comp_event) refl
    where
      asked : Bool × W
      asked = vapi.clear_comp_eventh m.prot.hca_hndl m.prot.ceh_hndl m.sys

      clearing : M (Machine Ib W) (Unit {0})
      clearing = do
        ok ← call (vapi.clear_comp_eventh m.prot.hca_hndl m.prot.ceh_hndl)
        when (not ok) (print not_released)

      quiet : l.live asked.1 ≡ l.live m.sys
      quiet = l.clear_quiet m.prot.hca_hndl m.prot.ceh_hndl m.sys

      report : (ok : Bool) → asked.0 ≡ ok → (m.prot.comptype == np_comp_event) ≡ true → Cleared m
      report true e on = record {
        after = at_sys m asked.1;
        ran =
            ap (λ (event : Bool). when event clearing m) on
            ∙ ap (λ (ok : Bool). when (not ok) (print not_released) (at_sys m asked.1)) e;
        settled = Settled-same m (at_sys m asked.1) quiet refl s;
      }
      report false e on = record {
        after = record (at_sys m asked.1) { printed = not_released ∷ m.printed };
        ran =
            ap (λ (event : Bool). when event clearing m) on
            ∙ ap (λ (ok : Bool). when (not ok) (print not_released) (at_sys m asked.1)) e;
        settled = Settled-same m _ quiet refl s;
      }

      go : (event : Bool) → (m.prot.comptype == np_comp_event) ≡ event → Cleared m
      go false e = record {
        after = m;
        ran = ap (λ (event : Bool). when event clearing m) e;
        settled = s;
      }
      go true e = report asked.0 refl e

  pub finalize_ib-Empties : (m : Machine Ib W) → Settled l m → Empties (vapi_finalize_ib vapi m)
  unfolding vapi_finalize_ib
  finalize_ib-Empties m s =
      let c = clear_handler_lem m s in
      Empties-then (clear_handler vapi)
        (λ (m : Machine Ib W).
          releases m.prot.hca_hndl m.prot.qp_hndl m.prot.r_cq_hndl m.prot.s_cq_hndl m.prot.s_mr_hndl
            m.prot.r_mr_hndl m.prot.pd_hndl m.prot.hca_hndl m)
        m c.after c.ran (releases_settled c.after c.settled)
