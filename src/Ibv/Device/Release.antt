-- ===== src/Ibv/Device/Release.antt =====
-- finalizeIB gives everything back, in an order in which each call can succeed.
use netpipe5_dev.Base.{ℕ, ◌≡◌, refl, ◌∙◌, ap, Bool, not, Option, none, some, [], ◌++◌}
use netpipe5_dev.Effect.{M, done, and_then, when, ◌>>◌}
use netpipe5_dev.Machine.{Machine, print, not_released}
use netpipe5_dev.Sockets.{Sockets}
use netpipe5_dev.Verbs.{Verbs}
use netpipe5_dev.Ibv.{Ibv}
use netpipe5_dev.Ibv.Device.{release, qp_handle, mr_handle, finalize_ib}
use netpipe5_dev.Ibv.Device.Ledger.{Held, nothing, handles, Gone, Ledger, Owned}

module _ {W : Type 0} (held : W → Held) where
  -- One release: the call on the handle is as `law` says, or there is no handle.
  release_lem :
      (o : Option ℕ) (destroy : ℕ → W → Bool × W) (left : Held) (m : Machine Ibv W)
      → ((h : ℕ) → o ≡ some h → Gone held (destroy h m.sys) left)
      → (o ≡ none → held m.sys ≡ left)
      → (w : W) × (release o destroy m ≡ done tt (record m { sys = w })) × (held w ≡ left)
  release_lem none destroy left m some_law none_law = (m.sys, refl, none_law refl)
  release_lem (some h) destroy left m some_law none_law =
      let (ok, gone) = some_law h refl in
      (
        (destroy h m.sys).1,
        ap (λ t. when (not t) (print not_released) (record m { sys = (destroy h m.sys).1 })) ok,
        gone,
      )

  -- A run that ends with nothing held.
  abbrev Clears : M (Machine Ibv W) (Unit {0}) → Machine Ibv W → Type 0
  Clears run m = (w : W) × (run m ≡ done tt (record m { sys = w })) × (held w ≡ nothing)

  -- One release and what follows it.
  release-Clears :
      (o : Option ℕ) (destroy : ℕ → W → Bool × W) (left : Held)
      (rest : M (Machine Ibv W) (Unit {0})) (m : Machine Ibv W)
      → ((h : ℕ) → o ≡ some h → Gone held (destroy h m.sys) left)
      → (o ≡ none → held m.sys ≡ left)
      → ((w : W) → held w ≡ left → Clears rest (record m { sys = w }))
      → Clears (release o destroy >> rest) m
  release-Clears o destroy left rest m some_law none_law after =
      let (w₁, run₁, e₁) = release_lem o destroy left m some_law none_law in
      let (w₂, run₂, e₂) = after w₁ e₁ in (w₂, ap (λ r. and_then r (λ _. rest)) run₁ ∙ run₂, e₂)

module _ {W : Type 0} {verbs : Verbs W} {net : Sockets W} (l : Ledger verbs net) where
  abbrev close : Option ℕ → M (Machine Ibv W) (Unit {0})
  close c = release c (verbs.close_device)

  close-Clears :
      (c : Option ℕ) (m : Machine Ibv W)
      → l.held m.sys
        ≡ record { devices = handles c; domains = []; queues = []; pairs = []; regions = [] }
      → Clears l.held (close c) m
  close-Clears c m e =
      release_lem l.held c (verbs.close_device) left m
        (λ h o.
          let (ok, g) =
            l.close_law h ([]) m.sys
              (ap (λ (x : Held). x.devices) e ∙ ap (λ (o : Option ℕ). handles o) o)
              (ap (λ (x : Held). x.domains) e) (ap (λ (x : Held). x.queues) e) in
          (ok, g ∙ ap (λ (x : Held). record x { devices = [] }) e))
        (λ o. e ∙ ap (λ (o : Option ℕ). record left { devices = handles o }) o)
    where
      left : Held
      left = record { devices = []; domains = []; queues = []; pairs = []; regions = [] }

  abbrev free_domain : Option ℕ → Option ℕ → M (Machine Ibv W) (Unit {0})
  free_domain p c = release p (verbs.dealloc_pd) >> close c

  free_domain-Clears :
      (p c : Option ℕ) (m : Machine Ibv W)
      → l.held m.sys
        ≡ record { devices = handles c; domains = handles p; queues = []; pairs = []; regions = [] }
      → Clears l.held (free_domain p c) m
  free_domain-Clears p c m e =
      release-Clears l.held p (verbs.dealloc_pd) left (close c) m
        (λ h o.
          let (ok, g) =
            l.dealloc_law h ([]) m.sys
              (ap (λ (x : Held). x.domains) e ∙ ap (λ (o : Option ℕ). handles o) o)
              (ap (λ (x : Held). x.pairs) e) (ap (λ (x : Held). x.regions) e) in
          (ok, g ∙ ap (λ (x : Held). record x { domains = [] }) e))
        (λ o. e ∙ ap (λ (o : Option ℕ). record left { domains = handles o }) o)
        (λ w e. close-Clears c (record m { sys = w }) e)
    where
      left : Held
      left = record { devices = handles c; domains = []; queues = []; pairs = []; regions = [] }

  abbrev free_recv_region : Option ℕ → Option ℕ → Option ℕ → M (Machine Ibv W) (Unit {0})
  free_recv_region rm p c = release rm (verbs.dereg_mr) >> free_domain p c

  free_recv_region-Clears :
      (rm p c : Option ℕ) (m : Machine Ibv W)
      → l.held m.sys ≡ record {
        devices = handles c;
        domains = handles p;
        queues = [];
        pairs = [];
        regions = handles rm;
      }
      → Clears l.held (free_recv_region rm p c) m
  free_recv_region-Clears rm p c m e =
      release-Clears l.held rm (verbs.dereg_mr) left (free_domain p c) m
        (λ h o.
          let (ok, g) =
            l.dereg_law h ([]) m.sys
              (ap (λ (x : Held). x.regions) e ∙ ap (λ (o : Option ℕ). handles o) o) in
          (ok, g ∙ ap (λ (x : Held). record x { regions = [] }) e))
        (λ o. e ∙ ap (λ (o : Option ℕ). record left { regions = handles o }) o)
        (λ w e. free_domain-Clears p c (record m { sys = w }) e)
    where
      left : Held
      left = record {
        devices = handles c;
        domains = handles p;
        queues = [];
        pairs = [];
        regions = [];
      }

  abbrev free_send_region : Option ℕ → Option ℕ → Option ℕ → Option ℕ → M (Machine Ibv W) (Unit {0})
  free_send_region sm rm p c = release sm (verbs.dereg_mr) >> free_recv_region rm p c

  free_send_region-Clears :
      (sm rm p c : Option ℕ) (m : Machine Ibv W)
      → l.held m.sys ≡ record {
        devices = handles c;
        domains = handles p;
        queues = [];
        pairs = [];
        regions = handles sm ++ handles rm;
      }
      → Clears l.held (free_send_region sm rm p c) m
  free_send_region-Clears sm rm p c m e =
      release-Clears l.held sm (verbs.dereg_mr) left (free_recv_region rm p c) m
        (λ h o.
          let (ok, g) =
            l.dereg_law h (handles rm) m.sys
              (ap (λ (x : Held). x.regions) e ∙ ap (λ (o : Option ℕ). handles o ++ handles rm) o) in
          (ok, g ∙ ap (λ (x : Held). record x { regions = handles rm }) e))
        (λ o. e ∙ ap (λ (o : Option ℕ). record left { regions = handles o ++ handles rm }) o)
        (λ w e. free_recv_region-Clears rm p c (record m { sys = w }) e)
    where
      left : Held
      left = record {
        devices = handles c;
        domains = handles p;
        queues = [];
        pairs = [];
        regions = handles rm;
      }

  abbrev free_send_queue :
      Option ℕ → Option ℕ → Option ℕ → Option ℕ → Option ℕ → M (Machine Ibv W) (Unit {0})
  free_send_queue s sm rm p c = release s (verbs.destroy_cq) >> free_send_region sm rm p c

  free_send_queue-Clears :
      (s sm rm p c : Option ℕ) (m : Machine Ibv W)
      → l.held m.sys ≡ record {
        devices = handles c;
        domains = handles p;
        queues = handles s;
        pairs = [];
        regions = handles sm ++ handles rm;
      }
      → Clears l.held (free_send_queue s sm rm p c) m
  free_send_queue-Clears s sm rm p c m e =
      release-Clears l.held s (verbs.destroy_cq) left (free_send_region sm rm p c) m
        (λ h o.
          let (ok, g) =
            l.destroy_cq_law h ([]) m.sys
              (ap (λ (x : Held). x.queues) e ∙ ap (λ (o : Option ℕ). handles o) o)
              (ap (λ (x : Held). x.pairs) e) in
          (ok, g ∙ ap (λ (x : Held). record x { queues = [] }) e))
        (λ o. e ∙ ap (λ (o : Option ℕ). record left { queues = handles o }) o)
        (λ w e. free_send_region-Clears sm rm p c (record m { sys = w }) e)
    where
      left : Held
      left = record {
        devices = handles c;
        domains = handles p;
        queues = [];
        pairs = [];
        regions = handles sm ++ handles rm;
      }

  abbrev free_recv_queue :
      Option ℕ → Option ℕ → Option ℕ → Option ℕ → Option ℕ → Option ℕ → M (Machine Ibv W) (Unit {0})
  free_recv_queue r s sm rm p c = release r (verbs.destroy_cq) >> free_send_queue s sm rm p c

  free_recv_queue-Clears :
      (r s sm rm p c : Option ℕ) (m : Machine Ibv W)
      → l.held m.sys ≡ record {
        devices = handles c;
        domains = handles p;
        queues = handles r ++ handles s;
        pairs = [];
        regions = handles sm ++ handles rm;
      }
      → Clears l.held (free_recv_queue r s sm rm p c) m
  free_recv_queue-Clears r s sm rm p c m e =
      release-Clears l.held r (verbs.destroy_cq) left (free_send_queue s sm rm p c) m
        (λ h o.
          let (ok, g) =
            l.destroy_cq_law h (handles s) m.sys
              (ap (λ (x : Held). x.queues) e ∙ ap (λ (o : Option ℕ). handles o ++ handles s) o)
              (ap (λ (x : Held). x.pairs) e) in
          (ok, g ∙ ap (λ (x : Held). record x { queues = handles s }) e))
        (λ o. e ∙ ap (λ (o : Option ℕ). record left { queues = handles o ++ handles s }) o)
        (λ w e. free_send_queue-Clears s sm rm p c (record m { sys = w }) e)
    where
      left : Held
      left = record {
        devices = handles c;
        domains = handles p;
        queues = handles s;
        pairs = [];
        regions = handles sm ++ handles rm;
      }

  abbrev free_pair :
      Option ℕ
      → Option ℕ
      → Option ℕ
      → Option ℕ
      → Option ℕ
      → Option ℕ
      → Option ℕ
      → M (Machine Ibv W) (Unit {0})
  free_pair q r s sm rm p c = release q (verbs.destroy_qp) >> free_recv_queue r s sm rm p c

  free_pair-Clears :
      (q r s sm rm p c : Option ℕ) (m : Machine Ibv W)
      → l.held m.sys ≡ record {
        devices = handles c;
        domains = handles p;
        queues = handles r ++ handles s;
        pairs = handles q;
        regions = handles sm ++ handles rm;
      }
      → Clears l.held (free_pair q r s sm rm p c) m
  free_pair-Clears q r s sm rm p c m e =
      release-Clears l.held q (verbs.destroy_qp) left (free_recv_queue r s sm rm p c) m
        (λ h o.
          let (ok, g) =
            l.destroy_qp_law h ([]) m.sys
              (ap (λ (x : Held). x.pairs) e ∙ ap (λ (o : Option ℕ). handles o) o) in
          (ok, g ∙ ap (λ (x : Held). record x { pairs = [] }) e))
        (λ o. e ∙ ap (λ (o : Option ℕ). record left { pairs = handles o }) o)
        (λ w e. free_recv_queue-Clears r s sm rm p c (record m { sys = w }) e)
    where
      left : Held
      left = record {
        devices = handles c;
        domains = handles p;
        queues = handles r ++ handles s;
        pairs = [];
        regions = handles sm ++ handles rm;
      }

  -- For verbs that refuse to release an object while others need it, and a machine on which the
  -- adapter holds just what the module has handles of: finalizeIB runs to its end without printing
  -- an error, changes only the system, and leaves nothing held, whichever of the handles are NULL.
  pub finalize_ib-Owned :
      (m : Machine Ibv W)
      → Owned l m
      → (w : W) × (finalize_ib verbs m ≡ done tt (record m { sys = w })) × (l.held w ≡ nothing)
  unfolding finalize_ib
  finalize_ib-Owned m own =
      let t : Ibv = m.prot in
      free_pair-Clears (qp_handle t.qp_hndl) t.r_cq_hndl t.s_cq_hndl (mr_handle t.s_mr_hndl)
        (mr_handle t.r_mr_hndl) t.pd_hndl t.ctx m own.held_is
