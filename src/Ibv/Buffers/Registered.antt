-- ===== src/Ibv/Buffers/Registered.antt =====
-- The registration of the buffers in MyMalloc, whatever the adapter answers.
use netpipe5_dev.Base.{
  ℕ, ◌≡◌, refl, sym, ◌∙◌, ap, subst, negsuc, true, false, not, Option, none, some, ◌∷◌, ◌++◌,
}
use netpipe5_dev.Effect.{M, Outcome, done, exited, and_then, when, exit, defined, gets, ◌>>=◌, ◌>>◌}
use netpipe5_dev.Memory.{Ptr}
use netpipe5_dev.Machine.{Machine, set_prot, call}
use netpipe5_dev.Sockets.{Sockets}
use netpipe5_dev.Verbs.{Verbs, Region}
use netpipe5_dev.Ibv.{Ibv}
use netpipe5_dev.Ibv.Device.{is_some, mr_handle}
use netpipe5_dev.Ibv.Device.Ledger.{Held, handles, owned, Created, Ledger}

module _ {W : Type 0} {verbs : Verbs W} {net : Sockets W} (l : Ledger verbs net) where
  -- A protection domain and no region.
  pub record Fresh (m : Machine Ibv W) : Type 0 where
    pub domain : ℕ
    pub pd_is : m.prot.pd_hndl ≡ some domain
    pub held_is : l.held m.sys ≡ owned m.prot
    pub r_mr_is : m.prot.r_mr_hndl ≡ none
    pub s_mr_is : m.prot.s_mr_hndl ≡ none

  -- Both buffers are registered.
  pub record Registered (m : Machine Ibv W) : Type 0 where
    pub r_region : Region
    pub s_region : Region
    pub r_mr_is : m.prot.r_mr_hndl ≡ some r_region
    pub s_mr_is : m.prot.s_mr_hndl ≡ some s_region
    pub held_is : l.held m.sys ≡ owned m.prot

  abbrev registered : Machine Ibv W → Option Region → Option Region → W → Machine Ibv W
  registered m r q w = record m { prot = record (m.prot) { r_mr_hndl = r; s_mr_hndl = q }; sys = w }

  -- What comes of the registration of `recv_len` bytes of the receive buffer, which the other side
  -- may write, and then of `send_len` bytes of the send buffer, which it may not: both regions are
  -- given and kept and nothing else is changed, or one is not given and the process ends with -1.
  pub data Registers (pd recv_len send_len : ℕ) (m : Machine Ibv W)
      : Outcome (Machine Ibv W) (Unit {0}) → Type 0 where
    both_given :
        (r q : Region) (w₁ w₂ : W)
        → verbs.reg_mr pd m.args.r_buff recv_len true m.sys ≡ (some r, w₁)
        → verbs.reg_mr pd m.args.s_buff send_len false w₁ ≡ (some q, w₂)
        → Registered (registered m (some r) (some q) w₂)
        → Registers pd recv_len send_len m (done tt (registered m (some r) (some q) w₂))
    no_recv_region :
        (w₁ : W)
        → verbs.reg_mr pd m.args.r_buff recv_len true m.sys ≡ (none, w₁)
        → Registers pd recv_len send_len m
            (exited (negsuc 0) (registered m none m.prot.s_mr_hndl w₁))
    no_send_region :
        (r : Region) (w₁ w₂ : W)
        → verbs.reg_mr pd m.args.r_buff recv_len true m.sys ≡ (some r, w₁)
        → verbs.reg_mr pd m.args.s_buff send_len false w₁ ≡ (none, w₂)
        → Registers pd recv_len send_len m (exited (negsuc 0) (registered m (some r) none w₂))

  abbrev register_send : ℕ → Ptr → ℕ → M (Machine Ibv W) (Unit {0})
  register_send pd p send_len = do
    s_mr ← call (verbs.reg_mr pd p send_len false)
    set_prot (λ t. record t { s_mr_hndl = s_mr })
    when (not (is_some s_mr)) (exit (negsuc 0))

  abbrev register_both : Ptr → Ptr → ℕ → ℕ → ℕ → M (Machine Ibv W) (Unit {0})
  register_both p q recv_len send_len pd = do
    r_mr ← call (verbs.reg_mr pd p recv_len true)
    set_prot (λ t. record t { r_mr_hndl = r_mr })
    when (not (is_some r_mr)) (exit (negsuc 0))
    register_send pd q send_len

  -- What MyMalloc does once it has its memory.
  abbrev pub register : ℕ → ℕ → M (Machine Ibv W) (Unit {0})
  register recv_len send_len = do
    m ← gets (λ m. m)
    pd ← defined m.prot.pd_hndl
    register_both m.args.r_buff m.args.s_buff recv_len send_len pd

  -- Two regions on top of none.
  held_both :
      (m : Machine Ibv W) (r q : Region) (w₁ w₂ : W)
      → Fresh m
      → l.held w₁ ≡ record (l.held m.sys) { regions = r.handle ∷ (l.held m.sys).regions }
      → l.held w₂ ≡ record (l.held w₁) { regions = q.handle ∷ (l.held w₁).regions }
      → l.held w₂ ≡ owned (record (m.prot) { r_mr_hndl = some r; s_mr_hndl = some q })
  held_both m r q w₁ w₂ f e₁ e₂ =
      e₂
      ∙ ap (λ (x : Held). record x { regions = q.handle ∷ x.regions }) e₁
      ∙ ap (λ (x : Held). record x { regions = q.handle ∷ (r.handle ∷ x.regions) }) f.held_is
      ∙ ap
          (λ (o : Option Region). record (owned m.prot) {
            regions =
                q.handle
                ∷ (r.handle ∷ (handles (mr_handle o) ++ handles (mr_handle m.prot.r_mr_hndl)));
          })
          f.s_mr_is
      ∙ ap
          (λ (o : Option Region). record (owned m.prot) {
            regions = q.handle ∷ (r.handle ∷ handles (mr_handle o));
          })
          f.r_mr_is

  -- Once the receive buffer has its region.
  send-Registers :
      (pd recv_len send_len : ℕ) (m : Machine Ibv W) (f : Fresh m) (r : Region) (w₁ : W)
      → verbs.reg_mr pd m.args.r_buff recv_len true m.sys ≡ (some r, w₁)
      → l.held w₁ ≡ record (l.held m.sys) { regions = r.handle ∷ (l.held m.sys).regions }
      → Registers pd recv_len send_len m
          (register_send pd m.args.s_buff send_len (registered m (some r) m.prot.s_mr_hndl w₁))
  send-Registers pd recv_len send_len m f r w₁ given h₁ =
      go (answer.0) (answer.1) refl (l.reg_law pd m.args.s_buff send_len false w₁)
    where
      answer : Option Region × W
      answer = verbs.reg_mr pd m.args.s_buff send_len false w₁

      go :
          (o : Option Region) (w₂ : W)
          → answer ≡ (o, w₂)
          → Created
              (mr_handle o)
              (λ h. record (l.held w₁) { regions = h ∷ (l.held w₁).regions })
              (l.held w₁)
              (l.held w₂)
          → Registers pd recv_len send_len m
              (when (not (is_some o)) (exit (negsuc 0)) (registered m (some r) o w₂))
      go none w₂ e h₂ = no_send_region r w₁ w₂ given e
      go (some q) w₂ e h₂ = both_given r q w₁ w₂ given e (record {
        r_region = r;
        s_region = q;
        r_mr_is = refl;
        s_mr_is = refl;
        held_is = held_both m r q w₁ w₂ f h₁ h₂;
      })

  pub register-Registers :
      (pd recv_len send_len : ℕ) (m : Machine Ibv W)
      → m.prot.pd_hndl ≡ some pd
      → Fresh m
      → Registers pd recv_len send_len m (register recv_len send_len m)
  register-Registers pd recv_len send_len m pd_is f =
      subst
        (λ (o : Option ℕ).
          Registers pd recv_len send_len m
            (and_then (defined o m) (register_both m.args.r_buff m.args.s_buff recv_len send_len)))
        (sym pd_is) (go (answer.0) (answer.1) refl (l.reg_law pd m.args.r_buff recv_len true m.sys))
    where
      answer : Option Region × W
      answer = verbs.reg_mr pd m.args.r_buff recv_len true m.sys

      go :
          (o : Option Region) (w₁ : W)
          → answer ≡ (o, w₁)
          → Created
              (mr_handle o)
              (λ h. record (l.held m.sys) { regions = h ∷ (l.held m.sys).regions })
              (l.held m.sys)
              (l.held w₁)
          → Registers pd recv_len send_len m (
              and_then
                (when (not (is_some o)) (exit (negsuc 0)) (registered m o m.prot.s_mr_hndl w₁))
                (λ _. register_send pd m.args.s_buff send_len))
      go none w₁ given h₁ = no_recv_region w₁ given
      go (some r) w₁ given h₁ = send-Registers pd recv_len send_len m f r w₁ given h₁
