-- ===== src/Ibv/Device/Acquire.antt =====
-- Rules for the steps of initIB.
use netpipe5_dev.Base.{◌≡◌, sym, subst, ℤ, pos, negsuc, Bool, true, false, Option, some}
use netpipe5_dev.Effect.{M, Outcome, done, exited, and_then, pure, defined}
use netpipe5_dev.Machine.{Machine}
use netpipe5_dev.Ibv.{Ibv}
use netpipe5_dev.Ibv.Device.{or_fail}

-- A step goes on in `A`, or fails in `B`, or ends the process.
pub data Progress {W : Type 0} (A B : Machine Ibv W → Type 0)
    : Outcome (Machine Ibv W) Bool → Type 0 where
  went : (m : Machine Ibv W) → A m → Progress A B (done true m)
  failed_in : (m : Machine Ibv W) → B m → Progress A B (done false m)
  left : (c : ℤ) (m : Machine Ibv W) → Progress A B (exited c m)

-- A run of initIB returns 0 or -1 in `B`, or ends the process: it meets no undefined behaviour and
-- no endless wait.
pub data Ends {W : Type 0} (B : Machine Ibv W → Type 0) : Outcome (Machine Ibv W) ℤ → Type 0 where
  succeeds : (m : Machine Ibv W) → B m → Ends B (done (pos 0) m)
  fails : (m : Machine Ibv W) → B m → Ends B (done (negsuc 0) m)
  exits : (c : ℤ) (m : Machine Ibv W) → Ends B (exited c m)

module _ {W : Type 0} {A B C : Machine Ibv W → Type 0} {step : M (Machine Ibv W) Bool}
    {rest : M (Machine Ibv W) ℤ} where
  pub or_fail-Ends :
      ((m : Machine Ibv W) → A m → Progress C B (step m))
      → ((m : Machine Ibv W) → C m → Ends B (rest m))
      → (m : Machine Ibv W) → A m
      → Ends B (or_fail step rest m)
  or_fail-Ends this next m a = go (step m) (this m a)
    where
      go :
          (r : Outcome (Machine Ibv W) Bool)
          → Progress C B r
          → Ends B (and_then r (λ ok. elim ok [ true ↦ rest | false ↦ pure (negsuc 0) ]))
      go _ (went m c) = next m c
      go _ (failed_in m b) = fails m b
      go _ (left c m) = exits c m

module _ {W : Type 0} {A B : Machine Ibv W → Type 0} where
  -- A handle that is there.
  pub Progress-defined :
      {H : Type 0} (o : Option H) (h : H) (k : H → M (Machine Ibv W) Bool) (m : Machine Ibv W)
      → o ≡ some h
      → Progress A B (k h m)
      → Progress A B (and_then (defined o m) k)
  Progress-defined o h k m e p = subst (λ o. Progress A B (and_then (defined o m) k)) (sym e) p
