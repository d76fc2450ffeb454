-- ===== src/Effect/Rules.antt =====
-- Total correctness of C code: the call returns, and its value and state satisfy a postcondition.
use netpipe5_dev.Base.{◌≡◌, refl}
use netpipe5_dev.Effect.{Outcome, done, and_then}

module _ {ℓ} {S : Type 0} {A : Type ℓ} where
  -- `Returns Q r`: the run `r` came back with a value and a state in `Q`.
  pub data Returns (Q : A → S → Type 0) : Outcome S A → Type ℓ where
    returns : (a : A) (s : S) → Q a s → Returns Q (done a s)

  pub Returns-inv :
      {Q : A → S → Type 0} {r : Outcome S A}
      → Returns Q r
      → (a : A) × (s : S) × (r ≡ done a s) × Q a s
  Returns-inv (returns a s q) = (a, s, refl, q)

  pub Returns-mono :
      {P Q : A → S → Type 0} {r : Outcome S A}
      → Returns P r
      → ((a : A) (s : S) → P a s → Q a s)
      → Returns Q r
  Returns-mono (returns a s p) f = returns a s (f a s p)

module _ {ℓ κ} {S : Type 0} {A : Type ℓ} {B : Type κ} where
  -- The rule for one step of a `do` block.
  pub Returns-bind :
      {P : A → S → Type 0} {Q : B → S → Type 0} {r : Outcome S A} {f : A → S → Outcome S B}
      → Returns P r
      → ((a : A) (s : S) → P a s → Returns Q (f a s))
      → Returns Q (and_then r f)
  Returns-bind (returns a s p) k = k a s p
