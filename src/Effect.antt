-- ===== src/Effect.antt =====
-- C code as a state monad: a call returns, ends the process by `exit`, or is undefined.
pub mod Rules
use netpipe5_dev.Base.{ℕ, zero, suc, ℤ, Bool, true, false, Option, none, some}

-- The outcome of running C code from one state.
pub data Outcome {ℓ} (S : Type 0) (A : Type ℓ) : Type ℓ where
  -- the call returns a value
  done : A → S → Outcome S A
  -- `exit(code)`
  exited : ℤ → S → Outcome S A
  -- undefined behaviour: a null or freed pointer, an access out of bounds
  fault : Outcome S A
  -- a wait that does not end within the rounds given
  hung : Outcome S A

abbrev pub M {ℓ} : Type 0 → Type ℓ → Type ℓ
M S A = S → Outcome S A

abbrev pub and_then {ℓ κ} :
    {S : Type 0} {A : Type ℓ} {B : Type κ} → Outcome S A → (A → S → Outcome S B) → Outcome S B
and_then (done a s) f = f a s
and_then (exited c s) f = exited c s
and_then fault f = fault
and_then hung f = hung

infixl 5 ◌>>=◌ ◌>>◌
abbrev pub ◌>>=◌ {ℓ κ} : {S : Type 0} {A : Type ℓ} {B : Type κ} → M S A → (A → M S B) → M S B
◌>>=◌ m f s = and_then (m s) f

abbrev pub ◌>>◌ {κ} : {S : Type 0} {B : Type κ} → M S (Unit {0}) → M S B → M S B
◌>>◌ m k s = and_then (m s) (λ _. k)

abbrev pub pure {ℓ} : {S : Type 0} {A : Type ℓ} → A → M S A
pure a s = done a s

abbrev pub gets {ℓ} : {S : Type 0} {A : Type ℓ} → (S → A) → M S A
gets f s = done (f s) s

abbrev pub modify : {S : Type 0} → (S → S) → M S (Unit {0})
modify f s = done tt (f s)

abbrev pub exit {ℓ} : {S : Type 0} {A : Type ℓ} → ℤ → M S A
exit c s = exited c s

abbrev pub skip : {S : Type 0} → M S (Unit {0})
skip s = done tt s

-- A wait that has used up its rounds.
abbrev pub hang {ℓ} : {S : Type 0} {A : Type ℓ} → M S A
hang s = hung

-- An operation that is undefined on some states.
abbrev pub defined {ℓ} : {S : Type 0} {A : Type ℓ} → Option A → M S A
defined none s = fault
defined (some a) s = done a s

-- `if (b) m;`
abbrev pub when : {S : Type 0} → Bool → M S (Unit {0}) → M S (Unit {0})
when true m = m
when false m = skip

-- The truth value of a C `int`.
abbrev pub truth : ℕ → Bool
truth zero = false
truth (suc n) = true
