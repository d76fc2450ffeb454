-- ===== src/Tcp/Quiet.antt =====
-- readFully moves only the system, and nothing of it that reading leaves alone.
use netpipe5_dev.Base.{
  arith, ℕ, zero, suc, ◌-◌, ◌<◌, ◌≡◌, ◌∙◌, ℤ, Option, none, some, List, [], ◌∷◌, ◌++◌, length,
}
use netpipe5_dev.Effect.{M, Outcome, done, exited, and_then, pure}
use netpipe5_dev.Machine.{Machine}
use netpipe5_dev.Sockets.{Sockets}
use netpipe5_dev.Tcp.{read_loop, read_fully, full_result}

-- A run that returns has moved only the system, and `held` is as it was.
pub data Quiet {P W H A : Type 0} (held : W → H) (m : Machine P W)
    : Outcome (Machine P W) A → Type 0 where
  returns : (a : A) (w : W) → held w ≡ held m.sys → Quiet held m (done a (record m { sys = w }))
  ends : (c : ℤ) (m' : Machine P W) → Quiet held m (exited c m')

module _ {P W H : Type 0} (net : Sockets W) (held : W → H)
    (read_quiet : (fd : ℤ) (n : ℕ) (w : W) → held (net.read fd n w).1 ≡ held w) where
  read_loop-Quiet :
      (fuel : ℕ) (fd : ℤ) (n : ℕ) (last : Option ℕ) (got : List ℕ) (m : Machine P W) (w : W)
      → n < fuel
      → held w ≡ held m.sys
      → Quiet held m (read_loop net fuel fd n last got (record m { sys = w }))
  unfolding read_loop
  read_loop-Quiet zero fd n last got m w lt e = absurd (omega arith)
  read_loop-Quiet (suc fuel) fd zero last got m w lt e = returns (last, got) w e
  read_loop-Quiet (suc fuel) fd (suc n) last got m w lt e =
      go
        (λ b bs w e.
          read_loop-Quiet fuel fd (suc n - length (b ∷ bs)) (some (length (b ∷ bs)))
            (got ++ (b ∷ bs)) m w (omega arith) e)
        (net.read fd (suc n) w).0 (net.read fd (suc n) w).1 (read_quiet fd (suc n) w ∙ e)
    where
      again : ℕ → List ℕ → M (Machine P W) (Option ℕ × List ℕ)
      again b bs =
          read_loop net fuel fd (suc n - length (b ∷ bs)) (some (length (b ∷ bs))) (got ++ (b ∷ bs))

      run : Option (List ℕ) → M (Machine P W) (Option ℕ × List ℕ)
      run r = elim r [
        | none ↦ pure (none, got)
        | some [] ↦ pure (some 0, got)
        | some (b ∷ bs) ↦ again b bs
      ]

      go :
          ((b : ℕ) (bs : List ℕ) (w : W)
            → held w ≡ held m.sys
            → Quiet held m (again b bs (record m { sys = w })))
          → (r : Option (List ℕ)) (w : W) → held w ≡ held m.sys
          → Quiet held m (run r (record m { sys = w }))
      go step none w e = returns (none, got) w e
      go step (some []) w e = returns (some 0, got) w e
      go step (some (b ∷ bs)) w e = step b bs w e

  pub read_fully-Quiet :
      (fd : ℤ) (n : ℕ) (m : Machine P W) (w : W)
      → held w ≡ held m.sys
      → Quiet held m (read_fully net fd n (record m { sys = w }))
  unfolding read_fully
  read_fully-Quiet fd n m w e = go _ (read_loop-Quiet (suc n) fd n (some 0) [] m w (omega arith) e)
    where
      go :
          (r : Outcome (Machine P W) (Option ℕ × List ℕ))
          → Quiet held m r
          → Quiet held m (and_then r (λ a. pure (full_result n a)))
      go _ (returns a w e) = returns (full_result n a) w e
      go _ (ends c m') = ends c m'
