-- ===== src/Mpi/Roles.antt =====
-- src/mpi.c: the roles that Setup gives.
use netpipe5_dev.Base.{ℕ, ◌-◌, ◌≤◌, ◌≡◌, refl, arith, pos, ltb, ◌==◌, true, false}
use netpipe5_dev.Effect.{done}
use netpipe5_dev.Machine.{Machine}
use netpipe5_dev.Mpi.{MpiLibrary, Mpi, mpi_setup}

-- The machine after Setup, in the role given by `tr` and `rcv` with the neighbour `nbor`.
abbrev pub with_role : {W : Type 0} → Machine Mpi W → W → ℕ → ℕ → ℕ → ℕ → Machine Mpi W
with_role m w rank tr rcv nbor = record m {
  args = record (m.args) { tr = tr; rcv = rcv; source_node = pos nbor };
  prot = record (m.prot) { iproc = rank; nbor = pos nbor };
  sys = w;
}

module _ {W : Type 0} (lib : MpiLibrary W) where
  -- In a world of n processes, two or more, where no source is asked for, the Setup of the MPI
  -- module makes the process of rank 0 the transmitter and that of rank n - 1 the receiver, each
  -- the neighbour and the source of the other.
  pub mpi_setup_pairs :
      (n : ℕ) (m₀ m₁ : Machine Mpi W) (v₀ w₀ v₁ w₁ : W)
      → 2 ≤ n
      → m₀.args.source_node ≡ pos 0
      → m₁.args.source_node ≡ pos 0
      → lib.comm_rank m₀.sys ≡ (0, v₀)
      → lib.comm_size v₀ ≡ (n, w₀)
      → lib.comm_rank m₁.sys ≡ (n - 1, v₁)
      → lib.comm_size v₁ ≡ (n, w₁)
      → (mpi_setup lib m₀ ≡ done tt (with_role m₀ w₀ 0 1 0 (n - 1)))
        × (mpi_setup lib m₁ ≡ done tt (with_role m₁ w₁ (n - 1) 0 1 0))
  unfolding mpi_setup
  mpi_setup_pairs n m₀ m₁ v₀ w₀ v₁ w₁ two s₀ s₁ r₀ c₀ r₁ c₁ = (
    rw (r₀, c₀) (rw (enough n two, s₀) refl),
    rw (r₁, c₁) (rw (enough n two, not_first n two, is_last n, s₁) refl),
  )
    where
      enough : (n : ℕ) → 2 ≤ n → ltb n 2 ≡ false
      enough n h = ground arith

      not_first : (n : ℕ) → 2 ≤ n → (n - 1 == 0) ≡ false
      not_first n h = ground arith

      is_last : (n : ℕ) → (n - 1 == n - 1) ≡ true
      is_last n = ground arith
