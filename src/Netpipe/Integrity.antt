-- ===== src/Netpipe/Integrity.antt =====
-- src/netpipe.c: SetIntegrityData and VerifyIntegrity.
pub mod Round
use netpipe5_dev.Base.{ℕ, zero, suc, ◌+◌, ◌*◌, ◌/◌, negsuc, Bool, true, false, not, ◌==◌}
use netpipe5_dev.Effect.{M, ◌>>=◌, ◌>>◌, pure, gets, exit, skip, when}
use netpipe5_dev.Memory.{Ptr, advance}
use netpipe5_dev.Machine.{Machine, le32, of_le32, put_bytes, load_bytes}

module _ {P W : Type 0} where
  -- `for (i = 0; i < num_segments; i++) *((int*)p->s_ptr + i) = i;`
  pub set_segments : ℕ → Ptr → ℕ → M (Machine P W) (Unit {0})
  set_segments zero p i = skip
  set_segments (suc left) p i = do
    put_bytes (advance p (4 * i)) (le32 i)
    set_segments left p (i + 1)

  unfoldable pub set_integrity_data : M (Machine P W) (Unit {0})
  unfolding set_segments
  set_integrity_data = do p ← gets (λ m. m.args); set_segments (p.bufflen / 4) (p.s_ptr) 0

  -- Whether each segment holds its index; the loop stops at the first that does not.
  pub verify_segments : ℕ → Ptr → ℕ → M (Machine P W) Bool
  verify_segments zero p i = pure true
  verify_segments (suc left) p i = do
    bytes ← load_bytes (advance p (4 * i)) 4
    elim (of_le32 bytes == i) [ true ↦ verify_segments left p (i + 1) | false ↦ pure false ]

  unfoldable pub verify_integrity : M (Machine P W) (Unit {0})
  unfolding verify_segments
  verify_integrity = do
    p ← gets (λ m. m.args)
    verified ← verify_segments (p.bufflen / 4) (p.r_ptr) 0
    when (not verified) (exit (negsuc 0))
