-- ===== src/Tests/Patterns.antt =====
-- The registers, the patterns, the buffers and their pointers at concrete values.
use netpipe5_dev.Base.{
  ℕ, ◌+◌, ◌%◌, ◌^◌, ◌≤◌, ◌<◌, ◌≡◌, ◌≢◌, ◌⊎◌, ◌↔◌, refl, arith, negsuc, List, [], ◌∷◌, some, take,
}
use netpipe5_dev.Effect.{done, exited, ◌>>◌}
use netpipe5_dev.Memory.{Ptr, at}
use netpipe5_dev.Memory.Laws.{stored}
use netpipe5_dev.Machine.{Machine}
use netpipe5_dev.Lfsr.{lfsr23, lfsr58}
use netpipe5_dev.Lfsr.Laws.{iterate, iterate-lfsr23_range, iterate-lfsr23_apart, lfsr58_dies}
use netpipe5_dev.Pattern.{lfsrset, lfsrcheck}
use netpipe5_dev.Pattern.Words.{pattern_of}
use netpipe5_dev.Pattern.Fill.{wrote, lfsrset_lem}
use netpipe5_dev.Pattern.Clean.{IsBytes, lfsrcheck_finds}
use netpipe5_dev.Tcp.{Tcp}
use netpipe5_dev.Netpipe.Object.{zero_args}
use netpipe5_dev.Netpipe.Pointers.{
  align_buffer, align_buffer_lem, advance_send_ptr, Inside, advance_send_ptr-Inside,
}
use netpipe5_dev.Netpipe.Integrity.{set_integrity_data, verify_integrity}
use netpipe5_dev.Netpipe.Integrity.Round.{counted, verify_integrity_lem, verify-set_integrity}
use netpipe5_dev.Tests.World.{World, machine, small_heap}

abbrev nine : List ℕ
nine = 0 ∷ 0 ∷ 0 ∷ 0 ∷ 1 ∷ 0 ∷ 0 ∷ 0 ∷ 9 ∷ []

nine-IsBytes : IsBytes nine
nine-IsBytes = (
  omega arith,
  (
    omega arith,
    (
      omega arith,
      (omega arith, (omega arith, (omega arith, (omega arith, (omega arith, (omega arith, tt)))))),
    ),
  ),
)

-- A block of nine bytes as both buffers.
abbrev filled : Machine Tcp World
filled =
    record (machine
      (record zero_args { bufflen = 8; s_buff = at 0 0; s_ptr = at 0 0; r_ptr = at 0 0 }) []) {
        heap = record small_heap { next = 1; block = λ _. some nine };
      }

iterate-lfsr23_range_example : (0 < iterate lfsr23 5 97) × (iterate lfsr23 5 97 < 2 ^ 23)
iterate-lfsr23_range_example = iterate-lfsr23_range 5 97 (omega arith) (omega arith)

iterate-lfsr23_apart_example : iterate lfsr23 5 97 ≢ iterate lfsr23 5 98
iterate-lfsr23_apart_example =
    iterate-lfsr23_apart 5 97 98 (omega arith) (omega arith) (omega arith) (omega arith)
      (λ e. absurd (omega (arith, e)))

lfsr58_dies_example : iterate lfsr58 7 98 ≡ 0
lfsr58_dies_example = lfsr58_dies 7 98 (omega arith) (omega arith)

lfsrset_example :
    lfsrset (at 0 0) 98 6 filled
    ≡ done tt (wrote filled 0 0 (pattern_of 98 6) nine (iterate lfsr23 2 98))
lfsrset_example = lfsrset_lem 0 98 6 nine filled refl (omega arith) (omega arith)

lfsrcheck_example :
    (m' : Machine Tcp World) × (lfsrcheck (at 0 0) 98 6 filled ≡ done tt m')
    × (m'.heap ≡ filled.heap)
    × ((m'.printed ≡ []) ↔ (take 6 nine ≡ pattern_of 98 6))
lfsrcheck_example =
    lfsrcheck_finds 0 98 6 nine filled (omega arith) (omega arith) nine-IsBytes refl (omega arith)
      (omega arith)

align_buffer_example :
    (align_buffer 1000 64 % 64 ≡ 0)
    × (1000 < align_buffer 1000 64)
    × (align_buffer 1000 64 ≤ 1000 + 64)
align_buffer_example = align_buffer_lem 1000 64 (omega arith)

filled-Inside : Inside 8 (at 0 0) (at 0 0)
filled-Inside = record {
  block = 0;
  start = 0;
  off = 0;
  base_at = refl;
  ptr_at = refl;
  after = omega arith;
  fits = omega arith;
}

advance_send_ptr_example :
    (p : Ptr) × (advance_send_ptr 8 filled
      ≡ done tt (record filled { args = record (filled.args) { s_ptr = p } }))
    × Inside 8 (at 0 0) p
    × ((p ≡ at 0 8) ⊎ (p ≡ at 0 0))
advance_send_ptr_example = advance_send_ptr-Inside 8 filled (omega arith) filled-Inside

verify_integrity_example :
    ((verify_integrity filled ≡ done tt filled) × (take 8 nine ≡ counted 2 0))
    ⊎ ((verify_integrity filled ≡ exited (negsuc 0) filled) × (take 8 nine ≢ counted 2 0))
verify_integrity_example =
    verify_integrity_lem 0 nine filled refl refl nine-IsBytes (omega arith) (omega arith)

verify-set_integrity_example :
    (set_integrity_data >> verify_integrity) filled
    ≡ done tt (record filled { heap = stored filled.heap 0 0 (counted 2 0) nine })
verify-set_integrity_example =
    verify-set_integrity 0 nine filled refl refl refl nine-IsBytes (omega arith) (omega arith)
