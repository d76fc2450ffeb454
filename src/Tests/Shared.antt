-- ===== src/Tests/Shared.antt =====
-- The theorems on src/shmem.c and src/mpi_atoa.c at concrete processes.
use netpipe5_dev.Base.{
  arith, ℕ, zero, suc, ◌≡◌, refl, Option, some, none, List, [], ◌∷◌, ◌++◌, repeated,
}
use netpipe5_dev.Effect.{done}
use netpipe5_dev.Memory.{null, at}
use netpipe5_dev.Machine.{Machine}
use netpipe5_dev.Netpipe.Object.{zero_args}
use netpipe5_dev.Shmem.{ShmemLibrary, Shmem, shmem_my_malloc}
use netpipe5_dev.Shmem.Crossed.{Gives, shmem_my_malloc-crossed}
use netpipe5_dev.Atoa.{Atoa, atoa_init_buffer_data}
use netpipe5_dev.Atoa.Marks.{marked, Holds, atoa_init_buffer_data_lem}
use netpipe5_dev.Tests.World.{small_heap}

-- The library names the blocks of the symmetric heap in order.
abbrev small_shmem : ShmemLibrary ℕ
small_shmem = record {
  start_pes = λ n w. (tt, w);
  n_pes = λ w. (2, w);
  my_pe = λ w. (0, w);
  barrier_all = λ w. (tt, w);
  shmalloc = λ n h w. ((at w 0, h), suc w);
  shfree = λ p h w. (h, w);
  put64 = λ bytes p n w. (tt, w);
  putmem = λ bytes p n w. (tt, w);
  double_put = λ bytes p n w. (tt, w);
  int_put = λ bytes p n w. (tt, w);
  dma = λ h w. (h, w);
}

abbrev shmem_process : ℕ → Machine Shmem ℕ
shmem_process tr = record {
  args = record zero_args { tr = tr };
  async_receive = 0;
  bufalign = 0;
  streamopt = 0;
  lfsr_data = 0;
  heap = small_heap;
  printed = [];
  prot = record { nbor = tr; ipe = 0; flag = null; p_time = null; p_nrepeat = null };
  sys = 4;
}

shmem_process-Gives : (tr : ℕ) → Gives small_shmem 16 0 0 (shmem_process tr) 4 0 5 0
shmem_process-Gives tr = record {
  heap₁ = small_heap;
  sys₁ = 5;
  heap₂ = small_heap;
  sys₂ = 6;
  first_is = refl;
  second_is = refl;
}

shmem_my_malloc-crossed_example :
    (t' r' : Machine Shmem ℕ) × (shmem_my_malloc small_shmem 16 0 0 (shmem_process 1) ≡ done tt t')
    × (shmem_my_malloc small_shmem 16 0 0 (shmem_process 0) ≡ done tt r')
    × (t'.args.s_buff ≡ r'.args.r_buff)
    × (r'.args.s_buff ≡ t'.args.r_buff)
    × (t'.args.s_buff ≡ at 5 0)
    × (t'.args.r_buff ≡ at 4 0)
shmem_my_malloc-crossed_example =
    shmem_my_malloc-crossed small_shmem 16 0 0 (shmem_process 1) (shmem_process 0) 4 0 5 0
      (shmem_process-Gives 1) (shmem_process-Gives 0) (refl, refl) (refl, refl)

abbrev one_block : ℕ → Option (List ℕ)
one_block zero = some (1 ∷ 2 ∷ 3 ∷ 4 ∷ 5 ∷ 6 ∷ 7 ∷ [])
one_block (suc b) = none

-- The transmitter of three processes, with a buffer of seven bytes.
abbrev atoa_process : Machine Atoa ℕ
atoa_process = record {
  args = record zero_args { tr = 1; cache = 1; r_buff = at 0 0 };
  async_receive = 0;
  bufalign = 0;
  streamopt = 0;
  lfsr_data = 0;
  heap = record { next = 1; avail = 64; junk = λ _. 0; block = one_block };
  printed = [];
  prot = record { iproc = 0; nprocs = 3 };
  sys = 0;
}

atoa_init_buffer_data_example :
    Holds 0
      (repeated 3 (marked 1) ++ 7 ∷ [])
      atoa_process
      (atoa_init_buffer_data 2 0 0 atoa_process)
atoa_init_buffer_data_example =
    atoa_init_buffer_data_lem 1 0 0 0 (1 ∷ 2 ∷ 3 ∷ 4 ∷ 5 ∷ 6 ∷ 7 ∷ []) atoa_process refl refl
      (omega arith) refl refl refl
