-- ===== src/Shmem/Crossed.antt =====
-- The buffers of the two SHMEM processes.
use netpipe5_dev.Base.{ℕ, ◌+◌, ◌≡◌, refl}
use netpipe5_dev.Effect.{done}
use netpipe5_dev.Memory.{Ptr, at, Heap}
use netpipe5_dev.Machine.{Machine}
use netpipe5_dev.Netpipe.Buffers.{max}
use netpipe5_dev.Shmem.{ShmemLibrary, Shmem, shmem_my_malloc}

module _ {W : Type 0} (lib : ShmemLibrary W) (bufflen soffset roffset : ℕ) where
  -- The two allocations of MyMalloc give these pointers, which are not NULL.
  pub record Gives (m : Machine Shmem W) (b i c j : ℕ) : Type 0 where
    pub heap₁ : Heap
    pub sys₁ : W
    pub heap₂ : Heap
    pub sys₂ : W
    pub first_is :
        lib.shmalloc (bufflen + max soffset roffset) m.heap m.sys ≡ ((at b i, heap₁), sys₁)
    pub second_is : lib.shmalloc (bufflen + soffset) heap₁ sys₁ ≡ ((at c j, heap₂), sys₂)

  -- The machine with both buffers.
  abbrev pub with_buffers : Machine Shmem W → Ptr → Ptr → Heap → W → Machine Shmem W
  with_buffers m r s h w = record m {
    args = record (m.args) { r_buff = r; s_buff = s };
    heap = h;
    sys = w;
  }

  abbrev pub Transmits : Machine Shmem W → ℕ → Type 0
  Transmits m tr = (m.args.cache ≡ 0) × (m.args.tr ≡ tr)

  my_malloc_transmitter :
      (m : Machine Shmem W) (b i c j : ℕ) (g : Gives m b i c j)
      → Transmits m 1
      → shmem_my_malloc lib bufflen soffset roffset m
        ≡ done tt (with_buffers m (at b i) (at c j) (g.heap₂) (g.sys₂))
  unfolding shmem_my_malloc
  my_malloc_transmitter m b i c j g (cache, tr) = rw (g.first_is, cache, g.second_is, tr) refl

  my_malloc_receiver :
      (m : Machine Shmem W) (b i c j : ℕ) (g : Gives m b i c j)
      → Transmits m 0
      → shmem_my_malloc lib bufflen soffset roffset m
        ≡ done tt (with_buffers m (at c j) (at b i) (g.heap₂) (g.sys₂))
  unfolding shmem_my_malloc
  my_malloc_receiver m b i c j g (cache, tr) = rw (g.first_is, cache, g.second_is, tr) refl

  -- MyMalloc of src/shmem.c on a transmitter and on a receiver without a cache, when shmalloc gives
  -- both the same two pointers, none of them NULL: both return, the send buffer of each is at the
  -- address of the other's receive buffer, and the transmitter's receive buffer is the first.
  pub shmem_my_malloc-crossed :
      (t r : Machine Shmem W) (b i c j : ℕ)
      → Gives t b i c j
      → Gives r b i c j
      → Transmits t 1
      → Transmits r 0
      → (t' r' : Machine Shmem W) × (shmem_my_malloc lib bufflen soffset roffset t ≡ done tt t')
        × (shmem_my_malloc lib bufflen soffset roffset r ≡ done tt r')
        × (t'.args.s_buff ≡ r'.args.r_buff)
        × (r'.args.s_buff ≡ t'.args.r_buff)
        × (t'.args.s_buff ≡ at c j)
        × (t'.args.r_buff ≡ at b i)
  shmem_my_malloc-crossed t r b i c j g k ts rs = (
    with_buffers t (at b i) (at c j) (g.heap₂) (g.sys₂),
    with_buffers r (at c j) (at b i) (k.heap₂) (k.sys₂),
    my_malloc_transmitter t b i c j g ts,
    my_malloc_receiver r b i c j k rs,
    refl,
    refl,
    refl,
    refl,
  )
