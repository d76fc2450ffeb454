-- ===== src/Netpipe/Pointers.antt =====
-- src/netpipe.c: AlignBuffer, and the pointers that move through the buffers.
use netpipe5_dev.Base.{
  ℕ, ◌+◌, ◌-◌, ◌%◌, ◌≤◌, ◌<◌, ◌≡◌, ◌⊎◌, refl, sym, ◌∙◌, ap, ap₂, inl, inr, Bool-cases, ltb→lt,
  arith, ltb, Bool, true, false, ◌==◌, if◌then◌else◌, Option, none, some,
}
use native.Mathlib.Nat.{mod-lt, mod-add-mod, mod_self}
use netpipe5_dev.Effect.{M, ◌>>=◌, gets, defined, done, Outcome}
use netpipe5_dev.Memory.{Ptr, null, at, advance}
use netpipe5_dev.Machine.{Machine, set_args}

-- MEMSIZE
abbrev pub memsize : ℕ
memsize = 10000000

-- The address of the aligned buffer.
unfoldable pub align_buffer : ℕ → ℕ → ℕ
align_buffer buff boundary = if boundary == 0 then buff else buff + (boundary - buff % boundary)

-- `p + blocksize < base + MEMSIZE - blocksize`, where both point into one buffer. The difference is
-- moved to the left side, since `-` stops at 0.
unfoldable pub has_room : Ptr → Ptr → ℕ → Option Bool
has_room null base blocksize = none
has_room (at b off) null blocksize = none
has_room (at b off) (at c start) blocksize =
    if b == c then some (ltb (off + blocksize + blocksize) (start + memsize)) else none

module _ {P W : Type 0} where
  unfoldable pub advance_send_ptr : ℕ → M (Machine P W) (Unit {0})
  unfolding has_room
  advance_send_ptr blocksize = do
    p ← gets (λ m. m.args)
    room ← defined (has_room p.s_ptr p.s_buff blocksize)
    set_args (λ p. record p { s_ptr = if room then advance p.s_ptr blocksize else p.s_buff })

  unfoldable pub advance_recv_ptr : ℕ → M (Machine P W) (Unit {0})
  unfolding has_room
  advance_recv_ptr blocksize = do
    p ← gets (λ m. m.args)
    room ← defined (has_room p.r_ptr p.r_buff blocksize)
    set_args (λ p. record p { r_ptr = if room then advance p.r_ptr blocksize else p.r_buff })

  unfoldable pub save_recv_ptr : M (Machine P W) (Unit {0})
  save_recv_ptr = set_args (λ p. record p { r_ptr_saved = p.r_ptr })

  unfoldable pub reset_recv_ptr : M (Machine P W) (Unit {0})
  reset_recv_ptr = set_args (λ p. record p { r_ptr = p.r_ptr_saved })

-- AlignBuffer with a positive boundary gives a multiple of it, above the address given and at most
-- one boundary above it.
pub align_buffer_lem :
    (buff boundary : ℕ)
    → 0 < boundary
    → (align_buffer buff boundary % boundary ≡ 0)
      × (buff < align_buffer buff boundary)
      × (align_buffer buff boundary ≤ buff + boundary)
unfolding align_buffer
align_buffer_lem buff boundary h =
    let gap : ℕ = boundary - buff % boundary in
    let full : buff % boundary + gap ≡ boundary = omega (arith, mod-lt buff h) in
    let multiple : (buff + gap) % boundary ≡ 0 =
      sym (mod-add-mod buff boundary gap) ∙ ap (λ t. t % boundary) full ∙ mod_self boundary in
    (ground (arith, multiple), ground (arith, mod-lt buff h), ground arith)

-- The block of `blocksize` bytes at `p` ends inside the MEMSIZE bytes of the buffer at `base`.
pub record Inside (blocksize : ℕ) (base p : Ptr) : Type 0 where
  pub block : ℕ
  pub start : ℕ
  pub off : ℕ
  pub base_at : base ≡ at block start
  pub ptr_at : p ≡ at block off
  pub after : start ≤ off
  pub fits : off + blocksize ≤ start + memsize

module _ {P W : Type 0} where
  -- AdvanceSendPtr by a block of at most MEMSIZE bytes, when the send pointer has a whole block
  -- before the end of the MEMSIZE bytes of the send buffer: the pointer goes up by the block or
  -- back to the start, and has a whole block before the end again.
  pub advance_send_ptr-Inside :
      (blocksize : ℕ) (m : Machine P W)
      → blocksize ≤ memsize
      → Inside blocksize m.args.s_buff m.args.s_ptr
      → (p : Ptr) × (advance_send_ptr blocksize m
          ≡ done tt (record m { args = record (m.args) { s_ptr = p } }))
        × Inside blocksize m.args.s_buff p
        × ((p ≡ advance m.args.s_ptr blocksize) ⊎ (p ≡ m.args.s_buff))
  unfolding advance_send_ptr
  advance_send_ptr-Inside blocksize m h v = elim (Bool-cases test) [
    | inl e ↦ (
      advance (m.args.s_ptr) blocksize,
      taken (advance (m.args.s_ptr) blocksize) true e refl,
      record {
        block = v.block;
        start = v.start;
        off = v.off + blocksize;
        base_at = v.base_at;
        ptr_at = ap (λ p. advance p blocksize) v.ptr_at;
        after = omega (arith, v.after);
        fits = omega (arith, ltb→lt (v.off + blocksize + blocksize) (v.start + memsize) e);
      },
      inl refl,
    )
    | inr e ↦ (
      m.args.s_buff,
      taken (m.args.s_buff) false e refl,
      record {
        block = v.block;
        start = v.start;
        off = v.start;
        base_at = v.base_at;
        ptr_at = v.base_at;
        after = omega arith;
        fits = omega (arith, h);
      },
      inr refl,
    )
  ]
    where
      test : Bool
      test = ltb (v.off + blocksize + blocksize) (v.start + memsize)

      same_block : (x : Bool) → (if v.block == v.block then some x else none) ≡ some x
      same_block x = ground arith

      room : has_room m.args.s_ptr m.args.s_buff blocksize ≡ some test
      room = ap₂ (λ p q. has_room p q blocksize) v.ptr_at v.base_at ∙ same_block test

      set : Option Bool → Machine P W → Outcome (Machine P W) (Unit {0})
      set o = do
        room ← defined o
        set_args (λ p. record p { s_ptr = if room then advance p.s_ptr blocksize else p.s_buff })

      taken :
          (p : Ptr) (t : Bool)
          → test ≡ t
          → (if t then advance m.args.s_ptr blocksize else m.args.s_buff) ≡ p
          → advance_send_ptr blocksize m
            ≡ done tt (record m { args = record (m.args) { s_ptr = p } })
      taken p t e is_p =
          ap (λ r. set r m) (room ∙ ap (λ t. some t) e)
          ∙ ap (λ p. done tt (record m { args = record (m.args) { s_ptr = p } })) is_p
