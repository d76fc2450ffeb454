-- ===== src/Copy.antt =====
-- src/MP_memcpy.c: memcpy_8, memcpy_16 and MP_memcpy, for COPY_TYPE CBCOPY; and src/memcpy.c, the
-- module that copies between the two buffers.
pub mod Whole
use netpipe5_dev.Base.{ℕ, ◌+◌, ◌-◌, ◌*◌, ◌%◌, ◌^◌, ltb, leb, ◌==◌, Bool, not, ◌&&◌, if◌then◌else◌}
use netpipe5_dev.Effect.{M, ◌>>=◌, ◌>>◌, gets, when, skip}
use netpipe5_dev.Memory.{Ptr, null, at, advance}
use netpipe5_dev.Machine.{Machine, Args, load_bytes, put_bytes, set_args}

-- The address of a pointer, when the system has put the blocks at `address`.
abbrev pub address_of : (ℕ → ℕ) → Ptr → ℕ
address_of address null = 0
address_of address (at b off) = address b + off

-- `8 - ((long int)src % 8)`: the address is a signed 64-bit number, whose remainder has its sign.
abbrev pub before_8 : ℕ → ℕ
before_8 a =
    let low = a % 2 ^ 64 in if ltb low (2 ^ 63) then 8 - low % 8 else 8 + (2 ^ 64 - low) % 8

-- `16 - ((int) dest % 16)`: the address is cut to a signed 32-bit int, whose remainder has the
-- sign of the int.
abbrev pub before_16 : ℕ → ℕ
before_16 a =
    let low = a % 2 ^ 32 in if ltb low (2 ^ 31) then 16 - low % 16 else 16 + (2 ^ 32 - low) % 16

module _ {P W : Type 0} where
  -- `memcpy` of the C library, on ranges that do not overlap
  abbrev pub copy_bytes : Ptr → Ptr → ℕ → M (Machine P W) (Unit {0})
  copy_bytes dest src n = do bytes ← load_bytes src n; put_bytes dest bytes

  -- The multiple of `width` in `nbytes`, and then the bytes that are left.
  abbrev pub copy_main : ℕ → Ptr → Ptr → ℕ → M (Machine P W) (Unit {0})
  copy_main width dest src nbytes = do
    let nb_after = nbytes % width
    let main = nbytes - nb_after
    when (ltb 0 main) (copy_bytes dest src main)
    when (ltb 0 nb_after) (copy_bytes (advance dest main) (advance src main) nb_after)

  -- `nb_b4` bytes up to a boundary first, if there are so many.
  abbrev pub copy_split : ℕ → ℕ → Ptr → Ptr → ℕ → M (Machine P W) (Unit {0})
  copy_split width nb_b4 dest src nbytes =
      if not (nb_b4 == width) && leb nb_b4 nbytes
      then copy_bytes dest src nb_b4
        >> copy_main width (advance dest nb_b4) (advance src nb_b4) (nbytes - nb_b4)
      else copy_main width dest src nbytes

  module _ (address : ℕ → ℕ) where
    unfoldable pub memcpy_8 : Ptr → Ptr → ℕ → M (Machine P W) (Unit {0})
    memcpy_8 dest src nbytes = copy_split 8 (before_8 (address_of address src)) dest src nbytes

    unfoldable pub memcpy_16 : Ptr → Ptr → ℕ → M (Machine P W) (Unit {0})
    memcpy_16 dest src nbytes = copy_split 16 (before_16 (address_of address dest)) dest src nbytes

    -- LONGMSGSIZE is 2.5 * 131072. The copy of long messages, `ntcopy`, is a parameter: its loop has
    -- bytes that are no C.
    unfoldable pub mp_memcpy :
        (Ptr → Ptr → ℕ → M (Machine P W) (Unit {0})) → Ptr → Ptr → ℕ → M (Machine P W) (Unit {0})
    unfolding memcpy_16
    mp_memcpy ntcopy dest src nbytes =
        if ltb 327680 nbytes then ntcopy dest src nbytes else memcpy_16 dest src nbytes

  -- src/memcpy.c, with the copy that it is compiled for: memcpy or MP_memcpy.
  module _ (copy : Ptr → Ptr → ℕ → M (Machine P W) (Unit {0})) where
    unfoldable pub copy_send : M (Machine P W) (Unit {0})
    copy_send = do p ← gets (λ m. m.args); copy (p.r_ptr) (p.s_ptr) (p.bufflen)

    unfoldable pub copy_recv : M (Machine P W) (Unit {0})
    copy_recv = do p ← gets (λ m. m.args); copy (p.s_ptr) (p.r_ptr) (p.bufflen)
