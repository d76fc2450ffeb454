-- ===== src/Lfsr.antt =====
-- The linear feedback shift registers of src/netpipe.c: one step of each, on the 32-bit
-- `lfsr_data`.
pub mod Laws
use netpipe5_dev.Base.{ℕ, zero, suc, ◌+◌, ◌-◌, ◌*◌, ◌/◌, ◌%◌, ◌^◌, bit_and, bit_xor}

-- unary minus on a uint32_t
abbrev pub neg32 : ℕ → ℕ
neg32 x = (2 ^ 32 - x) % 2 ^ 32

unfoldable pub lfsr32 : ℕ → ℕ
lfsr32 d = bit_xor (d / 2) (bit_and (neg32 (bit_and d 1)) 0xD0000001)

-- The mask has 64 bits and the minus 32; the assignment to `lfsr_data` cuts back to 32 bits.
unfoldable pub lfsr58 : ℕ → ℕ
lfsr58 d = bit_xor (d / 2) (bit_and (neg32 (bit_and d 1)) 0x200002000000000) % 2 ^ 32

unfoldable pub lfsr23 : ℕ → ℕ
lfsr23 d = bit_xor (d / 2) (bit_and (neg32 (bit_and d 1)) 0x400010)
