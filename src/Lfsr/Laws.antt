-- ===== src/Lfsr/Laws.antt =====
-- The registers as sequences of words: which words follow which, and that none is lost.
use native.Mathlib.Nat.{pow-suc}
use netpipe5_dev.Base.{
  ℕ, zero, suc, ◌-◌, ◌/◌, ◌^◌, ◌≤◌, ◌<◌, ◌≡◌, ◌≢◌, ◌⊎◌, inl, inr, refl, sym, ◌∙◌, ap, arith,
  bit_and, bit_xor,
}
use netpipe5_dev.Base.Bits.{
  bit_and-one, zero-bit_and, zero-bit_xor, bit_xor-lt, bit_xor_cancel, bit_xor_comm,
}
use netpipe5_dev.Lfsr.{neg32, lfsr23, lfsr32, lfsr58}

-- `n` steps of the register that LFSR names.
abbrev pub iterate : (ℕ → ℕ) → ℕ → ℕ → ℕ
iterate f zero d = d
iterate f (suc n) d = iterate f n (f d)

bit_xor-zero : (a : ℕ) → bit_xor a 0 ≡ a
bit_xor-zero a = bit_xor_comm a 0 ∙ zero-bit_xor a

-- One step of a Galois register with the taps `mask`.
abbrev galois : ℕ → ℕ → ℕ
galois mask d = bit_xor (d / 2) (bit_and (neg32 (bit_and d 1)) mask)

parity : (d : ℕ) → (bit_and d 1 ≡ 0) ⊎ (bit_and d 1 ≡ 1)
parity d = ground (arith, bit_and-one d)

galois_even : (mask d : ℕ) → bit_and d 1 ≡ 0 → galois mask d ≡ d / 2
galois_even mask d e = rw (e, zero-bit_and mask) (bit_xor-zero (d / 2))

module _ (k mask : ℕ) (full : bit_and (2 ^ 32 - 1) mask ≡ mask) (lo : 2 ^ k ≤ mask)
    (hi : mask < 2 ^ suc k) where
  galois_odd : (d : ℕ) → bit_and d 1 ≡ 1 → galois mask d ≡ bit_xor (d / 2) mask
  galois_odd d e = rw e (ap (λ t. bit_xor (d / 2) t) full)

  -- The step keeps the width.
  galois-lt : (d : ℕ) → d < 2 ^ suc k → galois mask d < 2 ^ suc k
  galois-lt d h = elim (parity d) [
    | inl e ↦ rw (galois_even mask d e) (omega arith)
    | inr e ↦ rw (galois_odd d e) (bit_xor-lt (suc k) (d / 2) mask (omega arith) hi)
  ]

  -- The taps reach the top bit, which a shifted word has not.
  not_shifted : (a b : ℕ) → a < 2 ^ k → b < 2 ^ k → bit_xor a mask ≢ b
  not_shifted a b p q e =
      let back : bit_xor b a ≡ mask = rw (← e, bit_xor_comm a mask) (bit_xor_cancel mask a) in
      absurd (omega (arith, back, bit_xor-lt k b a q p))

  half-lt : (d : ℕ) → d < 2 ^ suc k → d / 2 < 2 ^ k
  half-lt d h = omega (arith, pow-suc 2 k)

  galois-ne-zero : (d : ℕ) → 0 < d → d < 2 ^ suc k → galois mask d ≢ 0
  galois-ne-zero d pos h z = elim (parity d) [
    | inl e ↦ absurd (omega (arith, galois_even mask d e, bit_and-one d))
    | inr e ↦
        not_shifted (d / 2) 0 (half-lt d h) (omega (arith, half-lt d h)) (sym (galois_odd d e) ∙ z)
  ]

  galois_injective :
      (d e : ℕ) → d < 2 ^ suc k → e < 2 ^ suc k → galois mask d ≡ galois mask e → d ≡ e
  galois_injective d e hd he same = elim (parity d) [
    | inl p ↦ elim (parity e) [
      | inl q ↦
          omega (arith, galois_even mask d p, galois_even mask e q, bit_and-one d, bit_and-one e)
      | inr q ↦ absurd (
          not_shifted (e / 2) (d / 2) (half-lt e he) (half-lt d hd)
            (sym (galois_odd e q) ∙ sym same ∙ galois_even mask d p))
    ]
    | inr p ↦ elim (parity e) [
      | inl q ↦ absurd (
          not_shifted (d / 2) (e / 2) (half-lt d hd) (half-lt e he)
            (sym (galois_odd d p) ∙ same ∙ galois_even mask e q))
      | inr q ↦ omega (
        arith,
        bit_and-one d,
        bit_and-one e,
        halves (sym (galois_odd d p) ∙ same ∙ galois_odd e q),
      )
    ]
  ]
    where
      halves : bit_xor (d / 2) mask ≡ bit_xor (e / 2) mask → d / 2 ≡ e / 2
      halves h =
          sym (bit_xor_cancel (d / 2) mask)
          ∙ ap (λ t. bit_xor t mask) h
          ∙ bit_xor_cancel (e / 2) mask

lfsr23_range : (d : ℕ) → 0 < d → d < 2 ^ 23 → (0 < lfsr23 d) × (lfsr23 d < 2 ^ 23)
unfolding lfsr23
lfsr23_range d pos h =
    let lt : galois 0x400010 d < 2 ^ 23 =
      galois-lt 22 0x400010 refl (omega arith) (omega arith) d h in
    let ne : galois 0x400010 d ≢ 0 =
      galois-ne-zero 22 0x400010 refl (omega arith) (omega arith) d pos h in
    (omega arith, lt)

lfsr23_injective : (d e : ℕ) → d < 2 ^ 23 → e < 2 ^ 23 → lfsr23 d ≡ lfsr23 e → d ≡ e
unfolding lfsr23
lfsr23_injective d e = galois_injective 22 0x400010 refl (omega arith) (omega arith) d e

lfsr32_injective : (d e : ℕ) → d < 2 ^ 32 → e < 2 ^ 32 → lfsr32 d ≡ lfsr32 e → d ≡ e
unfolding lfsr32
lfsr32_injective d e = galois_injective 31 0xD0000001 refl (omega arith) (omega arith) d e

pub lfsr32_range : (d : ℕ) → 0 < d → d < 2 ^ 32 → (0 < lfsr32 d) × (lfsr32 d < 2 ^ 32)
unfolding lfsr32
lfsr32_range d pos h =
    let lt : galois 0xD0000001 d < 2 ^ 32 =
      galois-lt 31 0xD0000001 refl (omega arith) (omega arith) d h in
    let ne : galois 0xD0000001 d ≢ 0 =
      galois-ne-zero 31 0xD0000001 refl (omega arith) (omega arith) d pos h in
    (omega arith, lt)

-- The 64-bit taps of `lfsr58` have no bit in the 32-bit word: the step only shifts.
pub lfsr58_shifts : (d : ℕ) → d < 2 ^ 32 → lfsr58 d ≡ d / 2
unfolding lfsr58
lfsr58_shifts d h = elim (parity d) [
  | inl e ↦ rw (galois_even 0x200002000000000 d e) (omega arith)
  | inr e ↦ rw (e, bit_xor-zero (d / 2)) (omega arith)
]

-- lfsr58 runs dry: a 32-bit word below 2 ^ k is 0 after k steps.
pub lfsr58_dies : (k d : ℕ) → d < 2 ^ k → d < 2 ^ 32 → iterate lfsr58 k d ≡ 0
lfsr58_dies zero d h w = omega arith
lfsr58_dies (suc k) d h w =
    rw (lfsr58_shifts d w) (lfsr58_dies k (d / 2) (omega (arith, pow-suc 2 k)) (omega arith))

-- From a nonzero 23-bit seed every word of the sequence of lfsr23 is a nonzero 23-bit word.
pub iterate-lfsr23_range :
    (n d : ℕ) → 0 < d → d < 2 ^ 23 → (0 < iterate lfsr23 n d) × (iterate lfsr23 n d < 2 ^ 23)
iterate-lfsr23_range zero d p h = (p, h)
iterate-lfsr23_range (suc n) d p h =
    let r = lfsr23_range d p h in iterate-lfsr23_range n (lfsr23 d) r.0 r.1

iterate-lfsr23_injective :
    (n d e : ℕ)
    → 0 < d
    → d < 2 ^ 23
    → 0 < e
    → e < 2 ^ 23
    → iterate lfsr23 n d ≡ iterate lfsr23 n e
    → d ≡ e
iterate-lfsr23_injective zero d e pd hd pe he same = same
iterate-lfsr23_injective (suc n) d e pd hd pe he same =
    let rd = lfsr23_range d pd hd in
    let re = lfsr23_range e pe he in
    lfsr23_injective d e hd he
      (iterate-lfsr23_injective n (lfsr23 d) (lfsr23 e) rd.0 rd.1 re.0 re.1 same)

-- The sequences of lfsr23 from two different nonzero 23-bit seeds differ at every step.
pub iterate-lfsr23_apart :
    (n d e : ℕ)
    → 0 < d
    → d < 2 ^ 23
    → 0 < e
    → e < 2 ^ 23
    → d ≢ e
    → iterate lfsr23 n d ≢ iterate lfsr23 n e
iterate-lfsr23_apart n d e pd hd pe he ne same =
    ne (iterate-lfsr23_injective n d e pd hd pe he same)

iterate-lfsr32_range :
    (n d : ℕ) → 0 < d → d < 2 ^ 32 → (0 < iterate lfsr32 n d) × (iterate lfsr32 n d < 2 ^ 32)
iterate-lfsr32_range zero d p h = (p, h)
iterate-lfsr32_range (suc n) d p h =
    let r = lfsr32_range d p h in iterate-lfsr32_range n (lfsr32 d) r.0 r.1

-- The sequences of lfsr32 from two different nonzero 32-bit seeds differ at every step.
iterate-lfsr32_apart :
    (n d e : ℕ)
    → 0 < d
    → d < 2 ^ 32
    → 0 < e
    → e < 2 ^ 32
    → d ≢ e
    → iterate lfsr32 n d ≢ iterate lfsr32 n e
iterate-lfsr32_apart zero d e pd hd pe he ne = ne
iterate-lfsr32_apart (suc n) d e pd hd pe he ne =
    let rd = lfsr32_range d pd hd in
    let re = lfsr32_range e pe he in
    iterate-lfsr32_apart n (lfsr32 d) (lfsr32 e) rd.0 rd.1 re.0 re.1
      (λ same. ne (lfsr32_injective d e hd he same))
