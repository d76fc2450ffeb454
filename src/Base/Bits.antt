-- ===== src/Base/Bits.antt =====
-- The bit operations of C on native numbers: the law of the lowest digit, and what follows from it
-- for exclusive or and for masks.
use Prim.Native.Nat.{ℕ, zero, suc, ◌+◌, ◌-◌, ◌*◌, ◌/◌, ◌%◌, ◌^◌, ◌≤◌, ◌<◌, min, max}
use Prim.Native.Nat.{bit_and, bit_xor, digits, differ, bitwise, bit_and-bitwise, bit_xor-bitwise}
use mathlib.Core.Path.{◌≡◌, refl, sym, ap, ◌∙◌}
use native.Mathlib.Nat.{pow-suc, one-le-pow}
use native.Mathlib.Omega.{arith}

-- Rounds of `digits` beyond the size of the first number change nothing.
module _ (rest : ℕ → ℕ) (op : ℕ → ℕ → ℕ) where
  one_round_more :
      (rounds x y : ℕ) → x ≤ rounds → digits rest op (suc rounds) x y ≡ digits rest op rounds x y
  one_round_more (suc rounds) (suc x) y le =
      ap (λ high. high * 2 + op (suc x % 2) (y % 2))
        (one_round_more rounds (suc x / 2) (y / 2) (omega arith))
  one_round_more (suc rounds) zero y le = refl
  one_round_more zero (suc x) y le = absurd (omega arith)
  one_round_more zero zero y le = refl

  spare_rounds :
      (spare total rounds x y : ℕ)
      → total ≡ rounds + spare
      → x ≤ rounds
      → digits rest op total x y ≡ digits rest op rounds x y
  spare_rounds (suc spare) total rounds x y sum le =
      spare_rounds spare total (suc rounds) x y (omega arith) (omega arith)
      ∙ one_round_more rounds x y le
  spare_rounds zero total rounds x y sum le =
      let same : total ≡ rounds = omega arith in ap (λ n. digits rest op n x y) same

  lowest_digit :
      (x y : ℕ)
      → 0 < x
      → bitwise rest op x y ≡ bitwise rest op (x / 2) (y / 2) * 2 + op (x % 2) (y % 2)
  lowest_digit zero y pos = absurd (omega arith)
  lowest_digit (suc x) y pos =
      ap (λ high. high * 2 + op (suc x % 2) (y % 2))
        (spare_rounds (x - suc x / 2) x (suc x / 2) (suc x / 2) (y / 2) (omega arith) (omega arith))

pub zero-bit_and : (b : ℕ) → bit_and 0 b ≡ 0
zero-bit_and b = simp bit_and-bitwise

pub zero-bit_xor : (b : ℕ) → bit_xor 0 b ≡ b
zero-bit_xor b = simp bit_xor-bitwise

pub bit_xor_step : (a b : ℕ) → bit_xor a b ≡ bit_xor (a / 2) (b / 2) * 2 + differ (a % 2) (b % 2)
bit_xor_step (suc a) b =
    bit_xor-bitwise (suc a) b
    ∙ lowest_digit (λ y. y) differ (suc a) b (omega arith)
    ∙ ap (λ high. high * 2 + differ (suc a % 2) (b % 2)) (sym (bit_xor-bitwise (suc a / 2) (b / 2)))
bit_xor_step zero b = omega (arith, zero-bit_xor (b / 2), zero-bit_xor b)

pub bit_and_step : (x y : ℕ) → bit_and x y ≡ bit_and (x / 2) (y / 2) * 2 + min (x % 2) (y % 2)
bit_and_step (suc x) y =
    bit_and-bitwise (suc x) y
    ∙ lowest_digit (λ _. 0) min (suc x) y (omega arith)
    ∙ ap (λ high. high * 2 + min (suc x % 2) (y % 2)) (sym (bit_and-bitwise (suc x / 2) (y / 2)))
bit_and_step zero y = omega (arith, zero-bit_and (y / 2), zero-bit_and y)

differ_digits : (u v : ℕ) → u < 2 → v < 2 → differ u v ≡ (u + v) % 2
differ_digits zero v p q = omega arith
differ_digits (suc zero) zero p q = refl
differ_digits (suc zero) (suc zero) p q = refl
differ_digits (suc zero) (suc (suc v)) p q = absurd (omega arith)
differ_digits (suc (suc u)) v p q = absurd (omega arith)

differ_parity : (x y : ℕ) → differ (x % 2) (y % 2) ≡ (x + y) % 2
differ_parity x y = omega (arith, differ_digits (x % 2) (y % 2) (omega arith) (omega arith))

bit_xor-half : (a b : ℕ) → bit_xor a b / 2 ≡ bit_xor (a / 2) (b / 2)
bit_xor-half a b = omega (arith, bit_xor_step a b, differ_parity a b)

pub bit_xor-parity : (a b : ℕ) → bit_xor a b % 2 ≡ (a + b) % 2
bit_xor-parity a b = omega (arith, bit_xor_step a b, differ_parity a b)

pub bit_xor-lt : (k a b : ℕ) → a < 2 ^ k → b < 2 ^ k → bit_xor a b < 2 ^ k
bit_xor-lt zero zero zero p q = omega (arith, zero-bit_xor 0)
bit_xor-lt zero zero (suc b) p q = absurd (omega arith)
bit_xor-lt zero (suc a) b p q = absurd (omega arith)
bit_xor-lt (suc k) a b p q = omega (
  arith,
  pow-suc 2 k,
  bit_xor_step a b,
  differ_parity a b,
  bit_xor-lt k (a / 2) (b / 2) (omega (arith, pow-suc 2 k)) (omega (arith, pow-suc 2 k)),
)

cancel_fuel : (n a b : ℕ) → a ≤ n → b ≤ n → bit_xor (bit_xor a b) b ≡ a
cancel_fuel zero zero zero p q = refl
cancel_fuel zero zero (suc b) p q = absurd (omega arith)
cancel_fuel zero (suc a) b p q = absurd (omega arith)
cancel_fuel (suc n) a b p q =
    let ih = cancel_fuel n (a / 2) (b / 2) (omega arith) (omega arith) in
    let half : bit_xor (bit_xor a b / 2) (b / 2) ≡ a / 2 = rw (bit_xor-half a b) ih in
    omega
      (arith, half, bit_xor_step (bit_xor a b) b, differ_parity (bit_xor a b) b, bit_xor-parity a b)

-- Exclusive or with the same word twice gives the word back.
pub bit_xor_cancel : (a b : ℕ) → bit_xor (bit_xor a b) b ≡ a
bit_xor_cancel a b = cancel_fuel (max a b) a b (omega arith) (omega arith)

comm_fuel : (n a b : ℕ) → a ≤ n → b ≤ n → bit_xor a b ≡ bit_xor b a
comm_fuel zero zero zero p q = refl
comm_fuel zero zero (suc b) p q = absurd (omega arith)
comm_fuel zero (suc a) b p q = absurd (omega arith)
comm_fuel (suc n) a b p q = omega (
  arith,
  bit_xor_step a b,
  bit_xor_step b a,
  differ_parity a b,
  differ_parity b a,
  comm_fuel n (a / 2) (b / 2) (omega arith) (omega arith),
)

pub bit_xor_comm : (a b : ℕ) → bit_xor a b ≡ bit_xor b a
bit_xor_comm a b = comm_fuel (max a b) a b (omega arith) (omega arith)

zero_fuel : (n a : ℕ) → a ≤ n → bit_and a 0 ≡ 0
zero_fuel n zero h = zero-bit_and 0
zero_fuel zero (suc a) h = absurd (omega arith)
zero_fuel (suc n) (suc a) h =
    omega (arith, bit_and_step (suc a) 0, zero_fuel n (suc a / 2) (omega arith))

-- The lowest bit of a word.
pub bit_and-one : (a : ℕ) → bit_and a 1 ≡ a % 2
bit_and-one a = omega (arith, bit_and_step a 1, zero_fuel (a / 2) (a / 2) (omega arith))

-- The two lowest bits of a word.
pub bit_and_three : (a : ℕ) → bit_and a 3 ≡ a % 4
bit_and_three a = omega (arith, bit_and_step a 3, bit_and-one (a / 2))

half_mask : (k : ℕ) → (2 ^ suc k - 1) / 2 ≡ 2 ^ k - 1
half_mask k = omega (arith, pow-suc 2 k, one-le-pow k 2 (omega arith))

-- A mask of all the bits of a word keeps the word.
pub bit_and_full : (k a : ℕ) → a < 2 ^ k → bit_and a (2 ^ k - 1) ≡ a
bit_and_full zero zero h = zero-bit_and (2 ^ 0 - 1)
bit_and_full zero (suc a) h = absurd (omega arith)
bit_and_full (suc k) a h =
    let rest : bit_and (a / 2) ((2 ^ suc k - 1) / 2) ≡ a / 2 =
      rw (half_mask k) (bit_and_full k (a / 2) (omega (arith, pow-suc 2 k))) in
    omega (arith, rest, pow-suc 2 k, one-le-pow k 2 (omega arith), bit_and_step a (2 ^ suc k - 1))

-- Clearing the two low bits of a 64-bit word.
pub bit_and_clear_two : (a : ℕ) → a < 2 ^ 64 → bit_and a 0xFFFFFFFFFFFFFFFC ≡ a - a % 4
bit_and_clear_two a h = omega (
  arith,
  bit_and_step a 0xFFFFFFFFFFFFFFFC,
  bit_and_step (a / 2) 0x7FFFFFFFFFFFFFFE,
  bit_and_full 62 (a / 2 / 2) (omega arith),
)
