-- ===== src/Prelude/Bits.antt =====
-- `&` and `|` at variables: the lowest digit, low masks, and fields that do not overlap.
use Prim.Native.Nat.{
  ℕ, zero, suc, ◌+◌, ◌*◌, ◌/◌, ◌%◌, ◌^◌, ◌≤◌, ◌<◌, min, max, bit_and, bit_or, digits,
  bit_and-bitwise, bit_or-bitwise,
}
use mathlib.Core.Path.{◌≡◌, refl, ap}
use native.Mathlib.Nat.{pow-suc}
use native.Mathlib.Omega.{arith}

-- The native operations recur on digits with fuel: fuel at or above the first number is enough.
module _ (rest : ℕ → ℕ) (bit : ℕ → ℕ → ℕ) where
  enough_fuel : (x y a b : ℕ) → a ≤ x → a ≤ y → digits rest bit x a b ≡ digits rest bit y a b
  enough_fuel zero zero a b hx hy = refl
  enough_fuel zero (suc y) zero b hx hy = refl
  enough_fuel zero (suc y) (suc a) b hx hy = absurd (omega arith)
  enough_fuel (suc x) zero zero b hx hy = refl
  enough_fuel (suc x) zero (suc a) b hx hy = absurd (omega arith)
  enough_fuel (suc x) (suc y) zero b hx hy = refl
  enough_fuel (suc x) (suc y) (suc a) b hx hy =
      let half : suc a / 2 ≤ x = omega arith in
      let half' : suc a / 2 ≤ y = omega arith in
      ap (λ d. d * 2 + bit (suc a % 2) (b % 2)) (enough_fuel x y (suc a / 2) (b / 2) half half')

pub bit_and_digit : (a b : ℕ) → bit_and a b ≡ 2 * bit_and (a / 2) (b / 2) + min (a % 2) (b % 2)
bit_and_digit zero b = omega (arith, bit_and-bitwise 0 b, bit_and-bitwise 0 (b / 2))
bit_and_digit (suc a) b =
    let half : suc a / 2 ≤ a = omega arith in
    omega (
      arith,
      bit_and-bitwise (suc a) b,
      bit_and-bitwise (suc a / 2) (b / 2),
      enough_fuel (λ _. zero) min a (suc a / 2) (suc a / 2) (b / 2) half,
    )

pub bit_or_digit : (a b : ℕ) → bit_or a b ≡ 2 * bit_or (a / 2) (b / 2) + max (a % 2) (b % 2)
bit_or_digit zero b = omega (arith, bit_or-bitwise 0 b, bit_or-bitwise 0 (b / 2))
bit_or_digit (suc a) b =
    let half : suc a / 2 ≤ a = omega arith in
    omega (
      arith,
      bit_or-bitwise (suc a) b,
      bit_or-bitwise (suc a / 2) (b / 2),
      enough_fuel (λ y. y) max a (suc a / 2) (suc a / 2) (b / 2) half,
    )

bit_and-zero_below : (n a : ℕ) → a ≤ n → bit_and a 0 ≡ 0
bit_and-zero_below n zero h = refl
bit_and-zero_below zero (suc a) h = absurd (omega arith)
bit_and-zero_below (suc n) (suc a) h =
    omega (arith, bit_and_digit (suc a) 0, bit_and-zero_below n (suc a / 2) (omega arith))

pub bit_and-zero : (a : ℕ) → bit_and a 0 ≡ 0
bit_and-zero a = bit_and-zero_below a a (omega arith)

pub zero-bit_or : (b : ℕ) → bit_or 0 b ≡ b
zero-bit_or b = bit_or-bitwise 0 b

-- One-bit and three-bit tests, the masks of the protocol's command bytes.
pub bit_and_1 : (a : ℕ) → bit_and a 1 ≡ a % 2
bit_and_1 a = omega (arith, bit_and_digit a 1, bit_and-zero (a / 2))

pub bit_and_2 : (a : ℕ) → bit_and a 2 ≡ a / 2 % 2 * 2
bit_and_2 a = omega (arith, bit_and_digit a 2, bit_and_1 (a / 2))

pub bit_and_3 : (a : ℕ) → bit_and a 3 ≡ a % 4
bit_and_3 a = omega (arith, bit_and_digit a 3, bit_and_1 (a / 2))

pub bit_and_7 : (a : ℕ) → bit_and a 7 ≡ a % 8
bit_and_7 a = omega (arith, bit_and_digit a 7, bit_and_3 (a / 2))

bit_and_4 : (a : ℕ) → bit_and a 4 ≡ a / 4 % 2 * 4
bit_and_4 a = omega (arith, bit_and_digit a 4, bit_and_2 (a / 2))

bit_and_8 : (a : ℕ) → bit_and a 8 ≡ a / 8 % 2 * 8
bit_and_8 a = omega (arith, bit_and_digit a 8, bit_and_4 (a / 2))

pub bit_and_16 : (a : ℕ) → bit_and a 0x10 ≡ a / 16 % 2 * 16
bit_and_16 a = omega (arith, bit_and_digit a 16, bit_and_8 (a / 2))

bit_and_14 : (a : ℕ) → bit_and a 14 ≡ a / 2 % 8 * 2
bit_and_14 a = omega (arith, bit_and_digit a 14, bit_and_7 (a / 2))

bit_and_28 : (a : ℕ) → bit_and a 28 ≡ a / 4 % 8 * 4
bit_and_28 a = omega (arith, bit_and_digit a 28, bit_and_14 (a / 2))

bit_and_56 : (a : ℕ) → bit_and a 56 ≡ a / 8 % 8 * 8
bit_and_56 a = omega (arith, bit_and_digit a 56, bit_and_28 (a / 2))

bit_and_112 : (a : ℕ) → bit_and a 112 ≡ a / 16 % 8 * 16
bit_and_112 a = omega (arith, bit_and_digit a 112, bit_and_56 (a / 2))

pub bit_and_224 : (a : ℕ) → bit_and a 0xE0 ≡ a / 32 % 8 * 32
bit_and_224 a = omega (arith, bit_and_digit a 224, bit_and_112 (a / 2))

bit_and_15 : (a : ℕ) → bit_and a 15 ≡ a % 16
bit_and_15 a = omega (arith, bit_and_digit a 15, bit_and_7 (a / 2))

bit_and_31 : (a : ℕ) → bit_and a 31 ≡ a % 32
bit_and_31 a = omega (arith, bit_and_digit a 31, bit_and_15 (a / 2))

bit_and_63 : (a : ℕ) → bit_and a 63 ≡ a % 64
bit_and_63 a = omega (arith, bit_and_digit a 63, bit_and_31 (a / 2))

pub bit_and_127 : (a : ℕ) → bit_and a 0x7F ≡ a % 128
bit_and_127 a = omega (arith, bit_and_digit a 127, bit_and_63 (a / 2))

twice-pow : (q k : ℕ) → q * 2 ^ suc k ≡ 2 * (q * 2 ^ k)
twice-pow q k = omega (arith, ap (λ (t : ℕ). q * t) (pow-suc 2 k))

-- A field shifted above `k` bits, joined to a number of `k` bits.
pub bit_or_high : (k r q : ℕ) → r < 2 ^ k → bit_or r (q * 2 ^ k) ≡ r + q * 2 ^ k
bit_or_high zero r q h = ground (arith, zero-bit_or q)
bit_or_high (suc k) r q h = ground (
  arith,
  bit_or_digit r (q * 2 ^ suc k),
  twice-pow q k,
  pow-suc 2 k,
  bit_or_high k (r / 2) q (omega (arith, pow-suc 2 k)),
)
