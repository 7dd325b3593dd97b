-- ===== src/Codec/Field.antt =====
-- The payload as one little-endian number, and the bits of a field in it.
use native.Mathlib.Nat.{pow-suc, div-div-eq-div-mul, div-add-mod, zero-div, add-zero, add-suc}
use otelcol_receiver_canopen.Prelude.{
  ℕ, zero, suc, ◌+◌, ◌*◌, ◌/◌, ◌%◌, ◌^◌, ◌<◌, ◌≡◌, refl, ap, List, [], ◌∷◌, arith, get_or, All,
}
use otelcol_receiver_canopen.Codec.Decode.{little_endian}

abbrev pub IsBytes : List ℕ → Type 0
IsBytes = All (λ b. b < 256)

-- The `width` bits from `offset`, bit 0 being the lowest of the first byte.
abbrev pub field : List ℕ → ℕ → ℕ → ℕ
field payload offset width = little_endian payload / 2 ^ offset % 2 ^ width

pub pow_add : (a b : ℕ) → 2 ^ (a + b) ≡ 2 ^ a * 2 ^ b
pow_add a zero = omega (arith, ap (λ (t : ℕ). 2 ^ t) (add-zero a))
pow_add a (suc b) = omega (
  arith,
  ap (λ (t : ℕ). 2 ^ t) (add-suc a b),
  pow-suc 2 (a + b),
  pow-suc 2 b,
  pow_add a b,
  ap (λ (t : ℕ). 2 ^ a * t) (pow-suc 2 b),
)

-- One more bit of the remainder.
pub mod-pow-suc : (x i : ℕ) → x % 2 ^ suc i ≡ x % 2 ^ i + x / 2 ^ i % 2 * 2 ^ i
mod-pow-suc x i =
    let m = 2 ^ i in
    let q = x / m in
    omega (
      arith,
      ap (λ (t : ℕ). x % t) (pow-suc 2 i),
      div-add-mod x (m * 2),
      div-add-mod x m,
      div-div-eq-div-mul x m 2,
      ap (λ (t : ℕ). m * 2 * t) (div-div-eq-div-mul x m 2),
      ap (λ (t : ℕ). m * t) (div-add-mod q 2),
    )

-- Above the lowest byte: 256 goes out of the division.
little_endian_above :
    (b n p : ℕ)
    → b < 256
    → (b + 256 * n) / 2 ^ (suc (suc (suc (suc (suc (suc (suc (suc p)))))))) ≡ n / 2 ^ p
little_endian_above b n p h =
    let e : 2 ^ (suc (suc (suc (suc (suc (suc (suc (suc p)))))))) ≡ 256 * 2 ^ p = omega arith in
    let d : (b + 256 * n) / 256 ≡ n = omega arith in
    rw (e, ← div-div-eq-div-mul (b + 256 * n) 256 (2 ^ p), d) refl

-- A bit of the number is a bit of one byte.
pub little_endian_bit :
    (payload : List ℕ) (p : ℕ)
    → IsBytes payload
    → little_endian payload / 2 ^ p % 2 ≡ get_or payload (p / 8) 0 / 2 ^ (p % 8) % 2
unfolding little_endian
little_endian_bit [] p h = rw (zero-div (2 ^ p), zero-div (2 ^ (p % 8))) refl
little_endian_bit (b ∷ bs) zero h = omega arith
little_endian_bit (b ∷ bs) (suc zero) h = omega arith
little_endian_bit (b ∷ bs) (suc (suc zero)) h = omega arith
little_endian_bit (b ∷ bs) (suc (suc (suc zero))) h = omega arith
little_endian_bit (b ∷ bs) (suc (suc (suc (suc zero)))) h = omega arith
little_endian_bit (b ∷ bs) (suc (suc (suc (suc (suc zero))))) h = omega arith
little_endian_bit (b ∷ bs) (suc (suc (suc (suc (suc (suc zero)))))) h = omega arith
little_endian_bit (b ∷ bs) (suc (suc (suc (suc (suc (suc (suc zero))))))) h = omega arith
little_endian_bit (b ∷ bs) (suc (suc (suc (suc (suc (suc (suc (suc p)))))))) h =
    let p' = suc (suc (suc (suc (suc (suc (suc (suc p))))))) in
    let i : p' / 8 ≡ suc (p / 8) = omega arith in
    let j : p' % 8 ≡ p % 8 = omega arith in
    rw (little_endian_above b (little_endian bs) p h.0, i, j) (little_endian_bit bs p h.1)
