-- ===== src/Codec/Extract.antt =====
-- `extractBits`: both of its paths read the same field, and what it does out of range.
use native.Mathlib.Nat.{
  div-add-mod, div-div-eq-div-mul, pow-suc, mul_comm, mod-one, div-one, one-le-pow, mod-lt,
  add-zero, zero-mod, zero-div,
}
use native.Mathlib.Numerals.{add-one}
use otelcol_receiver_canopen.Prelude.{
  ℕ, zero, suc, ◌+◌, ◌*◌, ◌/◌, ◌%◌, ◌^◌, ◌≤◌, ◌<◌, ◌≡◌, refl, sym, ap, ◌∙◌, bit_and, bit_or, some,
  List, [], ◌∷◌, arith, nat_eq, length, get_elem?, get_or, take, drop, get_elem?-eq-get_or,
}
use otelcol_receiver_canopen.Prelude.Bits.{bit_and_1, bit_or_high}
use otelcol_receiver_canopen.Codec.Decode.{ok, little_endian, bit_loop}
use otelcol_receiver_canopen.Codec.Field.{IsBytes, field, pow_add, mod-pow-suc, little_endian_bit}

suc_add_shift : (i k : ℕ) → suc i + k ≡ i + suc k
suc_add_shift i k = omega arith

head_div : (x n : ℕ) → x < 256 → (x + 256 * n) / 256 ≡ n
head_div x n h = omega arith

-- The next bit of a field is a bit of one byte of the payload.
field_next :
    (payload : List ℕ) (offset i : ℕ)
    → IsBytes payload
    → field payload offset i
        + get_or payload ((offset + i) / 8) 0 / 2 ^ ((offset + i) % 8) % 2 * 2 ^ i
      ≡ field payload offset (suc i)
field_next payload offset i hb =
    let n = little_endian payload in
    let whole : n / 2 ^ offset / 2 ^ i ≡ n / 2 ^ (offset + i) =
      div-div-eq-div-mul n (2 ^ offset) (2 ^ i) ∙ ap (λ d. n / d) (sym (pow_add offset i)) in
    let same = little_endian_bit payload (offset + i) hb in
    sym (mod-pow-suc (n / 2 ^ offset) i ∙ rw (whole, same) refl)

-- One round reads the next bit of the field.
bit_loop_round :
    (payload : List ℕ) (offset i left : ℕ)
    → IsBytes payload
    → offset + i < length payload * 8
    → bit_loop payload offset (suc left) i (field payload offset i)
      ≡ bit_loop payload offset left (i + 1) (field payload offset (suc i))
bit_loop_round payload offset i left hb h =
    let byte = get_or payload ((offset + i) / 8) 0 in
    let found : get_elem? payload ((offset + i) / 8) ≡ some byte =
      get_elem?-eq-get_or payload ((offset + i) / 8) 0 (omega arith) in
    let low : field payload offset i < 2 ^ i =
      mod-lt (little_endian payload / 2 ^ offset) (one-le-pow i 2 (omega arith)) in
    let shifted = byte / 2 ^ ((offset + i) % 8) in
    let joined : bit_or (field payload offset i) (bit_and shifted 1 * 2 ^ i)
        ≡ field payload offset (suc i) =
      rw (bit_and_1 shifted) (
        bit_or_high i (field payload offset i) (shifted % 2) low
        ∙ field_next payload offset i hb) in
    unfold bit_loop in rw (found, bit_loop) (ap (bit_loop payload offset left (i + 1)) joined)

pub bit_loop-field :
    (payload : List ℕ) (offset left i : ℕ)
    → IsBytes payload
    → offset + (i + left) ≤ length payload * 8
    → bit_loop payload offset left i (field payload offset i) ≡ ok (field payload offset (i + left))
bit_loop-field payload offset zero i hb h =
    unfold bit_loop in ap (λ (w : ℕ). ok (field payload offset w)) (sym (add-zero i))
bit_loop-field payload offset (suc left) i hb h =
    bit_loop_round payload offset i left hb (omega arith)
    ∙ ap (λ (w : ℕ). bit_loop payload offset left w (field payload offset (suc i))) (add-one i)
    ∙ bit_loop-field payload offset left (suc i) hb (omega arith)
    ∙ ap (λ (w : ℕ). ok (field payload offset w)) (suc_add_shift i left)

pub little_endian-take :
    (n : ℕ) (xs : List ℕ) → IsBytes xs → little_endian (take n xs) ≡ little_endian xs % 256 ^ n
unfolding little_endian
little_endian-take zero xs h = rw mod-one refl
little_endian-take (suc n) [] h = rw zero-mod refl
little_endian-take (suc n) (x ∷ xs) h =
    let rest = little_endian xs in
    let ih = little_endian-take n xs h.1 in
    omega (
      arith,
      ih,
      h.0,
      ap (λ (t : ℕ). (x + 256 * rest) % t) (pow-suc 256 n ∙ mul_comm (256 ^ n) 256),
      div-add-mod (x + 256 * rest) (256 * 256 ^ n),
      div-add-mod rest (256 ^ n),
      div-div-eq-div-mul (x + 256 * rest) 256 (256 ^ n),
      ap (λ (t : ℕ). 256 * 256 ^ n * t) (div-div-eq-div-mul (x + 256 * rest) 256 (256 ^ n)),
      ap (λ (t : ℕ). 256 ^ n * (t / 256 ^ n)) (head_div x rest h.0),
    )

pub little_endian-drop :
    (n : ℕ) (xs : List ℕ) → IsBytes xs → little_endian (drop n xs) ≡ little_endian xs / 256 ^ n
unfolding little_endian
little_endian-drop zero xs h = rw div-one refl
little_endian-drop (suc n) [] h = rw zero-div refl
little_endian-drop (suc n) (x ∷ xs) h =
    rw
      (
        pow-suc 256 n,
        mul_comm (256 ^ n) 256,
        ← div-div-eq-div-mul (x + 256 * little_endian xs) 256 (256 ^ n),
        head_div x (little_endian xs) h.0,
      )
      (little_endian-drop n xs h.1)
