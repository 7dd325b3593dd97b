-- ===== src/Codec/Range.antt =====
-- `extractBits` as a whole: in range, out of range, and where the sum of an `int` wraps.
use native.Mathlib.Nat.{pow-suc}
use otelcol_receiver_canopen.Prelude.{
  ℕ, zero, suc, ◌+◌, ◌-◌, ◌*◌, ◌/◌, ◌%◌, ◌^◌, ◌≤◌, ◌<◌, ◌≡◌, ◌≢◌, refl, ap, ◌∙◌, List, [], ◌∷◌,
  arith, nat_eq, length, get_or, drop, get_elem?-ge_length,
}
use otelcol_receiver_canopen.Prelude.Int.{pos}
use otelcol_receiver_canopen.Codec.Decode.{
  ok, err, panicked, out_of_bounds, little_endian, slice, bit_loop, extract_general,
  extract_aligned, extract_bits,
}
use otelcol_receiver_canopen.Codec.Field.{IsBytes, field, pow_add}
use otelcol_receiver_canopen.Codec.Extract.{bit_loop-field, little_endian-take, little_endian-drop}

-- Go's lengths and offsets are `int`s.
abbrev pub max_int : ℕ
max_int = 2 ^ 63

field_empty : (payload : List ℕ) (offset : ℕ) → field payload offset 0 ≡ 0
field_empty payload offset = omega arith

extract_general_in_range :
    (payload : List ℕ) (offset width : ℕ)
    → IsBytes payload
    → length payload * 8 < max_int
    → offset + width ≤ length payload * 8
    → extract_general payload offset width ≡ ok (field payload offset width)
unfolding extract_general
extract_general_in_range payload offset width hb hm h =
    ground (arith, field_empty payload offset, bit_loop-field payload offset width 0 hb)

eight_more : (n : ℕ) → 8 * suc n ≡ 8 * n + 8
eight_more n = omega arith

pow-256 : (n : ℕ) → 256 ^ n ≡ 2 ^ (8 * n)
pow-256 zero = refl
pow-256 (suc n) =
    omega (arith, pow-suc 256 n, pow-256 n, ap (λ (t : ℕ). 2 ^ t) (eight_more n), pow_add (8 * n) 8)

IsBytes-drop : (n : ℕ) (xs : List ℕ) → IsBytes xs → IsBytes (drop n xs)
IsBytes-drop zero xs h = h
IsBytes-drop (suc n) [] h = h
IsBytes-drop (suc n) (x ∷ xs) h = IsBytes-drop n xs h.1

pub add-sub_self : (a n : ℕ) → a + n - a ≡ n
add-sub_self a n = omega arith

get_or-drop : (n : ℕ) (xs : List ℕ) → get_or xs n 0 ≡ get_or (drop n xs) 0 0
get_or-drop zero xs = refl
get_or-drop (suc n) [] = refl
get_or-drop (suc n) (x ∷ xs) = get_or-drop n xs

head_of : (xs : List ℕ) {b : ℕ} → IsBytes xs → b ≡ get_or xs 0 0 → b ≡ little_endian xs % 2 ^ 8
unfolding little_endian
head_of [] h e = e
head_of (x ∷ xs) h e = omega arith

-- A slice of whole bytes is a field of the payload.
pub slice-field :
    (payload : List ℕ) (start n : ℕ)
    → IsBytes payload
    → little_endian (slice payload start (start + n)) ≡ field payload (8 * start) (8 * n)
slice-field payload start n hb = rw (add-sub_self start n) (
    little_endian-take n (drop start payload) (IsBytes-drop start payload hb)
    ∙ rw (little_endian-drop start payload hb, pow-256 start, pow-256 n) refl)

-- One byte is a field of eight bits.
byte_field :
    (payload : List ℕ) (start : ℕ)
    → IsBytes payload
    → get_or payload start 0 ≡ field payload (8 * start) 8
byte_field payload start hb =
    head_of (drop start payload) (IsBytes-drop start payload hb) (get_or-drop start payload)
    ∙ rw (little_endian-drop start payload hb, pow-256 start) refl

-- The fast path agrees with the general one.
extract_aligned_in_range :
    (payload : List ℕ) (start width : ℕ)
    → IsBytes payload
    → length payload * 8 < max_int
    → 8 * start + width ≤ length payload * 8
    → extract_aligned payload (8 * start) width ≡ ok (field payload (8 * start) width)
unfolding extract_aligned
extract_aligned_in_range payload start width hb hm h = ground (
  arith,
  byte_field payload start hb,
  slice-field payload start 2 hb,
  slice-field payload start 4 hb,
  slice-field payload start 8 hb,
  extract_general_in_range payload (8 * start) width hb hm h,
)

-- Any field of one bit or more that lies within the payload is read, with no error, as the bits
-- from `offset` of the payload read as one little-endian number, on both paths.
pub extract_bits-eq-field :
    (payload : List ℕ) (offset width : ℕ)
    → IsBytes payload
    → length payload * 8 < max_int
    → 0 < width
    → offset + width ≤ length payload * 8
    → extract_bits payload (pos offset) width ≡ ok (field payload offset width)
unfolding extract_bits
extract_bits-eq-field payload offset width hb hm hw h =
    let e : offset % 8 ≡ 0 → offset ≡ 8 * (offset / 8) = λ z. omega arith in
    ground (
      arith,
      extract_aligned_in_range payload (offset / 8) width hb hm,
      extract_general_in_range payload offset width hb hm h,
    )

-- A field that reaches past the payload is refused with an error, as long as the position of its
-- end is an `int`.
pub extract_bits_out_of_range :
    (payload : List ℕ) (offset width : ℕ)
    → 0 < width
    → offset + width < max_int
    → length payload * 8 < offset + width
    → extract_bits payload (pos offset) width ≡ err out_of_bounds
unfolding extract_bits extract_aligned extract_general
extract_bits_out_of_range payload offset width hw hm h = ground arith

bit_loop_far :
    (payload : List ℕ) (offset left : ℕ)
    → 0 < left
    → length payload * 8 ≤ offset
    → bit_loop payload offset left 0 0 ≡ panicked
bit_loop_far payload offset zero hw h = absurd (omega arith)
bit_loop_far payload offset (suc left) hw h =
    let gone = get_elem?-ge_length payload ((offset + 0) / 8) (omega arith) in
    unfold bit_loop in rw (gone, bit_loop) refl

-- Where the end of an unaligned field passes the largest `int`, the sum wraps, the range test lets
-- the field through, and the read panics, whatever the payload.
pub extract_bits_wrap_panics :
    (payload : List ℕ) (offset width : ℕ)
    → width ≤ 64
    → offset < max_int
    → offset % 8 ≢ 0
    → max_int ≤ offset + width
    → length payload * 8 ≤ max_int - 64
    → extract_bits payload (pos offset) width ≡ panicked
unfolding extract_bits extract_general
extract_bits_wrap_panics payload offset width hw hm hu h hl =
    ground (arith, bit_loop_far payload offset width)
