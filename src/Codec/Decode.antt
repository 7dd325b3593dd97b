-- ===== src/Codec/Decode.antt =====
-- internal/codec/codec.go: `Decode` and `extractBits`. An `int` has 64 bits, and its additions wrap.
use otelcol_receiver_canopen.Prelude.{
  ℕ, zero, suc, ◌+◌, ◌-◌, ◌*◌, ◌/◌, ◌%◌, ◌^◌, bit_and, bit_or, Bool, false, not, ◌||◌, none, some,
  List, [], ◌∷◌, ltb, if◌then◌else◌, ◌==◌, nat_eq, length, get_elem?, get_or, take, drop,
}
use otelcol_receiver_canopen.Prelude.Int.{ℤ, pos, negsuc, pos_part, neg_part, signed}
use otelcol_receiver_canopen.Codec.Types.{
  DataType, bool, int8, int16, int32, int64, uint8, uint16, uint32, uint64, float32, float64, bytes,
  visible_string, other, bit_width, valid, Value, zero_value, FloatOps,
}

pub data CodecError : Type 0 where
  unsupported_type unaligned bad_byte_len out_of_bounds negative_offset zero_width : CodecError

-- `panicked` is a run-time panic: an index, a slice or a length of `make` out of range.
pub data Outcome {ℓ} (A : Type ℓ) : Type ℓ where
  ok : A → Outcome A
  err : CodecError → Outcome A
  panicked : Outcome A

infixl 5 ◌>>=◌
abbrev pub ◌>>=◌ {ℓ κ} : {A : Type ℓ} {B : Type κ} → Outcome A → (A → Outcome B) → Outcome B
ok a >>= f = f a
err e >>= f = err e
panicked >>= f = panicked

-- a + b as an `int`, of two that are not negative.
abbrev pub add_int : ℕ → ℕ → ℤ
add_int a b = if ltb (a + b) (2 ^ 63) then pos (a + b) else negsuc (2 ^ 64 - 1 - (a + b))

-- `x > n`, of an `int` and a length.
abbrev pub exceeds : ℤ → ℕ → Bool
exceeds (pos x) n = ltb n x
exceeds (negsuc x) n = false

-- `xs[start:end]` where the bounds have been checked.
abbrev pub slice {ℓ} : {A : Type ℓ} → List A → ℕ → ℕ → List A
slice xs start end_ = take (end_ - start) (drop start xs)

-- `binary.LittleEndian`: the first byte is the lowest.
unfoldable pub little_endian : List ℕ → ℕ
little_endian [] = 0
little_endian (b ∷ bs) = b + 256 * little_endian bs

-- The loop of `extractBits` at bit `i`, with `left` bits to go. A read past the payload panics;
-- after a wrapped sum the first read does, so `bitOffset + i` is written as it stands.
unfoldable pub bit_loop : List ℕ → ℕ → ℕ → ℕ → ℕ → Outcome ℕ
bit_loop payload offset zero i result = ok result
bit_loop payload offset (suc left) i result = elim (get_elem? payload ((offset + i) / 8)) [
  | none ↦ panicked
  | some byte ↦
      bit_loop payload offset left (i + 1)
        (bit_or result (bit_and (byte / 2 ^ ((offset + i) % 8)) 1 * 2 ^ i))
]

-- The general path of `extractBits`.
unfoldable pub extract_general : List ℕ → ℕ → ℕ → Outcome ℕ
extract_general payload offset width =
    let total_bits = length payload * 8 in
    if exceeds (add_int offset width) total_bits
    then err out_of_bounds
    else bit_loop payload offset width 0 0

-- The `switch` of the fast path; another width goes on to the general one.
unfoldable pub extract_aligned : List ℕ → ℕ → ℕ → Outcome ℕ
extract_aligned payload offset width =
    let start = offset / 8 in
    let end_ = start + width / 8 in
    if ltb (length payload) end_
    then err out_of_bounds
    else if width == 8
    then ok (get_or payload start 0)
    else if width == 16 || width == 32 || width == 64
    then ok (little_endian (slice payload start end_))
    else extract_general payload offset width

unfoldable pub extract_bits : List ℕ → ℤ → ℕ → Outcome ℕ
extract_bits payload (negsuc n) width = err negative_offset
extract_bits payload (pos offset) width =
    if width == 0
    then err zero_width
    else if offset % 8 == 0
    then extract_aligned payload offset width
    else extract_general payload offset width

-- `raw := make([]byte, byteLen); copy(raw, data[start:start+byteLen])`, after the test of the range.
-- A sum that wrapped passes that test; `make` refuses such a length.
unfoldable pub copy_range : List ℕ → ℕ → ℕ → Outcome (List ℕ)
copy_range payload start byte_len =
    if exceeds (add_int start byte_len) (length payload)
    then err out_of_bounds
    else if ltb (length payload) (start + byte_len)
    then panicked
    else ok (slice payload start (start + byte_len))

-- The byte-oriented types. Go's `/` and `%` round towards zero, so the sign is looked at last.
unfoldable pub decode_bytes_at : List ℕ → ℤ → ℤ → Outcome (List ℕ)
unfolding copy_range
decode_bytes_at payload start (negsuc n) = err bad_byte_len
decode_bytes_at payload start (pos zero) = err bad_byte_len
decode_bytes_at payload (negsuc n) (pos (suc m)) = err out_of_bounds
decode_bytes_at payload (pos start) (pos (suc m)) = copy_range payload start (suc m)

abbrev pub quot_8 : ℤ → ℤ
quot_8 (pos n) = pos (n / 8)
quot_8 (negsuc n) = if ltb n 7 then pos 0 else negsuc (suc n / 8 - 1)

unfoldable pub decode_bytes : List ℕ → ℤ → ℤ → Outcome (List ℕ)
unfolding decode_bytes_at
decode_bytes payload bit_offset byte_len =
    if (pos_part bit_offset + neg_part bit_offset) % 8 == 0
    then decode_bytes_at payload (quot_8 bit_offset) byte_len
    else err unaligned

-- The conversion of the extracted bits, by type.
unfoldable pub convert_raw : FloatOps → DataType → ℕ → Outcome Value
convert_raw ops bool raw = ok (record (zero_value bool) { bool_value = not (bit_and raw 1 == 0) })
convert_raw ops int8 raw = ok (record (zero_value int8) { int_value = signed 8 (raw % 2 ^ 8) })
convert_raw ops int16 raw = ok (record (zero_value int16) { int_value = signed 16 (raw % 2 ^ 16) })
convert_raw ops int32 raw = ok (record (zero_value int32) { int_value = signed 32 (raw % 2 ^ 32) })
convert_raw ops int64 raw = ok (record (zero_value int64) { int_value = signed 64 raw })
convert_raw ops uint8 raw = ok (record (zero_value uint8) { uint_value = raw })
convert_raw ops uint16 raw = ok (record (zero_value uint16) { uint_value = raw })
convert_raw ops uint32 raw = ok (record (zero_value uint32) { uint_value = raw })
convert_raw ops uint64 raw = ok (record (zero_value uint64) { uint_value = raw })
convert_raw ops float32 raw =
    ok (record (zero_value float32) { float_value = ops.of_float32 (raw % 2 ^ 32) })
convert_raw ops float64 raw = ok (record (zero_value float64) { float_value = raw })
convert_raw ops t raw = err unsupported_type

unfoldable pub decode_as : FloatOps → List ℕ → DataType → ℤ → ℤ → Outcome Value
decode_as ops payload (other s) bit_offset byte_len = err unsupported_type
decode_as ops payload bytes bit_offset byte_len = do
  raw ← decode_bytes payload bit_offset byte_len
  ok (record (zero_value bytes) { byte_values = raw })
decode_as ops payload visible_string bit_offset byte_len = do
  raw ← decode_bytes payload bit_offset byte_len
  ok (record (zero_value visible_string) { byte_values = raw; string_value = raw })
decode_as ops payload t bit_offset byte_len = do
  raw ← extract_bits payload bit_offset (bit_width t)
  convert_raw ops t raw

unfoldable pub decode : FloatOps → List ℕ → DataType → ℤ → ℤ → Outcome Value
unfolding decode_as
decode ops payload t bit_offset byte_len =
    if valid t then decode_as ops payload t bit_offset byte_len else err unsupported_type
