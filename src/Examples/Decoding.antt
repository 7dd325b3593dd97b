-- ===== src/Examples/Decoding.antt =====
-- Runs of internal/codec/codec.go.
use otelcol_receiver_canopen.Prelude.{ℕ, ◌≡◌, refl, List, [], ◌∷◌, arith}
use otelcol_receiver_canopen.Prelude.Int.{pos, negsuc}
use otelcol_receiver_canopen.Codec.Types.{int16, FloatOps, bit_width, valid, zero_value}
use otelcol_receiver_canopen.Codec.Decode.{
  ok, err, panicked, out_of_bounds, extract_bits, extract_general, extract_aligned, bit_loop,
  little_endian, decode, decode_bytes, decode_as, convert_raw,
}
use otelcol_receiver_canopen.Codec.Field.{field}
use otelcol_receiver_canopen.Codec.Range.{
  extract_bits-eq-field, extract_bits_out_of_range, extract_bits_wrap_panics,
}
use otelcol_receiver_canopen.Codec.Roundtrip.{
  decode-le_bytes_signed, decode_bytes-append, decode_bytes_wrap_panics,
}

-- Float operations for tests that look at no float.
abbrev no_floats : FloatOps
no_floats = record {
  of_float32 = λ x. x;
  of_int64 = λ x. 0;
  of_uint64 = λ x. x;
  mul = λ x y. x;
  add = λ x y. x;
}

abbrev frame : List ℕ
frame = 0x34 ∷ 0x12 ∷ 0xFE ∷ 0xFF ∷ []

-- Four bits from the middle of a byte, and a word.
extracts :
    (extract_bits frame (pos 4) 4 ≡ ok 3)
    × (extract_bits frame (pos 0) 16 ≡ ok 0x1234)
    × (extract_bits frame (pos 12) 8 ≡ ok 0xE1)
    × (extract_bits frame (pos 28) 8 ≡ err out_of_bounds)
unfolding extract_bits extract_general extract_aligned bit_loop little_endian
extracts = (refl, refl, refl, refl)

minus_two :
    decode no_floats frame int16 (pos 16) (pos 0)
    ≡ ok (record (zero_value int16) { int_value = negsuc 1 })
unfolding decode decode_as extract_bits extract_aligned little_endian convert_raw bit_width valid
minus_two = refl

extract_bits-eq-field_example : extract_bits frame (pos 12) 8 ≡ ok (field frame 12 8)
extract_bits-eq-field_example =
    extract_bits-eq-field frame 12 8 (omega arith) (omega arith) (omega arith) (omega arith)

extract_bits_out_of_range_example : extract_bits frame (pos 28) 8 ≡ err out_of_bounds
extract_bits_out_of_range_example =
    extract_bits_out_of_range frame 28 8 (omega arith) (omega arith) (omega arith)

extract_bits_wrap_panics_example : extract_bits frame (pos 9223372036854775807) 8 ≡ panicked
extract_bits_wrap_panics_example =
    extract_bits_wrap_panics frame 9223372036854775807 8 (omega arith) (omega arith) (omega arith)
      (omega arith) (omega arith)

decode-le_bytes_signed_example :
    decode no_floats (7 ∷ 0xFE ∷ 0xFF ∷ 9 ∷ []) int16 (pos 8) (pos 0)
    ≡ ok (record (zero_value int16) { int_value = negsuc 1 })
unfolding bit_width
decode-le_bytes_signed_example =
    decode-le_bytes_signed no_floats int16 (7 ∷ []) (9 ∷ []) (negsuc 1) (pos 0) tt (omega arith)
      (omega arith)

decode_bytes-append_example : decode_bytes frame (pos 8) (pos 2) ≡ ok (0x12 ∷ 0xFE ∷ [])
decode_bytes-append_example =
    decode_bytes-append (0x34 ∷ []) (0x12 ∷ 0xFE ∷ []) (0xFF ∷ []) (omega arith) (omega arith)

decode_bytes_wrap_panics_example : decode_bytes frame (pos 8) (pos 9223372036854775807) ≡ panicked
decode_bytes_wrap_panics_example =
    decode_bytes_wrap_panics frame 8 9223372036854775807 (omega arith) (omega arith) (omega arith)
      (omega arith) (omega arith) (omega arith)
