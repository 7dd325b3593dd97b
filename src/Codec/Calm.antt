-- ===== src/Codec/Calm.antt =====
-- internal/codec/codec.go: where `Decode` cannot panic.
use otelcol_receiver_canopen.Prelude.{
  ℕ, zero, suc, ◌+◌, ◌*◌, ◌/◌, ◌%◌, ◌^◌, ◌≤◌, ◌<◌, ◌≡◌, refl, Bool, true, false, ◌||◌, List,
  if◌then◌else◌, ◌==◌, nat_eq, ltb, length, get_elem?-eq-get_or, arith,
}
use otelcol_receiver_canopen.Prelude.Int.{ℤ, pos, negsuc, pos_part, neg_part}
use otelcol_receiver_canopen.Codec.Types.{
  DataType, bytes, visible_string, other, bit_width, valid, FloatOps,
}
use otelcol_receiver_canopen.Codec.Decode.{
  Outcome, ok, err, panicked, ◌>>=◌, add_int, exceeds, copy_range, decode_bytes_at, bit_loop,
  extract_general, extract_aligned, extract_bits, quot_8, decode_bytes, convert_raw, decode_as,
  decode,
}

-- The run did not panic.
abbrev pub IsCalm {ℓ} : {A : Type ℓ} → Outcome A → Type 0
IsCalm (ok a) = Unit
IsCalm (err e) = Unit
IsCalm panicked = ⊥

bit_loop-IsCalm :
    (payload : List ℕ) (offset left i result : ℕ)
    → offset + i + left ≤ length payload * 8
    → IsCalm (bit_loop payload offset left i result)
unfolding bit_loop
bit_loop-IsCalm payload offset zero i result h = tt
bit_loop-IsCalm payload offset (suc left) i result h =
    rw (get_elem?-eq-get_or payload ((offset + i) / 8) 0 (omega arith), IsCalm)
      (bit_loop-IsCalm payload offset left (i + 1) _ (omega arith))

either-IsCalm {ℓ} :
    {A : Type ℓ} (c : Bool) (x y : Outcome A)
    → (c ≡ true → IsCalm x)
    → (c ≡ false → IsCalm y)
    → IsCalm (if c then x else y)
either-IsCalm true x y h k = h refl
either-IsCalm false x y h k = k refl

in_range : (a b n : ℕ) → a + b < 2 ^ 63 → exceeds (add_int a b) n ≡ false → a + b ≤ n
in_range a b n h k = ground arith

extract_general-IsCalm :
    (payload : List ℕ) (offset width : ℕ)
    → offset + width < 2 ^ 63
    → IsCalm (extract_general payload offset width)
unfolding extract_general
extract_general-IsCalm payload offset width h =
    either-IsCalm (exceeds (add_int offset width) (length payload * 8)) _ _ (λ c. tt)
      λ c.
        bit_loop-IsCalm payload offset width 0 0
          (omega (arith, in_range offset width (length payload * 8) h c))

extract_aligned-IsCalm :
    (payload : List ℕ) (offset width : ℕ)
    → offset + width < 2 ^ 63
    → IsCalm (extract_aligned payload offset width)
unfolding extract_aligned
extract_aligned-IsCalm payload offset width h =
    either-IsCalm (ltb (length payload) (offset / 8 + width / 8)) _ _ (λ c. tt)
      λ c.
        either-IsCalm (width == 8) _ _ (λ d. tt)
          λ d.
            either-IsCalm (width == 16 || width == 32 || width == 64) _ _ (λ e. tt)
              λ e. extract_general-IsCalm payload offset width h

extract_bits-IsCalm :
    (payload : List ℕ) (offset : ℤ) (width : ℕ)
    → pos_part offset + width < 2 ^ 63
    → IsCalm (extract_bits payload offset width)
unfolding extract_bits
extract_bits-IsCalm payload (negsuc n) width h = tt
extract_bits-IsCalm payload (pos offset) width h =
    either-IsCalm (width == 0) _ _ (λ c. tt)
      λ c.
        either-IsCalm (offset % 8 == 0) _ _ (λ d. extract_aligned-IsCalm payload offset width h)
          λ d. extract_general-IsCalm payload offset width h

copy_range-IsCalm :
    (payload : List ℕ) (start byte_len : ℕ)
    → start + byte_len < 2 ^ 63
    → IsCalm (copy_range payload start byte_len)
unfolding copy_range
copy_range-IsCalm payload start byte_len h =
    either-IsCalm (exceeds (add_int start byte_len) (length payload)) _ _ (λ c. tt)
      λ c.
        either-IsCalm (ltb (length payload) (start + byte_len)) _ _
          (λ d. absurd (ground (arith, in_range start byte_len (length payload) h c))) λ d. tt

decode_bytes_at-IsCalm :
    (payload : List ℕ) (start byte_len : ℤ)
    → pos_part start + pos_part byte_len < 2 ^ 63
    → IsCalm (decode_bytes_at payload start byte_len)
unfolding decode_bytes_at
decode_bytes_at-IsCalm payload start (negsuc n) h = tt
decode_bytes_at-IsCalm payload start (pos zero) h = tt
decode_bytes_at-IsCalm payload (negsuc n) (pos (suc m)) h = tt
decode_bytes_at-IsCalm payload (pos start) (pos (suc m)) h =
    copy_range-IsCalm payload start (suc m) h

quot_8-le : (z : ℤ) → pos_part (quot_8 z) ≤ pos_part z
quot_8-le z = ground arith

decode_bytes-IsCalm :
    (payload : List ℕ) (offset byte_len : ℤ)
    → pos_part offset + pos_part byte_len < 2 ^ 63
    → IsCalm (decode_bytes payload offset byte_len)
unfolding decode_bytes
decode_bytes-IsCalm payload offset byte_len h =
    either-IsCalm ((pos_part offset + neg_part offset) % 8 == 0) _ _
      (λ c.
        decode_bytes_at-IsCalm payload (quot_8 offset) byte_len (omega (arith, quot_8-le offset)))
      λ d. tt

>>=-IsCalm {ℓ κ} :
    {A : Type ℓ} {B : Type κ} (x : Outcome A) (next : A → Outcome B)
    → IsCalm x
    → ((a : A) → IsCalm (next a))
    → IsCalm (x >>= next)
>>=-IsCalm (ok a) next h k = k a
>>=-IsCalm (err e) next h k = tt
>>=-IsCalm panicked next h k = h

convert_raw-IsCalm : (ops : FloatOps) (t : DataType) (raw : ℕ) → IsCalm (convert_raw ops t raw)
unfolding convert_raw
convert_raw-IsCalm ops t raw = ground arith

bit_width-le : (t : DataType) → bit_width t ≤ 64
unfolding bit_width
bit_width-le t = ground arith

module _ (ops : FloatOps) (payload : List ℕ) (offset byte_len : ℤ) where
  extracted-IsCalm :
      (t : DataType)
      → pos_part offset < 2 ^ 62
      → IsCalm (extract_bits payload offset (bit_width t) >>= convert_raw ops t)
  extracted-IsCalm t h =
      >>=-IsCalm _ _
        (extract_bits-IsCalm payload offset (bit_width t) (omega (arith, bit_width-le t)))
        (convert_raw-IsCalm ops t)

  decode_as-IsCalm :
      (t : DataType)
      → pos_part offset < 2 ^ 62
      → pos_part byte_len < 2 ^ 62
      → IsCalm (decode_as ops payload t offset byte_len)
  unfolding decode_as
  decode_as-IsCalm (other s) h k = tt
  decode_as-IsCalm bytes h k =
      >>=-IsCalm _ _ (decode_bytes-IsCalm payload offset byte_len (omega arith)) λ raw. tt
  decode_as-IsCalm visible_string h k =
      >>=-IsCalm _ _ (decode_bytes-IsCalm payload offset byte_len (omega arith)) λ raw. tt
  decode_as-IsCalm t h k = extracted-IsCalm t h

  -- Decoding never panics, whatever the payload and the type, for an offset and a length below
  -- 2 ^ 62: it gives a value or an error.
  pub decode-IsCalm :
      (t : DataType)
      → pos_part offset < 2 ^ 62
      → pos_part byte_len < 2 ^ 62
      → IsCalm (decode ops payload t offset byte_len)
  unfolding decode
  decode-IsCalm t h k = either-IsCalm (valid t) _ _ (λ c. decode_as-IsCalm t h k) λ c. tt
