-- ===== src/Codec/Roundtrip.antt =====
-- `Decode` after an encoder: what a device writes into a frame is what the receiver reads.
use mathlib.Core.Path.{subst}
use native.Mathlib.Nat.{pow-suc, one-le-pow, div-lt_iff_lt-mul, mod-eq_of_lt}
use otelcol_receiver_canopen.Prelude.{
  ℕ, zero, suc, ◌+◌, ◌-◌, ◌*◌, ◌/◌, ◌%◌, ◌^◌, ◌≤◌, ◌<◌, ◌≡◌, refl, sym, ap, ◌∙◌, List, [], ◌∷◌,
  ◌++◌, arith, length, length-append, take-append, drop-append,
}
use otelcol_receiver_canopen.Prelude.Int.{ℤ, pos, negsuc, signed}
use otelcol_receiver_canopen.Codec.Types.{
  DataType, int8, int16, int32, int64, uint8, uint16, uint32, uint64, bit_width, valid, zero_value,
  FloatOps,
}
use otelcol_receiver_canopen.Codec.Decode.{
  ok, panicked, little_endian, slice, extract_bits, convert_raw, decode_bytes, decode_as, decode,
}
use otelcol_receiver_canopen.Codec.Field.{IsBytes, field}
use otelcol_receiver_canopen.Codec.Range.{max_int, add-sub_self, slice-field, extract_bits-eq-field}

-- The encoder: `n` bytes, the lowest first.
abbrev pub le_bytes : ℕ → ℕ → List ℕ
le_bytes zero v = []
le_bytes (suc n) v = (v % 256) ∷ le_bytes n (v / 256)

-- The two's complement pattern of a number in `w` bits.
abbrev pub pattern_of : ℕ → ℤ → ℕ
pattern_of w (pos n) = n
pattern_of w (negsuc n) = 2 ^ w - 1 - n

abbrev pub FitsSigned : ℕ → ℤ → Type 0
FitsSigned w (pos n) = n < 2 ^ (w - 1)
FitsSigned w (negsuc n) = n < 2 ^ (w - 1)

abbrev pub IsSigned : DataType → Type 0
IsSigned int8 = Unit
IsSigned int16 = Unit
IsSigned int32 = Unit
IsSigned int64 = Unit
IsSigned _ = ⊥

abbrev pub IsUnsigned : DataType → Type 0
IsUnsigned uint8 = Unit
IsUnsigned uint16 = Unit
IsUnsigned uint32 = Unit
IsUnsigned uint64 = Unit
IsUnsigned _ = ⊥

length-le_bytes : (n v : ℕ) → length (le_bytes n v) ≡ n
length-le_bytes zero v = refl
length-le_bytes (suc n) v = ap suc (length-le_bytes n (v / 256))

little_endian-le_bytes : (n v : ℕ) → v < 256 ^ n → little_endian (le_bytes n v) ≡ v
unfolding little_endian
little_endian-le_bytes zero v h = omega arith
little_endian-le_bytes (suc n) v h = omega (
  arith,
  little_endian-le_bytes n (v / 256) ((div-lt_iff_lt-mul (omega arith)).1 (rw (← pow-suc 256 n) h)),
)

slice-append :
    (pre mid post : List ℕ)
    → slice (pre ++ (mid ++ post)) (length pre) (length pre + length mid) ≡ mid
slice-append pre mid post =
    rw (add-sub_self (length pre) (length mid), drop-append pre (mid ++ post))
      (take-append mid post)

field-append :
    (pre mid post : List ℕ)
    → IsBytes (pre ++ (mid ++ post))
    → field (pre ++ (mid ++ post)) (8 * length pre) (8 * length mid) ≡ little_endian mid
field-append pre mid post hb =
    sym (slice-field (pre ++ (mid ++ post)) (length pre) (length mid) hb)
    ∙ ap little_endian (slice-append pre mid post)

-- The frame around the encoded value is no longer than Go's `int` can count in bits.
abbrev pub IsFrame : List ℕ → Type 0
IsFrame payload = IsBytes payload × (length payload * 8 < max_int)

extract-append :
    (pre post : List ℕ) (n v : ℕ)
    → IsFrame (pre ++ (le_bytes n v ++ post))
    → 0 < n
    → v < 256 ^ n
    → extract_bits (pre ++ (le_bytes n v ++ post)) (pos (8 * length pre)) (8 * n) ≡ ok v
extract-append pre post n v hf hn hv =
    let whole = pre ++ (le_bytes n v ++ post) in
    let fits : 8 * length pre + 8 * n ≤ length whole * 8 = omega (
      arith,
      length-append pre (le_bytes n v ++ post),
      length-append (le_bytes n v) post,
      length-le_bytes n v,
    ) in
    extract_bits-eq-field whole (8 * length pre) (8 * n) hf.0 hf.1 (omega arith) fits
    ∙ ap ok (
        ap (λ (k : ℕ). field whole (8 * length pre) (8 * k)) (sym (length-le_bytes n v))
        ∙ field-append pre (le_bytes n v) post hf.0
        ∙ little_endian-le_bytes n v hv)

suc-sub-one : (w : ℕ) → suc w - 1 ≡ w
suc-sub-one w = omega arith

signed-pattern_of : (w : ℕ) (z : ℤ) → 0 < w → FitsSigned w z → signed w (pattern_of w z) ≡ z
signed-pattern_of w (pos n) hw h = ground arith
signed-pattern_of zero (negsuc n) hw h = absurd (omega arith)
signed-pattern_of (suc w) (negsuc n) hw h =
    let double = pow-suc 2 w in
    let half : suc w - 1 ≡ w = omega arith in
    let small : n < 2 ^ w = subst (λ k. n < 2 ^ k) half h in
    ground (arith, double, ap (λ (k : ℕ). 2 ^ k) half)

pattern_of-lt : (w : ℕ) (z : ℤ) → 0 < w → FitsSigned w z → pattern_of w z < 2 ^ w
pattern_of-lt zero z hw h = absurd (omega arith)
pattern_of-lt (suc w) (pos n) hw h =
    omega (arith, pow-suc 2 w, subst (λ k. n < 2 ^ k) (suc-sub-one w) h)
pattern_of-lt (suc w) (negsuc n) hw h = omega (arith, one-le-pow (suc w) 2 (omega arith))

signed-of_raw : (w : ℕ) (z : ℤ) → 0 < w → FitsSigned w z → signed w (pattern_of w z % 2 ^ w) ≡ z
signed-of_raw w z hw h = rw (mod-eq_of_lt (pattern_of-lt w z hw h)) (signed-pattern_of w z hw h)

-- An integer that a device stores in two's complement at a byte boundary of a frame is decoded to
-- that integer, for each signed type, whatever surrounds it.
pub decode-le_bytes_signed :
    (ops : FloatOps) (t : DataType) (pre post : List ℕ) (z len : ℤ)
    → IsSigned t
    → FitsSigned (bit_width t) z
    → IsFrame (pre ++ (le_bytes (bit_width t / 8) (pattern_of (bit_width t) z) ++ post))
    → decode ops
        (pre ++ (le_bytes (bit_width t / 8) (pattern_of (bit_width t) z) ++ post))
        t
        (pos (8 * length pre))
        len
      ≡ ok (record (zero_value t) { int_value = z })
unfolding decode decode_as convert_raw valid bit_width
decode-le_bytes_signed ops int8 pre post z len ht hz hf =
    rw
      (extract-append pre post 1 (pattern_of 8 z) hf (omega arith)
        (pattern_of-lt 8 z (omega arith) hz))
      (rw (signed-of_raw 8 z (omega arith) hz) refl)
decode-le_bytes_signed ops int16 pre post z len ht hz hf =
    rw
      (extract-append pre post 2 (pattern_of 16 z) hf (omega arith)
        (pattern_of-lt 16 z (omega arith) hz))
      (rw (signed-of_raw 16 z (omega arith) hz) refl)
decode-le_bytes_signed ops int32 pre post z len ht hz hf =
    rw
      (extract-append pre post 4 (pattern_of 32 z) hf (omega arith)
        (pattern_of-lt 32 z (omega arith) hz))
      (rw (signed-of_raw 32 z (omega arith) hz) refl)
decode-le_bytes_signed ops int64 pre post z len ht hz hf =
    rw
      (extract-append pre post 8 (pattern_of 64 z) hf (omega arith)
        (pattern_of-lt 64 z (omega arith) hz))
      (rw (signed-pattern_of 64 z (omega arith) hz) refl)
decode-le_bytes_signed ops _ pre post z len ht hz hf = elim ht [ ]

-- An unsigned integer that a device stores at a byte boundary of a frame is decoded to itself.
pub decode-le_bytes_unsigned :
    (ops : FloatOps) (t : DataType) (pre post : List ℕ) (v : ℕ) (len : ℤ)
    → IsUnsigned t
    → v < 256 ^ (bit_width t / 8)
    → IsFrame (pre ++ (le_bytes (bit_width t / 8) v ++ post))
    → decode ops (pre ++ (le_bytes (bit_width t / 8) v ++ post)) t (pos (8 * length pre)) len
      ≡ ok (record (zero_value t) { uint_value = v })
unfolding decode decode_as convert_raw valid bit_width
decode-le_bytes_unsigned ops uint8 pre post v len ht hv hf =
    rw (extract-append pre post 1 v hf (omega arith) hv) refl
decode-le_bytes_unsigned ops uint16 pre post v len ht hv hf =
    rw (extract-append pre post 2 v hf (omega arith) hv) refl
decode-le_bytes_unsigned ops uint32 pre post v len ht hv hf =
    rw (extract-append pre post 4 v hf (omega arith) hv) refl
decode-le_bytes_unsigned ops uint64 pre post v len ht hv hf =
    rw (extract-append pre post 8 v hf (omega arith) hv) refl
decode-le_bytes_unsigned ops _ pre post v len ht hv hf = elim ht [ ]

-- A byte range at a byte boundary within the payload is decoded to exactly those bytes.
pub decode_bytes-append :
    (pre raw post : List ℕ)
    → 0 < length raw
    → length (pre ++ (raw ++ post)) < max_int
    → decode_bytes (pre ++ (raw ++ post)) (pos (8 * length pre)) (pos (length raw)) ≡ ok raw
unfolding decode_bytes
decode_bytes-append pre [] post hr hm = absurd (omega arith)
decode_bytes-append pre (x ∷ raw) post hr hm =
    let n = length pre in
    let aligned : 8 * n % 8 ≡ 0 = omega arith in
    let start : 8 * n / 8 ≡ n = omega arith in
    ground (
      arith,
      aligned,
      start,
      slice-append pre (x ∷ raw) post,
      length-append pre (x ∷ raw ++ post),
      length-append (x ∷ raw) post,
    )

-- Where the end of a byte range passes the largest `int`, the sum wraps, the range test lets the
-- range through, and the copy panics.
pub decode_bytes_wrap_panics :
    (payload : List ℕ) (offset len : ℕ)
    → offset % 8 ≡ 0
    → offset < max_int
    → 0 < len
    → len < max_int
    → max_int ≤ offset / 8 + len
    → length payload < max_int
    → decode_bytes payload (pos offset) (pos len) ≡ panicked
unfolding decode_bytes
decode_bytes_wrap_panics payload offset zero ha ho hn hl h hm = absurd (omega arith)
decode_bytes_wrap_panics payload offset (suc len) ha ho hn hl h hm = ground arith
