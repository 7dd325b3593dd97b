-- ===== src/Codec/Types.antt =====
-- internal/codec/codec.go: the data types, the decoded value, and its conversions to numbers and
-- to log bodies.
use otelcol_receiver_canopen.Prelude.{
  ℕ, String, Bool, true, false, ◌||◌, List, [], if◌then◌else◌, ◌==◌, nat_eq,
}
use otelcol_receiver_canopen.Prelude.Int.{ℤ, pos}
use otelcol_receiver_canopen.Prelude.Text.{hex_upper}

-- `DataType` is a string in the source; `other` stands for every string that is no constant.
pub data DataType : Type 0 where
  bool int8 int16 int32 int64 uint8 uint16 uint32 uint64 float32 float64 bytes : DataType
  visible_string : DataType
  other : String → DataType

unfoldable pub bit_width : DataType → ℕ
bit_width bool = 1
bit_width int8 = 8
bit_width uint8 = 8
bit_width int16 = 16
bit_width uint16 = 16
bit_width int32 = 32
bit_width uint32 = 32
bit_width float32 = 32
bit_width int64 = 64
bit_width uint64 = 64
bit_width float64 = 64
bit_width _ = 0

unfoldable pub valid : DataType → Bool
valid (other s) = false
valid _ = true

-- A float64 is its IEEE 754 bit pattern, a number below 2 ^ 64.
abbrev pub Float64 : Type 0
Float64 = ℕ

-- The arithmetic of the machine on such patterns, a parameter of whatever computes with floats.
pub record FloatOps : Type 0 where
  pub of_float32 : ℕ → Float64
  pub of_int64 : ℤ → Float64
  pub of_uint64 : ℕ → Float64
  pub mul : Float64 → Float64 → Float64
  pub add : Float64 → Float64 → Float64

abbrev pub float_zero : Float64
float_zero = 0

abbrev pub float_one : Float64
float_one = 0x3FF0000000000000

-- `x == 0` holds of both zeros.
abbrev pub is_zero : Float64 → Bool
is_zero x = x == 0 || x == 0x8000000000000000

pub record Value : Type 0 where
  pub type : DataType
  pub bool_value : Bool
  pub int_value : ℤ
  pub uint_value : ℕ
  pub float_value : Float64
  pub byte_values : List ℕ
  pub string_value : List ℕ

abbrev pub zero_value : DataType → Value
zero_value t = record {
  type = t;
  bool_value = false;
  int_value = pos 0;
  uint_value = 0;
  float_value = float_zero;
  byte_values = [];
  string_value = [];
}

-- What a Go `any` holds in an attribute or a log body. A string made of payload bytes need not be
-- text, so it stays a list of bytes.
pub data Any : Type 0 where
  text : String → Any
  byte_text : List ℕ → Any
  truth : Bool → Any
  integer : ℤ → Any
  unsigned : ℕ → Any
  real : Float64 → Any
  other_kind : String → Any

module _ (ops : FloatOps) where
  of_bool : Bool → Float64
  of_bool true = float_one
  of_bool false = float_zero

  as_float_of : DataType → Value → Float64
  unfolding of_bool
  as_float_of bool v = of_bool v.bool_value
  as_float_of int8 v = ops.of_int64 v.int_value
  as_float_of int16 v = ops.of_int64 v.int_value
  as_float_of int32 v = ops.of_int64 v.int_value
  as_float_of int64 v = ops.of_int64 v.int_value
  as_float_of uint8 v = ops.of_uint64 v.uint_value
  as_float_of uint16 v = ops.of_uint64 v.uint_value
  as_float_of uint32 v = ops.of_uint64 v.uint_value
  as_float_of uint64 v = ops.of_uint64 v.uint_value
  as_float_of float32 v = v.float_value
  as_float_of float64 v = v.float_value
  as_float_of _ v = float_zero

  -- Dispatch on the value's own type.
  unfoldable pub as_float : Value → Float64
  unfolding as_float_of
  as_float v = as_float_of v.type v

  unfoldable pub apply_scale : Value → Float64 → Float64 → Float64
  unfolding as_float
  apply_scale v scale offset =
      let scale' = if is_zero scale then float_one else scale in
      ops.add (ops.mul (as_float v) scale') offset

  body_value_of : DataType → Value → Float64 → Float64 → Any
  body_value_of bytes v scale offset = text (hex_upper v.byte_values)
  body_value_of visible_string v scale offset = byte_text v.string_value
  body_value_of _ v scale offset = real (apply_scale v scale offset)

  unfoldable pub body_value : Value → Float64 → Float64 → Any
  unfolding body_value_of apply_scale
  body_value v scale offset = body_value_of v.type v scale offset
