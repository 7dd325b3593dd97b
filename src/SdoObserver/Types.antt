-- ===== src/SdoObserver/Types.antt =====
-- internal/sdoobserver/observer.go: events, transfers, and the fields of an SDO frame.
use otelcol_receiver_canopen.Prelude.{
  ℕ, ◌-◌, ◌*◌, ◌/◌, ◌^◌, bit_and, bit_or, String, Bool, not, Option, none, List, if◌then◌else◌,
  ◌==◌, nat_eq, get_or, take, drop,
}

-- A string in the source; `other_direction` stands for every string that is no constant.
pub data Direction : Type 0 where
  client_to_server server_to_client : Direction
  other_direction : String → Direction

abbrev pub sdo_frame_length : ℕ
sdo_frame_length = 8

-- The three strings that the source gives an operation.
pub data Operation : Type 0 where
  upload download abort : Operation

pub record Event : Type 0 where
  pub node_id : ℕ
  pub direction : Direction
  pub operation : Operation
  pub index : ℕ
  pub sub_index : ℕ
  pub payload : List ℕ
  pub abort_code : Option ℕ

pub record Transfer : Type 0 where
  pub node_id : ℕ
  pub direction : Direction
  pub operation : Operation
  pub index : ℕ
  pub sub_index : ℕ
  pub upload_initiated : Bool
  pub toggle : Bool
  pub payload : List ℕ

-- `command & mask != 0`
abbrev pub is_set : ℕ → ℕ → Bool
is_set command mask = not (bit_and command mask == 0)

-- Byte `i` of a frame; callers have checked the length.
abbrev pub byte_at : List ℕ → ℕ → ℕ
byte_at frame i = get_or frame i 0

unfoldable pub object_index : List ℕ → ℕ
object_index frame = bit_or (byte_at frame 1) (byte_at frame 2 * 2 ^ 8)

unfoldable pub object_sub_index : List ℕ → ℕ
object_sub_index frame = byte_at frame 3

-- `objectAddress`
unfoldable pub object_address : List ℕ → ℕ × ℕ
unfolding object_index object_sub_index
object_address frame = (object_index frame, object_sub_index frame)

-- The four bytes of an abort code, the lowest first.
unfoldable pub abort_code_of : List ℕ → ℕ
abort_code_of frame =
    bit_or (bit_or (bit_or (byte_at frame 4) (byte_at frame 5 * 2 ^ 8)) (byte_at frame 6 * 2 ^ 16))
      (byte_at frame 7 * 2 ^ 24)

-- `frame[start:8-unused]`
abbrev pub cut : List ℕ → ℕ → ℕ → List ℕ
cut frame start unused = take (8 - unused - start) (drop start frame)

unfoldable pub expedited_data : ℕ → List ℕ → List ℕ
expedited_data command frame =
    if bit_and command 0x01 == 0
    then cut frame 4 0
    else cut frame 4 (bit_and (command / 2 ^ 2) 0x03)

unfoldable pub complete : Transfer → List ℕ → Event
complete t payload = record {
  node_id = t.node_id;
  direction = t.direction;
  operation = t.operation;
  index = t.index;
  sub_index = t.sub_index;
  payload = payload;
  abort_code = none;
}
