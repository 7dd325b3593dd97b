-- ===== src/Transport/Socket.antt =====
-- internal/cantransport/socketcan_linux.go: a connection over a SocketCAN interface, whose reads and
-- writes are those of the packages net and go.einride.tech/can.
use otelcol_receiver_canopen.Prelude.{
  ℕ, zero, suc, ◌%◌, ◌^◌, ◌≤◌, ◌<◌, ◌≡◌, refl, ap, String, Bool, true, false, Option, none, some,
  List, [], ◌∷◌, length, take, leb, if◌then◌else◌, arith,
}
use otelcol_receiver_canopen.Transport.{Frame}
use otelcol_receiver_canopen.Transport.Conn.{
  err_closed, wrapped, RecvResult, received, recv_failed, SendResult, sent, send_failed,
}

-- A `can.Frame`; `bytes` is an array of eight, `size` its `Length`, a uint8.
pub record WireFrame : Type 0 where
  pub id : ℕ
  pub extended : Bool
  pub size : ℕ
  pub bytes : List ℕ

-- `copy` into an array of that many zeros
unfoldable pub fill : ℕ → List ℕ → List ℕ
fill zero xs = []
fill (suc n) [] = 0 ∷ fill n []
fill (suc n) (x ∷ xs) = x ∷ fill n xs

abbrev pub max_data : ℕ
max_data = 8

-- What `Send` transmits.
unfoldable pub to_wire : Frame → WireFrame
to_wire f = record {
  id = f.id;
  extended = f.extended;
  size = length f.payload % 2 ^ 8;
  bytes = fill max_data f.payload;
}

-- What `Recv` makes of a received frame; a length above the array's panics.
unfoldable pub of_wire : WireFrame → Option Frame
of_wire w =
    if leb w.size max_data
    then some (record { id = w.id; extended = w.extended; payload = take w.size w.bytes })
    else none

-- What the socket does in one call of `Recv`: the error of setting the deadline, and what `Receive`
-- finds, with the error behind it when it finds no frame.
pub data Reading : Type 0 where
  no_deadline : String → Reading
  frame_read : WireFrame → Reading
  read_failed : String → Reading
  end_of_stream : Reading

-- `Recv`; a deadline is set if the context has one and is cleared otherwise. `none` is a panic.
unfoldable pub socket_recv : Bool → Reading → Option RecvResult
socket_recv true (no_deadline e) = some (recv_failed (wrapped "cantransport: set read deadline"))
socket_recv false (no_deadline e) = some (recv_failed (wrapped "cantransport: clear read deadline"))
socket_recv has_deadline (frame_read w) = elim (of_wire w) [
  | none ↦ none
  | some f ↦ some (received f)
]
socket_recv has_deadline (read_failed e) = some (recv_failed (wrapped "cantransport: receive"))
socket_recv has_deadline end_of_stream = some (recv_failed err_closed)

-- `Send`, with the error of `TransmitFrame` for the frame made.
unfoldable pub socket_send : (WireFrame → Option String) → Frame → SendResult
socket_send transmit f = elim (transmit (to_wire f)) [
  | none ↦ sent
  | some e ↦ send_failed (wrapped "cantransport: send")
]

take-fill : (n : ℕ) (xs : List ℕ) → length xs ≤ n → take (length xs) (fill n xs) ≡ xs
unfolding fill
take-fill n [] h = refl
take-fill zero (x ∷ xs) h = absurd (omega arith)
take-fill (suc n) (x ∷ xs) h = ap (◌∷◌ x) (take-fill n xs (omega arith))

-- The IDs that a CAN frame has: 11 bits, or 29 in an extended one.
abbrev pub id_bits : Bool → ℕ
id_bits false = 11
id_bits true = 29

abbrev pub IsCanFrame : WireFrame → Type 0
IsCanFrame w = (w.id < 2 ^ id_bits w.extended) × (w.size ≤ max_data)

-- A frame of at most eight bytes, whose ID fits into its 11 or 29 bits, that is sent and read back
-- at the other end, whether the reader's context has a deadline or not, is the same frame, over any
-- interface that carries every frame of such an ID and length as it was transmitted.
pub wire_roundtrip :
    (carry : WireFrame → WireFrame)
    → ((w : WireFrame) → IsCanFrame w → carry w ≡ w)
    → (f : Frame) (has_deadline : Bool) → f.id < 2 ^ id_bits f.extended
    → length f.payload ≤ max_data
    → socket_recv has_deadline (frame_read (carry (to_wire f))) ≡ some (received f)
unfolding socket_recv to_wire of_wire
wire_roundtrip carry carries f has_deadline fits h =
    let size : length f.payload % 2 ^ 8 ≡ length f.payload = omega arith in
    rw (carries (to_wire f) (fits, omega arith))
      (ground (arith, size, take-fill max_data f.payload h))
