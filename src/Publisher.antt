-- ===== src/Publisher.antt =====
-- cmd/canopen-publisher/main.go: the frames of the node that the development tool simulates.
pub mod Heard
use otelcol_receiver_canopen.Prelude.{
  ℕ, ◌+◌, ◌-◌, ◌/◌, ◌%◌, ◌^◌, Bool, true, false, not, ◌&&◌, ◌||◌, List, [], ◌∷◌, ltb, if◌then◌else◌,
}
use otelcol_receiver_canopen.Prelude.Int.{ℤ, pos, negsuc}
use otelcol_receiver_canopen.Transport.Socket.{WireFrame, fill, max_data}

-- The check of the flag `node`; a node that fails it ends the program.
unfoldable pub is_node : ℕ → Bool
is_node id = not (ltb id 1 || ltb 127 id)

-- What the `select` finds: a tick of a timer, that of the PDO with the speed, an int16 that the sine
-- of the elapsed time gives, or the end of the context.
pub data Tick : Type 0 where
  heartbeat_tick emcy_tick stopped : Tick
  pdo_tick : ℤ → Tick

abbrev pub wire : ℕ → ℕ → List ℕ → WireFrame
wire id size data_bytes = record {
  id = id;
  extended = false;
  size = size;
  bytes = fill max_data data_bytes;
}

-- `uint16` of an int16
abbrev pub uint16_of : ℤ → ℕ
uint16_of (pos n) = n % 2 ^ 16
uint16_of (negsuc n) = 2 ^ 16 - 1 - n % 2 ^ 16

abbrev pub boot_frame : ℕ → WireFrame
boot_frame id = wire (0x700 + id) 1 (0 ∷ [])

abbrev pub operational_frame : ℕ → WireFrame
operational_frame id = wire (0x700 + id) 1 (5 ∷ [])

abbrev pub speed_frame : ℕ → ℤ → WireFrame
speed_frame id speed =
    wire (0x180 + id) 2 ((uint16_of speed % 256) ∷ (uint16_of speed / 256 % 256) ∷ [])

abbrev pub emcy_frame : ℕ → WireFrame
emcy_frame id = wire (0x080 + id) 8 []

-- The loop over what the select finds. The timer of the EMCY frames ticks only where there is one.
unfoldable pub publish_loop : Bool → ℕ → List Tick → List WireFrame
publish_loop emcy id [] = []
publish_loop emcy id (stopped ∷ ticks) = []
publish_loop emcy id (heartbeat_tick ∷ ticks) = operational_frame id ∷ publish_loop emcy id ticks
publish_loop emcy id (pdo_tick speed ∷ ticks) = speed_frame id speed ∷ publish_loop emcy id ticks
publish_loop true id (emcy_tick ∷ ticks) = emcy_frame id ∷ publish_loop true id ticks
publish_loop false id (emcy_tick ∷ ticks) = publish_loop false id ticks

-- `main`, after the flags: nothing is sent for a node out of range.
unfoldable pub publish : Bool → ℕ → List Tick → List WireFrame
publish emcy id ticks = if is_node id then boot_frame id ∷ publish_loop emcy id ticks else []
