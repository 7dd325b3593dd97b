-- ===== src/SdoObserver/Sender.antt =====
-- The frames of a standard SDO transfer, as a client and a server put them on the bus (CiA 301):
-- an independent description for the theorems about the observer.
use otelcol_receiver_canopen.Prelude.{
  ℕ, ◌+◌, ◌*◌, ◌/◌, ◌%◌, ◌<◌, ◌≡◌, Bool, true, false, not, List, [], ◌∷◌, ◌++◌, length, All,
}
use otelcol_receiver_canopen.SdoObserver.Types.{client_to_server, server_to_client}
use otelcol_receiver_canopen.SdoObserver.Observe.{Observed, silent, Observer}
use otelcol_receiver_canopen.SdoObserver.Channels.{Arrival, step_on}

abbrev pub bit_of : Bool → ℕ
bit_of true = 1
bit_of false = 0

abbrev pub zeros : List ℕ
zeros = 0 ∷ 0 ∷ 0 ∷ 0 ∷ 0 ∷ 0 ∷ 0 ∷ []

-- A frame that names an object: a command, the index and the sub-index, and four more bytes.
pub record Object : Type 0 where
  pub index : ℕ
  pub sub_index : ℕ

abbrev pub IsObject : Object → Type 0
IsObject x = (x.index < 65536) × (x.sub_index < 256)

abbrev pub object_frame : ℕ → Object → List ℕ → List ℕ
object_frame command x tail = command ∷ (x.index % 256) ∷ (x.index / 256) ∷ x.sub_index ∷ tail

-- A segment carries up to seven bytes and is padded to eight with the command.
pub record Segment : Type 0 where
  pub chunk : List ℕ
  pub pad : List ℕ

abbrev pub IsSegment : Segment → Type 0
IsSegment s = length s.chunk + length s.pad ≡ 7

abbrev pub segment_command : Bool → ℕ → Bool → ℕ
segment_command toggle unused last = bit_of toggle * 16 + unused * 2 + bit_of last

abbrev pub segment_frame : Bool → Bool → Segment → List ℕ
segment_frame toggle last s = segment_command toggle (length s.pad) last ∷ (s.chunk ++ s.pad)

-- A payload cut into segments: full ones, and a last one.
pub record Cut : Type 0 where
  pub full : List (List ℕ)
  pub last : Segment

abbrev pub IsFull : List ℕ → Type 0
IsFull chunk = length chunk ≡ 7

abbrev pub IsCut : Cut → Type 0
IsCut c = All IsFull c.full × IsSegment c.last

abbrev pub concat : List (List ℕ) → List ℕ
concat [] = []
concat (x ∷ xs) = x ++ concat xs

abbrev pub whole : Cut → List ℕ
whole c = concat c.full ++ c.last.chunk

abbrev pub full_segment : List ℕ → Segment
full_segment chunk = record { chunk = chunk; pad = [] }

module _ (key node_id : ℕ) where
  abbrev pub from_client : List ℕ → Arrival
  from_client frame = record {
    key = key;
    node_id = node_id;
    direction = client_to_server;
    frame = frame;
  }

  abbrev pub from_server : List ℕ → Arrival
  from_server frame = record {
    key = key;
    node_id = node_id;
    direction = server_to_client;
    frame = frame;
  }

  -- The client sends segments, the server acknowledges each.
  abbrev pub download_segments : Bool → List (List ℕ) → Segment → List Arrival
  download_segments toggle [] last =
      from_client (segment_frame toggle true last)
      ∷ from_server ((0x20 + bit_of toggle * 16) ∷ zeros)
      ∷ []
  download_segments toggle (chunk ∷ full) last =
      from_client (segment_frame toggle false (full_segment chunk))
      ∷ from_server ((0x20 + bit_of toggle * 16) ∷ zeros)
      ∷ download_segments (not toggle) full last

  -- The client asks for each segment, and the server sends it.
  abbrev pub upload_segments : Bool → List (List ℕ) → Segment → List Arrival
  upload_segments toggle [] last =
      from_client ((0x60 + bit_of toggle * 16) ∷ zeros)
      ∷ from_server (segment_frame toggle true last)
      ∷ []
  upload_segments toggle (chunk ∷ full) last =
      from_client ((0x60 + bit_of toggle * 16) ∷ zeros)
      ∷ from_server (segment_frame toggle false (full_segment chunk))
      ∷ upload_segments (not toggle) full last

  -- A whole download of `c` to the object `x`; `sized` says that the total size is announced.
  abbrev pub download_dialogue : Object → Bool → List ℕ → Cut → List Arrival
  download_dialogue x sized size c =
      from_client (object_frame (0x20 + bit_of sized) x size)
      ∷ from_server (object_frame 0x60 x (0 ∷ 0 ∷ 0 ∷ 0 ∷ []))
      ∷ download_segments false c.full c.last

  abbrev pub upload_dialogue : Object → Bool → List ℕ → Cut → List Arrival
  upload_dialogue x sized size c =
      from_client (object_frame 0x40 x (0 ∷ 0 ∷ 0 ∷ 0 ∷ []))
      ∷ from_server (object_frame (0x40 + bit_of sized) x size)
      ∷ upload_segments false c.full c.last

-- What the observer reports over a sequence of frames, and the state that it ends in.
abbrev pub report : Observed → List Observed → List Observed
report silent rest = rest
report r rest = r ∷ rest

unfoldable pub watch : List Arrival → Observer → List Observed × Observer
watch [] o = ([], o)
watch (a ∷ rest) o =
    let (r, o') = step_on a o in let (rs, o'') = watch rest o' in (report r rs, o'')
