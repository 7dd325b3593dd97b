-- ===== src/SdoObserver/Observe.antt =====
-- internal/sdoobserver/observer.go: the observer, and its step on one frame. The source keeps
-- pointers to transfers in its map; a change through one is a write of the changed transfer here.
use otelcol_receiver_canopen.Prelude.{
  ℕ, ◌/◌, bit_and, Bool, true, false, not, ◌&&◌, ◌||◌, Option, none, some, List, [], ◌++◌, ltb,
  if◌then◌else◌, ◌==◌, nat_eq, length,
}
use otelcol_receiver_canopen.Prelude.Maps.{Map, lookup, insert, delete}
use otelcol_receiver_canopen.SdoObserver.Types.{
  Direction, client_to_server, server_to_client, other_direction, sdo_frame_length, Operation,
  upload, download, abort, Event, Transfer, is_set, byte_at, object_index, object_sub_index,
  abort_code_of, cut, expedited_data, complete,
}

pub record Observer : Type 0 where
  pub transfers : Map ℕ Transfer

unfoldable pub new : Observer
new = record { transfers = [] }

pub data ObserverError : Type 0 where
  truncated_frame unknown_direction unexpected_toggle : ObserverError

-- The pair of an event pointer and an error: nothing, an event, or an error.
pub data Observed : Type 0 where
  silent : Observed
  emitted : Event → Observed
  failed : ObserverError → Observed

abbrev pub forget : ℕ → Observer → Observer
forget key o = record { transfers = delete key o.transfers }

abbrev pub store : ℕ → Transfer → Observer → Observer
store key t o = record { transfers = insert key t o.transfers }

abbrev pub Step : Type 0
Step = Observer → Observed × Observer

abbrev pub bool_eq : Bool → Bool → Bool
bool_eq true b = b
bool_eq false b = not b

abbrev pub same_direction : Direction → Direction → Bool
same_direction client_to_server client_to_server = true
same_direction server_to_client server_to_client = true
same_direction _ _ = false

abbrev pub is_upload : Operation → Bool
is_upload upload = true
is_upload _ = false

abbrev pub is_download : Operation → Bool
is_download download = true
is_download _ = false

-- The segment's bytes: only the last one has unused bytes.
unfoldable pub segment_data : ℕ → List ℕ → List ℕ
segment_data command frame =
    cut frame 1 (if is_set command 0x01 then bit_and (command / 2) 0x07 else 0)

-- What a segment does to the transfer that it belongs to.
unfoldable pub apply_segment : ℕ → ℕ → List ℕ → Transfer → Step
apply_segment key command frame t o =
    let joined = t.payload ++ segment_data command frame in
    if not (bool_eq (is_set command 0x10) t.toggle)
    then (failed unexpected_toggle, forget key o)
    else if is_set command 0x01
    then (emitted (complete t joined), forget key o)
    else (silent, store key (record t { payload = joined; toggle = not t.toggle }) o)

-- `observeSegment`, at the transfer found on the channel.
unfoldable pub segment_of : ℕ → Direction → ℕ → List ℕ → Option Transfer → Step
segment_of key direction command frame none o = (silent, o)
segment_of key direction command frame (some t) o =
    if not (same_direction t.direction direction)
    then (silent, o)
    else if is_upload t.operation && not t.upload_initiated
    then (silent, o)
    else apply_segment key command frame t o

unfoldable pub observe_segment : ℕ → Direction → ℕ → List ℕ → Step
observe_segment key direction command frame o =
    segment_of key direction command frame (lookup key o.transfers) o

abbrev pub fresh : ℕ → Direction → Operation → List ℕ → Transfer
fresh node_id direction operation frame = record {
  node_id = node_id;
  direction = direction;
  operation = operation;
  index = object_index frame;
  sub_index = object_sub_index frame;
  upload_initiated = false;
  toggle = false;
  payload = [];
}

abbrev pub expedited_download : ℕ → ℕ → List ℕ → Event
expedited_download node_id command frame = record {
  node_id = node_id;
  direction = client_to_server;
  operation = download;
  index = object_index frame;
  sub_index = object_sub_index frame;
  payload = expedited_data command frame;
  abort_code = none;
}

unfoldable pub observe_client : ℕ → ℕ → ℕ → List ℕ → Step
observe_client key node_id command frame o =
    if command == 0x40
    then (silent, store key (fresh node_id server_to_client upload frame) o)
    else if bit_and command 0xE0 == 0x20
    then (if is_set command 0x02
        then (emitted (expedited_download node_id command frame), o)
        else (silent, store key (fresh node_id client_to_server download frame) o))
    else if is_set command 0xE0
    then (silent, o)
    else observe_segment key client_to_server command frame o

-- The server's answer that starts an upload, for the transfer on the channel.
unfoldable pub upload_response : ℕ → ℕ → List ℕ → Transfer → Step
upload_response key command frame t o =
    if not (object_index frame == t.index) || not (object_sub_index frame == t.sub_index)
    then (silent, o)
    else if is_set command 0x02
    then (emitted (complete t (expedited_data command frame)), forget key o)
    else (silent, store key (record t { upload_initiated = true }) o)

-- `observeServer`, at the transfer found on the channel.
unfoldable pub server_of : ℕ → ℕ → List ℕ → Option Transfer → Step
server_of key command frame none o = (silent, o)
server_of key command frame (some t) o =
    if is_upload t.operation && bit_and command 0xE0 == 0x40
    then upload_response key command frame t o
    else if is_download t.operation && command == 0x60
    then (silent, o)
    else if is_set command 0xE0
    then (silent, o)
    else observe_segment key server_to_client command frame o

unfoldable pub observe_server : ℕ → ℕ → List ℕ → Step
observe_server key command frame o = server_of key command frame (lookup key o.transfers) o

abbrev pub abort_event : ℕ → List ℕ → Event
abort_event node_id frame = record {
  node_id = node_id;
  direction = server_to_client;
  operation = abort;
  index = object_index frame;
  sub_index = object_sub_index frame;
  payload = [];
  abort_code = some (abort_code_of frame);
}

unfoldable pub by_direction : ℕ → ℕ → Direction → List ℕ → Step
by_direction key node_id client_to_server frame o =
    observe_client key node_id (byte_at frame 0) frame o
by_direction key node_id server_to_client frame o =
    if byte_at frame 0 == 0x80
    then (emitted (abort_event node_id frame), forget key o)
    else observe_server key (byte_at frame 0) frame o
by_direction key node_id (other_direction s) frame o = (failed unknown_direction, o)

-- `ObserveOnChannel`. The abort of a server is tested first there, which is the same.
unfoldable pub observe_on_channel : ℕ → ℕ → Direction → List ℕ → Step
observe_on_channel key node_id direction frame o =
    if length frame == 0
    then (silent, o)
    else if ltb (length frame) sdo_frame_length
    then (failed truncated_frame, o)
    else by_direction key node_id direction frame o

unfoldable pub observe : ℕ → Direction → List ℕ → Step
observe node_id direction frame o = observe_on_channel node_id node_id direction frame o
