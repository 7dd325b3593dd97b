-- ===== src/SdoPoller/Poll.antt =====
-- sdo_poller.go: one attempt to upload an object, and the loop that repeats it.
use otelcol_receiver_canopen.Prelude.{
  ℕ, ◌+◌, ◌*◌, ◌/◌, ◌%◌, ◌^◌, bit_and, bit_or, Bool, true, false, not, ◌&&◌, ◌||◌, Option, none,
  some, List, [], ◌∷◌, ltb, if◌then◌else◌, ◌==◌, nat_eq, length, get_or,
}
use otelcol_receiver_canopen.Prelude.Maps.{Map, lookup, insert}
use otelcol_receiver_canopen.Transport.{Frame}
use otelcol_receiver_canopen.Config.Types.{
  SdoObjectConfig, SdoChannelConfig, SdoPollConfig, is_empty,
}
use otelcol_receiver_canopen.RawPoller.Retries.{Turn, Outcome, retry_loop, or_default}

-- The attempt under way; `result` is the one place of its channel, `some` of whether it succeeded.
pub record ActivePoll : Type 0 where
  pub object : SdoObjectConfig
  pub server_cob_id : ℕ
  pub segment : Bool
  pub toggle : Bool
  pub result : Option Bool

-- `newSDOPoller`: the last channel of a node stays.
unfoldable pub poll_channels :
    List SdoChannelConfig → Map ℕ SdoChannelConfig → Map ℕ SdoChannelConfig
poll_channels [] m = m
poll_channels (c ∷ rest) m = poll_channels rest (insert c.node_id c m)

abbrev pub predefined : ℕ → SdoChannelConfig
predefined node_id = record {
  node_id = node_id;
  client_to_server_cob_id = 0x600 + node_id;
  server_to_client_cob_id = 0x580 + node_id;
}

abbrev channel_or : ℕ → Option SdoChannelConfig → SdoChannelConfig
channel_or node_id none = predefined node_id
channel_or node_id (some c) = c

unfoldable pub channel_of : Map ℕ SdoChannelConfig → SdoObjectConfig → SdoChannelConfig
channel_of channels o = channel_or o.node_id (lookup o.node_id channels)

-- What `poll` sends and awaits. The time-out and the context are the world's.
abbrev pub upload_request : Map ℕ SdoChannelConfig → SdoObjectConfig → Frame
upload_request channels o = record {
  id = (channel_of channels o).client_to_server_cob_id;
  extended = false;
  payload = 0x40 ∷ (o.index % 2 ^ 8) ∷ (o.index / 2 ^ 8) ∷ o.sub_index ∷ 0 ∷ 0 ∷ 0 ∷ 0 ∷ [];
}

abbrev pub new_poll : Map ℕ SdoChannelConfig → SdoObjectConfig → ActivePoll
new_poll channels o = record {
  object = o;
  server_cob_id = (channel_of channels o).server_to_client_cob_id;
  segment = false;
  toggle = false;
  result = none;
}

unfoldable pub start_poll : Map ℕ SdoChannelConfig → SdoObjectConfig → Frame × ActivePoll
start_poll channels o = (upload_request channels o, new_poll channels o)

abbrev pub bool_byte : Bool → ℕ
bool_byte true = 0x10
bool_byte false = 0

abbrev first_of : Option Bool → Bool → Bool
first_of none ok = ok
first_of (some r) ok = r

-- `finishLocked`: a second result is dropped.
unfoldable pub finish : ActivePoll → Bool → ActivePoll
finish p ok = record p { result = some (first_of p.result ok) }

-- What `handleFrame` sends, and the attempt that it leaves.
abbrev pub Answered : Type 0
Answered = Option Frame × ActivePoll

abbrev pub segment_request : Map ℕ SdoChannelConfig → ActivePoll → Frame
segment_request channels p = record {
  id = (channel_of channels p.object).client_to_server_cob_id;
  extended = false;
  payload = bit_or 0x60 (bool_byte p.toggle) ∷ 0 ∷ 0 ∷ 0 ∷ 0 ∷ 0 ∷ 0 ∷ 0 ∷ [];
}

-- The index and the sub-index of a response are those of the object.
abbrev pub names_object : List ℕ → SdoObjectConfig → Bool
names_object payload o =
    not (ltb (length payload) 4)
    && bit_or (get_or payload 1 0) (get_or payload 2 0 * 2 ^ 8) == o.index
    && get_or payload 3 0 == o.sub_index

abbrev ask_segment : Map ℕ SdoChannelConfig → ActivePoll → Answered
ask_segment channels p = (some (segment_request channels p), p)

-- The response to the first request: all of the value, or the start of segments.
unfoldable pub on_initiate : Map ℕ SdoChannelConfig → List ℕ → ActivePoll → Answered
on_initiate channels payload p =
    if not (names_object payload p.object)
    then (none, p)
    else if not (bit_and (get_or payload 0 0) 0x02 == 0)
    then (none, finish p true)
    else ask_segment channels (record p { segment = true; toggle = false })

unfoldable pub on_segment : Map ℕ SdoChannelConfig → List ℕ → ActivePoll → Answered
on_segment channels payload p =
    if not (bit_and (get_or payload 0 0) 0x10 == bool_byte p.toggle)
    then (none, finish p false)
    else if not (bit_and (get_or payload 0 0) 0x01 == 0)
    then (none, finish p true)
    else ask_segment channels (record p { toggle = not p.toggle })

unfoldable pub on_response : Map ℕ SdoChannelConfig → List ℕ → ActivePoll → Answered
on_response channels payload p =
    if get_or payload 0 0 == 0x80
    then (none, if names_object payload p.object then finish p false else p)
    else if p.segment
    then on_segment channels payload p
    else on_initiate channels payload p

-- `handleFrame` while an attempt is under way; without one it does nothing.
unfoldable pub answer_frame : Map ℕ SdoChannelConfig → Frame → ActivePoll → Answered
answer_frame channels f p =
    if f.extended || not (f.id == p.server_cob_id) || is_empty f.payload
    then (none, p)
    else on_response channels f.payload p

-- `pollUntilSuccess`: the first pause is not cut to the largest.
unfoldable pub poll_until_success : (ℕ → Turn) → ℕ → SdoPollConfig → Outcome
poll_until_success turns fuel s =
    retry_loop turns s.retry s.max_retries (or_default s.max_backoff 60_000_000_000) fuel 0
      (or_default s.backoff 1_000_000_000)
