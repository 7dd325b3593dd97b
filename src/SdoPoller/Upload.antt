-- ===== src/SdoPoller/Upload.antt =====
-- sdo_poller.go: the frames of `handleFrame` over a whole segmented upload.
use otelcol_receiver_canopen.Prelude.{
  ℕ, suc, ltb, ◌+◌, ◌*◌, ◌/◌, ◌%◌, ◌≤◌, ◌≡◌, refl, ap, ◌∙◌, bit_and, bit_or, Bool, true, false, not,
  Option, none, some, List, [], ◌∷◌, if◌then◌else◌, ◌==◌, nat_eq, length, beq_self, arith,
}
use otelcol_receiver_canopen.Prelude.Maps.{Map}
use otelcol_receiver_canopen.Prelude.Bits.{bit_and_1, bit_and_16, bit_or_high}
use otelcol_receiver_canopen.Transport.{Frame}
use otelcol_receiver_canopen.SdoObserver.Types.{Direction, client_to_server}
use otelcol_receiver_canopen.SdoObserver.Channels.{Arrival}
use otelcol_receiver_canopen.SdoObserver.Sender.{
  bit_of, zeros, Object, IsObject, object_frame, Segment, IsSegment, segment_command, segment_frame,
  Cut, IsCut, full_segment, upload_segments, upload_dialogue,
}
use otelcol_receiver_canopen.Config.Types.{SdoObjectConfig, SdoChannelConfig}
use otelcol_receiver_canopen.SdoPoller.Poll.{
  ActivePoll, channel_of, answer_frame, on_response, on_initiate, on_segment, segment_request,
  finish, start_poll, new_poll, bool_byte,
}

abbrev pub with_sent : Option Frame → List Frame → List Frame
with_sent none rest = rest
with_sent (some f) rest = f ∷ rest

-- The frames that a poll sends over the frames that arrive, and the poll that is left.
unfoldable pub answer_all :
    Map ℕ SdoChannelConfig → List Frame → ActivePoll → List Frame × ActivePoll
answer_all channels [] p = ([], p)
answer_all channels (f ∷ fs) p =
    let (s, p') = answer_frame channels f p in
    let (rest, p'') = answer_all channels fs p' in (with_sent s rest, p'')

abbrev pub frame_on : ℕ → List ℕ → Frame
frame_on id payload = record { id = id; extended = false; payload = payload }

abbrev is_from_client : Direction → Bool
is_from_client client_to_server = true
is_from_client _ = false

-- What the client and the server put on the bus in a dialogue, as frames of the channel.
abbrev pub client_frames : ℕ → List Arrival → List Frame
client_frames id [] = []
client_frames id (a ∷ as') =
    if is_from_client a.direction
    then frame_on id a.frame ∷ client_frames id as'
    else client_frames id as'

abbrev pub server_frames : ℕ → List Arrival → List Frame
server_frames id [] = []
server_frames id (a ∷ as') =
    if is_from_client a.direction
    then server_frames id as'
    else frame_on id a.frame ∷ server_frames id as'

abbrev pub object_of : SdoObjectConfig → Object
object_of o = record { index = o.index; sub_index = o.sub_index }

cons_cong : (x y : Frame) (xs ys : List Frame) → x ≡ y → xs ≡ ys → x ∷ xs ≡ y ∷ ys
cons_cong x y xs ys h k = cc

-- How the poller reads the command byte of a last segment.
last_command :
    (toggle : Bool) (unused : ℕ)
    → unused ≤ 7
    → ((segment_command toggle unused true == 0x80) ≡ false)
      × ((bit_and (segment_command toggle unused true) 0x10 == bool_byte toggle) ≡ true)
      × ((bit_and (segment_command toggle unused true) 0x01 == 0) ≡ false)
last_command true unused h = ground (
  arith,
  bit_and_16 (segment_command true unused true),
  bit_and_1 (segment_command true unused true),
)
last_command false unused h = ground (
  arith,
  bit_and_16 (segment_command false unused true),
  bit_and_1 (segment_command false unused true),
)

pub index_joined :
    (o : SdoObjectConfig)
    → IsObject (object_of o)
    → bit_or (o.index % 256) (o.index / 256 * 256) ≡ o.index
index_joined o h = bit_or_high 8 (o.index % 256) (o.index / 256) (omega arith) ∙ omega arith

pub not_short : (n : ℕ) → ltb (suc (suc (suc (suc n)))) 4 ≡ false
not_short n = ground arith

module _ (channels : Map ℕ SdoChannelConfig) (o : SdoObjectConfig) where
  abbrev pub client_id : ℕ
  client_id = (channel_of channels o).client_to_server_cob_id

  abbrev pub server_id : ℕ
  server_id = (channel_of channels o).server_to_client_cob_id

  -- The poll in the middle of the segments.
  abbrev pub in_segments : Bool → ActivePoll
  in_segments toggle = record (new_poll channels o) { segment = true; toggle = toggle }

  pub segment_step :
      (toggle : Bool) (chunk : List ℕ)
      → answer_frame channels
          (frame_on server_id (segment_frame toggle false (full_segment chunk)))
          (in_segments toggle)
        ≡ (some (segment_request channels (in_segments (not toggle))), in_segments (not toggle))
  unfolding answer_frame on_response on_segment
  segment_step true chunk = rw (beq_self server_id) refl
  segment_step false chunk = rw (beq_self server_id) refl

  pub last_step :
      (toggle : Bool) (s : Segment)
      → IsSegment s
      → answer_frame channels
          (frame_on server_id (segment_frame toggle true s))
          (in_segments toggle)
        ≡ (none, finish (in_segments toggle) true)
  unfolding answer_frame on_response on_segment
  last_step toggle s h =
      let (ne, same, last) = last_command toggle (length s.pad) (omega arith) in
      rw (beq_self server_id) (rw ne (rw same (rw last refl)))

  pub request_frame :
      (toggle : Bool)
      → segment_request channels (in_segments toggle)
        ≡ frame_on client_id ((0x60 + bit_of toggle * 16) ∷ zeros)
  request_frame true = refl
  request_frame false = refl

  segments_polled :
      (key node_id : ℕ) (toggle : Bool) (full : List (List ℕ)) (last : Segment)
      → IsSegment last
      → (segment_request channels (in_segments toggle)
            ∷ (answer_all channels
                (server_frames server_id (upload_segments key node_id toggle full last))
                (in_segments toggle)).0
          ≡ client_frames client_id (upload_segments key node_id toggle full last))
        × ((answer_all channels
              (server_frames server_id (upload_segments key node_id toggle full last))
              (in_segments toggle)).1.result
            ≡ some true)
  unfolding answer_all finish
  segments_polled key node_id toggle [] last h =
      rw (last_step toggle last h) (ap (λ (f : Frame). f ∷ []) (request_frame toggle), refl)
  segments_polled key node_id toggle (chunk ∷ full) last h =
      let (frames, result) = segments_polled key node_id (not toggle) full last h in
      rw (segment_step toggle chunk) (cons_cong _ _ _ _ (request_frame toggle) frames, result)

  pub first_step :
      (sized : Bool) (size : List ℕ)
      → IsObject (object_of o)
      → answer_frame channels
          (frame_on server_id (object_frame (0x40 + bit_of sized) (object_of o) size))
          (new_poll channels o)
        ≡ (some (segment_request channels (in_segments false)), in_segments false)
  unfolding answer_frame on_response on_initiate
  first_step true size h = rw (not_short (length size)) (
      rw (index_joined o h)
        (rw (beq_self server_id) (rw (beq_self o.index) (rw (beq_self o.sub_index) refl))))
  first_step false size h = rw (not_short (length size)) (
      rw (index_joined o h)
        (rw (beq_self server_id) (rw (beq_self o.index) (rw (beq_self o.sub_index) refl))))

  -- Over the frames of a server that uploads the object in segments, the poll sends exactly the
  -- client's frames of that dialogue, in its order, and succeeds.
  pub upload_polled :
      (key node_id : ℕ) (sized : Bool) (size : List ℕ) (c : Cut)
      → IsObject (object_of o)
      → IsCut c
      → ((start_poll channels o).0
            ∷ (answer_all channels
                (server_frames server_id (upload_dialogue key node_id (object_of o) sized size c))
                (start_poll channels o).1).0
          ≡ client_frames client_id (upload_dialogue key node_id (object_of o) sized size c))
        × ((answer_all channels
              (server_frames server_id (upload_dialogue key node_id (object_of o) sized size c))
              (start_poll channels o).1).1.result
            ≡ some true)
  unfolding answer_all start_poll
  upload_polled key node_id sized size c h k =
      let (frames, result) = segments_polled key node_id false c.full c.last k.1 in
      (
        rw (first_step sized size h) (cons_cong _ _ _ _ refl frames),
        rw (first_step sized size h, answer_all) result,
      )
