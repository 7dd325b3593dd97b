-- ===== src/SdoObserver/Segments.antt =====
-- One frame of a transfer at a time.
use otelcol_receiver_canopen.Prelude.{
  ℕ, ◌+◌, ◌*◌, ◌≡◌, refl, Bool, true, false, not, none, some, List, [], ◌∷◌, ◌++◌, length,
  if◌then◌else◌, nat_eq, beq_self,
}
use otelcol_receiver_canopen.Prelude.Maps.{lookup}
use otelcol_receiver_canopen.SdoObserver.Types.{
  client_to_server, server_to_client, upload, download, Transfer, object_sub_index, complete,
}
use otelcol_receiver_canopen.SdoObserver.Observe.{
  Observer, silent, emitted, forget, store, segment_of, observe_segment, observe_client,
  observe_server, server_of, upload_response, by_direction, observe_on_channel,
}
use otelcol_receiver_canopen.SdoObserver.Sender.{
  bit_of, zeros, Object, object_frame, Segment, IsSegment, segment_frame,
}
use otelcol_receiver_canopen.SdoObserver.FrameFields.{
  object_index-object_frame, is_segment_command, pad-le, apply_segment-segment_frame,
  length-segment_frame, segment_command-ne,
}

-- Transfers under way, with what has come so far.
abbrev pub downloading : ℕ → Object → Bool → List ℕ → Transfer
downloading node_id x toggle payload = record {
  node_id = node_id;
  direction = client_to_server;
  operation = download;
  index = x.index;
  sub_index = x.sub_index;
  upload_initiated = false;
  toggle = toggle;
  payload = payload;
}

abbrev pub uploading : ℕ → Object → Bool → Bool → List ℕ → Transfer
uploading node_id x initiated toggle payload = record {
  node_id = node_id;
  direction = server_to_client;
  operation = upload;
  index = x.index;
  sub_index = x.sub_index;
  upload_initiated = initiated;
  toggle = toggle;
  payload = payload;
}

module _ (key node_id : ℕ) (x : Object) (toggle last : Bool) (payload : List ℕ) (s : Segment)
    (h : IsSegment s) (full : last ≡ false → s.pad ≡ []) where
  -- A client's segment of a download that is under way.
  pub client_segment :
      (o : Observer)
      → lookup key o.transfers ≡ some (downloading node_id x toggle payload)
      → observe_on_channel key node_id client_to_server (segment_frame toggle last s) o ≡ (
          if last
          then (
            emitted (complete (downloading node_id x toggle payload) (payload ++ s.chunk)),
            forget key o,
          )
          else (silent, store key (downloading node_id x (not toggle) (payload ++ s.chunk)) o))
  unfolding observe_on_channel by_direction observe_client observe_segment segment_of
  client_segment o found =
      let small = pad-le s h in
      rw
        (
          length-segment_frame toggle last s h,
          (segment_command-ne toggle last (length s.pad) small).0,
          is_segment_command toggle last (length s.pad) small,
          found,
        )
        (apply_segment-segment_frame key last s (downloading node_id x toggle payload) o h full)

  -- A server's segment of an upload that it has confirmed.
  pub server_segment :
      (o : Observer)
      → lookup key o.transfers ≡ some (uploading node_id x true toggle payload)
      → observe_on_channel key node_id server_to_client (segment_frame toggle last s) o ≡ (
          if last
          then (
            emitted (complete (uploading node_id x true toggle payload) (payload ++ s.chunk)),
            forget key o,
          )
          else (silent, store key (uploading node_id x true (not toggle) (payload ++ s.chunk)) o))
  unfolding observe_on_channel by_direction observe_server server_of observe_segment segment_of
  server_segment o found =
      let small = pad-le s h in
      rw
        (
          length-segment_frame toggle last s h,
          (segment_command-ne toggle last (length s.pad) small).2,
          found,
          is_segment_command toggle last (length s.pad) small,
          found,
        )
        (apply_segment-segment_frame key last s (uploading node_id x true toggle payload) o h full)

module _ (key node_id : ℕ) (o : Observer) where
  -- What the other side says in between changes nothing.
  pub download_ack :
      (x : Object) (toggle t : Bool) (payload : List ℕ)
      → lookup key o.transfers ≡ some (downloading node_id x t payload)
      → observe_on_channel key node_id server_to_client ((0x20 + bit_of toggle * 16) ∷ zeros) o
        ≡ (silent, o)
  unfolding observe_on_channel by_direction observe_server server_of
  download_ack x true t payload found = rw found refl
  download_ack x false t payload found = rw found refl

  pub idle_ack :
      (toggle : Bool)
      → lookup key o.transfers ≡ none
      → observe_on_channel key node_id server_to_client ((0x20 + bit_of toggle * 16) ∷ zeros) o
        ≡ (silent, o)
  unfolding observe_on_channel by_direction observe_server server_of
  idle_ack true found = rw found refl
  idle_ack false found = rw found refl

  pub upload_request :
      (toggle : Bool)
      → observe_on_channel key node_id client_to_server ((0x60 + bit_of toggle * 16) ∷ zeros) o
        ≡ (silent, o)
  unfolding observe_on_channel by_direction observe_client
  upload_request true = refl
  upload_request false = refl

  -- The frames that start a transfer.
  module _ (x : Object) (size : List ℕ) (four : length size ≡ 4) where
    pub download_start :
        (sized : Bool)
        → observe_on_channel key node_id client_to_server
            (object_frame (0x20 + bit_of sized) x size)
            o
          ≡ (silent, store key (downloading node_id x false []) o)
    unfolding observe_on_channel by_direction observe_client object_sub_index
    download_start true = rw (four, object_index-object_frame 0x21 x size) refl
    download_start false = rw (four, object_index-object_frame 0x20 x size) refl

    pub upload_start :
        observe_on_channel key node_id client_to_server (object_frame 0x40 x size) o
        ≡ (silent, store key (uploading node_id x false false []) o)
    unfolding observe_on_channel by_direction observe_client object_sub_index
    upload_start = rw (four, object_index-object_frame 0x40 x size) refl

    pub upload_confirmed :
        (sized : Bool)
        → lookup key o.transfers ≡ some (uploading node_id x false false [])
        → observe_on_channel key node_id server_to_client
            (object_frame (0x40 + bit_of sized) x size)
            o
          ≡ (silent, store key (uploading node_id x true false []) o)
    unfolding observe_on_channel by_direction observe_server server_of upload_response
        object_sub_index
    upload_confirmed true found =
        rw
          (
            four,
            found,
            object_index-object_frame 0x41 x size,
            beq_self x.index,
            beq_self x.sub_index,
          )
          refl
    upload_confirmed false found =
        rw
          (
            four,
            found,
            object_index-object_frame 0x40 x size,
            beq_self x.index,
            beq_self x.sub_index,
          )
          refl
