-- ===== src/SdoPoller/Sniffed.antt =====
-- sdo_poller.go and receiver.go: what the sniffer sees of a polled upload. A request is sniffed when
-- it is sent, which is before the response that it answers is.
use otelcol_receiver_canopen.Prelude.{
  ℕ, ◌≡◌, refl, Bool, true, false, not, Option, none, some, List, [], ◌∷◌, ◌++◌, length, All, arith,
  nat_eq,
}
use mathlib.Core.Path.{subst}
use otelcol_receiver_canopen.Prelude.Maps.{Map, lookup, lookup-insert_self}
use otelcol_receiver_canopen.Transport.{Frame}
use otelcol_receiver_canopen.Config.Types.{SdoObjectConfig, SdoChannelConfig}
use otelcol_receiver_canopen.SdoObserver.Observe.{Observer, silent, emitted, forget, store}
use otelcol_receiver_canopen.SdoObserver.Types.{complete}
use otelcol_receiver_canopen.SdoObserver.Channels.{Arrival, step_on}
use otelcol_receiver_canopen.SdoObserver.Sender.{
  IsObject, Segment, IsSegment, Cut, IsFull, IsCut, concat, whole, full_segment, upload_segments,
  upload_dialogue, from_client, from_server, watch,
}
use otelcol_receiver_canopen.SdoObserver.Segments.{
  uploading, server_segment, upload_request, upload_start, upload_confirmed,
}
use otelcol_receiver_canopen.SdoObserver.Reports.{
  uploaded, Reports, Reports-store, Reports-keep, Reports-last, append-chunk,
}
use otelcol_receiver_canopen.SdoPoller.Poll.{ActivePoll, answer_frame, start_poll, segment_request}
use otelcol_receiver_canopen.SdoPoller.Upload.{
  server_frames, object_of, server_id, in_segments, segment_step, last_step, first_step,
}

module _ (key node_id : ℕ) where
  abbrev with_request : Option Frame → List Arrival → List Arrival
  with_request none rest = rest
  with_request (some f) rest = from_client key node_id f.payload ∷ rest

  -- The frames of the server and the poll's own, in the order in which the dispatch loop has them
  -- sniffed.
  unfoldable pub sniffed_frames : Map ℕ SdoChannelConfig → List Frame → ActivePoll → List Arrival
  sniffed_frames channels [] p = []
  sniffed_frames channels (f ∷ fs) p =
      let (sent, p') = answer_frame channels f p in
      let rest = sniffed_frames channels fs p' in
      with_request sent (from_server key node_id f.payload ∷ rest)

  module _ (channels : Map ℕ SdoChannelConfig) (o : SdoObjectConfig) where
    request_silent :
        (toggle : Bool) (ob : Observer)
        → step_on
            (from_client key node_id
              (segment_request channels (in_segments channels o toggle)).payload)
            ob
          ≡ (silent, ob)
    request_silent true ob = upload_request key node_id ob true
    request_silent false ob = upload_request key node_id ob false

    segments_sniffed :
        (full : List (List ℕ)) (last : Segment) (toggle : Bool) (payload : List ℕ) (ob : Observer)
        → All IsFull full
        → IsSegment last
        → lookup key ob.transfers ≡ some (uploading node_id (object_of o) true toggle payload)
        → Reports
            (sniffed_frames channels
              (server_frames (server_id channels o) (upload_segments key node_id toggle full last))
              (in_segments channels o toggle))
            key
            (uploaded node_id (object_of o) (payload ++ (concat full ++ last.chunk)))
            ob
    unfolding sniffed_frames complete
    segments_sniffed [] last toggle payload ob hf hl found =
        rw (last_step channels o toggle last hl) (
          Reports-last key node_id (object_of o) _ _ ob (
            server_segment key node_id (object_of o) toggle true payload last hl (λ e. cc) ob
              found))
    segments_sniffed (chunk ∷ full) last toggle payload ob hf hl found =
        let x = object_of o in
        let t = uploading node_id x true (not toggle) (payload ++ chunk) in
        let ob' = store key t ob in
        let kept : lookup key ob'.transfers ≡ some t = lookup-insert_self key t ob.transfers in
        let rest = segments_sniffed full last (not toggle) (payload ++ chunk) ob' hf.1 hl kept in
        let segment =
          server_segment key node_id x toggle false payload (full_segment chunk)
            (omega (arith, hf.0)) (λ e. refl) ob found in
        rw (segment_step channels o toggle chunk) (
          Reports-keep key node_id x _ _ _ ob (request_silent (not toggle) ob) (
            Reports-store key node_id x _ _ t _ ob segment (
              subst
                (λ p.
                  Reports
                    (sniffed_frames channels
                      (server_frames (server_id channels o)
                        (upload_segments key node_id (not toggle) full last))
                      (in_segments channels o (not toggle)))
                    key (uploaded node_id x p) ob')
                (append-chunk key node_id x payload chunk full last.chunk) rest)))

    -- A polled upload in any number of segments, from whatever state the observer is in: although
    -- the poll's next request is sniffed before the response that it answers, the observer reports
    -- the object once, with exactly the bytes that the server sent and no error, and the channel is
    -- free afterwards.
    pub polled_upload_observed :
        (sized : Bool) (size : List ℕ) (c : Cut) (ob : Observer)
        → length size ≡ 4
        → IsObject (object_of o)
        → IsCut c
        → watch
            (from_client key node_id (start_poll channels o).0.payload
              ∷ sniffed_frames channels
                  (server_frames
                    (server_id channels o)
                    (upload_dialogue key node_id (object_of o) sized size c))
                  (start_poll channels o).1)
            ob
          ≡ (emitted (uploaded node_id (object_of o) (whole c)) ∷ [], forget key ob)
    unfolding sniffed_frames start_poll
    polled_upload_observed sized size c ob four h cut =
        let x = object_of o in
        let t = uploading node_id x false false [] in
        let ob' = store key t ob in
        let t' = uploading node_id x true false [] in
        let ob'' = store key t' ob' in
        let kept : lookup key ob'.transfers ≡ some t = lookup-insert_self key t ob.transfers in
        let kept' : lookup key ob''.transfers ≡ some t' = lookup-insert_self key t' ob'.transfers in
        Reports-store key node_id x _ _ t _ ob (upload_start key node_id ob x _ refl) (
          rw (first_step channels o sized size h) (
            Reports-keep key node_id x _ _ _ ob' (request_silent false ob') (
              Reports-store key node_id x _ _ t' _ ob'
                (upload_confirmed key node_id ob' x size four sized kept)
                (segments_sniffed c.full c.last false [] ob'' cut.0 cut.1 kept'))))
