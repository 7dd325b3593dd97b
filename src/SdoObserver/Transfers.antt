-- ===== src/SdoObserver/Transfers.antt =====
-- Whole transfers: what the sender cut into frames, the observer puts together again.
use mathlib.Core.Path.{subst}
use otelcol_receiver_canopen.Prelude.{
  ℕ, ◌≡◌, refl, Bool, true, false, not, some, List, [], ◌∷◌, ◌++◌, arith, length, All, nat_eq,
}
use otelcol_receiver_canopen.Prelude.Maps.{lookup, lookup-insert_self}
use otelcol_receiver_canopen.SdoObserver.Types.{server_to_client, complete}
use otelcol_receiver_canopen.SdoObserver.Observe.{
  Observer, silent, emitted, forget, store, observe_on_channel, by_direction, observe_server,
  server_of,
}
use otelcol_receiver_canopen.SdoObserver.Sender.{
  Object, object_frame, Segment, IsSegment, Cut, IsFull, IsCut, concat, whole, full_segment,
  download_segments, upload_segments, download_dialogue, upload_dialogue, watch,
}
use otelcol_receiver_canopen.SdoObserver.Segments.{
  downloading, uploading, client_segment, server_segment, download_ack, idle_ack, upload_request,
  download_start, upload_start, upload_confirmed,
}
use otelcol_receiver_canopen.SdoObserver.Reports.{
  downloaded, uploaded, Reports, lookup-forget, Reports-store, Reports-keep, Reports-last,
  Reports-last_ack, append-chunk,
}

module _ (key node_id : ℕ) (x : Object) where
  download_segments-reported :
      (full : List (List ℕ)) (last : Segment) (toggle : Bool) (payload : List ℕ) (o : Observer)
      → All IsFull full
      → IsSegment last
      → lookup key o.transfers ≡ some (downloading node_id x toggle payload)
      → Reports
          (download_segments key node_id toggle full last)
          key
          (downloaded node_id x (payload ++ (concat full ++ last.chunk)))
          o
  unfolding complete
  download_segments-reported [] last toggle payload o hf hl found =
      Reports-last_ack key node_id x _ _ _ o
        (client_segment key node_id x toggle true payload last hl (λ e. cc) o found)
        (idle_ack key node_id (forget key o) toggle (lookup-forget key node_id x o))
  download_segments-reported (chunk ∷ full) last toggle payload o hf hl found =
      let t = downloading node_id x (not toggle) (payload ++ chunk) in
      let o' = store key t o in
      let kept : lookup key o'.transfers ≡ some t = lookup-insert_self key t o.transfers in
      let rest =
        download_segments-reported full last (not toggle) (payload ++ chunk) o' hf.1 hl kept in
      Reports-store key node_id x _ _ t _ o
        (client_segment key node_id x toggle false payload (full_segment chunk)
          (omega (arith, hf.0)) (λ e. refl) o found)
        (Reports-keep key node_id x _ _ _ o'
          (download_ack key node_id o' x toggle (not toggle) (payload ++ chunk) kept)
          (subst
            (λ p.
              Reports (download_segments key node_id (not toggle) full last) key
                (downloaded node_id x p) o')
            (append-chunk key node_id x payload chunk full last.chunk) rest))

  upload_segments-reported :
      (full : List (List ℕ)) (last : Segment) (toggle : Bool) (payload : List ℕ) (o : Observer)
      → All IsFull full
      → IsSegment last
      → lookup key o.transfers ≡ some (uploading node_id x true toggle payload)
      → Reports
          (upload_segments key node_id toggle full last)
          key
          (uploaded node_id x (payload ++ (concat full ++ last.chunk)))
          o
  unfolding complete
  upload_segments-reported [] last toggle payload o hf hl found =
      Reports-keep key node_id x _ _ _ o (upload_request key node_id o toggle) (
        Reports-last key node_id x _ _ o
          (server_segment key node_id x toggle true payload last hl (λ e. cc) o found))
  upload_segments-reported (chunk ∷ full) last toggle payload o hf hl found =
      let t = uploading node_id x true (not toggle) (payload ++ chunk) in
      let o' = store key t o in
      let kept : lookup key o'.transfers ≡ some t = lookup-insert_self key t o.transfers in
      let rest =
        upload_segments-reported full last (not toggle) (payload ++ chunk) o' hf.1 hl kept in
      let segment =
        server_segment key node_id x toggle false payload (full_segment chunk) (omega (arith, hf.0))
          (λ e. refl) o found in
      Reports-keep key node_id x _ _ _ o (upload_request key node_id o toggle) (
        Reports-store key node_id x _ _ t _ o segment (
          subst
            (λ p.
              Reports (upload_segments key node_id (not toggle) full last) key
                (uploaded node_id x p) o')
            (append-chunk key node_id x payload chunk full last.chunk) rest))

  download_init_ack :
      (o : Observer) (toggle : Bool) (payload : List ℕ)
      → lookup key o.transfers ≡ some (downloading node_id x toggle payload)
      → observe_on_channel key node_id server_to_client (object_frame 0x60 x (0 ∷ 0 ∷ 0 ∷ 0 ∷ [])) o
        ≡ (silent, o)
  unfolding observe_on_channel by_direction observe_server server_of
  download_init_ack o toggle payload found = rw found refl

-- A segmented download in any number of segments, from whatever state the observer is in: it is
-- reported once, with the node, the object and exactly the bytes that the client sent, no error is
-- reported, and the channel is free afterwards.
pub download_reconstructed :
    (key node_id : ℕ) (x : Object) (sized : Bool) (size : List ℕ) (c : Cut) (o : Observer)
    → length size ≡ 4
    → IsCut c
    → watch (download_dialogue key node_id x sized size c) o
      ≡ (emitted (downloaded node_id x (whole c)) ∷ [], forget key o)
download_reconstructed key node_id x sized size c o four cut =
    let t = downloading node_id x false [] in
    let o' = store key t o in
    let kept : lookup key o'.transfers ≡ some t = lookup-insert_self key t o.transfers in
    Reports-store key node_id x _ _ t _ o (download_start key node_id o x size four sized) (
      Reports-keep key node_id x _ _ _ o' (download_init_ack key node_id x o' false [] kept)
        (download_segments-reported key node_id x c.full c.last false [] o' cut.0 cut.1 kept))

-- A segmented upload in any number of segments, from whatever state the observer is in: it is
-- reported once, with the node, the object and exactly the bytes that the server sent, no error is
-- reported, and the channel is free afterwards.
pub upload_reconstructed :
    (key node_id : ℕ) (x : Object) (sized : Bool) (size : List ℕ) (c : Cut) (o : Observer)
    → length size ≡ 4
    → IsCut c
    → watch (upload_dialogue key node_id x sized size c) o
      ≡ (emitted (uploaded node_id x (whole c)) ∷ [], forget key o)
upload_reconstructed key node_id x sized size c o four cut =
    let t = uploading node_id x false false [] in
    let o' = store key t o in
    let t' = uploading node_id x true false [] in
    let o'' = store key t' o' in
    let kept : lookup key o'.transfers ≡ some t = lookup-insert_self key t o.transfers in
    let kept' : lookup key o''.transfers ≡ some t' = lookup-insert_self key t' o'.transfers in
    Reports-store key node_id x _ _ t _ o (upload_start key node_id o x _ refl) (
      Reports-store key node_id x _ _ t' _ o'
        (upload_confirmed key node_id o' x size four sized kept)
        (upload_segments-reported key node_id x c.full c.last false [] o'' cut.0 cut.1 kept'))
