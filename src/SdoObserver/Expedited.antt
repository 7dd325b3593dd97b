-- ===== src/SdoObserver/Expedited.antt =====
-- Expedited transfers: up to four bytes in the frame that names the object.
use otelcol_receiver_canopen.Prelude.{
  ℕ, ◌+◌, ◌-◌, ◌*◌, ◌/◌, ◌≤◌, ◌⊎◌, ◌^◌, ◌≡◌, refl, ap, ◌∙◌, bit_and, true, false, Option, none,
  some, List, [], ◌∷◌, ◌++◌, arith, length, length-append, take, take-append, inl, inr, beq_self,
  nat_eq, ◌==◌,
}
use otelcol_receiver_canopen.Prelude.Bits.{bit_and_1, bit_and_2, bit_and_3, bit_and_224}
use otelcol_receiver_canopen.Prelude.Maps.{lookup, lookup-insert_self}
use otelcol_receiver_canopen.SdoObserver.Types.{
  Transfer, client_to_server, server_to_client, is_set, cut, object_sub_index, expedited_data,
  complete,
}
use otelcol_receiver_canopen.SdoObserver.Observe.{
  Observer, silent, emitted, abort_event, forget, store, observe_on_channel, by_direction,
  observe_client, observe_server, server_of, upload_response,
}
use otelcol_receiver_canopen.SdoObserver.Sender.{
  Object, object_frame, Segment, from_client, from_server, watch,
}
use otelcol_receiver_canopen.SdoObserver.FrameFields.{object_index-object_frame}
use otelcol_receiver_canopen.SdoObserver.Segments.{uploading, upload_start}
use otelcol_receiver_canopen.SdoObserver.Reports.{
  downloaded, uploaded, watch_emitted, watch_silent, watch-nil, Reports-last, Reports-store,
}

-- Four bytes of which the last are unused, the number of those in the command.
abbrev pub IsShort : Segment → Type 0
IsShort s = (length s.chunk + length s.pad ≡ 4) × (length s.pad ≤ 3)

abbrev pub short_command : ℕ → Segment → ℕ
short_command kind s = kind + length s.pad * 4 + 3

cut-short :
    (command : ℕ) (x : Object) (s : Segment)
    → IsShort s
    → cut (object_frame command x (s.chunk ++ s.pad)) 4 (length s.pad) ≡ s.chunk
cut-short command x s h =
    let n : 8 - length s.pad - 4 ≡ length s.chunk = omega arith in
    ap (λ (k : ℕ). take k (s.chunk ++ s.pad)) n ∙ take-append s.chunk s.pad

-- The fields of the command, for the client's download and the server's upload.
abbrev IsKind : ℕ → Type 0
IsKind kind = (kind ≡ 0x20) ⊎ (kind ≡ 0x40)

module _ (kind : ℕ) (s : Segment) (k : IsKind kind) (h : IsShort s) where
  counts : bit_and (short_command kind s) 0x01 ≡ 1
  counts = ground (arith, bit_and_1 (short_command kind s))

  unused_bytes : bit_and (short_command kind s / 2 ^ 2) 0x03 ≡ length s.pad
  unused_bytes = ground (arith, bit_and_3 (short_command kind s / 4))

  is_expedited : is_set (short_command kind s) 0x02 ≡ true
  is_expedited = ground (arith, bit_and_2 (short_command kind s))

  kind_of : bit_and (short_command kind s) 0xE0 ≡ kind
  kind_of = ground (arith, bit_and_224 (short_command kind s))

  not_request : (short_command kind s == 0x40) ≡ false
  not_request = ground arith

  not_abort : (short_command kind s == 0x80) ≡ false
  not_abort = ground arith

  expedited_data-short :
      (x : Object)
      → expedited_data
          (short_command kind s)
          (object_frame (short_command kind s) x (s.chunk ++ s.pad))
        ≡ s.chunk
  unfolding expedited_data
  expedited_data-short x = rw (counts, unused_bytes) (cut-short (short_command kind s) x s h)

module _ (key node_id : ℕ) (x : Object) (s : Segment) (h : IsShort s) where
  abbrev tail : List ℕ
  tail = s.chunk ++ s.pad

  length-tail : length tail ≡ 4
  length-tail = omega (arith, length-append s.chunk s.pad)

  download_frame :
      (o : Observer)
      → observe_on_channel key node_id client_to_server
          (object_frame (short_command 0x20 s) x tail)
          o
        ≡ (emitted (downloaded node_id x s.chunk), o)
  unfolding observe_on_channel by_direction observe_client object_sub_index
  download_frame o =
      rw
        (
          length-tail,
          not_request 0x20 s (inl refl) h,
          kind_of 0x20 s (inl refl) h,
          is_expedited 0x20 s (inl refl) h,
          expedited_data-short 0x20 s (inl refl) h x,
          object_index-object_frame (short_command 0x20 s) x tail,
        )
        refl

  upload_frame :
      (o : Observer)
      → lookup key o.transfers ≡ some (uploading node_id x false false [])
      → observe_on_channel key node_id server_to_client
          (object_frame (short_command 0x40 s) x tail)
          o
        ≡ (emitted (uploaded node_id x s.chunk), forget key o)
  unfolding observe_on_channel by_direction observe_server server_of upload_response
      object_sub_index complete
  upload_frame o found =
      rw
        (
          length-tail,
          not_abort 0x40 s (inr refl) h,
          found,
          kind_of 0x40 s (inr refl) h,
          object_index-object_frame (short_command 0x40 s) x tail,
          beq_self x.index,
          beq_self x.sub_index,
          is_expedited 0x40 s (inr refl) h,
          expedited_data-short 0x40 s (inr refl) h x,
        )
        refl

-- An expedited upload, a request and an answer with up to four bytes, is reported once, with
-- exactly those bytes, and the channel is free afterwards.
pub expedited_upload_reconstructed :
    (key node_id : ℕ) (x : Object) (s : Segment) (o : Observer)
    → IsShort s
    → watch
        (from_client key node_id (object_frame 0x40 x (0 ∷ 0 ∷ 0 ∷ 0 ∷ []))
          ∷ from_server key node_id (object_frame (short_command 0x40 s) x (s.chunk ++ s.pad))
          ∷ [])
        o
      ≡ (emitted (uploaded node_id x s.chunk) ∷ [], forget key o)
expedited_upload_reconstructed key node_id x s o h =
    let t = uploading node_id x false false [] in
    let o' = store key t o in
    Reports-store key node_id x _ _ t _ o (upload_start key node_id o x _ refl) (
      Reports-last key node_id x _ _ o'
        (upload_frame key node_id x s h o' (lookup-insert_self key t o.transfers)))

-- The server's confirmation of a download says nothing to the observer, whatever it holds.
confirmation_silent :
    (key node_id : ℕ) (x : Object) (o : Observer)
    → observe_on_channel key node_id server_to_client (object_frame 0x60 x (0 ∷ 0 ∷ 0 ∷ 0 ∷ [])) o
      ≡ (silent, o)
unfolding observe_on_channel by_direction observe_server
confirmation_silent key node_id x o =
    confirmed (object_frame 0x60 x (0 ∷ 0 ∷ 0 ∷ 0 ∷ [])) (lookup key o.transfers)
  where
    confirmed : (frame : List ℕ) (m : Option Transfer) → server_of key 0x60 frame m o ≡ (silent, o)
    confirmed frame none = unfold server_of in refl
    confirmed frame (some t) = unfold server_of in ground arith

abort_frame :
    (key node_id : ℕ) (x : Object) (code : List ℕ) (o : Observer)
    → length code ≡ 4
    → observe_on_channel key node_id server_to_client (object_frame 0x80 x code) o
      ≡ (emitted (abort_event node_id (object_frame 0x80 x code)), forget key o)
unfolding observe_on_channel by_direction
abort_frame key node_id x code o h = rw h refl

-- An expedited download is reported, with exactly the bytes that the client sent, by the frame in
-- which the client sends them: a confirmation by the server adds nothing to that, and when the
-- server aborts instead, the download has been reported as complete all the same, and the abort is
-- reported behind it.
pub expedited_download_reported :
    (key node_id : ℕ) (x : Object) (s : Segment) (code : List ℕ) (o : Observer)
    → IsShort s
    → length code ≡ 4
    → let request =
        from_client key node_id (object_frame (short_command 0x20 s) x (s.chunk ++ s.pad)) in
      (watch (request ∷ from_server key node_id (object_frame 0x60 x (0 ∷ 0 ∷ 0 ∷ 0 ∷ [])) ∷ []) o
        ≡ (emitted (downloaded node_id x s.chunk) ∷ [], o))
      × (watch (request ∷ from_server key node_id (object_frame 0x80 x code) ∷ []) o ≡ (
        emitted (downloaded node_id x s.chunk)
            ∷ emitted (abort_event node_id (object_frame 0x80 x code))
            ∷ [],
        forget key o,
      ))
expedited_download_reported key node_id x s code o h four =
    let first = download_frame key node_id x s h o in
    (
      watch_emitted _ _ o o _ first
          ∙ rw (watch_silent _ [] o o (confirmation_silent key node_id x o), watch-nil o) refl,
      watch_emitted _ _ o o _ first
          ∙ rw
              (
                watch_emitted _ [] o (forget key o) _ (abort_frame key node_id x code o four),
                watch-nil (forget key o),
              )
              refl,
    )
