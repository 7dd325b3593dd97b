-- ===== src/Sniffer/Channel.antt =====
-- internal/sniffer/sniffer.go: the frames of one configured SDO channel, and what is emitted for the
-- transfers that the observer reports.
use otelcol_receiver_canopen.Prelude.{
  ℕ, ◌≡◌, refl, Bool, false, Option, none, some, List, [], ◌∷◌, ◌++◌, map, nat_eq, beq_self,
  beq-of_ne, All, ◌≢◌, length, ap, ◌∙◌, not,
}
use mathlib.Core.List.{append-nil}
use otelcol_receiver_canopen.Prelude.Maps.{lookup}
use otelcol_receiver_canopen.Prelude.Text.{◌<>◌, hex}
use otelcol_receiver_canopen.Codec.Types.{FloatOps}
use otelcol_receiver_canopen.Transport.{Frame}
use otelcol_receiver_canopen.Emit.Types.{Emitted}
use otelcol_receiver_canopen.SdoObserver.Types.{
  Direction, client_to_server, server_to_client, other_direction, Event,
}
use otelcol_receiver_canopen.SdoObserver.Observe.{
  Observer, Observed, silent, emitted, failed, observe_on_channel, forget,
}
use otelcol_receiver_canopen.SdoObserver.Channels.{Arrival, step_on}
use otelcol_receiver_canopen.SdoObserver.Sender.{
  Object, Segment, Cut, IsCut, whole, upload_segments, upload_dialogue, report, watch,
}
use otelcol_receiver_canopen.SdoObserver.Reports.{uploaded}
use otelcol_receiver_canopen.SdoObserver.Transfers.{upload_reconstructed}
use otelcol_receiver_canopen.Sniffer.Types.{SdoObjectDef, ChannelEntry, Sniffer, sdo_key}
use otelcol_receiver_canopen.Sniffer.Fields.{Builders, Ran, done, crashed, ◌>>=◌, emit_fields}
use otelcol_receiver_canopen.Sniffer.Handlers.{Handled, leaving}
use otelcol_receiver_canopen.Sniffer.Sdo.{
  sdo_context, sdo_attrs, emit_object, typed_sdo, emit_typed_sdo, on_observed, handle_sdo,
}
use otelcol_receiver_canopen.Sniffer.Dispatch.{by_channel, by_pdo, by_raw, handle_frame}
use otelcol_receiver_canopen.Sniffer.Heartbeats.{handle_frames}

abbrev pub IsSide : Direction → Type 0
IsSide client_to_server = Unit
IsSide server_to_client = Unit
IsSide (other_direction d) = ⊥

abbrev pub IsOn : ChannelEntry → Arrival → Type 0
IsOn c a = (a.key ≡ c.key) × (a.node_id ≡ c.node_id) × IsSide a.direction

abbrev pub cob_of : ℕ → ℕ → Direction → ℕ
cob_of client server client_to_server = client
cob_of client server d = server

abbrev pub frame_on : ChannelEntry → ℕ → Arrival → Frame
frame_on c server a = record {
  id = cob_of c.client_cob_id server a.direction;
  extended = false;
  payload = a.frame;
}

-- The COB-IDs of a channel lead to its entry, and are neither captured nor a PDO's.
abbrev pub IsFree : Sniffer → ChannelEntry → ℕ → Type 0
IsFree s c id =
    (lookup id s.cfg.raw_cob_ids ≡ none)
    × (lookup id s.cfg.pdos ≡ none)
    × (lookup id s.sdo_by_cob_id ≡ some c)

abbrev pub IsChannel : Sniffer → ChannelEntry → ℕ → Type 0
IsChannel s c server = IsFree s c c.client_cob_id × IsFree s c server × (server ≢ c.client_cob_id)

module _ (ops : FloatOps) (b : Builders) (s : Sniffer) where
  -- The outputs of the fields of the object that an event is about, where it is known.
  abbrev pub fields_of : Event → SdoObjectDef → Ran (List Emitted)
  fields_of e object =
      emit_fields ops b (sdo_attrs ops b e s) object.fields e.payload (sdo_context ops b e)
        ("canopen SDO object 0x" <> (hex 4 e.index <> (":" <> (hex 2 e.sub_index <> " decoded"))))

  abbrev known_fields : Event → Option SdoObjectDef → Ran (List Emitted)
  known_fields e none = done []
  known_fields e (some object) = fields_of e object

  abbrev unaborted : Event → Option ℕ → Ran (List Emitted)
  unaborted e (some code) = done []
  unaborted e none = known_fields e (lookup (e.node_id, e.index, e.sub_index) s.sdo_index)

  abbrev outputs_of : List Observed → Ran (List Emitted)
  outputs_of [] = done []
  outputs_of (silent ∷ rs) = outputs_of rs
  outputs_of (failed e ∷ rs) = outputs_of rs
  outputs_of (emitted e ∷ rs) = do
    es ← unaborted e e.abort_code
    rest ← outputs_of rs
    done (es ++ rest)

  abbrev with_sdo : Observer → Sniffer
  with_sdo o = record s { sdo = o }

  known-emitted :
      (e : Event) (o : Observer) (m : Option SdoObjectDef)
      → emit_object ops b m e (with_sdo o) ≡ leaving ops b (with_sdo o) (known_fields e m)
  unfolding emit_object
  known-emitted e o none = refl
  known-emitted e o (some object) = refl

  unaborted-emitted :
      (e : Event) (o : Observer) (code : Option ℕ)
      → typed_sdo ops b code e (with_sdo o) ≡ leaving ops b (with_sdo o) (unaborted e code)
  unfolding typed_sdo
  unaborted-emitted e o (some code) = refl
  unaborted-emitted e o none =
      known-emitted e o (lookup (e.node_id, e.index, e.sub_index) s.sdo_index)

  keep_going :
      (u : Sniffer) (r : Ran (List Emitted))
      → (leaving ops b u r >>= λ x. done ([] ++ x.0, x.1)) ≡ leaving ops b u r
  keep_going u (done es) = refl
  keep_going u crashed = refl

  both_done :
      (v : Sniffer) (es : List Emitted) (more : Ran (List Emitted))
      → (leaving ops b v more >>= λ y. done (es ++ y.0, y.1))
        ≡ leaving ops b v (more >>= λ rest. done (es ++ rest))
  both_done v es (done rest) = refl
  both_done v es crashed = refl

  chained :
      (u v : Sniffer) (first more : Ran (List Emitted)) (rest : Sniffer → Handled)
      → rest u ≡ leaving ops b v more
      → (leaving ops b u first >>= λ x. rest x.1 >>= λ y. done (x.0 ++ y.0, y.1))
        ≡ leaving ops b v (first >>= λ es. more >>= λ others. done (es ++ others))
  chained u v (done es) more rest ih = rw ih (both_done v es more)
  chained u v crashed more rest ih = refl

  module _ (c : ChannelEntry) (server : ℕ) (h : IsChannel s c server) where
    side_handled :
        (d : Direction) (payload : List ℕ) (o : Observer)
        → IsSide d
        → let r = observe_on_channel c.key c.node_id d payload o in
          handle_frame ops b
            (record { id = cob_of c.client_cob_id server d; extended = false; payload = payload })
            (with_sdo o)
          ≡ on_observed ops b (with_sdo r.1) r.0
    unfolding handle_frame by_raw by_pdo by_channel handle_sdo
    side_handled client_to_server payload o k =
        let (raw, pdo, entry) = h.0 in
        rw raw (rw pdo (rw entry (rw (beq_self c.client_cob_id) refl)))
    side_handled server_to_client payload o k =
        let (own, (raw, pdo, entry), apart) = h in
        rw raw (rw pdo (rw entry (rw (beq-of_ne server c.client_cob_id apart) refl)))
    side_handled (other_direction d) payload o k = elim k [ ]

    frame_handled :
        (a : Arrival) (o : Observer)
        → IsOn c a
        → handle_frame ops b (frame_on c server a) (with_sdo o)
          ≡ on_observed ops b (with_sdo (step_on a o).1) (step_on a o).0
    frame_handled a o (same_key, same_node, side) =
        rw same_key (rw same_node (side_handled a.direction a.frame o side))

    -- What one frame adds to what the rest of them give.
    reported :
        (r : Observed) (rs : List Observed) (u : Observer) (v : Sniffer) (rest : Sniffer → Handled)
        → rest (with_sdo u) ≡ leaving ops b v (outputs_of rs)
        → (on_observed ops b (with_sdo u) r >>= λ x. rest x.1 >>= λ y. done (x.0 ++ y.0, y.1))
          ≡ leaving ops b v (outputs_of (report r rs))
    unfolding emit_typed_sdo
    reported silent rs u v rest ih = rw ih (keep_going v (outputs_of rs))
    reported (failed e) rs u v rest ih = rw ih (keep_going v (outputs_of rs))
    reported (emitted e) rs u v rest ih =
        rw (unaborted-emitted e u e.abort_code)
          (chained (with_sdo u) v (unaborted e e.abort_code) (outputs_of rs) rest ih)

    channel_sniffed :
        (arrivals : List Arrival) (o : Observer)
        → All (IsOn c) arrivals
        → handle_frames ops b (map (frame_on c server) arrivals) (with_sdo o)
          ≡ leaving ops b (with_sdo (watch arrivals o).1) (outputs_of (watch arrivals o).0)
    unfolding watch
    channel_sniffed [] o h = refl
    channel_sniffed (a ∷ rest) o h = rw (frame_handled a o h.0) (
        reported (step_on a o).0 (watch rest (step_on a o).1).0 (step_on a o).1 _
          (handle_frames ops b (map (frame_on c server) rest))
          (channel_sniffed rest (step_on a o).1 h.1))

    upload_segments-IsOn :
        (toggle : Bool) (full : List (List ℕ)) (last : Segment)
        → All (IsOn c) (upload_segments c.key c.node_id toggle full last)
    upload_segments-IsOn toggle [] last = ((refl, refl, tt), ((refl, refl, tt), tt))
    upload_segments-IsOn toggle (chunk ∷ full) last =
        ((refl, refl, tt), ((refl, refl, tt), upload_segments-IsOn (not toggle) full last))

    alone : (r : Ran (List Emitted)) → (r >>= λ es. done (es ++ [])) ≡ r
    alone (done es) = ap done (append-nil es)
    alone crashed = refl

    -- An upload in any number of segments of a configured object, over a channel whose two COB-IDs
    -- are different, neither captured nor a PDO's, makes the sniffer emit exactly what the object's
    -- fields give for the bytes that the server sent, whatever the observer held before, and leaves
    -- the channel free and the rest of the sniffer as it was; it panics just when the emission of
    -- these fields does.
    pub upload_decoded :
        (x : Object) (sized : Bool) (size : List ℕ) (cut : Cut) (object : SdoObjectDef)
        → length size ≡ 4
        → IsCut cut
        → lookup (c.node_id, x.index, x.sub_index) s.sdo_index ≡ some object
        → handle_frames ops b
            (map (frame_on c server) (upload_dialogue c.key c.node_id x sized size cut))
            s
          ≡ leaving ops b
              (record s { sdo = forget c.key s.sdo })
              (fields_of (uploaded c.node_id x (whole cut)) object)
    upload_decoded x sized size cut object four is_cut known =
        let arrivals = upload_dialogue c.key c.node_id x sized size cut in
        channel_sniffed arrivals s.sdo
          ((refl, refl, tt), ((refl, refl, tt), upload_segments-IsOn false cut.full cut.last))
        ∙ rw (upload_reconstructed c.key c.node_id x sized size cut s.sdo four is_cut)
            (rw known (ap (leaving ops b (with_sdo (forget c.key s.sdo))) (alone _)))
