-- ===== src/Sniffer/Total.antt =====
-- internal/sniffer/sniffer.go: where no frame makes the sniffer panic.
use otelcol_receiver_canopen.Prelude.{
  ℕ, ◌≡◌, refl, ◌∙◌, Bool, true, false, Option, none, some, List, [], ◌∷◌, nat_eq, All,
}
use otelcol_receiver_canopen.Prelude.Maps.{lookup}
use otelcol_receiver_canopen.Codec.Types.{FloatOps}
use otelcol_receiver_canopen.SdoObserver.Types.{Direction, Event}
use otelcol_receiver_canopen.SdoObserver.Observe.{
  Observed, observe_on_channel, silent, emitted, failed,
}
use otelcol_receiver_canopen.Transport.{Frame}
use otelcol_receiver_canopen.Emit.Types.{Emitted}
use otelcol_receiver_canopen.Sniffer.Types.{
  PdoDef, SdoObjectDef, RawMessageDef, ChannelEntry, SdoKey, sdo_key, Sniffer,
}
use otelcol_receiver_canopen.Sniffer.Fields.{Builders, Ran, done, crashed, ◌>>=◌, all_hold, matches}
use otelcol_receiver_canopen.Sniffer.Handlers.{
  Handled, handle_pdo, handle_raw_message, first_message, messages_of, handle_raw, if_matched,
}
use otelcol_receiver_canopen.Sniffer.Sdo.{
  emit_object, typed_sdo, emit_typed_sdo, handle_sdo, on_observed,
}
use otelcol_receiver_canopen.Sniffer.Dispatch.{
  by_function, by_channel, by_pdo, by_raw, handle_frame,
}
use otelcol_receiver_canopen.Sniffer.Heartbeats.{handle_frames}
use otelcol_receiver_canopen.Sniffer.Calm.{
  IsDone, IsSmall, IsReadable, Decodable, still-Decodable, Stays, either-Stays, emit_fields-IsDone,
  leaving-Stays, unchanged-Stays, handle_heartbeat-Stays, handle_emcy-Stays, handle_undecoded-Stays,
  all_hold-IsDone,
}

module _ (ops : FloatOps) (b : Builders) where
  if_matched-Stays :
      (s : Sniffer) (m : Ran Bool) (x y : Handled)
      → IsDone m
      → Stays s x
      → Stays s y
      → Stays s (if_matched ops b m x y)
  if_matched-Stays s (done true) x y d h k = h
  if_matched-Stays s (done false) x y d h k = k
  if_matched-Stays s crashed x y d h k = d

  first_message-Stays :
      (msgs : List RawMessageDef) (f : Frame) (s : Sniffer)
      → All IsReadable msgs
      → Stays s (first_message ops b msgs f s)
  unfolding first_message matches handle_raw_message
  first_message-Stays [] f s h = handle_undecoded-Stays ops b f s
  first_message-Stays (msg ∷ rest) f s h =
      if_matched-Stays s (all_hold msg.match f.payload) _ _
        (all_hold-IsDone ops b msg.match f.payload h.0.1)
        (leaving-Stays ops b s _ (emit_fields-IsDone ops b _ msg.fields f.payload _ _ h.0.0))
        (first_message-Stays rest f s h.1)

  listed-Stays :
      (o : Option (List RawMessageDef)) (f : Frame) (s : Sniffer)
      → ((ms : List RawMessageDef) → o ≡ some ms → All IsReadable ms)
      → Stays s (first_message ops b (messages_of ops b o) f s)
  listed-Stays none f s h = first_message-Stays [] f s tt
  listed-Stays (some ms) f s h = first_message-Stays ms f s (h ms refl)

  emit_object-Stays :
      (o : Option SdoObjectDef) (e : Event) (s : Sniffer)
      → ((d : SdoObjectDef) → o ≡ some d → All IsSmall d.fields)
      → Stays s (emit_object ops b o e s)
  unfolding emit_object
  emit_object-Stays none e s h = (refl, refl)
  emit_object-Stays (some d) e s h =
      leaving-Stays ops b s _ (emit_fields-IsDone ops b _ d.fields e.payload _ _ (h d refl))

  typed_sdo-Stays :
      (code : Option ℕ) (e : Event) (s : Sniffer)
      → ((k : SdoKey) (d : SdoObjectDef) → lookup k s.sdo_index ≡ some d → All IsSmall d.fields)
      → Stays s (typed_sdo ops b code e s)
  unfolding typed_sdo
  typed_sdo-Stays (some code) e s h = (refl, refl)
  typed_sdo-Stays none e s h = emit_object-Stays _ e s (h (e.node_id, e.index, e.sub_index))

  on_observed-Stays :
      (seen : Observed) (s : Sniffer)
      → ((k : SdoKey) (d : SdoObjectDef) → lookup k s.sdo_index ≡ some d → All IsSmall d.fields)
      → Stays s (on_observed ops b s seen)
  unfolding emit_typed_sdo
  on_observed-Stays silent s h = (refl, refl)
  on_observed-Stays (failed e) s h = (refl, refl)
  on_observed-Stays (emitted e) s h = typed_sdo-Stays e.abort_code e s h

  -- What stays of a sniffer with another observer stays of the sniffer.
  observer-Stays :
      (s t : Sniffer) (h : Handled)
      → t.cfg ≡ s.cfg
      → t.sdo_index ≡ s.sdo_index
      → Stays t h
      → Stays s h
  observer-Stays s t (done (es, u)) c i h = (h.0 ∙ c, h.1 ∙ i)
  observer-Stays s t crashed c i h = h

  handle_sdo-Stays :
      (key node_id : ℕ) (d : Direction) (f : Frame) (s : Sniffer)
      → Decodable s
      → Stays s (handle_sdo ops b key node_id d f s)
  unfolding handle_sdo
  handle_sdo-Stays key node_id d f s h =
      let (seen, o) = observe_on_channel key node_id d f.payload s.sdo in
      observer-Stays s (record s { sdo = o }) _ refl refl
        (on_observed-Stays seen (record s { sdo = o }) h.of_objects)

  by_function-Stays : (f : Frame) (s : Sniffer) → Decodable s → Stays s (by_function ops b f s)
  unfolding by_function
  by_function-Stays f s h =
      search
        (either-Stays, unchanged-Stays, handle_heartbeat-Stays, handle_emcy-Stays, handle_sdo-Stays)

  by_channel-Stays :
      (c : Option ChannelEntry) (f : Frame) (s : Sniffer)
      → Decodable s
      → Stays s (by_channel ops b c f s)
  unfolding by_channel
  by_channel-Stays none f s h = by_function-Stays f s h
  by_channel-Stays (some c) f s h = handle_sdo-Stays _ _ _ f s h

  by_pdo-Stays :
      (p : Option PdoDef) (f : Frame) (s : Sniffer)
      → ((d : PdoDef) → p ≡ some d → All IsSmall d.fields)
      → Decodable s
      → Stays s (by_pdo ops b p f s)
  unfolding by_pdo handle_pdo
  by_pdo-Stays none f s k h = by_channel-Stays _ f s h
  by_pdo-Stays (some d) f s k h =
      leaving-Stays ops b s _ (emit_fields-IsDone ops b _ d.fields f.payload _ _ (k d refl))

  by_raw-Stays :
      (r : Option (Unit {0})) (f : Frame) (s : Sniffer) → Decodable s → Stays s (by_raw ops b r f s)
  unfolding by_raw handle_raw
  by_raw-Stays none f s h = by_pdo-Stays _ f s (h.of_pdos f.id) h
  by_raw-Stays (some u) f s h = listed-Stays _ f s (h.of_messages f.id)

  pub handle_frame-Stays :
      (f : Frame) (s : Sniffer) → Decodable s → Stays s (handle_frame ops b f s)
  unfolding handle_frame
  handle_frame-Stays f s h = either-Stays s f.extended _ _ (refl, refl) (by_raw-Stays _ f s h)

  followed :
      (s : Sniffer) (x : Handled) (next : List Emitted × Sniffer → Handled)
      → Stays s x
      → ((es : List Emitted) (t : Sniffer)
          → t.cfg ≡ s.cfg
          → t.sdo_index ≡ s.sdo_index
          → IsDone (next (es, t)))
      → IsDone (x >>= next)
  followed s (done (es, t)) next h k = k es t h.0 h.1
  followed s crashed next h k = h

  closed :
      (y : Handled) (g : List Emitted × Sniffer → List Emitted × Sniffer)
      → IsDone y
      → IsDone (y >>= λ r. done (g r))
  closed (done r) g h = tt
  closed crashed g h = h

  -- A sniffer whose fields have offsets and lengths below 2 ^ 62, and whose messages look at no
  -- negative offset, takes any sequence of frames without a panic.
  pub handle_frames-IsDone :
      (fs : List Frame) (s : Sniffer) → Decodable s → IsDone (handle_frames ops b fs s)
  handle_frames-IsDone [] s h = tt
  handle_frames-IsDone (f ∷ fs) s h = followed s _ _ (handle_frame-Stays f s h) λ es t c i.
      closed (handle_frames ops b fs t) _ (handle_frames-IsDone fs t (still-Decodable s t c i h))
