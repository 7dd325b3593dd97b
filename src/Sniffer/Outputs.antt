-- ===== src/Sniffer/Outputs.antt =====
-- internal/sniffer/sniffer.go: what any frame can make the sniffer emit.
use otelcol_receiver_canopen.Prelude.{
  ℕ, refl, Bool, true, false, ◌&&◌, Option, none, some, List, [], ◌∷◌, nat_eq, ltb, length, get_or,
  arith,
}
use otelcol_receiver_canopen.Prelude.Maps.{lookup}
use otelcol_receiver_canopen.Codec.Types.{FloatOps}
use otelcol_receiver_canopen.SdoObserver.Types.{Direction, Event}
use otelcol_receiver_canopen.SdoObserver.Observe.{Observed, silent, emitted, failed}
use otelcol_receiver_canopen.Transport.{Frame}
use otelcol_receiver_canopen.Emit.Types.{Emitted}
use otelcol_receiver_canopen.Sniffer.Types.{
  PdoDef, SdoObjectDef, RawMessageDef, ChannelEntry, SnifferConfig, Sniffer,
}
use otelcol_receiver_canopen.Sniffer.Fields.{Builders, Ran, done, crashed, matches}
use otelcol_receiver_canopen.Sniffer.Handlers.{
  Handled, is_change, heartbeat_state, handle_heartbeat, handle_emcy, handle_pdo,
  handle_raw_message, handle_undecoded, first_message, handle_raw, leaving, if_matched,
}
use otelcol_receiver_canopen.Sniffer.Sdo.{
  emit_object, typed_sdo, emit_typed_sdo, handle_sdo, on_observed,
}
use otelcol_receiver_canopen.Sniffer.Dispatch.{
  by_function, by_channel, by_pdo, by_raw, handle_frame,
}
use otelcol_receiver_canopen.Sniffer.Allowed.{
  Keeps, Emits, two_outputs, either-Keeps, emit_fields-Emits,
}

module _ (ops : FloatOps) (b : Builders) where
  leaving-Keeps :
      (s : Sniffer) (r : Ran (List Emitted)) → Emits b r → Keeps b s.cfg (leaving ops b s r)
  leaving-Keeps s (done es) h = (h, refl)
  leaving-Keeps s crashed h = tt

  nothing-Keeps : (s : Sniffer) → Keeps b s.cfg (done ([], s))
  nothing-Keeps s = (tt, refl)

  handle_heartbeat-Keeps :
      (node_id : ℕ) (f : Frame) (s : Sniffer) → Keeps b s.cfg (handle_heartbeat ops b node_id f s)
  unfolding handle_heartbeat heartbeat_state
  handle_heartbeat-Keeps node_id f s =
      either-Keeps b s.cfg (ltb (length f.payload) 1) _ _ (tt, refl)
        (
          two_outputs b (s.cfg.heartbeat_emit_metric && b.metrics)
              (s.cfg.heartbeat_emit_log
                && (b.logs && is_change (lookup node_id s.nmt_state) (get_or f.payload 0 0)))
              _ _ (λ h. ground arith) (λ h. ground arith),
          refl,
        )

  handle_emcy-Keeps :
      (node_id : ℕ) (f : Frame) (s : Sniffer) → Keeps b s.cfg (handle_emcy ops b node_id f s)
  unfolding handle_emcy
  handle_emcy-Keeps node_id f s =
      either-Keeps b s.cfg (ltb (length f.payload) 3) _ _ (tt, refl)
        (
          two_outputs b (s.cfg.emcy_emit_metric && b.metrics) (s.cfg.emcy_emit_log && b.logs) _ _
              (λ h. ground arith) (λ h. ground arith),
          refl,
        )

  handle_undecoded-Keeps : (f : Frame) (s : Sniffer) → Keeps b s.cfg (handle_undecoded ops b f s)
  unfolding handle_undecoded
  handle_undecoded-Keeps f s = (
    two_outputs b (s.cfg.raw_emit_metric && b.metrics) (s.cfg.raw_emit_log && b.logs) _ _
        (λ h. ground arith) (λ h. ground arith),
    refl,
  )

  handle_pdo-Keeps :
      (pdo : PdoDef) (f : Frame) (s : Sniffer) → Keeps b s.cfg (handle_pdo ops b pdo f s)
  unfolding handle_pdo
  handle_pdo-Keeps pdo f s = leaving-Keeps s _ (emit_fields-Emits ops b _ pdo.fields f.payload _ _)

  handle_raw_message-Keeps :
      (msg : RawMessageDef) (f : Frame) (s : Sniffer)
      → Keeps b s.cfg (handle_raw_message ops b msg f s)
  unfolding handle_raw_message
  handle_raw_message-Keeps msg f s =
      leaving-Keeps s _ (emit_fields-Emits ops b _ msg.fields f.payload _ _)

  if_matched-Keeps :
      (c : SnifferConfig) (m : Ran Bool) (x y : Handled)
      → Keeps b c x
      → Keeps b c y
      → Keeps b c (if_matched ops b m x y)
  if_matched-Keeps c (done true) x y h k = h
  if_matched-Keeps c (done false) x y h k = k
  if_matched-Keeps c crashed x y h k = tt

  first_message-Keeps :
      (msgs : List RawMessageDef) (f : Frame) (s : Sniffer)
      → Keeps b s.cfg (first_message ops b msgs f s)
  unfolding first_message
  first_message-Keeps [] f s = handle_undecoded-Keeps f s
  first_message-Keeps (msg ∷ rest) f s =
      if_matched-Keeps s.cfg (matches msg f.payload) _ _ (handle_raw_message-Keeps msg f s)
        (first_message-Keeps rest f s)

  emit_object-Keeps :
      (o : Option SdoObjectDef) (e : Event) (s : Sniffer) → Keeps b s.cfg (emit_object ops b o e s)
  unfolding emit_object
  emit_object-Keeps none e s = (tt, refl)
  emit_object-Keeps (some object) e s =
      leaving-Keeps s _ (emit_fields-Emits ops b _ object.fields e.payload _ _)

  typed_sdo-Keeps :
      (code : Option ℕ) (e : Event) (s : Sniffer) → Keeps b s.cfg (typed_sdo ops b code e s)
  unfolding typed_sdo
  typed_sdo-Keeps (some code) e s = (tt, refl)
  typed_sdo-Keeps none e s = emit_object-Keeps _ e s

  on_observed-Keeps : (seen : Observed) (s : Sniffer) → Keeps b s.cfg (on_observed ops b s seen)
  unfolding emit_typed_sdo
  on_observed-Keeps silent s = (tt, refl)
  on_observed-Keeps (failed e) s = (tt, refl)
  on_observed-Keeps (emitted e) s = typed_sdo-Keeps e.abort_code e s

  handle_sdo-Keeps :
      (key node_id : ℕ) (d : Direction) (f : Frame) (s : Sniffer)
      → Keeps b s.cfg (handle_sdo ops b key node_id d f s)
  unfolding handle_sdo
  handle_sdo-Keeps key node_id d f s = on_observed-Keeps _ _

  by_function-Keeps : (f : Frame) (s : Sniffer) → Keeps b s.cfg (by_function ops b f s)
  unfolding by_function
  by_function-Keeps f s =
      search
        (either-Keeps, handle_heartbeat-Keeps, handle_emcy-Keeps, handle_sdo-Keeps, nothing-Keeps)

  by_channel-Keeps :
      (c : Option ChannelEntry) (f : Frame) (s : Sniffer) → Keeps b s.cfg (by_channel ops b c f s)
  unfolding by_channel
  by_channel-Keeps none f s = by_function-Keeps f s
  by_channel-Keeps (some c) f s = handle_sdo-Keeps _ _ _ f s

  by_pdo-Keeps : (p : Option PdoDef) (f : Frame) (s : Sniffer) → Keeps b s.cfg (by_pdo ops b p f s)
  unfolding by_pdo
  by_pdo-Keeps none f s = by_channel-Keeps _ f s
  by_pdo-Keeps (some pdo) f s = handle_pdo-Keeps pdo f s

  by_raw-Keeps :
      (r : Option (Unit {0})) (f : Frame) (s : Sniffer) → Keeps b s.cfg (by_raw ops b r f s)
  unfolding by_raw handle_raw
  by_raw-Keeps none f s = by_pdo-Keeps _ f s
  by_raw-Keeps (some u) f s = first_message-Keeps _ f s

-- Whatever the frame, the sniffer adds points only where there is a builder of metrics and records
-- only where there is one of logs, and it keeps its configuration, unless decoding panics.
pub handle_frame-Keeps :
    (ops : FloatOps) (b : Builders) (f : Frame) (s : Sniffer)
    → Keeps b s.cfg (handle_frame ops b f s)
unfolding handle_frame
handle_frame-Keeps ops b f s =
    either-Keeps b s.cfg f.extended _ _ (tt, refl) (by_raw-Keeps ops b _ f s)
