-- ===== src/Sniffer/Sdo.antt =====
-- internal/sniffer/sniffer.go: the handlers of SDO frames.
use otelcol_receiver_canopen.Prelude.{ℕ, String, Option, none, some, [], ◌∷◌, nat_eq, string_key}
use otelcol_receiver_canopen.Prelude.Int.{pos}
use otelcol_receiver_canopen.Prelude.Maps.{Map, lookup, insert}
use otelcol_receiver_canopen.Prelude.Text.{◌<>◌, hex}
use otelcol_receiver_canopen.Codec.Types.{FloatOps, Any, text, integer}
use otelcol_receiver_canopen.SdoObserver.Types.{
  Direction, client_to_server, server_to_client, other_direction, Operation, upload, download,
  abort, Event,
}
use otelcol_receiver_canopen.SdoObserver.Observe.{
  Observed, silent, emitted, failed, observe_on_channel,
}
use otelcol_receiver_canopen.Transport.{Frame}
use otelcol_receiver_canopen.Sniffer.Types.{SdoObjectDef, sdo_key, Sniffer}
use otelcol_receiver_canopen.Sniffer.Fields.{Builders, done, emit_fields}
use otelcol_receiver_canopen.Sniffer.Handlers.{Handled, with_node, leaving}

abbrev direction_name : Direction → String
direction_name client_to_server = "client_to_server"
direction_name server_to_client = "server_to_client"
direction_name (other_direction s) = s

abbrev operation_name : Operation → String
operation_name upload = "upload"
operation_name download = "download"
operation_name abort = "abort"

module _ (ops : FloatOps) (builders : Builders) where
  abbrev pub sdo_context : Event → Map String Any
  sdo_context e =
      ("canopen.node_id", integer (pos e.node_id))
      ∷ ("canopen.sdo.index", integer (pos e.index))
      ∷ ("canopen.sdo.subindex", integer (pos e.sub_index))
      ∷ ("canopen.sdo.direction", text (direction_name e.direction))
      ∷ ("canopen.sdo.operation", text (operation_name e.operation))
      ∷ []

  abbrev pub sdo_attrs : Event → Sniffer → Map String String
  sdo_attrs e s =
      insert "canopen.sdo.subindex" ("0x" <> hex 2 e.sub_index)
        (insert "canopen.sdo.index" ("0x" <> hex 4 e.index) (with_node e.node_id s))

  unfoldable pub emit_object : Option SdoObjectDef → Event → Sniffer → Handled
  emit_object none e s = done ([], s)
  emit_object (some object) e s = leaving ops builders s (
      emit_fields ops builders (sdo_attrs e s) object.fields e.payload (sdo_context e)
        ("canopen SDO object 0x" <> (hex 4 e.index <> (":" <> (hex 2 e.sub_index <> " decoded")))))

  unfoldable pub typed_sdo : Option ℕ → Event → Sniffer → Handled
  typed_sdo (some code) e s = done ([], s)
  typed_sdo none e s = emit_object (lookup (e.node_id, e.index, e.sub_index) s.sdo_index) e s

  unfoldable pub emit_typed_sdo : Event → Sniffer → Handled
  emit_typed_sdo e s = typed_sdo e.abort_code e s

  abbrev pub on_observed : Sniffer → Observed → Handled
  on_observed s silent = done ([], s)
  on_observed s (failed e) = done ([], s)
  on_observed s (emitted e) = emit_typed_sdo e s

  unfoldable pub handle_sdo : ℕ → ℕ → Direction → Frame → Sniffer → Handled
  handle_sdo key node_id direction f s =
      let (seen, o) = observe_on_channel key node_id direction f.payload s.sdo in
      on_observed (record s { sdo = o }) seen
