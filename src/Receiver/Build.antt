-- ===== src/Receiver/Build.antt =====
-- receiver.go: `buildSnifferConfig` and `buildSnifferFields`.
use otelcol_receiver_canopen.Prelude.{
  ℕ, Bool, true, false, Option, none, some, List, [], ◌∷◌, ◌++◌, map, nat_eq,
}
use otelcol_receiver_canopen.Prelude.Maps.{Map, lookup, insert}
use otelcol_receiver_canopen.Config.Types.{
  MetricType, FieldConfig, PdoConfig, SdoObjectConfig, SdoChannelConfig, RawMatchByte,
  RawMessageConfig, Config,
}
use otelcol_receiver_canopen.Sniffer.Types.{
  Field, PdoDef, SdoObjectDef, SdoChannel, RawMatch, RawMessageDef, SnifferConfig,
}

abbrev is_sum : MetricType → Bool
is_sum MetricType.sum = true
is_sum _ = false

abbrev pub build_field : FieldConfig → Field
build_field f = record {
  name = f.name;
  bit_offset = f.bit_offset;
  type = f.type;
  byte_len = f.byte_len;
  scale = f.scale;
  offset = f.offset;
  unit = f.unit;
  emit_metric = f.metrics;
  emit_log = f.logs;
  metric_sum = is_sum f.metric_type;
  attributes = f.attributes;
}

unfoldable pub build_fields : List FieldConfig → List Field
build_fields fields = map build_field fields

abbrev pub build_channel : SdoChannelConfig → SdoChannel
build_channel c = record {
  node_id = c.node_id;
  client_to_server_cob_id = c.client_to_server_cob_id;
  server_to_client_cob_id = c.server_to_client_cob_id;
}

abbrev pub build_object : SdoObjectConfig → SdoObjectDef
build_object o = record {
  node_id = o.node_id;
  index = o.index;
  sub_index = o.sub_index;
  fields = build_fields o.fields;
}

abbrev pub build_match : RawMatchByte → RawMatch
build_match m = record { byte_offset = m.byte_offset; value = m.value }

abbrev pub build_message : RawMessageConfig → RawMessageDef
build_message m = record {
  name = m.name;
  match = map build_match m.match;
  fields = build_fields m.fields;
}

abbrev pub build_pdo : PdoConfig → PdoDef
build_pdo p = record { name = p.name; cob_id = p.cob_id; fields = build_fields p.fields }

unfoldable pub add_cob_ids : List ℕ → Map ℕ (Unit {0}) → Map ℕ (Unit {0})
add_cob_ids [] m = m
add_cob_ids (id ∷ rest) m = add_cob_ids rest (insert id tt m)

abbrev pub messages_or_none : Option (List RawMessageDef) → List RawMessageDef
messages_or_none none = []
messages_or_none (some ms) = ms

-- The messages of a COB-ID stay in their order.
unfoldable pub add_messages :
    List RawMessageConfig → Map ℕ (List RawMessageDef) → Map ℕ (List RawMessageDef)
add_messages [] m = m
add_messages (msg ∷ rest) m =
    add_messages rest
      (insert msg.cob_id (messages_or_none (lookup msg.cob_id m) ++ build_message msg ∷ []) m)

unfoldable pub message_cob_ids : List RawMessageConfig → Map ℕ (Unit {0}) → Map ℕ (Unit {0})
message_cob_ids [] m = m
message_cob_ids (msg ∷ rest) m = message_cob_ids rest (insert msg.cob_id tt m)

unfoldable pub add_pdos : List PdoConfig → Map ℕ PdoDef → Map ℕ PdoDef
add_pdos [] m = m
add_pdos (p ∷ rest) m = add_pdos rest (insert p.cob_id (build_pdo p) m)

unfoldable pub build_sniffer_config : Config → SnifferConfig
build_sniffer_config cfg = record {
  interface_name = cfg.interface;
  pdos = add_pdos cfg.pdo [];
  heartbeat_emit_metric = cfg.heartbeat.metrics;
  heartbeat_emit_log = cfg.heartbeat.logs;
  emcy_emit_metric = cfg.emcy.metrics;
  emcy_emit_log = cfg.emcy.logs;
  sdo_objects = map build_object cfg.sdo.sniff.objects ++ map build_object cfg.sdo.poll.objects;
  sdo_channels = map build_channel cfg.sdo.sniff.channels;
  raw_emit_metric = cfg.raw.sniff.metrics;
  raw_emit_log = cfg.raw.sniff.logs;
  raw_cob_ids = message_cob_ids cfg.raw.sniff.messages (add_cob_ids cfg.raw.sniff.cob_ids []);
  raw_messages = add_messages cfg.raw.sniff.messages [];
}
