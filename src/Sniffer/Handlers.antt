-- ===== src/Sniffer/Handlers.antt =====
-- internal/sniffer/sniffer.go: the handler of each kind of frame.
use otelcol_receiver_canopen.Prelude.{
  ℕ, ◌*◌, ◌/◌, ◌^◌, bit_or, String, Bool, true, false, not, ◌&&◌, Option, none, some, List, [], ◌∷◌,
  ◌++◌, ltb, if◌then◌else◌, ◌==◌, nat_eq, string_key, length, get_or,
}
use otelcol_receiver_canopen.Prelude.Int.{pos}
use otelcol_receiver_canopen.Prelude.Maps.{Map, lookup, insert}
use otelcol_receiver_canopen.Prelude.Text.{◌<>◌, decimal, hex, hex_upper}
use otelcol_receiver_canopen.Codec.Types.{FloatOps, text, integer, float_one}
use otelcol_receiver_canopen.Transport.{Frame}
use otelcol_receiver_canopen.Emit.Types.{gauge, sum, Severity, info, warn, Emitted, metric, log}
use otelcol_receiver_canopen.Sniffer.Types.{PdoDef, RawMessageDef, sdo_key, Sniffer}
use otelcol_receiver_canopen.Sniffer.Fields.{
  Builders, Ran, done, crashed, ◌>>=◌, matches, emit_fields,
}

-- What a handler adds to the builders, and the sniffer that it leaves.
abbrev pub Handled : Type 0
Handled = Ran (List Emitted × Sniffer)

abbrev pub resource_attrs : Sniffer → Map String String
resource_attrs s = ("canopen.interface", s.cfg.interface_name) ∷ []

-- `NMTState.String`
unfoldable pub nmt_state_name : ℕ → String
nmt_state_name state =
    if state == 0x00
    then "bootup"
    else if state == 0x04
    then "stopped"
    else if state == 0x05
    then "operational"
    else if state == 0x7F
    then "pre-operational"
    else "unknown(0x" <> (hex 2 state <> ")")

unfoldable pub emcy_error_code_description : ℕ → String
emcy_error_code_description code =
    let range = code / 2 ^ 8 in
    if code == 0x0000
    then "error reset / no error"
    else if range == 0x10
    then "generic error"
    else if range == 0x20
    then "current"
    else if range == 0x30
    then "voltage"
    else if range == 0x40
    then "temperature"
    else if range == 0x50
    then "device hardware"
    else if range == 0x60
    then "device software"
    else if range == 0x70
    then "additional modules"
    else if range == 0x80
    then "monitoring"
    else if range == 0x90
    then "external error"
    else if range == 0xF0
    then "additional functions"
    else if range == 0xFF
    then "device specific"
    else "unknown"

abbrev pub when : Bool → Emitted → List Emitted
when true e = e ∷ []
when false e = []

-- A change of the state of a node, also from no state known.
abbrev pub is_change : Option ℕ → ℕ → Bool
is_change none state = true
is_change (some prev) state = not (prev == state)

abbrev pub with_node : ℕ → Sniffer → Map String String
with_node node_id s = insert "canopen.node_id" (decimal node_id) (resource_attrs s)

abbrev pub cob_text : ℕ → String
cob_text id = "0x" <> hex 3 id

abbrev pub with_cob_id : ℕ → Sniffer → Map String String
with_cob_id id s = insert "canopen.cob_id" (cob_text id) (resource_attrs s)

module _ (ops : FloatOps) (builders : Builders) where
  abbrev pub nmt_point : ℕ → ℕ → Sniffer → Emitted
  nmt_point node_id state s = metric (record {
    resource_attrs = with_node node_id s;
    name = "canopen.node.nmt_state";
    unit = "";
    kind = gauge;
    value = ops.of_uint64 state;
    attributes = [];
  })

  abbrev pub nmt_record : ℕ → ℕ → Sniffer → Emitted
  nmt_record node_id state s = log (record {
    resource_attrs = with_node node_id s;
    severity = info;
    body =
        "canopen node " <> (decimal node_id <> (" NMT state changed to " <> nmt_state_name state));
    body_value = none;
    body_map = none;
    attributes =
        ("canopen.node_id", integer (pos node_id))
        ∷ ("canopen.nmt_state", text (nmt_state_name state))
        ∷ [];
  })

  unfoldable pub heartbeat_state : ℕ → ℕ → Sniffer → List Emitted × Sniffer
  heartbeat_state node_id state s =
      let changed = is_change (lookup node_id s.nmt_state) state in
      (
        when (s.cfg.heartbeat_emit_metric && builders.metrics) (nmt_point node_id state s)
            ++ when (s.cfg.heartbeat_emit_log && (builders.logs && changed))
                (nmt_record node_id state s),
        record s { nmt_state = insert node_id state s.nmt_state },
      )

  unfoldable pub handle_heartbeat : ℕ → Frame → Sniffer → Handled
  handle_heartbeat node_id f s =
      if ltb (length f.payload) 1
      then done ([], s)
      else done (heartbeat_state node_id (get_or f.payload 0 0) s)

  abbrev emcy_severity : ℕ → Severity
  emcy_severity code = if code == 0 then info else warn

  abbrev pub emcy_point : ℕ → ℕ → Sniffer → Emitted
  emcy_point node_id register s = metric (record {
    resource_attrs = with_node node_id s;
    name = "canopen.node.emcy_error_register";
    unit = "";
    kind = gauge;
    value = ops.of_uint64 register;
    attributes = [];
  })

  abbrev pub emcy_record : ℕ → ℕ → ℕ → Sniffer → Emitted
  emcy_record node_id code register s = log (record {
    resource_attrs = with_node node_id s;
    severity = emcy_severity code;
    body =
        "canopen node "
        <> (decimal node_id
            <> (" emergency: code=0x"
                <> (hex 4 code
                    <> (" ("
                        <> (emcy_error_code_description code
                            <> (") register=0x" <> hex 2 register))))));
    body_value = none;
    body_map = none;
    attributes =
        ("canopen.node_id", integer (pos node_id))
        ∷ ("canopen.emcy.error_code", integer (pos code))
        ∷ ("canopen.emcy.register", integer (pos register))
        ∷ [];
  })

  unfoldable pub handle_emcy : ℕ → Frame → Sniffer → Handled
  handle_emcy node_id f s =
      let code = bit_or (get_or f.payload 0 0) (get_or f.payload 1 0 * 2 ^ 8) in
      let register = get_or f.payload 2 0 in
      if ltb (length f.payload) 3
      then done ([], s)
      else done (
        when (s.cfg.emcy_emit_metric && builders.metrics) (emcy_point node_id register s)
            ++ when (s.cfg.emcy_emit_log && builders.logs) (emcy_record node_id code register s),
        s,
      )

  -- Field groups leave the sniffer as it is.
  abbrev pub leaving : Sniffer → Ran (List Emitted) → Handled
  leaving s r = r >>= λ es. done (es, s)

  unfoldable pub handle_pdo : PdoDef → Frame → Sniffer → Handled
  handle_pdo pdo f s = leaving s (
      emit_fields ops builders (resource_attrs s) pdo.fields f.payload
        (("canopen.pdo.name", text pdo.name) ∷ []) ("canopen pdo " <> (pdo.name <> " decoded")))

  unfoldable pub handle_raw_message : RawMessageDef → Frame → Sniffer → Handled
  handle_raw_message msg f s = leaving s (
      emit_fields ops builders (with_cob_id f.id s) msg.fields f.payload
        (("canopen.raw.message", text msg.name) ∷ [])
        ("canopen raw message " <> (msg.name <> " decoded")))

  abbrev pub raw_point : Frame → Sniffer → Emitted
  raw_point f s = metric (record {
    resource_attrs = with_cob_id f.id s;
    name = "canopen.raw.frames";
    unit = "";
    kind = sum;
    value = float_one;
    attributes = ("canopen.raw.data", text (hex_upper f.payload)) ∷ [];
  })

  abbrev pub raw_record : Frame → Sniffer → Emitted
  raw_record f s = log (record {
    resource_attrs = with_cob_id f.id s;
    severity = info;
    body = "canopen raw frame on 0x" <> (hex 3 f.id <> (": " <> hex_upper f.payload));
    body_value = none;
    body_map = none;
    attributes =
        ("canopen.cob_id", text (cob_text f.id))
        ∷ ("canopen.raw.data", text (hex_upper f.payload))
        ∷ [];
  })

  -- The hex dump of a frame that no message matches.
  unfoldable pub handle_undecoded : Frame → Sniffer → Handled
  handle_undecoded f s = done (
    when (s.cfg.raw_emit_metric && builders.metrics) (raw_point f s)
        ++ when (s.cfg.raw_emit_log && builders.logs) (raw_record f s),
    s,
  )

  abbrev pub if_matched : Ran Bool → Handled → Handled → Handled
  if_matched (done true) a b = a
  if_matched (done false) a b = b
  if_matched crashed a b = crashed

  -- The first message that matches decodes the frame.
  unfoldable pub first_message : List RawMessageDef → Frame → Sniffer → Handled
  first_message [] f s = handle_undecoded f s
  first_message (msg ∷ rest) f s =
      if_matched (matches msg f.payload) (handle_raw_message msg f s) (first_message rest f s)

  abbrev pub messages_of : Option (List RawMessageDef) → List RawMessageDef
  messages_of none = []
  messages_of (some ms) = ms

  unfoldable pub handle_raw : Frame → Sniffer → Handled
  handle_raw f s = first_message (messages_of (lookup f.id s.cfg.raw_messages)) f s
