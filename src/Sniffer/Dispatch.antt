-- ===== src/Sniffer/Dispatch.antt =====
-- internal/sniffer/sniffer.go: `HandleFrame`, the classification of a frame.
use otelcol_receiver_canopen.Prelude.{
  ℕ, ◌-◌, bit_and, not, ◌&&◌, Option, none, some, [], if◌then◌else◌, ◌==◌, nat_eq,
}
use otelcol_receiver_canopen.Prelude.Maps.{lookup}
use otelcol_receiver_canopen.Codec.Types.{FloatOps}
use otelcol_receiver_canopen.SdoObserver.Types.{client_to_server, server_to_client}
use otelcol_receiver_canopen.Transport.{Frame}
use otelcol_receiver_canopen.Sniffer.Types.{PdoDef, ChannelEntry, Sniffer}
use otelcol_receiver_canopen.Sniffer.Fields.{Builders, done}
use otelcol_receiver_canopen.Sniffer.Handlers.{
  Handled, handle_heartbeat, handle_emcy, handle_pdo, handle_raw,
}
use otelcol_receiver_canopen.Sniffer.Sdo.{handle_sdo}

abbrev pub func_emergency : ℕ
func_emergency = 0x080

abbrev pub func_sdo_tx : ℕ
func_sdo_tx = 0x580

abbrev pub func_sdo_rx : ℕ
func_sdo_rx = 0x600

abbrev pub func_heartbeat : ℕ
func_heartbeat = 0x700

-- `id &^ 0x7F` and `id & 0x7F`
abbrev pub func_code : ℕ → ℕ
func_code id = id - bit_and id 0x7F

abbrev pub node_of : ℕ → ℕ
node_of id = bit_and id 0x7F

module _ (ops : FloatOps) (builders : Builders) where
  -- The predefined COB-IDs.
  unfoldable pub by_function : Frame → Sniffer → Handled
  by_function f s =
      let node_id = node_of f.id in
      let code = func_code f.id in
      if code == func_heartbeat
      then handle_heartbeat ops builders node_id f s
      else if code == func_emergency && not (node_id == 0)
      then handle_emcy ops builders node_id f s
      else if code == func_sdo_tx && not (node_id == 0)
      then handle_sdo ops builders (f.id - 0x580) node_id server_to_client f s
      else if code == func_sdo_rx && not (node_id == 0)
      then handle_sdo ops builders (f.id - 0x600) node_id client_to_server f s
      else done ([], s)

  unfoldable pub by_channel : Option ChannelEntry → Frame → Sniffer → Handled
  by_channel none f s = by_function f s
  by_channel (some c) f s =
      handle_sdo ops builders c.key c.node_id
        (if f.id == c.client_cob_id then client_to_server else server_to_client) f s

  unfoldable pub by_pdo : Option PdoDef → Frame → Sniffer → Handled
  by_pdo none f s = by_channel (lookup f.id s.sdo_by_cob_id) f s
  by_pdo (some pdo) f s = handle_pdo ops builders pdo f s

  unfoldable pub by_raw : Option (Unit {0}) → Frame → Sniffer → Handled
  by_raw none f s = by_pdo (lookup f.id s.cfg.pdos) f s
  by_raw (some u) f s = handle_raw ops builders f s

  -- Raw capture comes before PDOs, these before configured SDO channels, and the predefined COB-IDs
  -- come last. A frame with an extended ID is ignored.
  unfoldable pub handle_frame : Frame → Sniffer → Handled
  handle_frame f s = if f.extended then done ([], s) else by_raw (lookup f.id s.cfg.raw_cob_ids) f s
