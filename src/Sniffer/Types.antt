-- ===== src/Sniffer/Types.antt =====
-- internal/sniffer/sniffer.go: the configuration of the sniffer and its state.
use otelcol_receiver_canopen.Prelude.{
  ℕ, String, ◌≡◌, ◌↔◌, Bool, true, ◌&&◌, List, [], ◌∷◌, arith, Keyed, nat_beq, nat_eq, Option, none,
  some,
}
use otelcol_receiver_canopen.Prelude.Int.{ℤ}
use otelcol_receiver_canopen.Prelude.Maps.{Map, lookup, insert}
use otelcol_receiver_canopen.Codec.Types.{DataType, Float64, Any}
use otelcol_receiver_canopen.SdoObserver.Observe.{Observer}
use otelcol_receiver_canopen.SdoObserver.Observe

pub record Field : Type 0 where
  pub name : String
  pub bit_offset : ℤ
  pub type : DataType
  pub byte_len : ℤ
  pub scale : Float64
  pub offset : Float64
  pub unit : String
  pub emit_metric : Bool
  pub emit_log : Bool
  pub metric_sum : Bool
  pub attributes : Map String Any

pub record PdoDef : Type 0 where
  pub name : String
  pub cob_id : ℕ
  pub fields : List Field

pub record SdoObjectDef : Type 0 where
  pub node_id : ℕ
  pub index : ℕ
  pub sub_index : ℕ
  pub fields : List Field

pub record SdoChannel : Type 0 where
  pub node_id : ℕ
  pub client_to_server_cob_id : ℕ
  pub server_to_client_cob_id : ℕ

pub record RawMatch : Type 0 where
  pub byte_offset : ℤ
  pub value : ℕ

pub record RawMessageDef : Type 0 where
  pub name : String
  pub match : List RawMatch
  pub fields : List Field

-- A set is a map to the type of one element.
pub record SnifferConfig : Type 0 where
  pub interface_name : String
  pub pdos : Map ℕ PdoDef
  pub heartbeat_emit_metric : Bool
  pub heartbeat_emit_log : Bool
  pub emcy_emit_metric : Bool
  pub emcy_emit_log : Bool
  pub sdo_objects : List SdoObjectDef
  pub sdo_channels : List SdoChannel
  pub raw_emit_metric : Bool
  pub raw_emit_log : Bool
  pub raw_cob_ids : Map ℕ (Unit {0})
  pub raw_messages : Map ℕ (List RawMessageDef)

-- The node, the index and the sub-index of an object.
abbrev pub SdoKey : Type 0
SdoKey = ℕ × ℕ × ℕ

abbrev same_object : SdoKey → SdoKey → Bool
same_object (a, b, c) (d, e, f) = nat_beq a d && nat_beq b e && nat_beq c f

pub same_object_iff : (j k : SdoKey) → (same_object j k ≡ true) ↔ (j ≡ k)
same_object_iff (a, b, c) (d, e, f) = ground arith

instance abbrev pub sdo_key : Keyed SdoKey
sdo_key = record { same_key = same_object; same_key_iff = same_object_iff }

pub record ChannelEntry : Type 0 where
  pub node_id : ℕ
  pub key : ℕ
  pub client_cob_id : ℕ

pub record Sniffer : Type 0 where
  pub cfg : SnifferConfig
  pub nmt_state : Map ℕ ℕ
  pub sdo : Observer
  pub sdo_by_cob_id : Map ℕ ChannelEntry
  pub sdo_index : Map SdoKey SdoObjectDef

abbrev pub object_key : SdoObjectDef → SdoKey
object_key o = (o.node_id, o.index, o.sub_index)

abbrev pub add_object :
    Map SdoKey SdoObjectDef → SdoObjectDef → Option SdoObjectDef → Map SdoKey SdoObjectDef
add_object m o none = insert (object_key o) o m
add_object m o (some first) = m

-- The first object of a key stays.
unfoldable pub index_objects : List SdoObjectDef → Map SdoKey SdoObjectDef → Map SdoKey SdoObjectDef
index_objects [] m = m
index_objects (o ∷ rest) m = index_objects rest (add_object m o (lookup (object_key o) m))

abbrev pub channel_entry : SdoChannel → ChannelEntry
channel_entry c = record {
  node_id = c.node_id;
  key = c.client_to_server_cob_id;
  client_cob_id = c.client_to_server_cob_id;
}

-- Both COB-IDs of a channel lead to its entry.
unfoldable pub index_channels : List SdoChannel → Map ℕ ChannelEntry → Map ℕ ChannelEntry
index_channels [] m = m
index_channels (c ∷ rest) m = index_channels rest (
    insert c.server_to_client_cob_id (channel_entry c)
      (insert c.client_to_server_cob_id (channel_entry c) m))

-- `New`
unfoldable pub new_sniffer : SnifferConfig → Sniffer
new_sniffer cfg = record {
  cfg = cfg;
  nmt_state = [];
  sdo = Observe.new;
  sdo_by_cob_id = index_channels cfg.sdo_channels [];
  sdo_index = index_objects cfg.sdo_objects [];
}
