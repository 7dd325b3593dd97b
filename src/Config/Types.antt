-- ===== src/Config/Types.antt =====
-- config.go: the settings, as the decoder of the collector fills them in. Durations are nanoseconds.
use otelcol_receiver_canopen.Prelude.{
  ℕ, zero, suc, String, Bool, true, false, Option, none, List, [],
}
use otelcol_receiver_canopen.Prelude.Int.{ℤ, pos, negsuc}
use otelcol_receiver_canopen.Prelude.Maps.{Map}
use otelcol_receiver_canopen.Codec.Types.{DataType, Float64, Any}

-- Strings in the source; `unset` is the empty one, `other_type` and `other_mode` any that is no
-- constant.
pub data MetricType : Type 0 where
  unset gauge sum : MetricType
  other_type : String → MetricType

pub data Mode : Type 0 where
  unset once interval : Mode
  other_mode : String → Mode

pub record FieldConfig : Type 0 where
  pub name : String
  pub bit_offset : ℤ
  pub type : DataType
  pub byte_len : ℤ
  pub scale : Float64
  pub offset : Float64
  pub unit : String
  pub metrics : Bool
  pub logs : Bool
  pub metric_type : MetricType
  pub attributes : Map String Any

pub record PdoConfig : Type 0 where
  pub name : String
  pub cob_id : ℕ
  pub fields : List FieldConfig

pub record SimpleEventConfig : Type 0 where
  pub metrics : Bool
  pub logs : Bool

pub record SdoObjectConfig : Type 0 where
  pub node_id : ℕ
  pub index : ℕ
  pub sub_index : ℕ
  pub fields : List FieldConfig

pub record SdoChannelConfig : Type 0 where
  pub node_id : ℕ
  pub client_to_server_cob_id : ℕ
  pub server_to_client_cob_id : ℕ

pub record SdoSniffConfig : Type 0 where
  pub channels : List SdoChannelConfig
  pub objects : List SdoObjectConfig

pub record SdoPollConfig : Type 0 where
  pub mode : Mode
  pub interval_time : ℤ
  pub timeout : ℤ
  pub retry : Bool
  pub backoff : ℤ
  pub max_backoff : ℤ
  pub max_retries : Option ℤ
  pub objects : List SdoObjectConfig

pub record SdoConfig : Type 0 where
  pub sniff : SdoSniffConfig
  pub poll : SdoPollConfig

pub record RawMatchByte : Type 0 where
  pub byte_offset : ℤ
  pub value : ℕ

pub record RawMessageConfig : Type 0 where
  pub name : String
  pub cob_id : ℕ
  pub match : List RawMatchByte
  pub fields : List FieldConfig

pub record RawFrameConfig : Type 0 where
  pub metrics : Bool
  pub logs : Bool
  pub cob_ids : List ℕ
  pub messages : List RawMessageConfig

pub record RawResponseConfig : Type 0 where
  pub cob_id : ℕ
  pub match : List RawMatchByte
  pub fields : List FieldConfig

pub record RawTransactionConfig : Type 0 where
  pub name : String
  pub cob_id : ℕ
  pub payload : List ℕ
  pub timeout : ℤ
  pub mode : Mode
  pub interval_time : ℤ
  pub retry : Bool
  pub backoff : ℤ
  pub max_backoff : ℤ
  pub max_retries : Option ℤ
  pub response : RawResponseConfig

pub record RawConfig : Type 0 where
  pub sniff : RawFrameConfig
  pub transactions : List RawTransactionConfig

pub record Config : Type 0 where
  pub interface : String
  pub read_timeout : ℤ
  pub metrics_enabled : Bool
  pub logs_enabled : Bool
  pub heartbeat : SimpleEventConfig
  pub emcy : SimpleEventConfig
  pub sdo : SdoConfig
  pub pdo : List PdoConfig
  pub raw : RawConfig

abbrev pub no_events : SimpleEventConfig
no_events = record { metrics = false; logs = false }

-- `createDefaultConfig`: 2 s of read timeout, both signals on, and the zero value elsewhere.
unfoldable pub default_config : Config
default_config = record {
  interface = "";
  read_timeout = pos 2_000_000_000;
  metrics_enabled = true;
  logs_enabled = true;
  heartbeat = no_events;
  emcy = no_events;
  sdo = record {
    sniff = record { channels = []; objects = [] };
    poll = record {
      mode = Mode.unset;
      interval_time = pos 0;
      timeout = pos 0;
      retry = false;
      backoff = pos 0;
      max_backoff = pos 0;
      max_retries = none;
      objects = [];
    };
  };
  pdo = [];
  raw = record {
    sniff = record { metrics = false; logs = false; cob_ids = []; messages = [] };
    transactions = [];
  };
}

abbrev pub is_positive : ℤ → Bool
is_positive (pos zero) = false
is_positive (pos (suc n)) = true
is_positive (negsuc n) = false

abbrev pub is_negative : ℤ → Bool
is_negative (pos n) = false
is_negative (negsuc n) = true

abbrev pub is_empty {ℓ} : {A : Type ℓ} → List A → Bool
is_empty [] = true
is_empty _ = false
