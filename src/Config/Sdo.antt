-- ===== src/Config/Sdo.antt =====
-- config.go: the checks of SDO sniffing and polling.
use otelcol_receiver_canopen.Prelude.{
  contains, ℕ, suc, ◌%◌, String, Bool, true, false, not, ◌&&◌, ◌||◌, Option, none, some, List, [],
  ◌∷◌, ltb, if◌then◌else◌, ◌==◌, nat_eq, string_key, length,
}
use otelcol_receiver_canopen.Prelude.Int.{ℤ, pos, negsuc, ltb_ℤ}
use otelcol_receiver_canopen.Prelude.Maps.{Map, lookup, insert}
use otelcol_receiver_canopen.Prelude.Text.{◌<>◌, decimal, hex}
use otelcol_receiver_canopen.Codec.Types.{
  DataType, bool, int8, int16, int32, int64, uint8, uint16, uint32, uint64, float32, float64, bytes,
  visible_string, other, Float64, Any, text, byte_text, truth, integer, unsigned, real, other_kind,
}
use otelcol_receiver_canopen.Config.Checked.{
  Checked, pass, fail, ◌>>◌, require, each, bad_node_id, bad_cob_id, duplicate_cob_id,
  duplicate_object, bad_mode, bad_interval, bad_timeout, bad_backoff, bad_max_backoff,
  bad_max_retries, missing_max_retries, ambiguous_channels, conflicting_object,
}
use otelcol_receiver_canopen.Config.Types.{
  MetricType, Mode, FieldConfig, SdoObjectConfig, SdoChannelConfig, SdoSniffConfig, SdoPollConfig,
  SdoConfig, is_positive, is_negative,
}
use otelcol_receiver_canopen.Config.Fields.{validate_object}

-- `fmt.Sprintf("%d:%04X:%02X", ...)`
unfoldable pub sdo_object_key : SdoObjectConfig → String
sdo_object_key o = decimal o.node_id <> (":" <> (hex 4 o.index <> (":" <> hex 2 o.sub_index)))

unfoldable pub validate_channel : SdoChannelConfig → Checked
validate_channel c = do
  require (not (c.node_id == 0 || ltb 127 c.node_id)) bad_node_id
  require (not (ltb 0x7FF c.client_to_server_cob_id)) bad_cob_id
  require (not (ltb 0x7FF c.server_to_client_cob_id)) bad_cob_id

-- The two COB-IDs of a channel are looked up and recorded in turn.
unfoldable pub validate_channels : List ℕ → List SdoChannelConfig → Checked
validate_channels seen [] = pass
validate_channels seen (c ∷ rest) = do
  validate_channel c
  require (not (contains seen c.client_to_server_cob_id)) duplicate_cob_id
  require (not (contains (c.client_to_server_cob_id ∷ seen) c.server_to_client_cob_id))
      duplicate_cob_id
  validate_channels (c.server_to_client_cob_id ∷ c.client_to_server_cob_id ∷ seen) rest

-- The loop over objects, of sniffing and of polling.
unfoldable pub validate_objects : List String → List SdoObjectConfig → Checked
validate_objects seen [] = pass
validate_objects seen (o ∷ rest) = do
  validate_object o
  require (not (contains seen (sdo_object_key o))) duplicate_object
  validate_objects (sdo_object_key o ∷ seen) rest

unfoldable pub validate_sniff : SdoSniffConfig → Checked
validate_sniff s = do validate_channels [] s.channels; validate_objects [] s.objects

abbrev pub is_interval : Mode → Bool
is_interval Mode.interval = true
is_interval _ = false

abbrev pub is_once : Mode → Bool
is_once Mode.once = true
is_once _ = false

abbrev default_mode : Mode → Mode
default_mode Mode.unset = Mode.once
default_mode m = m

abbrev pub negative_retries : Option ℤ → Bool
negative_retries none = false
negative_retries (some n) = is_negative n

abbrev pub is_none {ℓ} : {A : Type ℓ} → Option A → Bool
is_none none = true
is_none (some a) = false

unfoldable pub poll_checks : SdoPollConfig → Checked
poll_checks p = do
  require (is_once p.mode || is_interval p.mode) bad_mode
  require (not (is_interval p.mode && not (is_positive p.interval_time))) bad_interval
  require (not (is_negative p.timeout)) bad_timeout
  require (not (is_negative p.backoff || is_negative p.max_backoff)) bad_backoff
  require (not (is_positive p.max_backoff && ltb_ℤ p.max_backoff p.backoff)) bad_max_backoff
  require (not (negative_retries p.max_retries)) bad_max_retries
  require (not (is_once p.mode && (p.retry && is_none p.max_retries))) missing_max_retries
  validate_objects [] p.objects

-- The empty mode is replaced in the configuration itself, so the new one is returned too.
unfoldable pub validate_poll : SdoPollConfig → Checked × SdoPollConfig
validate_poll p = let p' = record p { mode = default_mode p.mode } in (poll_checks p', p')

-- How many channels a node has.
unfoldable pub channel_count : ℕ → List SdoChannelConfig → ℕ
channel_count node_id [] = 0
channel_count node_id (c ∷ rest) =
    let n = channel_count node_id rest in if c.node_id == node_id then suc n else n

-- A `==` of floats: no NaN equals itself, and the zeros are equal.
abbrev is_nan : Float64 → Bool
is_nan x = ltb 0x7FF0000000000000 (x % 0x8000000000000000)

abbrev float_eq : Float64 → Float64 → Bool
float_eq x y =
    not (is_nan x) && (x == y || (x % 0x8000000000000000 == 0 && y % 0x8000000000000000 == 0))

abbrev pub int_eq : ℤ → ℤ → Bool
int_eq (pos a) (pos b) = a == b
int_eq (negsuc a) (negsuc b) = a == b
int_eq _ _ = false

abbrev bool_eq : Bool → Bool → Bool
bool_eq true b = b
bool_eq false b = not b

abbrev bytes_eq : List ℕ → List ℕ → Bool
bytes_eq [] [] = true
bytes_eq (x ∷ xs) (y ∷ ys) = x == y && bytes_eq xs ys
bytes_eq _ _ = false

abbrev any_eq : Any → Any → Bool
any_eq (text a) (text b) = a == b
any_eq (byte_text a) (byte_text b) = bytes_eq a b
any_eq (truth a) (truth b) = bool_eq a b
any_eq (integer a) (integer b) = int_eq a b
any_eq (unsigned a) (unsigned b) = a == b
any_eq (real a) (real b) = float_eq a b
any_eq (other_kind a) (other_kind b) = a == b
any_eq _ _ = false

-- Each kind of string has a number, and the strings that are no constant are compared.
abbrev type_code : DataType → ℕ × String
type_code bool = (0, "")
type_code int8 = (1, "")
type_code int16 = (2, "")
type_code int32 = (3, "")
type_code int64 = (4, "")
type_code uint8 = (5, "")
type_code uint16 = (6, "")
type_code uint32 = (7, "")
type_code uint64 = (8, "")
type_code float32 = (9, "")
type_code float64 = (10, "")
type_code bytes = (11, "")
type_code visible_string = (12, "")
type_code (other s) = (13, s)

abbrev metric_code : MetricType → ℕ × String
metric_code MetricType.unset = (0, "")
metric_code MetricType.gauge = (1, "")
metric_code MetricType.sum = (2, "")
metric_code (MetricType.other_type s) = (3, s)

abbrev code_eq : ℕ × String → ℕ × String → Bool
code_eq (n, s) (k, t) = n == k && s == t

abbrev holds : Option Any → Any → Bool
holds none v = false
holds (some w) v = any_eq w v

abbrev all_in : Map String Any → Map String Any → Bool
all_in [] m = true
all_in ((k, v) ∷ rest) m = holds (lookup k m) v && all_in rest m

-- `reflect.DeepEqual` of two fields. It tells a nil map from an empty one, which the model does not.
unfoldable pub field_eq : FieldConfig → FieldConfig → Bool
field_eq a b =
    a.name == b.name
    && int_eq a.bit_offset b.bit_offset
    && code_eq (type_code a.type) (type_code b.type)
    && int_eq a.byte_len b.byte_len
    && float_eq a.scale b.scale
    && float_eq a.offset b.offset
    && a.unit == b.unit
    && bool_eq a.metrics b.metrics
    && bool_eq a.logs b.logs
    && code_eq (metric_code a.metric_type) (metric_code b.metric_type)
    && length a.attributes == length b.attributes
    && all_in a.attributes b.attributes

unfoldable pub deep_equal : List FieldConfig → List FieldConfig → Bool
deep_equal [] [] = true
deep_equal (a ∷ as') (b ∷ bs) = field_eq a b && deep_equal as' bs
deep_equal _ _ = false

-- `passiveObjects`: the last object of a key stays.
unfoldable pub passive_objects :
    List SdoObjectConfig → Map String SdoObjectConfig → Map String SdoObjectConfig
passive_objects [] m = m
passive_objects (o ∷ rest) m = passive_objects rest (insert (sdo_object_key o) o m)

abbrev agrees_with : SdoObjectConfig → Option SdoObjectConfig → Bool
agrees_with o none = true
agrees_with o (some passive) = deep_equal passive.fields o.fields

-- The checks between sniffing and polling. Go visits the polled nodes in any order and once each.
unfoldable pub cross_checks : SdoConfig → Checked
cross_checks s = do
  each
      (λ (o : SdoObjectConfig).
        require (not (ltb 1 (channel_count o.node_id s.sniff.channels))) ambiguous_channels)
      s.poll.objects
  each
      (λ (o : SdoObjectConfig).
        require (agrees_with o (lookup (sdo_object_key o) (passive_objects s.sniff.objects [])))
          conflicting_object)
      s.poll.objects

abbrev pub sdo_after_poll : SdoConfig → Checked × SdoPollConfig → Checked × SdoConfig
sdo_after_poll s (pass, p) = let s' = record s { poll = p } in (cross_checks s', s')
sdo_after_poll s (fail e, p) = (fail e, record s { poll = p })

abbrev pub sdo_after_sniff : SdoConfig → Checked → Checked × SdoConfig
sdo_after_sniff s pass = sdo_after_poll s (validate_poll s.poll)
sdo_after_sniff s (fail e) = (fail e, s)

unfoldable pub validate_sdo : SdoConfig → Checked × SdoConfig
validate_sdo s = sdo_after_sniff s (validate_sniff s.sniff)
