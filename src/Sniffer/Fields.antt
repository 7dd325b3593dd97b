-- ===== src/Sniffer/Fields.antt =====
-- internal/sniffer/sniffer.go: `emitFields`, and the matching of raw messages.
use otelcol_receiver_canopen.Prelude.{
  ℕ, String, Bool, true, false, ◌&&◌, Option, none, some, List, [], ◌∷◌, ◌++◌, if◌then◌else◌, ◌==◌,
  nat_eq, string_key, get_elem?,
}
use otelcol_receiver_canopen.Prelude.Int.{pos, negsuc}
use otelcol_receiver_canopen.Prelude.Maps.{Map, insert}
use otelcol_receiver_canopen.Codec.Types.{FloatOps, Value, Any, apply_scale, body_value}
use otelcol_receiver_canopen.Codec.Decode.{Outcome, ok, err, panicked, decode}
use otelcol_receiver_canopen.Emit.Types.{MetricKind, gauge, sum, info, Emitted, metric, log}
use otelcol_receiver_canopen.Sniffer.Types.{Field, RawMatch, RawMessageDef}

-- Which builders are not nil.
pub record Builders : Type 0 where
  pub metrics : Bool
  pub logs : Bool

-- A run that may panic.
pub data Ran {ℓ} (A : Type ℓ) : Type ℓ where
  done : A → Ran A
  crashed : Ran A

infixl 5 ◌>>=◌
abbrev pub ◌>>=◌ {ℓ κ} : {A : Type ℓ} {B : Type κ} → Ran A → (A → Ran B) → Ran B
done a >>= f = f a
crashed >>= f = crashed

-- A byte of the payload at an `int`; a negative one panics.
abbrev pub byte_matches : Option ℕ → ℕ → Bool
byte_matches none value = false
byte_matches (some b) value = b == value

abbrev pub condition_holds : RawMatch → List ℕ → Ran Bool
condition_holds m payload = elim m.byte_offset [
  | pos i ↦ done (byte_matches (get_elem? payload i) m.value)
  | negsuc i ↦ crashed
]

abbrev pub and_then : Ran Bool → Ran Bool → Ran Bool
and_then (done true) b = b
and_then (done false) b = done false
and_then crashed b = crashed

-- The loop of `matches`.
unfoldable pub all_hold : List RawMatch → List ℕ → Ran Bool
all_hold [] payload = done true
all_hold (m ∷ ms) payload = and_then (condition_holds m payload) (all_hold ms payload)

unfoldable pub matches : RawMessageDef → List ℕ → Ran Bool
matches d payload = all_hold d.match payload

-- `for k, v := range from { to[k] = v }`
unfoldable pub copy_into : Map String Any → Map String Any → Map String Any
copy_into [] to = to
copy_into ((k, v) ∷ rest) to = copy_into rest (insert k v to)

-- What the loop of `emitFields` has gathered.
pub record Gathered : Type 0 where
  pub points : List Emitted
  pub have_log : Bool
  pub body_map : Map String Any
  pub log_attrs : Map String Any

abbrev kind_of : Bool → MetricKind
kind_of true = sum
kind_of false = gauge

module _ (ops : FloatOps) (builders : Builders) (resource_attrs : Map String String) where
  abbrev pub field_point : Field → Value → Emitted
  field_point field v = metric (record {
    resource_attrs = resource_attrs;
    name = field.name;
    unit = field.unit;
    kind = kind_of field.metric_sum;
    value = apply_scale ops v field.scale field.offset;
    attributes = field.attributes;
  })

  unfoldable pub gather_metric : Field → Value → Gathered → Gathered
  gather_metric field v g =
      if field.emit_metric && builders.metrics
      then record g { points = g.points ++ field_point field v ∷ [] }
      else g

  unfoldable pub gather_log : Field → Value → Gathered → Gathered
  gather_log field v g =
      if field.emit_log && builders.logs
      then record g {
        have_log = true;
        body_map = insert field.name (body_value ops v field.scale field.offset) g.body_map;
        log_attrs = copy_into field.attributes g.log_attrs;
      }
      else g

  -- A field that cannot be decoded is skipped.
  unfoldable pub gather_decoded : Field → Outcome Value → Gathered → Ran Gathered
  gather_decoded field (ok v) g = done (gather_log field v (gather_metric field v g))
  gather_decoded field (err e) g = done g
  gather_decoded field panicked g = crashed

  unfoldable pub gather_fields : List Field → List ℕ → Gathered → Ran Gathered
  gather_fields [] payload g = done g
  gather_fields (field ∷ rest) payload g = do
    g' ← gather_decoded field (decode ops payload field.type field.bit_offset field.byte_len) g
    gather_fields rest payload g'

  abbrev sole_value : Map String Any → Option Any
  sole_value ((k, v) ∷ []) = some v
  sole_value _ = none

  abbrev several : Map String Any → Option (Map String Any)
  several (e ∷ []) = none
  several m = some m

  abbrev pub group_record : String → Gathered → Emitted
  group_record body g = log (record {
    resource_attrs = resource_attrs;
    severity = info;
    body = body;
    body_value = sole_value g.body_map;
    body_map = several g.body_map;
    attributes = g.log_attrs;
  })

  -- One record for the group, behind the points of its fields.
  unfoldable pub close_group : String → Gathered → List Emitted
  close_group body g = if g.have_log then g.points ++ group_record body g ∷ [] else g.points

  abbrev pub nothing_gathered : Map String Any → Gathered
  nothing_gathered context = record {
    points = [];
    have_log = false;
    body_map = [];
    log_attrs = copy_into context [];
  }

  unfoldable pub emit_fields : List Field → List ℕ → Map String Any → String → Ran (List Emitted)
  emit_fields fields payload context body = do
    g ← gather_fields fields payload (nothing_gathered context)
    done (close_group body g)
