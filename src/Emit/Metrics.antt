-- ===== src/Emit/Metrics.antt =====
-- internal/emit/metrics.go: `MetricsBuilder`. A batch of the collector is a list of resources with
-- their metrics, each found by its key as the builder's maps find it, and changed where it stands.
use otelcol_receiver_canopen.Prelude.{
  String, Bool, true, false, Option, none, some, List, [], ◌∷◌, ◌++◌, if◌then◌else◌, Keyed, ◌==◌,
  string_key,
}
use otelcol_receiver_canopen.Prelude.Maps.{Map, lookup}
use otelcol_receiver_canopen.Prelude.Text.{◌<>◌}
use otelcol_receiver_canopen.Codec.Types.{Float64, Any}
use otelcol_receiver_canopen.Emit.Types.{MetricKind, gauge, sum, MetricPoint}

pub record DataPoint : Type 0 where
  pub value : Float64
  pub attributes : Map String Any

pub record Metric : Type 0 where
  pub unit : String
  pub kind : MetricKind
  pub points : List DataPoint

pub record Resource : Type 0 where
  pub attrs : Map String String
  pub metrics : Map String Metric

abbrev pub MetricsBuilder : Type 0
MetricsBuilder = Map String Resource

-- A change of the entry of a key, or a new entry behind the others; `none` is a panic.
module _ {ℓ κ} {K : Type ℓ} ⦃e : Keyed K⦄ {V : Type κ} where
  abbrev pub before : K × V → Option (Map K V) → Option (Map K V)
  before x none = none
  before x (some m) = some (x ∷ m)

  abbrev pub entry : K → Option V → Map K V → Option (Map K V)
  entry k none m = none
  entry k (some v) m = some ((k, v) ∷ m)

  unfoldable pub change : K → (Option V → Option V) → Map K V → Option (Map K V)
  change k f [] = entry k (f none) []
  change k f ((j, v) ∷ m) =
      let rest = change k f m in if j == k then entry j (f (some v)) m else before (j, v) rest

abbrev key_part : String → Option String → String
key_part k none = ""
key_part k (some v) = k <> ("=" <> (v <> ";"))

unfoldable pub resource_key : Map String String → String
resource_key attrs =
    key_part "canopen.interface" (lookup "canopen.interface" attrs)
    <> key_part "canopen.node_id" (lookup "canopen.node_id" attrs)

abbrev pub data_point : MetricPoint → DataPoint
data_point p = record { value = p.value; attributes = p.attributes }

abbrev pub same_kind : MetricKind → MetricKind → Bool
same_kind gauge gauge = true
same_kind sum sum = true
same_kind _ _ = false

abbrev pub new_metric : MetricPoint → Metric
new_metric p = record { unit = p.unit; kind = p.kind; points = data_point p ∷ [] }

abbrev pub with_metrics : Map String String → Option (Map String Metric) → Option Resource
with_metrics attrs none = none
with_metrics attrs (some ms) = some (record { attrs = attrs; metrics = ms })

abbrev pub and_add :
    Option MetricsBuilder → (MetricsBuilder → Option MetricsBuilder) → Option MetricsBuilder
and_add none next = none
and_add (some b) next = next b

-- What the collector's library does when a point is appended to the points of a kind that the metric
-- does not have, a parameter.
module _ (append_invalid : MetricPoint → Metric → Option Metric) where
  -- The metric of the name.
  unfoldable pub add_to_metric : MetricPoint → Option Metric → Option Metric
  add_to_metric p none = some (new_metric p)
  add_to_metric p (some m) =
      if same_kind p.kind m.kind
      then some (record m { points = m.points ++ data_point p ∷ [] })
      else append_invalid p m

  -- `resourceMetrics`: the first point of a key gives the attributes of its resource.
  unfoldable pub add_to_resource : MetricPoint → Option Resource → Option Resource
  add_to_resource p none = with_metrics p.resource_attrs (change p.name (add_to_metric p) [])
  add_to_resource p (some r) = with_metrics r.attrs (change p.name (add_to_metric p) r.metrics)

  -- `Add`
  unfoldable pub add_point : MetricPoint → MetricsBuilder → Option MetricsBuilder
  add_point p b = change (resource_key p.resource_attrs) (add_to_resource p) b

  -- The points of an interval, in their order.
  unfoldable pub add_points : List MetricPoint → MetricsBuilder → Option MetricsBuilder
  add_points [] b = some b
  add_points (p ∷ ps) b = and_add (add_point p b) (add_points ps)
