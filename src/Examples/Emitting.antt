-- ===== src/Examples/Emitting.antt =====
-- Runs of internal/emit/metrics.go.
use otelcol_receiver_canopen.Prelude.{
  ℕ, ◌≡◌, refl, String, Option, none, some, List, [], ◌∷◌, ◌++◌, string_key, ◌⊎◌,
}
use otelcol_receiver_canopen.Prelude.Maps.{Map, lookup}
use otelcol_receiver_canopen.Emit.Types.{MetricKind, gauge, MetricPoint}
use otelcol_receiver_canopen.Emit.Metrics.{
  Metric, MetricsBuilder, change, resource_key, add_to_metric, add_to_resource, add_point,
  add_points,
}
use otelcol_receiver_canopen.Emit.Series.{series, selected, series-add_points}
use otelcol_receiver_canopen.Emit.Kinds.{HasMixed, add_points_or_mixed}
use otelcol_receiver_canopen.Emit.Types.{info, LogRecord}
use otelcol_receiver_canopen.Emit.Logs.{Stored, LogsBuilder, add_records}
use otelcol_receiver_canopen.Emit.Records.{
  records_of, keyed, AreRendered, attrs_of, first_attrs, add_records_kept,
}

abbrev can0 : Map String String
can0 = ("canopen.interface", "can0") ∷ []

abbrev reading_of : String → MetricKind → ℕ → MetricPoint
reading_of name kind value = record {
  resource_attrs = can0;
  name = name;
  unit = "";
  kind = kind;
  value = value;
  attributes = [];
}

abbrev panicking : MetricPoint → Metric → Option Metric
panicking p m = none

abbrev three_points : List MetricPoint
three_points = reading_of "a" gauge 1 ∷ reading_of "b" gauge 2 ∷ reading_of "a" gauge 3 ∷ []

abbrev batch : MetricsBuilder
batch =
    (
      "canopen.interface=can0;",
      record {
        attrs = can0;
        metrics =
            (
              "a",
              record {
                unit = "";
                kind = gauge;
                points =
                    record { value = 1; attributes = [] }
                    ∷ record { value = 3; attributes = [] }
                    ∷ [];
              },
            )
            ∷ (
              "b",
              record {
                unit = "";
                kind = gauge;
                points = record { value = 2; attributes = [] } ∷ [];
              },
            )
            ∷ [];
      },
    )
    ∷ []

three_added : add_points panicking three_points [] ≡ some batch
unfolding add_points add_point add_to_resource add_to_metric change resource_key lookup
three_added = refl

series-add_points_example :
    series "canopen.interface=can0;" "a" batch
    ≡ series "canopen.interface=can0;" "a" [] ++ selected "canopen.interface=can0;" "a" three_points
series-add_points_example =
    series-add_points panicking (λ p m. refl) "canopen.interface=can0;" "a" three_points [] batch
      three_added

add_points_or_mixed_example :
    ((b : MetricsBuilder) × (add_points panicking three_points [] ≡ some b)) ⊎ HasMixed three_points
add_points_or_mixed_example = add_points_or_mixed panicking three_points

abbrev boot_record : LogRecord
boot_record = record {
  resource_attrs = can0;
  severity = info;
  body = "booted";
  body_value = none;
  body_map = none;
  attributes = [];
}

add_records_kept_example :
    (b : LogsBuilder) × (add_records (boot_record ∷ boot_record ∷ []) [] ≡ some b)
    × ((k : String)
        → (new : List Stored) × AreRendered (keyed k (boot_record ∷ boot_record ∷ [])) new
          × (records_of (lookup k b) ≡ records_of (lookup k []) ++ new)
          × (attrs_of (lookup k b)
              ≡ first_attrs (attrs_of (lookup k [])) (keyed k (boot_record ∷ boot_record ∷ []))))
add_records_kept_example = add_records_kept (boot_record ∷ boot_record ∷ []) []
