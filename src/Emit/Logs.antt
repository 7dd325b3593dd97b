-- ===== src/Emit/Logs.antt =====
-- internal/emit/logs.go: `LogsBuilder`, the records of each resource.
use otelcol_receiver_canopen.Prelude.{String, Option, none, some, List, [], ◌∷◌, ◌++◌, string_key}
use otelcol_receiver_canopen.Prelude.Maps.{Map}
use otelcol_receiver_canopen.Codec.Types.{Any}
use otelcol_receiver_canopen.Emit.Types.{Severity, LogRecord}
use otelcol_receiver_canopen.Emit.Metrics.{change, resource_key}

-- The body of a stored record: one value, a map, or plain text.
pub data Body : Type 0 where
  of_value : Any → Body
  of_map : Map String Any → Body
  of_text : String → Body

pub record Stored : Type 0 where
  pub severity : Severity
  pub body : Body
  pub attributes : Map String Any

pub record LogResource : Type 0 where
  pub attrs : Map String String
  pub records : List Stored

abbrev pub LogsBuilder : Type 0
LogsBuilder = Map String LogResource

abbrev map_or_text : Option (Map String Any) → String → Body
map_or_text (some m) t = of_map m
map_or_text none t = of_text t

abbrev body_of : Option Any → LogRecord → Body
body_of (some v) r = of_value v
body_of none r = map_or_text r.body_map r.body

unfoldable pub stored : LogRecord → Stored
stored r = record {
  severity = r.severity;
  body = body_of r.body_value r;
  attributes = r.attributes;
}

-- `scopeLogs`: the first record of a key gives the attributes of its resource.
unfoldable pub add_to_logs : LogRecord → Option LogResource → Option LogResource
add_to_logs r none = some (record { attrs = r.resource_attrs; records = stored r ∷ [] })
add_to_logs r (some g) = some (record g { records = g.records ++ stored r ∷ [] })

-- `Add`
unfoldable pub add_record : LogRecord → LogsBuilder → Option LogsBuilder
add_record r b = change (resource_key r.resource_attrs) (add_to_logs r) b

abbrev pub and_record : Option LogsBuilder → (LogsBuilder → Option LogsBuilder) → Option LogsBuilder
and_record none next = none
and_record (some b) next = next b

unfoldable pub add_records : List LogRecord → LogsBuilder → Option LogsBuilder
add_records [] b = some b
add_records (r ∷ rs) b = and_record (add_record r b) (add_records rs)
