-- ===== src/Emit/Types.antt =====
-- internal/emit: the points and records that the receiver adds to its builders. No caller sets a
-- timestamp, so the builders take the current time, and the model has none.
use otelcol_receiver_canopen.Prelude.{String, Option}
use otelcol_receiver_canopen.Prelude.Maps.{Map}
use otelcol_receiver_canopen.Codec.Types.{Float64, Any}

pub data MetricKind : Type 0 where
  gauge sum : MetricKind

pub record MetricPoint : Type 0 where
  pub resource_attrs : Map String String
  pub name : String
  pub unit : String
  pub kind : MetricKind
  pub value : Float64
  pub attributes : Map String Any

-- The severities in use.
pub data Severity : Type 0 where
  info warn : Severity

pub record LogRecord : Type 0 where
  pub resource_attrs : Map String String
  pub severity : Severity
  pub body : String
  pub body_value : Option Any
  pub body_map : Option (Map String Any)
  pub attributes : Map String Any

-- The calls of `Add`, in the order in which they are made.
pub data Emitted : Type 0 where
  metric : MetricPoint → Emitted
  log : LogRecord → Emitted
