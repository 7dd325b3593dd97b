-- ===== src/Config/Validate.antt =====
-- config.go: `Validate`, the checks of a whole configuration in their order.
use otelcol_receiver_canopen.Prelude.{Bool, not, ◌&&◌, ◌||◌, List, ◌==◌, string_key}
use otelcol_receiver_canopen.Config.Checked.{
  Checked, pass, fail, ◌>>◌, require, each, empty_interface, bad_read_timeout, nothing_enabled,
  metrics_disabled, logs_disabled,
}
use otelcol_receiver_canopen.Config.Types.{
  FieldConfig, PdoConfig, SimpleEventConfig, SdoObjectConfig, RawMessageConfig,
  RawTransactionConfig, SdoConfig, Config, is_positive,
}
use otelcol_receiver_canopen.Config.Fields.{validate_pdos}
use otelcol_receiver_canopen.Config.Sdo.{validate_sdo}
use otelcol_receiver_canopen.Config.Raw.{validate_raw}

-- `SimpleEventConfig.validate` accepts everything.
abbrev pub validate_simple_event : SimpleEventConfig → Checked
validate_simple_event s = pass

-- An output that is asked for must be enabled.
unfoldable pub check_outputs : Config → Bool → Bool → Checked
check_outputs cfg metrics logs = do
  require (not (metrics && not cfg.metrics_enabled)) metrics_disabled
  require (not (logs && not cfg.logs_enabled)) logs_disabled

unfoldable pub check_fields : Config → List FieldConfig → Checked
check_fields cfg fields = each (λ (s : FieldConfig). check_outputs cfg s.metrics s.logs) fields

-- The cross-checks at the end of `Validate`.
unfoldable pub output_checks : Config → Checked
output_checks cfg = do
  check_outputs cfg cfg.heartbeat.metrics cfg.heartbeat.logs
  check_outputs cfg cfg.emcy.metrics cfg.emcy.logs
  check_outputs cfg cfg.raw.sniff.metrics cfg.raw.sniff.logs
  each (λ (p : PdoConfig). check_fields cfg p.fields) cfg.pdo
  each (λ (o : SdoObjectConfig). check_fields cfg o.fields) cfg.sdo.sniff.objects
  each (λ (o : SdoObjectConfig). check_fields cfg o.fields) cfg.sdo.poll.objects
  each (λ (r : RawMessageConfig). check_fields cfg r.fields) cfg.raw.sniff.messages
  each (λ (t : RawTransactionConfig). check_fields cfg t.response.fields) cfg.raw.transactions

unfoldable pub first_checks : Config → Checked
first_checks cfg = do
  require (not (cfg.interface == "")) empty_interface
  require (is_positive cfg.read_timeout) bad_read_timeout
  require (cfg.metrics_enabled || cfg.logs_enabled) nothing_enabled
  validate_simple_event cfg.heartbeat
  validate_simple_event cfg.emcy

-- The checks after those of the SDO section.
unfoldable pub last_checks : Config → Checked
last_checks cfg = do validate_raw cfg.raw; validate_pdos cfg.pdo; output_checks cfg

abbrev pub after_sdo : Config → Checked × SdoConfig → Checked × Config
after_sdo cfg (pass, sdo) = let cfg' = record cfg { sdo = sdo } in (last_checks cfg', cfg')
after_sdo cfg (fail e, sdo) = (fail e, record cfg { sdo = sdo })

abbrev pub after_first : Config → Checked → Checked × Config
after_first cfg pass = after_sdo cfg (validate_sdo cfg.sdo)
after_first cfg (fail e) = (fail e, cfg)

-- The error, and the configuration with the default poll mode filled in.
unfoldable pub validate : Config → Checked × Config
validate cfg = after_first cfg (first_checks cfg)
