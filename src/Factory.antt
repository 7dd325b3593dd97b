-- ===== src/Factory.antt =====
-- factory.go: the receivers that the metrics and logs pipelines of one component share.
pub mod Sharing
pub mod Pipelines
use otelcol_receiver_canopen.Prelude.{
  ℕ, suc, String, Bool, true, false, Option, none, some, List, [], ◌∷◌, if◌then◌else◌, ◌==◌, nat_eq,
  string_key,
}
use otelcol_receiver_canopen.Prelude.Maps.{Map, lookup, insert}
use otelcol_receiver_canopen.Config.Types.{Config}
use otelcol_receiver_canopen.Receiver.Dispatch.{Receiver, new_receiver}

-- `sharedReceivers`, by the text of a component's ID, and the receivers that have been made: a
-- pointer to one is its number.
pub record Factory : Type 0 where
  pub shared_receivers : Map String ℕ
  pub made : ℕ
  pub receiver : ℕ → Receiver

-- `consumer` is nil in a receiver that has just been made.
abbrev pub put_receiver : (ℕ → Receiver) → ℕ → Receiver → ℕ → Receiver
put_receiver heap p r q = if p == q then r else heap q

abbrev pub Created : Type 0
Created = ℕ × Factory

unfoldable pub add_receiver : String → Config → Factory → Created
add_receiver id cfg s = (
  s.made,
  record {
    shared_receivers = insert id s.made s.shared_receivers;
    made = suc s.made;
    receiver = put_receiver s.receiver s.made (new_receiver cfg false false);
  },
)

unfoldable pub found_or_new : Option ℕ → String → Config → Factory → Created
found_or_new (some p) id cfg s = (p, s)
found_or_new none id cfg s = add_receiver id cfg s

-- `getOrCreateReceiver`
unfoldable pub get_or_create_receiver : String → Config → Factory → Created
get_or_create_receiver id cfg s = found_or_new (lookup id s.shared_receivers) id cfg s

abbrev pub with_metrics : Created → Created
with_metrics (p, s) = (
  p,
  record s {
    receiver = put_receiver s.receiver p (record (s.receiver p) { metrics_consumer = true });
  },
)

abbrev pub with_logs : Created → Created
with_logs (p, s) = (
  p,
  record s {
    receiver = put_receiver s.receiver p (record (s.receiver p) { logs_consumer = true });
  },
)

-- `createMetricsReceiver` and `createLogsReceiver`; a configuration of another type is `none`, and
-- the error leaves everything as it is.
unfoldable pub create_metrics_receiver : String → Option Config → Factory → Option ℕ × Factory
create_metrics_receiver id none s = (none, s)
create_metrics_receiver id (some cfg) s =
    let (p, s') = with_metrics (get_or_create_receiver id cfg s) in (some p, s')

unfoldable pub create_logs_receiver : String → Option Config → Factory → Option ℕ × Factory
create_logs_receiver id none s = (none, s)
create_logs_receiver id (some cfg) s =
    let (p, s') = with_logs (get_or_create_receiver id cfg s) in (some p, s')
