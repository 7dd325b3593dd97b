-- ===== src/Receiver/Dispatch.antt =====
-- receiver.go: one pass of `dispatchLoop` over a frame that has been received, and the flushes.
use otelcol_receiver_canopen.Prelude.{
  Bool, false, not, ◌||◌, Option, none, some, List, [], ◌∷◌, ◌++◌, if◌then◌else◌,
}
use otelcol_receiver_canopen.Prelude.Maps.{Map}
use otelcol_receiver_canopen.Prelude.{ℕ}
use otelcol_receiver_canopen.Codec.Types.{FloatOps}
use otelcol_receiver_canopen.Transport.{Frame}
use otelcol_receiver_canopen.Emit.Types.{MetricPoint, LogRecord, Emitted, metric, log}
use otelcol_receiver_canopen.Emit.Metrics.{Metric, MetricsBuilder, add_points}
use otelcol_receiver_canopen.Config.Types.{SdoChannelConfig, Config, is_empty}
use otelcol_receiver_canopen.Sniffer.Types.{Sniffer, new_sniffer}
use otelcol_receiver_canopen.Sniffer.Fields.{Builders, Ran, done, crashed, ◌>>=◌}
use otelcol_receiver_canopen.Sniffer.Dispatch.{handle_frame}
use otelcol_receiver_canopen.RawPoller.Attempts.{Poller, Claim, claim_frame}
use otelcol_receiver_canopen.SdoPoller.Poll.{ActivePoll, answer_frame, poll_channels}
use otelcol_receiver_canopen.Receiver.Build.{build_sniffer_config}

-- The SDO poller's channels, and its attempt while one is under way.
pub record SdoPolling : Type 0 where
  pub channels : Map ℕ SdoChannelConfig
  pub active : Option ActivePoll

-- A poller is `none` until `Start` has made one. What waits in the builders is in the order of `Add`;
-- `history` is a record for the proofs, of all the calls of `Add` so far.
pub record Receiver : Type 0 where
  pub cfg : Config
  pub sniff : Sniffer
  pub sdo_poller : Option SdoPolling
  pub raw_poller : Option Poller
  pub metrics_builder : List MetricPoint
  pub logs_builder : List LogRecord
  pub history : List Emitted
  pub metrics_consumer : Bool
  pub logs_consumer : Bool

unfoldable pub start_sdo_poller : Config → Option SdoPolling
start_sdo_poller cfg =
    if is_empty cfg.sdo.poll.objects
    then none
    else some (record { channels = poll_channels cfg.sdo.sniff.channels []; active = none })

unfoldable pub start_raw_poller : Config → Option Poller
start_raw_poller cfg =
    if is_empty cfg.raw.transactions
    then none
    else some (record { active = none; answered = false })

-- `newCanopenReceiver`; the factory sets the consumers.
unfoldable pub new_receiver : Config → Bool → Bool → Receiver
new_receiver cfg metrics logs = record {
  cfg = cfg;
  sniff = new_sniffer (build_sniffer_config cfg);
  sdo_poller = none;
  raw_poller = none;
  metrics_builder = [];
  logs_builder = [];
  history = [];
  metrics_consumer = metrics;
  logs_consumer = logs;
}

-- The receiver with the pollers that `doStart` adds after a dial that succeeds.
unfoldable pub start_receiver : Config → Bool → Bool → Receiver
start_receiver cfg metrics logs = record (new_receiver cfg metrics logs) {
  sdo_poller = start_sdo_poller cfg;
  raw_poller = start_raw_poller cfg;
}

-- `metricsIfEnabled` and `logsIfEnabled`
abbrev pub builders_of : Config → Builders
builders_of cfg = record { metrics = cfg.metrics_enabled; logs = cfg.logs_enabled }

-- The calls of `Add`, to the builder of each signal.
unfoldable pub add_metrics : List Emitted → List MetricPoint → List MetricPoint
add_metrics [] ms = ms
add_metrics (metric p ∷ es) ms = add_metrics es (ms ++ p ∷ [])
add_metrics (log r ∷ es) ms = add_metrics es ms

unfoldable pub add_logs : List Emitted → List LogRecord → List LogRecord
add_logs [] ls = ls
add_logs (metric p ∷ es) ls = add_logs es ls
add_logs (log r ∷ es) ls = add_logs es (ls ++ r ∷ [])

unfoldable pub add_all : List Emitted → Receiver → Receiver
add_all es r = record r {
  metrics_builder = add_metrics es r.metrics_builder;
  logs_builder = add_logs es r.logs_builder;
  history = r.history ++ es;
}

-- What the receiver takes from other packages: the arithmetic of floats, and what the collector's
-- library does when a point is appended to the points of a kind that the metric does not have.
pub record Library : Type 0 where
  pub floats : FloatOps
  pub append_invalid : MetricPoint → Metric → Option Metric

abbrev pub built : Option MetricsBuilder → Receiver → Ran Receiver
built none r = crashed
built (some b) r = done r

-- The calls of `Add`, which panic where the builder made of those since its last flush does.
unfoldable pub adding : Library → List Emitted → Receiver → Ran Receiver
adding ops es r =
    let r' = add_all es r in built (add_points ops.append_invalid r'.metrics_builder []) r'

-- What a pass sends and hands to the consumers, and the receiver behind it.
pub record Pass : Type 0 where
  pub sent : List Frame
  pub metrics_out : List (List MetricPoint)
  pub logs_out : List (List LogRecord)
  pub receiver : Receiver

-- The builder is emptied into the consumer, if there is one and something to consume.
unfoldable pub flush_metrics : Receiver → List (List MetricPoint) × Receiver
flush_metrics r =
    if not r.metrics_consumer || is_empty r.metrics_builder
    then ([], r)
    else (r.metrics_builder ∷ [], record r { metrics_builder = [] })

unfoldable pub flush_logs : Receiver → List (List LogRecord) × Receiver
flush_logs r =
    if not r.logs_consumer || is_empty r.logs_builder
    then ([], r)
    else (r.logs_builder ∷ [], record r { logs_builder = [] })

unfoldable pub flush_pass : List Frame → Receiver → Pass
flush_pass sent r =
    let (ms, r') = flush_metrics r in
    let (ls, r'') = flush_logs r' in
    record { sent = sent; metrics_out = ms; logs_out = ls; receiver = r'' }

module _ (ops : Library) where
  unfoldable pub sniff_frame : Frame → Receiver → Ran Receiver
  sniff_frame f r = do
    (es, s) ← handle_frame ops.floats (builders_of r.cfg) f r.sniff
    adding ops es (record r { sniff = s })

  -- `sendPollFrame`: the sniffer sees the frame before it is sent.
  unfoldable pub send_polls : Option Frame → Receiver → Ran (List Frame × Receiver)
  send_polls none r = done ([], r)
  send_polls (some f) r = do r' ← sniff_frame f r; done (f ∷ [], r')

  unfoldable pub poll_in_progress :
      SdoPolling → Option ActivePoll → Frame → Receiver → Ran (List Frame × Receiver)
  poll_in_progress p none f r = done ([], r)
  poll_in_progress p (some a) f r =
      let (sent, a') = answer_frame p.channels f a in
      send_polls sent (record r { sdo_poller = some (record p { active = some a' }) })

  unfoldable pub poll_answers : Option SdoPolling → Frame → Receiver → Ran (List Frame × Receiver)
  poll_answers none f r = done ([], r)
  poll_answers (some p) f r = poll_in_progress p p.active f r

  abbrev pub after_claim : Receiver → Claim → Ran (Bool × Receiver)
  after_claim r c = do
    r' ← adding ops c.emitted (record r { raw_poller = some c.poller })
    done (c.claimed, r')

  unfoldable pub raw_claims : Option Poller → Frame → Receiver → Ran (Bool × Receiver)
  raw_claims none f r = done (false, r)
  raw_claims (some p) f r = do
    c ← claim_frame ops.floats (builders_of r.cfg) r.cfg.interface p f
    after_claim r c

  -- The SDO poller sees the frame first, then the raw poller, and the sniffer only what that one
  -- does not claim.
  unfoldable pub dispatch_frame : Frame → Receiver → Ran Pass
  dispatch_frame f r = do
    (sent, r1) ← poll_answers r.sdo_poller f r
    (claimed, r2) ← raw_claims r1.raw_poller f r1
    r3 ← if claimed then done r2 else sniff_frame f r2
    done (flush_pass sent r3)
