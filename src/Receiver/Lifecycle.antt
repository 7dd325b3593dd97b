-- ===== src/Receiver/Lifecycle.antt =====
-- receiver.go: `Start`, `Shutdown`, and the goroutines between them, interleaved in any order.
use otelcol_receiver_canopen.Prelude.{
  ℕ, get_elem?, ◌≡◌, String, Bool, true, false, not, ◌||◌, ◌&&◌, Option, none, some, List, [], ◌∷◌,
  ◌++◌,
}
use otelcol_receiver_canopen.Receiver.Dispatch.{Library}
use otelcol_receiver_canopen.Transport.{Frame}
use otelcol_receiver_canopen.Transport.Conn.{ConnError, deadline_exceeded, err_closed}
use otelcol_receiver_canopen.Emit.Types.{MetricPoint, LogRecord}
use otelcol_receiver_canopen.Config.Types.{RawTransactionConfig, Config, is_empty}
use otelcol_receiver_canopen.Sniffer.Fields.{done}
use otelcol_receiver_canopen.Config.Sdo.{is_interval}
use otelcol_receiver_canopen.RawPoller.Schedule.{is_once_only}
use otelcol_receiver_canopen.RawPoller.Attempts.{Poller}
use otelcol_receiver_canopen.SdoPoller.Poll.{ActivePoll}
use otelcol_receiver_canopen.Receiver.Dispatch.{
  SdoPolling, Receiver, new_receiver, start_sdo_poller, start_raw_poller, sniff_frame, poll_answers,
  raw_claims, flush_metrics, flush_logs,
}

-- What the dispatch loop does with an error of `Recv`, if the context is cancelled and if not.
pub data OnError : Type 0 where
  returns goes_on warns : OnError

unfoldable pub on_recv_error : Bool → ConnError → OnError
on_recv_error true e = returns
on_recv_error false deadline_exceeded = goes_on
on_recv_error false err_closed = returns
on_recv_error false _ = warns

-- Where `Start` stands, behind its once guard; `started` holds the `startErr` that it leaves.
pub data Starting : Type 0 where
  not_started opened sdo_made : Starting
  started : Option String → Starting

-- Where the dispatch loop stands: before `Recv`, or with a frame that the SDO poller has not seen,
-- that the raw poller has not seen, that the sniffer has not seen, and behind that with the
-- metrics, then the logs still to be flushed.
pub data Place : Type 0 where
  not_running at_recv loop_returned : Place
  got answered : Frame → Place
  offered : Frame → Bool → Place
  flushing_metrics flushing_logs : Place

-- Where `Shutdown` stands, behind its once guard; `gave_up` is its return with the context's error.
pub data Phase : Type 0 where
  in_service cancelled gave_up waited half_flushed shut_down : Phase

pub record System : Type 0 where
  pub receiver : Receiver
  pub starting : Starting
  pub place : Place
  pub sdo_running : Bool
  pub raw_running : Bool
  pub phase : Phase
  pub metrics_out : List (List MetricPoint)
  pub logs_out : List (List LogRecord)

abbrev pub new_system : Config → Bool → Bool → System
new_system cfg metrics logs = record {
  receiver = new_receiver cfg metrics logs;
  starting = not_started;
  place = not_running;
  sdo_running = false;
  raw_running = false;
  phase = in_service;
  metrics_out = [];
  logs_out = [];
}

abbrev pub is_cancelled : Phase → Bool
is_cancelled in_service = false
is_cancelled _ = true

-- The dispatch loop behind an error: the warning is the only trace that it leaves.
abbrev pub place_after : OnError → Place
place_after returns = loop_returned
place_after goes_on = at_recv
place_after warns = at_recv

-- The goroutines that are not running, counted by `wg`.
abbrev pub IsIdle : Place → Type 0
IsIdle not_running = Unit
IsIdle loop_returned = Unit
IsIdle _ = ⊥

-- `Start` is not under way: the collector calls `Shutdown` only then, and `Start` not after it.
abbrev pub IsSettled : Starting → Type 0
IsSettled not_started = Unit
IsSettled (started e) = Unit
IsSettled _ = ⊥

abbrev pub open_failed : String
open_failed = "canopenreceiver: failed to open interface"

unfoldable pub make_sdo_poller : System → System
make_sdo_poller s =
    let cfg = s.receiver.cfg in
    record s {
      receiver = record s.receiver { sdo_poller = start_sdo_poller cfg };
      starting = sdo_made;
      sdo_running = not (is_empty cfg.sdo.poll.objects);
    }

unfoldable pub make_raw_poller : System → System
make_raw_poller s =
    let cfg = s.receiver.cfg in
    record s {
      receiver = record s.receiver { raw_poller = start_raw_poller cfg };
      starting = started none;
      raw_running = not (is_empty cfg.raw.transactions);
    }

-- The flushes of a system, whoever calls them.
unfoldable pub flush_metrics_of : System → System
flush_metrics_of s =
    let (ms, r) = flush_metrics s.receiver in
    record s { receiver = r; metrics_out = s.metrics_out ++ ms }

unfoldable pub flush_logs_of : System → System
flush_logs_of s =
    let (ls, r) = flush_logs s.receiver in record s { receiver = r; logs_out = s.logs_out ++ ls }

abbrev pub with_active : Receiver → SdoPolling → Option ActivePoll → Receiver
with_active r p a = record r { sdo_poller = some (record p { active = a }) }

-- The raw poller awaits a response of a transaction of the configuration, or none.
abbrev pub IsConfigured : Config → Option RawTransactionConfig → Type 0
IsConfigured cfg none = Unit
IsConfigured cfg (some t) = (i : ℕ) × (get_elem? cfg.raw.transactions i ≡ some t)

abbrev pub all_once : List RawTransactionConfig → Bool
all_once [] = true
all_once (t ∷ ts) = is_once_only t && all_once ts

-- `run` of the SDO poller returns after a round without the mode "interval", and otherwise at a
-- pause in which the context is cancelled.
unfoldable pub sdo_may_return : Config → Bool → Bool
sdo_may_return cfg stopped = not (is_interval cfg.sdo.poll.mode) || stopped

-- `run` of the raw poller returns after a round without a recurring transaction, and otherwise at a
-- pause in which the context is cancelled.
unfoldable pub raw_may_return : Config → Bool → Bool
raw_may_return cfg stopped = all_once cfg.raw.transactions || stopped

-- A step of one goroutine. The dispatch loop sees a poller only once `doStart` has made it, which
-- is after that loop has begun. A poller's attempt begins and ends at any time while its goroutine
-- runs. What panics makes no step.
pub data Step (ops : Library) (s : System) : System → Type 0 where
  dial_fails :
      s.starting ≡ not_started
      → s.phase ≡ in_service
      → Step ops s (record s { starting = started (some open_failed) })
  opens :
      s.starting ≡ not_started
      → s.phase ≡ in_service
      → Step ops s (record s { starting = opened; place = at_recv })
  makes_sdo_poller : s.starting ≡ opened → Step ops s (make_sdo_poller s)
  makes_raw_poller : s.starting ≡ sdo_made → Step ops s (make_raw_poller s)
  stops :
      s.place ≡ at_recv
      → is_cancelled s.phase ≡ true
      → Step ops s (record s { place = loop_returned })
  recv_fails :
      (e : ConnError)
      → s.place ≡ at_recv
      → Step ops s (record s { place = place_after (on_recv_error (is_cancelled s.phase) e) })
  receives : (f : Frame) → s.place ≡ at_recv → Step ops s (record s { place = got f })
  answers :
      {f : Frame} {sent : List Frame} {r : Receiver}
      → s.place ≡ got f
      → poll_answers ops s.receiver.sdo_poller f s.receiver ≡ done (sent, r)
      → Step ops s (record s { receiver = r; place = answered f })
  offers :
      {f : Frame} {claimed : Bool} {r : Receiver}
      → s.place ≡ answered f
      → raw_claims ops s.receiver.raw_poller f s.receiver ≡ done (claimed, r)
      → Step ops s (record s { receiver = r; place = offered f claimed })
  passes_by :
      (f : Frame) → s.place ≡ offered f true → Step ops s (record s { place = flushing_metrics })
  sniffs :
      (f : Frame) {r : Receiver}
      → s.place ≡ offered f false
      → sniff_frame ops f s.receiver ≡ done r
      → Step ops s (record s { receiver = r; place = flushing_metrics })
  hands_metrics :
      s.place ≡ flushing_metrics
      → Step ops s (record (flush_metrics_of s) { place = flushing_logs })
  hands_logs : s.place ≡ flushing_logs → Step ops s (record (flush_logs_of s) { place = at_recv })
  -- `sendPollFrame` of the SDO poller's goroutine
  sends :
      (f : Frame) {r : Receiver}
      → s.sdo_running ≡ true
      → sniff_frame ops f s.receiver ≡ done r
      → Step ops s (record s { receiver = r })
  polls :
      (p : SdoPolling) (a : Option ActivePoll)
      → s.sdo_running ≡ true
      → Step ops s (record s { receiver = with_active s.receiver p a })
  sdo_returns :
      s.sdo_running ≡ true
      → sdo_may_return s.receiver.cfg (is_cancelled s.phase) ≡ true
      → Step ops s (record s { sdo_running = false })
  raw_polls :
      (p : Poller)
      → s.raw_running ≡ true
      → IsConfigured s.receiver.cfg p.active
      → Step ops s (record s { receiver = record s.receiver { raw_poller = some p } })
  raw_returns :
      s.raw_running ≡ true
      → raw_may_return s.receiver.cfg (is_cancelled s.phase) ≡ true
      → Step ops s (record s { raw_running = false })
  cancels :
      IsSettled s.starting → s.phase ≡ in_service → Step ops s (record s { phase = cancelled })
  waits :
      s.phase ≡ cancelled
      → IsIdle s.place
      → s.sdo_running ≡ false
      → s.raw_running ≡ false
      → Step ops s (record s { phase = waited })
  abandons : s.phase ≡ cancelled → Step ops s (record s { phase = gave_up })
  last_metrics :
      s.phase ≡ waited → Step ops s (record (flush_metrics_of s) { phase = half_flushed })
  last_logs : s.phase ≡ half_flushed → Step ops s (record (flush_logs_of s) { phase = shut_down })

pub data Reach (ops : Library) (s0 : System) : System → Type 0 where
  start : Reach ops s0 s0
  later : {s t : System} → Reach ops s0 s → Step ops s t → Reach ops s0 t

pub Reach-trans : {ops : Library} {s t u : System} → Reach ops s t → Reach ops t u → Reach ops s u
Reach-trans r start = r
Reach-trans r (later q st) = later (Reach-trans r q) st
