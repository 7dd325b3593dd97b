-- ===== src/Receiver/Sound.antt =====
-- receiver.go: the invariant of the receiver between `Start` and `Shutdown`, over one step.
use otelcol_receiver_canopen.Prelude.{◌++◌, List, ◌≡◌, ◌∙◌, Bool, true, false, []}
use mathlib.Core.Path.{subst}
use otelcol_receiver_canopen.Config.Types.{Config}
use otelcol_receiver_canopen.Receiver.Dispatch.{Receiver, flush_metrics, flush_logs}
use otelcol_receiver_canopen.Receiver.Adds.{Adds}
use otelcol_receiver_canopen.Receiver.Pending.{
  flush_metrics_none, flush_logs_none, Pending, Adds-Pending, flush_metrics-Pending,
  flush_logs-Pending, flush_metrics_same, flush_logs_same,
}
use otelcol_receiver_canopen.Receiver.Lifecycle.{
  Starting, Place, Phase, in_service, cancelled, gave_up, waited, half_flushed, shut_down, System,
  IsIdle, IsSettled, flush_metrics_of, flush_logs_of, Phase,
}

abbrev pub IsFlushedMetrics : Receiver → Type 0
IsFlushedMetrics r = r.metrics_consumer ≡ true → r.metrics_builder ≡ []

abbrev pub IsFlushedLogs : Receiver → Type 0
IsFlushedLogs r = r.logs_consumer ≡ true → r.logs_builder ≡ []

abbrev pub AllReturned : Place → Bool → Bool → Type 0
AllReturned p sdo raw = IsIdle p × (sdo ≡ false) × (raw ≡ false)

-- What holds of the other parts when `Shutdown` has come to a phase.
abbrev pub Ended : Phase → Starting → Place → Bool → Bool → Receiver → Type 0
Ended in_service st p sdo raw r = Unit
Ended cancelled st p sdo raw r = IsSettled st
Ended gave_up st p sdo raw r = IsSettled st
Ended waited st p sdo raw r = IsSettled st × AllReturned p sdo raw
Ended half_flushed st p sdo raw r = IsSettled st × AllReturned p sdo raw × IsFlushedMetrics r
Ended shut_down st p sdo raw r =
    IsSettled st × AllReturned p sdo raw × IsFlushedMetrics r × IsFlushedLogs r

pub record Sound (cfg : Config) (metrics logs : Bool) (s : System) : Type 0 where
  pub pending : Pending cfg s.receiver s.metrics_out s.logs_out
  pub ending : Ended s.phase s.starting s.place s.sdo_running s.raw_running s.receiver
  pub same_metrics_consumer : s.receiver.metrics_consumer ≡ metrics
  pub same_logs_consumer : s.receiver.logs_consumer ≡ logs
  pub no_metrics_out : metrics ≡ false → s.metrics_out ≡ []
  pub no_logs_out : logs ≡ false → s.logs_out ≡ []

-- While a goroutine runs, `Shutdown` has not got further than cancelling.
pub Ended-busy :
    (ph : Phase) (st : Starting) (p : Place) (sdo raw : Bool) (r : Receiver) (p' : Place)
    (sdo' raw' : Bool) (r' : Receiver)
    → (AllReturned p sdo raw → ⊥)
    → Ended ph st p sdo raw r
    → Ended ph st p' sdo' raw' r'
Ended-busy in_service st p sdo raw r p' sdo' raw' r' b e = tt
Ended-busy cancelled st p sdo raw r p' sdo' raw' r' b e = e
Ended-busy gave_up st p sdo raw r p' sdo' raw' r' b e = e
Ended-busy waited st p sdo raw r p' sdo' raw' r' b e = absurd (b e.1)
Ended-busy half_flushed st p sdo raw r p' sdo' raw' r' b e = absurd (b e.1)
Ended-busy shut_down st p sdo raw r p' sdo' raw' r' b e = absurd (b e.1)

-- While `Start` is under way, `Shutdown` has not been called.
pub Ended-starting :
    (ph : Phase) (st : Starting) (p : Place) (sdo raw : Bool) (r : Receiver) (st' : Starting)
    (p' : Place) (sdo' raw' : Bool) (r' : Receiver)
    → (IsSettled st → ⊥)
    → Ended ph st p sdo raw r
    → Ended ph st' p' sdo' raw' r'
Ended-starting in_service st p sdo raw r st' p' sdo' raw' r' b e = tt
Ended-starting cancelled st p sdo raw r st' p' sdo' raw' r' b e = absurd (b e)
Ended-starting gave_up st p sdo raw r st' p' sdo' raw' r' b e = absurd (b e)
Ended-starting waited st p sdo raw r st' p' sdo' raw' r' b e = absurd (b e.0)
Ended-starting half_flushed st p sdo raw r st' p' sdo' raw' r' b e = absurd (b e.0)
Ended-starting shut_down st p sdo raw r st' p' sdo' raw' r' b e = absurd (b e.0)

none_joined {ℓ} : {A : Type ℓ} (xs ys : List A) → xs ≡ [] → ys ≡ [] → xs ++ ys ≡ []
none_joined xs ys h k = rw h k

module _ (cfg : Config) (metrics logs : Bool) where
  -- A step of a goroutine that runs.
  pub busy :
      (s : System) (r' : Receiver) (p' : Place) (sdo' raw' : Bool)
      → (AllReturned s.place s.sdo_running s.raw_running → ⊥)
      → Adds s.receiver r'
      → Sound cfg metrics logs s
      → Sound cfg metrics logs
          (record s { receiver = r'; place = p'; sdo_running = sdo'; raw_running = raw' })
  busy s r' p' sdo' raw' b a h = record {
    pending = Adds-Pending cfg s.receiver r' s.metrics_out s.logs_out a h.pending;
    ending =
        Ended-busy s.phase s.starting s.place s.sdo_running s.raw_running s.receiver p' sdo' raw' r'
          b h.ending;
    same_metrics_consumer = a.same_metrics_consumer ∙ h.same_metrics_consumer;
    same_logs_consumer = a.same_logs_consumer ∙ h.same_logs_consumer;
    no_metrics_out = h.no_metrics_out;
    no_logs_out = h.no_logs_out;
  }

  pub starting_up :
      (s : System) (r' : Receiver) (st' : Starting) (p' : Place) (sdo' raw' : Bool)
      → Ended s.phase st' p' sdo' raw' r'
      → Adds s.receiver r'
      → Sound cfg metrics logs s
      → Sound cfg metrics logs (record s {
        receiver = r';
        starting = st';
        place = p';
        sdo_running = sdo';
        raw_running = raw';
      })
  starting_up s r' st' p' sdo' raw' e a h = record {
    pending = Adds-Pending cfg s.receiver r' s.metrics_out s.logs_out a h.pending;
    ending = e;
    same_metrics_consumer = a.same_metrics_consumer ∙ h.same_metrics_consumer;
    same_logs_consumer = a.same_logs_consumer ∙ h.same_logs_consumer;
    no_metrics_out = h.no_metrics_out;
    no_logs_out = h.no_logs_out;
  }

  pub metrics_handed :
      (s : System) (p' : Place) (ph' : Phase)
      → Ended ph' s.starting p' s.sdo_running s.raw_running (flush_metrics s.receiver).1
      → Sound cfg metrics logs s
      → Sound cfg metrics logs (record (flush_metrics_of s) { place = p'; phase = ph' })
  unfolding flush_metrics_of
  metrics_handed s p' ph' e h =
      let (c, mc, lc) = flush_metrics_same s.receiver in
      record {
        pending = flush_metrics-Pending cfg s.receiver s.metrics_out s.logs_out h.pending;
        ending = e;
        same_metrics_consumer = mc ∙ h.same_metrics_consumer;
        same_logs_consumer = lc ∙ h.same_logs_consumer;
        no_metrics_out = λ off.
            none_joined s.metrics_out (flush_metrics s.receiver).0 (h.no_metrics_out off)
              (flush_metrics_none s.receiver (h.same_metrics_consumer ∙ off));
        no_logs_out = h.no_logs_out;
      }

  pub logs_handed :
      (s : System) (p' : Place) (ph' : Phase)
      → Ended ph' s.starting p' s.sdo_running s.raw_running (flush_logs s.receiver).1
      → Sound cfg metrics logs s
      → Sound cfg metrics logs (record (flush_logs_of s) { place = p'; phase = ph' })
  unfolding flush_logs_of
  logs_handed s p' ph' e h =
      let (c, mc, lc) = flush_logs_same s.receiver in
      record {
        pending = flush_logs-Pending cfg s.receiver s.metrics_out s.logs_out h.pending;
        ending = e;
        same_metrics_consumer = mc ∙ h.same_metrics_consumer;
        same_logs_consumer = lc ∙ h.same_logs_consumer;
        no_metrics_out = h.no_metrics_out;
        no_logs_out = λ off.
            none_joined s.logs_out (flush_logs s.receiver).0 (h.no_logs_out off)
              (flush_logs_none s.receiver (h.same_logs_consumer ∙ off));
      }

  pub in_phase :
      (s : System) (ph' : Phase)
      → Ended ph' s.starting s.place s.sdo_running s.raw_running s.receiver
      → Sound cfg metrics logs s
      → Sound cfg metrics logs (record s { phase = ph' })
  in_phase s ph' e h = record {
    pending = h.pending;
    ending = e;
    same_metrics_consumer = h.same_metrics_consumer;
    same_logs_consumer = h.same_logs_consumer;
    no_metrics_out = h.no_metrics_out;
    no_logs_out = h.no_logs_out;
  }

-- What holds in the phase that `Shutdown` is known to be in.
pub phase-Ended :
    {cfg : Config} {metrics logs : Bool} {s : System} (ph : Phase)
    → s.phase ≡ ph
    → Sound cfg metrics logs s
    → Ended ph s.starting s.place s.sdo_running s.raw_running s.receiver
phase-Ended {s = s} ph now h =
    subst (λ (p : Phase). Ended p s.starting s.place s.sdo_running s.raw_running s.receiver) now
      h.ending
