-- ===== src/Receiver/Delivered.antt =====
-- receiver.go: what the consumers have got, at any time between `Start` and `Shutdown`.
use otelcol_receiver_canopen.Prelude.{
  if◌then◌else◌, ◌≡◌, refl, sym, ◌∙◌, ap, Bool, true, false, none, some, List, [], ◌++◌, All,
}
use mathlib.Core.Path.{subst}
use mathlib.Core.List.{append-nil}
use otelcol_receiver_canopen.Receiver.Dispatch.{Library}
use otelcol_receiver_canopen.Config.Types.{Config}
use otelcol_receiver_canopen.Sniffer.Allowed.{IsAllowed}
use otelcol_receiver_canopen.Receiver.Dispatch.{
  Receiver, new_receiver, builders_of, add_metrics, add_logs,
}
use otelcol_receiver_canopen.Receiver.Adds.{
  Adds, Adds-refl, Leaves, Turns, sniff_frame-Turns, poll_answers-Leaves, raw_claims-Leaves,
}
use otelcol_receiver_canopen.Receiver.Outputs.{joined, flush_metrics_lem, flush_logs_lem}
use otelcol_receiver_canopen.Receiver.Pending.{flush_metrics_same, flush_logs_same}
use otelcol_receiver_canopen.Receiver.Lifecycle.{
  cancelled, gave_up, waited, half_flushed, shut_down, System, new_system, IsIdle, IsSettled, Step,
  Reach, start, later, make_sdo_poller, make_raw_poller, flush_metrics_of, flush_logs_of, got,
  answered, offered, flushing_metrics, flushing_logs, at_recv, loop_returned, dial_fails, opens,
  makes_sdo_poller, makes_raw_poller, stops, recv_fails, receives, answers, offers, passes_by,
  sniffs, hands_metrics, hands_logs, sends, polls, sdo_returns, raw_polls, raw_returns, cancels,
  waits, abandons, last_metrics, last_logs, with_active, opened, sdo_made, started, open_failed,
}
use otelcol_receiver_canopen.Receiver.Sound.{
  Sound, Ended-busy, Ended-starting, busy, starting_up, metrics_handed, logs_handed, in_phase,
  phase-Ended,
}

-- What has been handed on once nothing is pending.
handed {ℓ} :
    {A : Type ℓ} (on : Bool) (out : List (List A)) (pending all : List A)
    → (on ≡ false → out ≡ [])
    → (on ≡ true → pending ≡ [])
    → joined out ++ pending ≡ all
    → joined out ≡ (if on then all else [])
handed true out pending all h k e =
    sym (append-nil (joined out)) ∙ sym (ap (◌++◌ (joined out)) (k refl)) ∙ e
handed false out pending all h k e = ap joined (h refl)

unchanged : (r : Receiver) → Adds r r
unchanged r = Adds-refl r r refl refl refl refl refl refl

module _ (cfg : Config) (metrics logs : Bool) (ops : Library) where
  Step-Sound : {s t : System} → Step ops s t → Sound cfg metrics logs s → Sound cfg metrics logs t
  unfolding make_sdo_poller make_raw_poller flush_metrics_of flush_logs_of
  Step-Sound {s} (dial_fails new now) h =
      starting_up cfg metrics logs s s.receiver (started (some open_failed)) s.place s.sdo_running
        s.raw_running (rw now tt) (unchanged s.receiver) h
  Step-Sound {s} (opens new now) h =
      starting_up cfg metrics logs s s.receiver opened at_recv s.sdo_running s.raw_running
        (rw now tt) (unchanged s.receiver) h
  Step-Sound {s} (makes_sdo_poller at) h =
      starting_up cfg metrics logs s _ sdo_made s.place _ s.raw_running
        (Ended-starting s.phase s.starting s.place s.sdo_running s.raw_running s.receiver sdo_made
          s.place _ s.raw_running _ (λ x. subst IsSettled at x) h.ending)
        (Adds-refl s.receiver _ refl refl refl refl refl refl) h
  Step-Sound {s} (makes_raw_poller at) h =
      starting_up cfg metrics logs s _ (started none) s.place s.sdo_running _
        (Ended-starting s.phase s.starting s.place s.sdo_running s.raw_running s.receiver
          (started none) s.place s.sdo_running _ _ (λ x. subst IsSettled at x) h.ending)
        (Adds-refl s.receiver _ refl refl refl refl refl refl) h
  Step-Sound {s} (stops at c) h =
      busy cfg metrics logs s s.receiver loop_returned s.sdo_running s.raw_running
        (λ x. subst IsIdle at x.0) (unchanged s.receiver) h
  Step-Sound {s} (recv_fails e at) h =
      busy cfg metrics logs s s.receiver _ s.sdo_running s.raw_running (λ x. subst IsIdle at x.0)
        (unchanged s.receiver) h
  Step-Sound {s} (receives f at) h =
      busy cfg metrics logs s s.receiver (got f) s.sdo_running s.raw_running
        (λ x. subst IsIdle at x.0) (unchanged s.receiver) h
  Step-Sound {s} (answers {f} {sent} {r} at e) h =
      busy cfg metrics logs s r (answered f) s.sdo_running s.raw_running (λ x. subst IsIdle at x.0)
        (subst (Leaves s.receiver) e (poll_answers-Leaves ops s.receiver.sdo_poller f s.receiver)) h
  Step-Sound {s} (offers {f} {claimed} {r} at e) h =
      busy cfg metrics logs s r (offered f claimed) s.sdo_running s.raw_running
        (λ x. subst IsIdle at x.0)
        (subst (Leaves s.receiver) e (raw_claims-Leaves ops s.receiver.raw_poller f s.receiver)) h
  Step-Sound {s} (passes_by f at) h =
      busy cfg metrics logs s s.receiver flushing_metrics s.sdo_running s.raw_running
        (λ x. subst IsIdle at x.0) (unchanged s.receiver) h
  Step-Sound {s} (sniffs f {r} at e) h =
      busy cfg metrics logs s r flushing_metrics s.sdo_running s.raw_running
        (λ x. subst IsIdle at x.0) (subst (Turns s.receiver) e (sniff_frame-Turns ops f s.receiver))
        h
  Step-Sound {s} (hands_metrics at) h =
      metrics_handed cfg metrics logs s flushing_logs s.phase
        (Ended-busy s.phase s.starting s.place s.sdo_running s.raw_running s.receiver flushing_logs
          s.sdo_running s.raw_running _ (λ x. subst IsIdle at x.0) h.ending)
        h
  Step-Sound {s} (hands_logs at) h =
      logs_handed cfg metrics logs s at_recv s.phase
        (Ended-busy s.phase s.starting s.place s.sdo_running s.raw_running s.receiver at_recv
          s.sdo_running s.raw_running _ (λ x. subst IsIdle at x.0) h.ending)
        h
  Step-Sound {s} (sends f {r} on e) h =
      busy cfg metrics logs s r s.place s.sdo_running s.raw_running (λ x. cc)
        (subst (Turns s.receiver) e (sniff_frame-Turns ops f s.receiver)) h
  Step-Sound {s} (polls p a on) h =
      busy cfg metrics logs s (with_active s.receiver p a) s.place s.sdo_running s.raw_running
        (λ x. cc) (Adds-refl s.receiver _ refl refl refl refl refl refl) h
  Step-Sound {s} (sdo_returns on may) h =
      busy cfg metrics logs s s.receiver s.place false s.raw_running (λ x. cc)
        (unchanged s.receiver) h
  Step-Sound {s} (raw_polls p on polled) h =
      busy cfg metrics logs s _ s.place s.sdo_running s.raw_running (λ x. cc)
        (Adds-refl s.receiver _ refl refl refl refl refl refl) h
  Step-Sound {s} (raw_returns on may) h =
      busy cfg metrics logs s s.receiver s.place s.sdo_running false (λ x. cc)
        (unchanged s.receiver) h
  Step-Sound {s} (cancels settled now) h = in_phase cfg metrics logs s cancelled settled h
  Step-Sound {s} (waits now idle sdo raw) h =
      in_phase cfg metrics logs s waited (phase-Ended cancelled now h, (idle, sdo, raw)) h
  Step-Sound {s} (abandons now) h =
      in_phase cfg metrics logs s gave_up (phase-Ended cancelled now h) h
  Step-Sound {s} (last_metrics now) h =
      let (settled, returned) = phase-Ended waited now h in
      metrics_handed cfg metrics logs s s.place half_flushed
        (
          settled,
          returned,
          λ c. (flush_metrics_lem s.receiver).1 (sym (flush_metrics_same s.receiver).1 ∙ c),
        )
        h
  Step-Sound {s} (last_logs now) h =
      let (settled, returned, flushed) = phase-Ended half_flushed now h in
      logs_handed cfg metrics logs s s.place shut_down
        (
          settled,
          returned,
          λ c. (flush_logs_lem s.receiver).2 ∙ flushed (sym (flush_logs_same s.receiver).1 ∙ c),
          λ c. (flush_logs_lem s.receiver).1 (sym (flush_logs_same s.receiver).2 ∙ c),
        )
        h

  new-Sound : Sound cfg metrics logs (new_system cfg metrics logs)
  unfolding new_receiver add_metrics add_logs
  new-Sound = record {
    pending = record { allowed = tt; metrics_kept = refl; logs_kept = refl; same_cfg = refl };
    ending = tt;
    same_metrics_consumer = refl;
    same_logs_consumer = refl;
    no_metrics_out = λ off. refl;
    no_logs_out = λ off. refl;
  }

  -- In every state that a receiver reaches, whatever the frames and however the dispatch loop, the
  -- pollers, `Start` and `Shutdown` are interleaved: what has been handed to the consumers and what
  -- is pending make up, in order, the outputs that have been added, all of enabled signals; nothing
  -- has been handed to a signal without a consumer; and once `Shutdown` has waited, `Start` is
  -- settled, every goroutine has returned, and each signal with a consumer that has been flushed has
  -- nothing pending.
  pub Reach-Sound :
      {s : System} → Reach ops (new_system cfg metrics logs) s → Sound cfg metrics logs s
  Reach-Sound start = new-Sound
  Reach-Sound (later r st) = Step-Sound st (Reach-Sound r)

  -- A receiver that has shut down has handed exactly the outputs that were made, all of them of
  -- enabled signals, in the order in which they were made, to the consumer of their signal, and
  -- nothing to a signal without a consumer.
  pub shutdown_delivers :
      {s : System}
      → Reach ops (new_system cfg metrics logs) s
      → s.phase ≡ shut_down
      → All (IsAllowed (builders_of cfg)) s.receiver.history
        × (joined s.metrics_out ≡ (if metrics then add_metrics s.receiver.history [] else []))
        × (joined s.logs_out ≡ (if logs then add_logs s.receiver.history [] else []))
  shutdown_delivers {s} r over =
      let h = Reach-Sound r in
      let (settled, returned, no_metrics, no_logs) = phase-Ended shut_down over h in
      (
        h.pending.allowed,
        handed metrics s.metrics_out s.receiver.metrics_builder _ h.no_metrics_out
            (λ c. no_metrics (h.same_metrics_consumer ∙ c)) h.pending.metrics_kept,
        handed logs s.logs_out s.receiver.logs_builder _ h.no_logs_out
            (λ c. no_logs (h.same_logs_consumer ∙ c)) h.pending.logs_kept,
      )
