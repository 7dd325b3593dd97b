-- ===== src/Receiver/Outputs.antt =====
-- receiver.go: what a pass of `dispatchLoop` does to the pending outputs.
use otelcol_receiver_canopen.Prelude.{◌≡◌, ◌∙◌, ap, true, List, [], ◌∷◌, ◌++◌, All, arith}
use mathlib.Core.List.{append-nil}
use otelcol_receiver_canopen.Receiver.Dispatch.{Library}
use otelcol_receiver_canopen.Transport.{Frame}
use otelcol_receiver_canopen.Emit.Types.{MetricPoint, Emitted}
use otelcol_receiver_canopen.Sniffer.Fields.{Ran, done, crashed, ◌>>=◌}
use otelcol_receiver_canopen.Sniffer.Allowed.{IsAllowed}
use otelcol_receiver_canopen.Receiver.Dispatch.{
  Receiver, builders_of, add_metrics, add_logs, Pass, flush_metrics, flush_logs, flush_pass,
  dispatch_frame,
}
use otelcol_receiver_canopen.Receiver.Adds.{
  Adds, Leaves, Turns, Leaves-trans, Turns-trans, poll_answers-Leaves, raw_claims-Leaves,
  rest_sniffed,
}

-- What has been handed to consumers, joined.
abbrev pub joined {ℓ} : {A : Type ℓ} → List (List A) → List A
joined [] = []
joined (xs ∷ rest) = xs ++ joined rest

-- Nothing pending is lost: what is handed on, and what is left, is what was there, and the allowed
-- outputs of the pass behind it; with a consumer, nothing is left.
pub record Lossless (r : Receiver) (p : Pass) : Type 0 where
  pub outputs : List Emitted
  pub allowed : All (IsAllowed (builders_of r.cfg)) outputs
  pub recorded : p.receiver.history ≡ r.history ++ outputs
  pub metrics_kept :
      joined p.metrics_out ++ p.receiver.metrics_builder ≡ add_metrics outputs r.metrics_builder
  pub logs_kept : joined p.logs_out ++ p.receiver.logs_builder ≡ add_logs outputs r.logs_builder
  pub metrics_flushed : r.metrics_consumer ≡ true → p.receiver.metrics_builder ≡ []
  pub logs_flushed : r.logs_consumer ≡ true → p.receiver.logs_builder ≡ []

abbrev pub IsLossless : Receiver → Ran Pass → Type 0
IsLossless r (done p) = Lossless r p
IsLossless r crashed = Unit

-- A flush keeps what it does not hand on, empties the builder if there is a consumer, and leaves the
-- other signal alone.
pub flush_metrics_lem :
    (r : Receiver)
    → (joined (flush_metrics r).0 ++ (flush_metrics r).1.metrics_builder ≡ r.metrics_builder)
      × (r.metrics_consumer ≡ true → (flush_metrics r).1.metrics_builder ≡ [])
      × ((flush_metrics r).1.logs_builder ≡ r.logs_builder)
      × ((flush_metrics r).1.logs_consumer ≡ r.logs_consumer)
      × ((flush_metrics r).1.history ≡ r.history)
unfolding flush_metrics
flush_metrics_lem r = ground (arith, append-nil r.metrics_builder)

pub flush_logs_lem :
    (r : Receiver)
    → (joined (flush_logs r).0 ++ (flush_logs r).1.logs_builder ≡ r.logs_builder)
      × (r.logs_consumer ≡ true → (flush_logs r).1.logs_builder ≡ [])
      × ((flush_logs r).1.metrics_builder ≡ r.metrics_builder)
      × ((flush_logs r).1.history ≡ r.history)
unfolding flush_logs
flush_logs_lem r = ground (arith, append-nil r.logs_builder)

flush_pass-Lossless :
    (sent : List Frame) (r s : Receiver) → Adds r s → Lossless r (flush_pass sent s)
unfolding flush_pass
flush_pass-Lossless sent r s a =
    let (m0, m1, m2, m3, m4) = flush_metrics_lem s in
    let (l0, l1, l2, l3) = flush_logs_lem (flush_metrics s).1 in
    record {
      outputs = a.outputs;
      allowed = a.allowed;
      recorded = l3 ∙ m4 ∙ a.recorded;
      metrics_kept =
          ap (λ (ms : List MetricPoint). joined (flush_metrics s).0 ++ ms) l2
          ∙ m0
          ∙ a.metrics_added;
      logs_kept = l0 ∙ m2 ∙ a.logs_added;
      metrics_flushed = λ h. l2 ∙ m1 (a.same_metrics_consumer ∙ h);
      logs_flushed = λ h. l1 (m3 ∙ a.same_logs_consumer ∙ h);
    }

module _ (ops : Library) where
  flushed_run :
      (r : Receiver) (sent : List Frame) (x : Ran Receiver)
      → Turns r x
      → IsLossless r (x >>= λ s. done (flush_pass sent s))
  flushed_run r sent (done s) h = flush_pass-Lossless sent r s h
  flushed_run r sent crashed h = tt

  stage_run {ℓ} :
      {A : Type ℓ} (r : Receiver) (x : Ran (A × Receiver)) (next : A × Receiver → Ran Pass)
      → Leaves r x
      → ((a : A) (s : Receiver) → Adds r s → IsLossless r (next (a, s)))
      → IsLossless r (x >>= next)
  stage_run r (done (a, s)) next h k = k a s h
  stage_run r crashed next h k = tt

  -- A pass over a frame loses no pending output: what the consumers get, and what is left in the
  -- builders, is what was pending and, behind it, outputs of enabled signals only; a builder whose
  -- signal has a consumer is left empty. A pass that panics has no result to speak of.
  pub dispatch_frame-IsLossless : (f : Frame) (r : Receiver) → IsLossless r (dispatch_frame ops f r)
  unfolding dispatch_frame
  dispatch_frame-IsLossless f r =
      stage_run r _ _ (poll_answers-Leaves ops r.sdo_poller f r) λ sent r1 a.
        stage_run r _ _ (Leaves-trans r r1 _ a (raw_claims-Leaves ops r1.raw_poller f r1))
          λ claimed r2 c.
            flushed_run r sent _ (Turns-trans r r2 _ c (rest_sniffed ops claimed f r2))
