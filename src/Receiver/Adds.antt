-- ===== src/Receiver/Adds.antt =====
-- receiver.go: the outputs that each stage of `dispatchLoop` adds to the pending ones.
use otelcol_receiver_canopen.Prelude.{
  ◌≡◌, refl, sym, ◌∙◌, ap, Bool, true, false, Option, none, some, List, [], ◌∷◌, ◌++◌,
  if◌then◌else◌, All, ◌⊎◌, inl, inr, Option-cases,
}
use mathlib.Core.Path.{subst}
use mathlib.Core.List.{append-nil, append_assoc}
use otelcol_receiver_canopen.Receiver.Dispatch.{Library}
use otelcol_receiver_canopen.Transport.{Frame}
use otelcol_receiver_canopen.Emit.Types.{MetricPoint, LogRecord, Emitted, metric, log}
use otelcol_receiver_canopen.Emit.Metrics.{add_points}
use otelcol_receiver_canopen.Config.Types.{Config}
use otelcol_receiver_canopen.Sniffer.Fields.{Ran, done, crashed, ◌>>=◌}
use otelcol_receiver_canopen.Sniffer.Handlers.{Handled}
use otelcol_receiver_canopen.Sniffer.Allowed.{IsAllowed, All-append, Keeps}
use otelcol_receiver_canopen.Sniffer.Outputs.{handle_frame-Keeps}
use otelcol_receiver_canopen.RawPoller.Attempts.{Poller, Claim}
use otelcol_receiver_canopen.RawPoller.Outputs.{Claims, claim_frame-Claims}
use otelcol_receiver_canopen.SdoPoller.Poll.{ActivePoll}
use otelcol_receiver_canopen.Receiver.Dispatch.{
  SdoPolling, Receiver, builders_of, add_metrics, add_logs, add_all, adding, sniff_frame,
  send_polls, poll_answers, poll_in_progress, after_claim, raw_claims,
}

-- From one receiver to another only these outputs have been added, all allowed by the
-- configuration, which is kept, and so are the consumers.
pub record Adds (r r' : Receiver) : Type 0 where
  pub outputs : List Emitted
  pub allowed : All (IsAllowed (builders_of r.cfg)) outputs
  pub metrics_added : r'.metrics_builder ≡ add_metrics outputs r.metrics_builder
  pub logs_added : r'.logs_builder ≡ add_logs outputs r.logs_builder
  pub recorded : r'.history ≡ r.history ++ outputs
  pub same_cfg : r'.cfg ≡ r.cfg
  pub same_metrics_consumer : r'.metrics_consumer ≡ r.metrics_consumer
  pub same_logs_consumer : r'.logs_consumer ≡ r.logs_consumer

pub add_metrics-append :
    (es fs : List Emitted) (ms : List MetricPoint)
    → add_metrics (es ++ fs) ms ≡ add_metrics fs (add_metrics es ms)
unfolding add_metrics
add_metrics-append [] fs ms = refl
add_metrics-append (metric p ∷ es) fs ms = add_metrics-append es fs (ms ++ p ∷ [])
add_metrics-append (log r ∷ es) fs ms = add_metrics-append es fs ms

pub add_logs-append :
    (es fs : List Emitted) (ls : List LogRecord)
    → add_logs (es ++ fs) ls ≡ add_logs fs (add_logs es ls)
unfolding add_logs
add_logs-append [] fs ls = refl
add_logs-append (metric p ∷ es) fs ls = add_logs-append es fs ls
add_logs-append (log r ∷ es) fs ls = add_logs-append es fs (ls ++ r ∷ [])

pub Adds-trans : (r s t : Receiver) → Adds r s → Adds s t → Adds r t
Adds-trans r s t a b = record {
  outputs = a.outputs ++ b.outputs;
  allowed =
      All-append (builders_of r.cfg) a.outputs b.outputs a.allowed
        (subst (λ (c : Config). All (IsAllowed (builders_of c)) b.outputs) a.same_cfg b.allowed);
  metrics_added =
      b.metrics_added
      ∙ ap (add_metrics b.outputs) a.metrics_added
      ∙ sym (add_metrics-append a.outputs b.outputs r.metrics_builder);
  logs_added =
      b.logs_added
      ∙ ap (add_logs b.outputs) a.logs_added
      ∙ sym (add_logs-append a.outputs b.outputs r.logs_builder);
  recorded =
      b.recorded
      ∙ ap (λ (es : List Emitted). es ++ b.outputs) a.recorded
      ∙ append_assoc r.history a.outputs b.outputs;
  same_cfg = b.same_cfg ∙ a.same_cfg;
  same_metrics_consumer = b.same_metrics_consumer ∙ a.same_metrics_consumer;
  same_logs_consumer = b.same_logs_consumer ∙ a.same_logs_consumer;
}

-- Outputs added to a receiver that differs in its parts other than the pending ones.
added :
    (r s : Receiver) (es : List Emitted)
    → All (IsAllowed (builders_of r.cfg)) es
    → s.metrics_builder ≡ r.metrics_builder
    → s.logs_builder ≡ r.logs_builder
    → s.history ≡ r.history
    → s.cfg ≡ r.cfg
    → s.metrics_consumer ≡ r.metrics_consumer
    → s.logs_consumer ≡ r.logs_consumer
    → Adds r (add_all es s)
unfolding add_all
added r s es h m l hs c mc lc = record {
  outputs = es;
  allowed = h;
  metrics_added = ap (add_metrics es) m;
  logs_added = ap (add_logs es) l;
  recorded = ap (λ (xs : List Emitted). xs ++ es) hs;
  same_cfg = c;
  same_metrics_consumer = mc;
  same_logs_consumer = lc;
}

pub Adds-refl :
    (r s : Receiver)
    → s.metrics_builder ≡ r.metrics_builder
    → s.logs_builder ≡ r.logs_builder
    → s.history ≡ r.history
    → s.cfg ≡ r.cfg
    → s.metrics_consumer ≡ r.metrics_consumer
    → s.logs_consumer ≡ r.logs_consumer
    → Adds r s
unfolding add_metrics add_logs
Adds-refl r s m l hs c mc lc = record {
  outputs = [];
  allowed = tt;
  metrics_added = m;
  logs_added = l;
  recorded = hs ∙ sym (append-nil r.history);
  same_cfg = c;
  same_metrics_consumer = mc;
  same_logs_consumer = lc;
}

-- A stage that ends with such a receiver beside another result.
abbrev pub Leaves {ℓ} : {A : Type ℓ} → Receiver → Ran (A × Receiver) → Type 0
Leaves r (done (a, s)) = Adds r s
Leaves r crashed = Unit

abbrev pub Turns : Receiver → Ran Receiver → Type 0
Turns r (done s) = Adds r s
Turns r crashed = Unit

pub Leaves-trans {ℓ} :
    {A : Type ℓ} (r s : Receiver) (x : Ran (A × Receiver)) → Adds r s → Leaves s x → Leaves r x
Leaves-trans r s (done (a, t)) h k = Adds-trans r s t h k
Leaves-trans r s crashed h k = tt

pub Turns-trans : (r s : Receiver) (x : Ran Receiver) → Adds r s → Turns s x → Turns r x
Turns-trans r s (done t) h k = Adds-trans r s t h k
Turns-trans r s crashed h k = tt

-- The calls of `Add` panic, or add these outputs.
pub adding-cases :
    (ops : Library) (es : List Emitted) (r : Receiver)
    → (adding ops es r ≡ done (add_all es r))
      ⊎ ((adding ops es r ≡ crashed)
          × (add_points ops.append_invalid (add_all es r).metrics_builder [] ≡ none))
unfolding adding
adding-cases ops es r =
    elim (Option-cases (add_points ops.append_invalid (add_all es r).metrics_builder [])) [
      | inl h ↦ inr (rw h refl, h)
      | inr (b, h) ↦ inl (rw h refl)
    ]

module _ (ops : Library) where
  added_outputs :
      (r s : Receiver) (es : List Emitted) → Adds r (add_all es s) → Turns r (adding ops es s)
  added_outputs r s es a = elim (adding-cases ops es s) [
    | inl h ↦ rw h a
    | inr (h, panics) ↦ rw h tt
  ]

  sniffed :
      (r : Receiver) (h : Handled)
      → Keeps (builders_of r.cfg) r.sniff.cfg h
      → Turns r (h >>= λ (es, s). adding ops es (record r { sniff = s }))
  sniffed r (done (es, s)) h =
      added_outputs r (record r { sniff = s }) es
        (added r (record r { sniff = s }) es h.0 refl refl refl refl refl refl)
  sniffed r crashed h = tt

  pub sniff_frame-Turns : (f : Frame) (r : Receiver) → Turns r (sniff_frame ops f r)
  unfolding sniff_frame
  sniff_frame-Turns f r = sniffed r _ (handle_frame-Keeps ops.floats (builders_of r.cfg) f r.sniff)

  then_sent :
      (f : Frame) (r : Receiver) (x : Ran Receiver)
      → Turns r x
      → Leaves r (x >>= λ r'. done (f ∷ [], r'))
  then_sent f r (done s) h = h
  then_sent f r crashed h = tt

  pub send_polls-Leaves : (sent : Option Frame) (r : Receiver) → Leaves r (send_polls ops sent r)
  unfolding send_polls
  send_polls-Leaves none r = Adds-refl r r refl refl refl refl refl refl
  send_polls-Leaves (some f) r = then_sent f r _ (sniff_frame-Turns f r)

  poll_in_progress-Leaves :
      (p : SdoPolling) (a : Option ActivePoll) (f : Frame) (r : Receiver)
      → Leaves r (poll_in_progress ops p a f r)
  unfolding poll_in_progress
  poll_in_progress-Leaves p none f r = Adds-refl r r refl refl refl refl refl refl
  poll_in_progress-Leaves p (some a) f r =
      Leaves-trans r _ _ (Adds-refl r _ refl refl refl refl refl refl) (send_polls-Leaves _ _)

  pub poll_answers-Leaves :
      (p : Option SdoPolling) (f : Frame) (r : Receiver) → Leaves r (poll_answers ops p f r)
  unfolding poll_answers
  poll_answers-Leaves none f r = Adds-refl r r refl refl refl refl refl refl
  poll_answers-Leaves (some p) f r = poll_in_progress-Leaves p p.active f r

  then_claimed :
      (r : Receiver) (claimed : Bool) (x : Ran Receiver)
      → Turns r x
      → Leaves r (x >>= λ r'. done (claimed, r'))
  then_claimed r claimed (done s) h = h
  then_claimed r claimed crashed h = tt

  claim_run :
      (r : Receiver) (c : Ran Claim)
      → Claims (builders_of r.cfg) c
      → Leaves r (c >>= λ c'. after_claim ops r c')
  claim_run r (done c) h = then_claimed r c.claimed _ (
      added_outputs r (record r { raw_poller = some c.poller }) c.emitted
        (added r (record r { raw_poller = some c.poller }) c.emitted h refl refl refl refl refl
          refl))
  claim_run r crashed h = tt

  pub raw_claims-Leaves :
      (p : Option Poller) (f : Frame) (r : Receiver) → Leaves r (raw_claims ops p f r)
  unfolding raw_claims
  raw_claims-Leaves none f r = Adds-refl r r refl refl refl refl refl refl
  raw_claims-Leaves (some p) f r =
      claim_run r _ (claim_frame-Claims ops.floats (builders_of r.cfg) r.cfg.interface p f)

  pub rest_sniffed :
      (claimed : Bool) (f : Frame) (r : Receiver)
      → Turns r (if claimed then done r else sniff_frame ops f r)
  rest_sniffed true f r = Adds-refl r r refl refl refl refl refl refl
  rest_sniffed false f r = sniff_frame-Turns f r
