-- ===== src/Receiver/Pending.antt =====
-- receiver.go: what the consumers have got and what is pending, over the stages and the flushes.
use otelcol_receiver_canopen.Prelude.{
  false, ◌≡◌, refl, sym, ◌∙◌, ap, List, [], ◌∷◌, ◌++◌, All, arith,
}
use mathlib.Core.Path.{subst}
use mathlib.Core.List.{append_assoc}
use otelcol_receiver_canopen.Emit.Types.{MetricPoint, LogRecord, Emitted, metric, log}
use otelcol_receiver_canopen.Config.Types.{Config}
use otelcol_receiver_canopen.Sniffer.Allowed.{IsAllowed, All-append}
use otelcol_receiver_canopen.Receiver.Dispatch.{
  Receiver, builders_of, add_metrics, add_logs, flush_metrics, flush_logs,
}
use otelcol_receiver_canopen.Receiver.Adds.{Adds, add_metrics-append, add_logs-append}
use otelcol_receiver_canopen.Receiver.Outputs.{joined, flush_metrics_lem, flush_logs_lem}

-- What has been handed to the consumers and what is pending make up, in order, the outputs that have
-- been added so far, all of enabled signals.
pub record Pending (cfg : Config) (r : Receiver) (ms : List (List MetricPoint))
    (ls : List (List LogRecord)) : Type 0 where
  pub allowed : All (IsAllowed (builders_of cfg)) r.history
  pub metrics_kept : joined ms ++ r.metrics_builder ≡ add_metrics r.history []
  pub logs_kept : joined ls ++ r.logs_builder ≡ add_logs r.history []
  pub same_cfg : r.cfg ≡ cfg

add_metrics-front :
    (es : List Emitted) (xs ms : List MetricPoint)
    → add_metrics es (xs ++ ms) ≡ xs ++ add_metrics es ms
unfolding add_metrics
add_metrics-front [] xs ms = refl
add_metrics-front (metric p ∷ es) xs ms =
    ap (add_metrics es) (append_assoc xs ms (p ∷ [])) ∙ add_metrics-front es xs (ms ++ p ∷ [])
add_metrics-front (log r ∷ es) xs ms = add_metrics-front es xs ms

add_logs-front :
    (es : List Emitted) (xs ls : List LogRecord) → add_logs es (xs ++ ls) ≡ xs ++ add_logs es ls
unfolding add_logs
add_logs-front [] xs ls = refl
add_logs-front (metric p ∷ es) xs ls = add_logs-front es xs ls
add_logs-front (log r ∷ es) xs ls =
    ap (add_logs es) (append_assoc xs ls (r ∷ [])) ∙ add_logs-front es xs (ls ++ r ∷ [])

joined-append {ℓ} :
    {A : Type ℓ} (xs ys : List (List A)) → joined (xs ++ ys) ≡ joined xs ++ joined ys
joined-append [] ys = refl
joined-append (x ∷ xs) ys =
    ap (◌++◌ x) (joined-append xs ys) ∙ sym (append_assoc x (joined xs) (joined ys))

pub Adds-Pending :
    (cfg : Config) (r r' : Receiver) (ms : List (List MetricPoint)) (ls : List (List LogRecord))
    → Adds r r'
    → Pending cfg r ms ls
    → Pending cfg r' ms ls
Adds-Pending cfg r r' ms ls a h = record {
  allowed = subst (All (IsAllowed (builders_of cfg))) (sym a.recorded) (
      All-append (builders_of cfg) r.history a.outputs h.allowed
        (subst (λ (c : Config). All (IsAllowed (builders_of c)) a.outputs) h.same_cfg a.allowed));
  metrics_kept =
      ap (◌++◌ (joined ms)) a.metrics_added
      ∙ sym (add_metrics-front a.outputs (joined ms) r.metrics_builder)
      ∙ ap (add_metrics a.outputs) h.metrics_kept
      ∙ sym (add_metrics-append r.history a.outputs [])
      ∙ ap (λ (es : List Emitted). add_metrics es []) (sym a.recorded);
  logs_kept =
      ap (◌++◌ (joined ls)) a.logs_added
      ∙ sym (add_logs-front a.outputs (joined ls) r.logs_builder)
      ∙ ap (add_logs a.outputs) h.logs_kept
      ∙ sym (add_logs-append r.history a.outputs [])
      ∙ ap (λ (es : List Emitted). add_logs es []) (sym a.recorded);
  same_cfg = a.same_cfg ∙ h.same_cfg;
}

-- A flush keeps the configuration and the consumers.
pub flush_metrics_same :
    (r : Receiver)
    → ((flush_metrics r).1.cfg ≡ r.cfg)
      × ((flush_metrics r).1.metrics_consumer ≡ r.metrics_consumer)
      × ((flush_metrics r).1.logs_consumer ≡ r.logs_consumer)
unfolding flush_metrics
flush_metrics_same r = ground arith

pub flush_logs_same :
    (r : Receiver)
    → ((flush_logs r).1.cfg ≡ r.cfg)
      × ((flush_logs r).1.metrics_consumer ≡ r.metrics_consumer)
      × ((flush_logs r).1.logs_consumer ≡ r.logs_consumer)
unfolding flush_logs
flush_logs_same r = ground arith

pub flush_metrics-Pending :
    (cfg : Config) (r : Receiver) (ms : List (List MetricPoint)) (ls : List (List LogRecord))
    → Pending cfg r ms ls
    → Pending cfg (flush_metrics r).1 (ms ++ (flush_metrics r).0) ls
flush_metrics-Pending cfg r ms ls h =
    let (m0, m1, m2, m3, m4) = flush_metrics_lem r in
    record {
      allowed = subst (All (IsAllowed (builders_of cfg))) (sym m4) h.allowed;
      metrics_kept =
          ap (λ (xs : List MetricPoint). xs ++ (flush_metrics r).1.metrics_builder)
            (joined-append ms (flush_metrics r).0)
          ∙ append_assoc (joined ms) (joined (flush_metrics r).0)
              (flush_metrics r).1.metrics_builder
          ∙ ap (◌++◌ (joined ms)) m0
          ∙ h.metrics_kept
          ∙ ap (λ (es : List Emitted). add_metrics es []) (sym m4);
      logs_kept =
          ap (◌++◌ (joined ls)) m2
          ∙ h.logs_kept
          ∙ ap (λ (es : List Emitted). add_logs es []) (sym m4);
      same_cfg = (flush_metrics_same r).0 ∙ h.same_cfg;
    }

pub flush_logs-Pending :
    (cfg : Config) (r : Receiver) (ms : List (List MetricPoint)) (ls : List (List LogRecord))
    → Pending cfg r ms ls
    → Pending cfg (flush_logs r).1 ms (ls ++ (flush_logs r).0)
flush_logs-Pending cfg r ms ls h =
    let (l0, l1, l2, l3) = flush_logs_lem r in
    record {
      allowed = subst (All (IsAllowed (builders_of cfg))) (sym l3) h.allowed;
      metrics_kept =
          ap (◌++◌ (joined ms)) l2
          ∙ h.metrics_kept
          ∙ ap (λ (es : List Emitted). add_metrics es []) (sym l3);
      logs_kept =
          ap (λ (xs : List LogRecord). xs ++ (flush_logs r).1.logs_builder)
            (joined-append ls (flush_logs r).0)
          ∙ append_assoc (joined ls) (joined (flush_logs r).0) (flush_logs r).1.logs_builder
          ∙ ap (◌++◌ (joined ls)) l0
          ∙ h.logs_kept
          ∙ ap (λ (es : List Emitted). add_logs es []) (sym l3);
      same_cfg = (flush_logs_same r).0 ∙ h.same_cfg;
    }

-- Without a consumer nothing is handed on.
pub flush_metrics_none : (r : Receiver) → r.metrics_consumer ≡ false → (flush_metrics r).0 ≡ []
unfolding flush_metrics
flush_metrics_none r h = ground arith

pub flush_logs_none : (r : Receiver) → r.logs_consumer ≡ false → (flush_logs r).0 ≡ []
unfolding flush_logs
flush_logs_none r h = ground arith
