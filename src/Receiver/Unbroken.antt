-- ===== src/Receiver/Unbroken.antt =====
-- receiver.go: what can make a receiver with an accepted configuration panic.
use otelcol_receiver_canopen.Prelude.{
  ℕ, zero, suc, ◌≡◌, refl, Bool, true, false, Option, none, some, List, [], ◌∷◌, All, get_elem?,
  if◌then◌else◌, ◌⊎◌,
}
use mathlib.Core.Path.{subst}
use otelcol_receiver_canopen.Receiver.Dispatch.{Library}
use otelcol_receiver_canopen.Transport.{Frame}
use otelcol_receiver_canopen.Config.Checked.{pass}
use otelcol_receiver_canopen.Config.Types.{RawMessageConfig, RawTransactionConfig, Config, is_empty}
use otelcol_receiver_canopen.Config.Validate.{validate}
use otelcol_receiver_canopen.Config.Accepted.{accepted_parts, AreInside, raw-AreInside}
use otelcol_receiver_canopen.Sniffer.Calm.{IsDone}
use otelcol_receiver_canopen.RawPoller.Calm.{IsTakeable, AwaitsTakeable}
use otelcol_receiver_canopen.Receiver.Dispatch.{
  new_receiver, start_raw_poller, sniff_frame, poll_answers, raw_claims,
}
use otelcol_receiver_canopen.Receiver.Decodables.{FieldsShort, new_sniffer-Decodable}
use otelcol_receiver_canopen.Receiver.Lifecycle.{
  System, new_system, Step, Reach, start, later, IsConfigured, make_sdo_poller, make_raw_poller,
  flush_metrics_of, flush_logs_of, dial_fails, opens, makes_sdo_poller, makes_raw_poller, stops,
  recv_fails, receives, answers, offers, passes_by, sniffs, hands_metrics, hands_logs, sends, polls,
  sdo_returns, raw_polls, raw_returns, cancels, waits, abandons, last_metrics, last_logs,
}
use otelcol_receiver_canopen.Receiver.Mixed.{SniffMixed, PollMixed, RawMixed}
use otelcol_receiver_canopen.Receiver.Delivered.{Reach-Sound}
use otelcol_receiver_canopen.Receiver.Safe.{
  PollerTakeable, IsSafe, EndsSafe, TurnsSafe, sniff_frame-TurnsSafe, poll_answers-EndsSafe,
  raw_claims-EndsSafe, flush_metrics-IsSafe, flush_logs-IsSafe, same_parts, ends_or, turns_or,
}

start_raw_poller-Takeable : (cfg : Config) → PollerTakeable (start_raw_poller cfg)
unfolding start_raw_poller
start_raw_poller-Takeable cfg = go (is_empty cfg.raw.transactions)
  where
    go :
        (b : Bool)
        → PollerTakeable (if b then none else some (record { active = none; answered = false }))
    go true = tt
    go false = tt

configured-Takeable :
    (ts : List RawTransactionConfig) (i : ℕ) (t : RawTransactionConfig)
    → All IsTakeable ts
    → get_elem? ts i ≡ some t
    → IsTakeable t
configured-Takeable [] i t h e = absurd cc
configured-Takeable (u ∷ ts) zero t h e = let same : u ≡ t = cc in subst IsTakeable same h.0
configured-Takeable (u ∷ ts) (suc i) t h e = configured-Takeable ts i t h.1 e

awaited-Takeable :
    (cfg : Config) (o : Option RawTransactionConfig)
    → All IsTakeable cfg.raw.transactions
    → IsConfigured cfg o
    → AwaitsTakeable o
awaited-Takeable cfg none h c = tt
awaited-Takeable cfg (some t) h c = configured-Takeable cfg.raw.transactions c.0 t h c.1

module _ (cfg : Config) (ops : Library) (takeable : All IsTakeable cfg.raw.transactions) where
  Step-IsSafe :
      {s t : System} → s.receiver.cfg ≡ cfg → Step ops s t → IsSafe s.receiver → IsSafe t.receiver
  unfolding make_sdo_poller make_raw_poller flush_metrics_of flush_logs_of
  Step-IsSafe c (dial_fails new now) h = h
  Step-IsSafe c (opens new now) h = h
  Step-IsSafe {s} c (makes_sdo_poller at) h = same_parts s.receiver _ refl h.awaits h
  Step-IsSafe {s} c (makes_raw_poller at) h =
      same_parts s.receiver _ refl (start_raw_poller-Takeable s.receiver.cfg) h
  Step-IsSafe c (stops at now) h = h
  Step-IsSafe c (recv_fails e at) h = h
  Step-IsSafe c (receives f at) h = h
  Step-IsSafe {s} c (answers {f} at e) h =
      subst (EndsSafe _) e (poll_answers-EndsSafe ops s.receiver.sdo_poller f s.receiver h)
  Step-IsSafe {s} c (offers {f} at e) h =
      subst (EndsSafe _) e (raw_claims-EndsSafe ops s.receiver.raw_poller f s.receiver h.awaits h)
  Step-IsSafe c (passes_by f at) h = h
  Step-IsSafe {s} c (sniffs f at e) h =
      subst (TurnsSafe _) e (sniff_frame-TurnsSafe ops f s.receiver h)
  Step-IsSafe {s} c (hands_metrics at) h = flush_metrics-IsSafe s.receiver h
  Step-IsSafe {s} c (hands_logs at) h = flush_logs-IsSafe s.receiver h
  Step-IsSafe {s} c (sends f on e) h =
      subst (TurnsSafe _) e (sniff_frame-TurnsSafe ops f s.receiver h)
  Step-IsSafe {s} c (polls p a on) h = same_parts s.receiver _ refl h.awaits h
  Step-IsSafe c (sdo_returns on may) h = h
  Step-IsSafe {s} c (raw_polls p on polled) h =
      same_parts s.receiver _ refl
        (awaited-Takeable cfg p.active takeable
          (subst (λ (x : Config). IsConfigured x p.active) c polled))
        h
  Step-IsSafe c (raw_returns on may) h = h
  Step-IsSafe c (cancels settled now) h = h
  Step-IsSafe c (waits now idle sdo raw) h = h
  Step-IsSafe c (abandons now) h = h
  Step-IsSafe {s} c (last_metrics now) h = flush_metrics-IsSafe s.receiver h
  Step-IsSafe {s} c (last_logs now) h = flush_logs-IsSafe s.receiver h

  Reach-IsSafe :
      (metrics logs : Bool) {s : System}
      → IsSafe (new_receiver cfg metrics logs)
      → Reach ops (new_system cfg metrics logs) s
      → IsSafe s.receiver
  Reach-IsSafe metrics logs h start = h
  Reach-IsSafe metrics logs h (later r st) =
      Step-IsSafe (Reach-Sound cfg metrics logs ops r).pending.same_cfg st
        (Reach-IsSafe metrics logs h r)

pair_all {ℓ κ μ} :
    {A : Type ℓ} (P : A → Type κ) (Q : A → Type μ) (xs : List A)
    → All P xs
    → All Q xs
    → All (λ (x : A). P x × Q x) xs
pair_all P Q [] h k = tt
pair_all P Q (x ∷ xs) h k = ((h.0, k.0), pair_all P Q xs h.1 k.1)

new_receiver-IsSafe :
    (cfg : Config) (metrics logs : Bool)
    → FieldsShort cfg
    → All (λ (r : RawMessageConfig). AreInside r.match) cfg.raw.sniff.messages
    → IsSafe (new_receiver cfg metrics logs)
unfolding new_receiver
new_receiver-IsSafe cfg metrics logs h k = record {
  decodes = new_sniffer-Decodable cfg h k;
  awaits = tt;
}

-- A receiver with an accepted configuration, whose fields have offsets and lengths below 2 ^ 62,
-- does not panic on any frame in any stage of the dispatch loop, in any state that it reaches and
-- whatever the collector's library does with points of the wrong kind, except where the stage emits
-- points that, with those that are pending, have among them two of one resource's key and one name
-- that are of different kinds.
pub accepted_never_panics :
    (cfg : Config) (metrics logs : Bool) (ops : Library) (s : System) (f : Frame)
    → (validate cfg).0 ≡ pass
    → FieldsShort (validate cfg).1
    → Reach ops (new_system (validate cfg).1 metrics logs) s
    → (IsDone (poll_answers ops s.receiver.sdo_poller f s.receiver)
        ⊎ PollMixed ops s.receiver.sdo_poller f s.receiver)
      × (IsDone (raw_claims ops s.receiver.raw_poller f s.receiver)
          ⊎ RawMixed ops s.receiver.raw_poller f s.receiver)
      × (IsDone (sniff_frame ops f s.receiver) ⊎ SniffMixed ops f s.receiver)
accepted_never_panics cfg metrics logs ops s f accepted short r =
    let cfg' = (validate cfg).1 in
    let (messages, responses) = raw-AreInside cfg'.raw (accepted_parts cfg accepted).0 in
    let takeable : All IsTakeable cfg'.raw.transactions =
      pair_all _ _ cfg'.raw.transactions short.of_transactions responses in
    let h =
      Reach-IsSafe cfg' ops takeable metrics logs
        (new_receiver-IsSafe cfg' metrics logs short messages) r in
    (
      ends_or _ _ (poll_answers-EndsSafe ops s.receiver.sdo_poller f s.receiver h),
      ends_or _ _ (raw_claims-EndsSafe ops s.receiver.raw_poller f s.receiver h.awaits h),
      turns_or _ _ (sniff_frame-TurnsSafe ops f s.receiver h),
    )
