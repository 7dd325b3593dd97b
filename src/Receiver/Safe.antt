-- ===== src/Receiver/Safe.antt =====
-- receiver.go: where no stage of `dispatchLoop` panics.
use otelcol_receiver_canopen.Prelude.{
  ◌≡◌, refl, sym, arith, Option, none, some, List, [], ◌∷◌, ◌⊎◌, inl, inr,
}
use mathlib.Core.Path.{subst}
use otelcol_receiver_canopen.Receiver.Dispatch.{Library}
use otelcol_receiver_canopen.Transport.{Frame}
use otelcol_receiver_canopen.Sniffer.Fields.{Ran, done, crashed, ◌>>=◌}
use otelcol_receiver_canopen.Emit.Types.{Emitted}
use otelcol_receiver_canopen.Emit.Kinds.{add_points_or_mixed}
use otelcol_receiver_canopen.Sniffer.Types.{Sniffer}
use otelcol_receiver_canopen.Sniffer.Dispatch.{handle_frame}
use otelcol_receiver_canopen.Sniffer.Handlers.{Handled}
use otelcol_receiver_canopen.Receiver.Adds.{adding-cases}
use otelcol_receiver_canopen.Sniffer.Calm.{IsDone, Decodable, still-Decodable, Stays}
use otelcol_receiver_canopen.Sniffer.Total.{handle_frame-Stays}
use otelcol_receiver_canopen.RawPoller.Attempts.{Poller, Claim, claim_frame}
use otelcol_receiver_canopen.RawPoller.Calm.{AwaitsTakeable, ClaimsCalmly, claim_frame-ClaimsCalmly}
use otelcol_receiver_canopen.SdoPoller.Poll.{ActivePoll, answer_frame}
use otelcol_receiver_canopen.Receiver.Dispatch.{
  SdoPolling, Receiver, builders_of, add_metrics, add_all, adding, flush_metrics, flush_logs,
  sniff_frame, send_polls, poll_in_progress, poll_answers, after_claim, raw_claims,
}
use otelcol_receiver_canopen.Receiver.Mixed.{AddsMixed, SniffMixed, PollMixed, RawMixed}

abbrev pub PollerTakeable : Option Poller → Type 0
PollerTakeable none = Unit
PollerTakeable (some p) = AwaitsTakeable p.active

-- A receiver that no frame makes panic.
pub record IsSafe (r : Receiver) : Type 0 where
  pub decodes : Decodable r.sniff
  pub awaits : PollerTakeable r.raw_poller

-- A stage that ends with such a receiver, or panics only as `M` says.
abbrev pub EndsSafe {ℓ} : {A : Type ℓ} → Type 0 → Ran (A × Receiver) → Type 0
EndsSafe M (done (a, r)) = IsSafe r
EndsSafe M crashed = M

abbrev pub TurnsSafe : Type 0 → Ran Receiver → Type 0
TurnsSafe M (done r) = IsSafe r
TurnsSafe M crashed = M

-- Receivers with the same sniffer and raw poller.
alike : (r s : Receiver) → s.sniff ≡ r.sniff → s.raw_poller ≡ r.raw_poller → IsSafe r → IsSafe s
alike r s e f h = record {
  decodes = still-Decodable r.sniff s.sniff (rw e refl) (rw e refl) h.decodes;
  awaits = subst PollerTakeable (sym f) h.awaits;
}

module _ (ops : Library) where
  -- The calls of `Add` panic only where points of different kinds meet.
  adding-TurnsSafe :
      (es : List Emitted) (r : Receiver)
      → IsSafe (add_all es r)
      → TurnsSafe (AddsMixed es r) (adding ops es r)
  unfolding add_all
  adding-TurnsSafe es r h = elim (adding-cases ops es r) [
    | inl e ↦ rw e h
    | inr (e, panics) ↦
        rw e (elim (add_points_or_mixed ops.append_invalid (add_metrics es r.metrics_builder)) [
          | inl (b, built) ↦ absurd cc
          | inr mixed ↦ mixed
        ])
  ]

  weaken {ℓ} :
      {A : Type ℓ} (M N : Type 0) (x : Ran (A × Receiver)) → (M → N) → EndsSafe M x → EndsSafe N x
  weaken M N (done (a, r)) f h = h
  weaken M N crashed f h = f h

  sniffed_safe :
      (f : Frame) (r : Receiver) (x : Handled)
      → handle_frame ops.floats (builders_of r.cfg) f r.sniff ≡ x
      → IsSafe r
      → Stays r.sniff x
      → TurnsSafe (SniffMixed ops f r) (x >>= λ (es, s). adding ops es (record r { sniff = s }))
  unfolding add_all
  sniffed_safe f r (done (es, s)) e h k = because f r es s e _ (
      adding-TurnsSafe es (record r { sniff = s })
        (record { decodes = still-Decodable r.sniff s k.0 k.1 h.decodes; awaits = h.awaits }))
    where
      because :
          (f : Frame) (r : Receiver) (es : List Emitted) (s : Sniffer)
          → handle_frame ops.floats (builders_of r.cfg) f r.sniff ≡ done (es, s)
          → (x : Ran Receiver) → TurnsSafe (AddsMixed es r) x
          → TurnsSafe (SniffMixed ops f r) x
      because f r es s e (done t) h = h
      because f r es s e crashed h = (es, s, e, h)
  sniffed_safe f r crashed e h k = absurd k

  pub sniff_frame-TurnsSafe :
      (f : Frame) (r : Receiver) → IsSafe r → TurnsSafe (SniffMixed ops f r) (sniff_frame ops f r)
  unfolding sniff_frame
  sniff_frame-TurnsSafe f r h =
      sniffed_safe f r _ refl h
        (handle_frame-Stays ops.floats (builders_of r.cfg) f r.sniff h.decodes)

  then_given {ℓ} :
      {A : Type ℓ} (M : Type 0) (a : A) (x : Ran Receiver)
      → TurnsSafe M x
      → EndsSafe M (x >>= λ r'. done (a, r'))
  then_given M a (done s) h = h
  then_given M a crashed h = h

  -- What the frame that a poll sends, if any, can do.
  abbrev SentMixed : Option Frame → Receiver → Type 0
  SentMixed none r = ⊥
  SentMixed (some g) r = SniffMixed ops g r

  send_polls-EndsSafe :
      (sent : Option Frame) (r : Receiver)
      → IsSafe r
      → EndsSafe (SentMixed sent r) (send_polls ops sent r)
  unfolding send_polls
  send_polls-EndsSafe none r h = h
  send_polls-EndsSafe (some f) r h =
      then_given (SniffMixed ops f r) (f ∷ []) (sniff_frame ops f r) (sniff_frame-TurnsSafe f r h)

  sent_by_poll :
      (q : SdoPolling) (a : ActivePoll) (f : Frame) (r s : Receiver) (sent : Option Frame)
      → q.active ≡ some a
      → (answer_frame q.channels f a).0 ≡ sent
      → s.sniff ≡ r.sniff
      → s.cfg ≡ r.cfg
      → s.metrics_builder ≡ r.metrics_builder
      → SentMixed sent s
      → PollMixed ops (some q) f r
  sent_by_poll q a f r s none on e l m n mixed = absurd mixed
  sent_by_poll q a f r s (some g) on e l m n (es, t, handled, mixed) =
      let handled' : handle_frame ops.floats (builders_of r.cfg) g r.sniff ≡ done (es, t) =
        rw (← l) (rw (← m) handled) in
      let mixed' : AddsMixed es r = rw (← n) mixed in
      (q, a, g, refl, on, e, (es, t, handled', mixed'))

  poll_in_progress-EndsSafe :
      (q : SdoPolling) (o : Option ActivePoll) (f : Frame) (r : Receiver)
      → q.active ≡ o
      → IsSafe r
      → EndsSafe (PollMixed ops (some q) f r) (poll_in_progress ops q o f r)
  unfolding poll_in_progress
  poll_in_progress-EndsSafe q none f r on h = h
  poll_in_progress-EndsSafe q (some a) f r on h =
      let (sent, a') = answer_frame q.channels f a in
      let s = record r { sdo_poller = some (record q { active = some a' }) } in
      weaken (SentMixed sent s) (PollMixed ops (some q) f r) (send_polls ops sent s)
        (sent_by_poll q a f r s sent on refl refl refl refl)
        (send_polls-EndsSafe sent s (alike r s refl refl h))

  pub poll_answers-EndsSafe :
      (p : Option SdoPolling) (f : Frame) (r : Receiver)
      → IsSafe r
      → EndsSafe (PollMixed ops p f r) (poll_answers ops p f r)
  unfolding poll_answers
  poll_answers-EndsSafe none f r h = h
  poll_answers-EndsSafe (some p) f r h = poll_in_progress-EndsSafe p p.active f r refl h

  claimed_safe :
      (q : Poller) (f : Frame) (r : Receiver) (x : Ran Claim)
      → claim_frame ops.floats (builders_of r.cfg) r.cfg.interface q f ≡ x
      → IsSafe r
      → ClaimsCalmly x
      → EndsSafe (RawMixed ops (some q) f r) (x >>= λ c. after_claim ops r c)
  unfolding add_all
  claimed_safe q f r (done c) e h k =
      let s = record r { raw_poller = some c.poller } in
      let safe : IsSafe (add_all c.emitted s) = record {
        decodes = still-Decodable r.sniff r.sniff refl refl h.decodes;
        awaits = k;
      } in
      weaken (AddsMixed c.emitted s) (RawMixed ops (some q) f r) (after_claim ops r c)
        (λ mixed. (q, c, refl, e, mixed))
        (then_given (AddsMixed c.emitted s) c.claimed (adding ops c.emitted s)
          (adding-TurnsSafe c.emitted s safe))
  claimed_safe q f r crashed e h k = absurd k

  pub raw_claims-EndsSafe :
      (p : Option Poller) (f : Frame) (r : Receiver)
      → PollerTakeable p
      → IsSafe r
      → EndsSafe (RawMixed ops p f r) (raw_claims ops p f r)
  unfolding raw_claims
  raw_claims-EndsSafe none f r k h = h
  raw_claims-EndsSafe (some p) f r k h =
      claimed_safe p f r _ refl h
        (claim_frame-ClaimsCalmly ops.floats (builders_of r.cfg) r.cfg.interface p f k)

-- A flush changes neither the sniffer nor the raw poller.
pub flush_metrics-IsSafe : (r : Receiver) → IsSafe r → IsSafe (flush_metrics r).1
unfolding flush_metrics
flush_metrics-IsSafe r h = alike r _ (ground arith) (ground arith) h

pub flush_logs-IsSafe : (r : Receiver) → IsSafe r → IsSafe (flush_logs r).1
unfolding flush_logs
flush_logs-IsSafe r h = alike r _ (ground arith) (ground arith) h

-- The sniffer and the raw poller are all that counts.
pub same_parts :
    (r s : Receiver) → s.sniff ≡ r.sniff → PollerTakeable s.raw_poller → IsSafe r → IsSafe s
same_parts r s e p h = record {
  decodes = still-Decodable r.sniff s.sniff (rw e refl) (rw e refl) h.decodes;
  awaits = p;
}

pub ends_or {ℓ} : {A : Type ℓ} (M : Type 0) (x : Ran (A × Receiver)) → EndsSafe M x → IsDone x ⊎ M
ends_or M (done a) h = inl tt
ends_or M crashed h = inr h

pub turns_or : (M : Type 0) (x : Ran Receiver) → TurnsSafe M x → IsDone x ⊎ M
turns_or M (done r) h = inl tt
turns_or M crashed h = inr h
