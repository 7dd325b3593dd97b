-- ===== src/Receiver/Passes.antt =====
-- receiver.go: a pass of `dispatchLoop` as steps of the receiver's goroutines.
use otelcol_receiver_canopen.Prelude.{◌≡◌, refl, Bool, true, false, List, ◌++◌, if◌then◌else◌}
use mathlib.Core.Path.{subst}
use otelcol_receiver_canopen.Receiver.Dispatch.{Library}
use otelcol_receiver_canopen.Transport.{Frame}
use otelcol_receiver_canopen.Sniffer.Fields.{Ran, done, crashed, ◌>>=◌}
use otelcol_receiver_canopen.Receiver.Dispatch.{
  Receiver, Pass, sniff_frame, poll_answers, raw_claims, flush_pass, dispatch_frame,
}
use otelcol_receiver_canopen.Receiver.Lifecycle.{
  System, Reach, start, later, at_recv, answered, offered, flushing_metrics, flush_metrics_of,
  flush_logs_of, receives, answers, offers, passes_by, sniffs, hands_metrics, hands_logs,
}

-- What a result that did not panic says of its first part.
Ran-parts {ℓ κ} :
    {A : Type ℓ} {B : Type κ} (x : Ran A) (next : A → Ran B) (b : B)
    → (x >>= next) ≡ done b
    → (a : A) × (x ≡ done a) × (next a ≡ done b)
Ran-parts (done a) next b h = (a, refl, h)
Ran-parts crashed next b h = absurd cc

-- A system behind a pass.
abbrev pub after_pass : System → Pass → System
after_pass s p = record s {
  receiver = p.receiver;
  place = at_recv;
  metrics_out = s.metrics_out ++ p.metrics_out;
  logs_out = s.logs_out ++ p.logs_out;
}

module _ (ops : Library) where
  -- The steps of the two flushes.
  flushed :
      (s0 s : System) (sent : List Frame)
      → Reach ops s0 s
      → s.place ≡ flushing_metrics
      → Reach ops s0 (after_pass s (flush_pass sent s.receiver))
  unfolding flush_pass flush_metrics_of flush_logs_of
  flushed s0 s sent r at = later (later r (hands_metrics at)) (hands_logs refl)

  sniffed :
      (s0 s : System) (f : Frame) (claimed : Bool) (r3 : Receiver)
      → Reach ops s0 s
      → s.place ≡ offered f claimed
      → (if claimed then done s.receiver else sniff_frame ops f s.receiver) ≡ done r3
      → Reach ops s0 (record s { receiver = r3; place = flushing_metrics })
  sniffed s0 s f true r3 r at h =
      let same : s.receiver ≡ r3 = cc in
      subst (λ (x : Receiver). Reach ops s0 (record s { receiver = x; place = flushing_metrics }))
        same (later r (passes_by f at))
  sniffed s0 s f false r3 r at h = later r (sniffs f at h)

  sniffed_pass :
      (s0 s : System) (f : Frame) (sent : List Frame) (claimed : Bool) (p : Pass)
      → Reach ops s0 s
      → s.place ≡ offered f claimed
      → ((if claimed then done s.receiver else sniff_frame ops f s.receiver) >>= λ r.
          done (flush_pass sent r))
        ≡ done p
      → Reach ops s0 (after_pass s p)
  sniffed_pass s0 s f sent claimed p r at h =
      let (r3, e, k) =
        Ran-parts (if claimed then done s.receiver else sniff_frame ops f s.receiver) _ p h in
      let same : flush_pass sent r3 ≡ p = cc in
      subst (λ (x : Pass). Reach ops s0 (after_pass s x)) same
        (flushed s0 (record s { receiver = r3; place = flushing_metrics }) sent
          (sniffed s0 s f claimed r3 r at e) refl)

  claimed_pass :
      (s0 s : System) (f : Frame) (sent : List Frame) (p : Pass)
      → Reach ops s0 s
      → s.place ≡ answered f
      → (raw_claims ops s.receiver.raw_poller f s.receiver >>= λ (claimed, r2).
          (if claimed then done r2 else sniff_frame ops f r2) >>= λ r. done (flush_pass sent r))
        ≡ done p
      → Reach ops s0 (after_pass s p)
  claimed_pass s0 s f sent p r at h =
      let ((claimed, r2), e, k) =
        Ran-parts (raw_claims ops s.receiver.raw_poller f s.receiver) _ p h in
      sniffed_pass s0 (record s { receiver = r2; place = offered f claimed }) f sent claimed p
        (later r (offers at e)) refl k

  -- A pass over a frame that does not panic, by a dispatch loop that is about to receive it, is a
  -- sequence of steps of the receiver.
  pub dispatch_frame-Reach :
      (s : System) (f : Frame) (p : Pass)
      → s.place ≡ at_recv
      → dispatch_frame ops f s.receiver ≡ done p
      → Reach ops s (after_pass s p)
  unfolding dispatch_frame
  dispatch_frame-Reach s f p at h =
      let ((sent, r1), e, k) =
        Ran-parts (poll_answers ops s.receiver.sdo_poller f s.receiver) _ p h in
      claimed_pass s (record s { receiver = r1; place = answered f }) f sent p
        (later (later start (receives f at)) (answers refl e)) refl k
