-- ===== src/RawPoller/Requests.antt =====
-- raw_poller.go: `pollOnce`, one attempt from its request to its end.
use otelcol_receiver_canopen.Prelude.{
  ℕ, ◌+◌, ◌≡◌, refl, sym, ◌⊎◌, inl, inr, String, Bool, true, false, Option, none, some, List, [],
  ◌∷◌, if◌then◌else◌, not, ◌||◌, ◌==◌, nat_eq, arith,
}
use mathlib.Core.Path.{subst}
use otelcol_receiver_canopen.Prelude.Int.{ℤ}
use otelcol_receiver_canopen.Codec.Types.{FloatOps}
use otelcol_receiver_canopen.Transport.{Frame}
use otelcol_receiver_canopen.Emit.Types.{Emitted}
use otelcol_receiver_canopen.Config.Types.{RawTransactionConfig}
use otelcol_receiver_canopen.Sniffer.Fields.{Builders, Ran, done, crashed, ◌>>=◌}
use otelcol_receiver_canopen.RawPoller.Retries.{or_default}
use otelcol_receiver_canopen.RawPoller.Attempts.{
  Poller, Claim, unclaimed, taken, raw_transaction_matches, on_match, on_active, claim_frame,
}

abbrev default_timeout : ℕ
default_timeout = 2_000_000_000

-- The frame that is sent, the time that the response is awaited, and the poller that awaits it.
pub record Attempt : Type 0 where
  pub request : Frame
  pub timeout : ℤ
  pub poller : Poller

abbrev pub awaiting : RawTransactionConfig → Poller
awaiting t = record { active = some t; answered = false }

unfoldable pub begin_attempt : RawTransactionConfig → Attempt
begin_attempt t = record {
  request = record { id = t.cob_id; extended = false; payload = t.payload };
  timeout = or_default t.timeout default_timeout;
  poller = awaiting t;
}

-- The cases of the `select`.
pub data AttemptCase : Type 0 where
  from_result from_timer from_ctx : AttemptCase

abbrev answered_result : Bool → Option Bool
answered_result true = some true
answered_result false = none

-- Whether an attempt succeeds whose request was sent or not, by one of the cases; `none` while there
-- is no result.
unfoldable pub attempt_result : Bool → AttemptCase → Poller → Option Bool
attempt_result false c p = some false
attempt_result true from_result p = answered_result p.answered
attempt_result true from_timer p = some false
attempt_result true from_ctx p = some false

-- The deferred end. The poller's own attempt is the only one there is.
unfoldable pub end_attempt : Poller → Poller
end_attempt p = record p { active = none }

abbrev one_if : Bool → ℕ
one_if true = 1
one_if false = 0

module _ (ops : FloatOps) (builders : Builders) (interface : String) where
  -- How many of some frames are claimed, and the poller behind them.
  unfoldable pub claim_all : List Frame → Poller → Ran (ℕ × Poller)
  claim_all [] p = done (0, p)
  claim_all (f ∷ fs) p = do
    c ← claim_frame ops builders interface p f
    (n, p') ← claim_all fs c.poller
    done (one_if c.claimed + n, p')

  -- Nothing is claimed while nothing is awaited.
  claim_all_idle :
      (fs : List Frame) (answered : Bool)
      → claim_all fs (record { active = none; answered = answered })
        ≡ done (0, record { active = none; answered = answered })
  unfolding claim_all claim_frame on_active
  claim_all_idle [] answered = refl
  claim_all_idle (f ∷ fs) answered = rw (claim_all_idle fs answered) refl

  -- A claim while a response is awaited: made or not.
  abbrev ClaimsOnce : RawTransactionConfig → Ran Claim → Type 0
  ClaimsOnce t (done c) = (c ≡ unclaimed (awaiting t)) ⊎ ((es : List Emitted) × (c ≡ taken es))
  ClaimsOnce t crashed = Unit

  taken-ClaimsOnce :
      (t : RawTransactionConfig) (r : Ran (List Emitted))
      → ClaimsOnce t (r >>= λ es. done (taken es))
  taken-ClaimsOnce t (done es) = inr (es, refl)
  taken-ClaimsOnce t crashed = tt

  on_match-ClaimsOnce :
      (t : RawTransactionConfig) (f : Frame) (m : Ran Bool)
      → ClaimsOnce t (on_match ops builders interface (awaiting t) t f m)
  unfolding on_match
  on_match-ClaimsOnce t f (done true) = taken-ClaimsOnce t _
  on_match-ClaimsOnce t f (done false) = inl refl
  on_match-ClaimsOnce t f crashed = tt

  either_once :
      (t : RawTransactionConfig) (c : Bool) (x y : Ran Claim)
      → ClaimsOnce t x
      → ClaimsOnce t y
      → ClaimsOnce t (if c then x else y)
  either_once t true x y h k = h
  either_once t false x y h k = k

  claim_frame-ClaimsOnce :
      (t : RawTransactionConfig) (f : Frame)
      → ClaimsOnce t (claim_frame ops builders interface (awaiting t) f)
  unfolding claim_frame on_active
  claim_frame-ClaimsOnce t f =
      either_once t (f.extended || not (f.id == t.response.cob_id)) (done (unclaimed (awaiting t)))
        _ (inl refl) (on_match-ClaimsOnce t f (raw_transaction_matches t.response.match f.payload))

  -- How an attempt stands: nothing claimed and the response awaited, or one frame claimed, nothing
  -- awaited and the result there.
  abbrev pub Stands : RawTransactionConfig → Ran (ℕ × Poller) → Type 0
  Stands t (done (n, p)) =
      ((n ≡ 0) × (p ≡ awaiting t) × (attempt_result true from_result p ≡ none))
      ⊎ ((n ≡ 1) × (p.active ≡ none) × (attempt_result true from_result p ≡ some true))
  Stands t crashed = Unit

  none_more :
      (t : RawTransactionConfig) (r : Ran (ℕ × Poller))
      → Stands t r
      → Stands t (r >>= λ (n, p'). done (0 + n, p'))
  none_more t (done (n, p)) (inl h) = inl (omega (arith, h.0), h.1, h.2)
  none_more t (done (n, p)) (inr h) = inr (omega (arith, h.0), h.1, h.2)
  none_more t crashed h = tt

  after_claim :
      (t : RawTransactionConfig) (fs : List Frame) (c : Ran Claim)
      → ClaimsOnce t c
      → Stands t (claim_all fs (awaiting t))
      → Stands t
          (c >>= λ c'. claim_all fs c'.poller >>= λ (n, p'). done (one_if c'.claimed + n, p'))
  unfolding attempt_result
  after_claim t fs (done c) (inl e) h =
      subst
        (λ (x : Claim).
          Stands t (claim_all fs x.poller >>= λ (n, p'). done (one_if x.claimed + n, p')))
        (sym e) (none_more t (claim_all fs (awaiting t)) h)
  after_claim t fs (done c) (inr (es, e)) h =
      subst
        (λ (x : Claim).
          Stands t (claim_all fs x.poller >>= λ (n, p'). done (one_if x.claimed + n, p')))
        (sym e) (rw (claim_all_idle fs true) (inr (refl, refl, refl)))
  after_claim t fs crashed e h = tt

  -- Over any frames, an attempt claims at most one: it is still awaiting its response and has no
  -- result, or it has claimed one frame, awaits nothing more and its result is success. So it
  -- succeeds just when one of the frames was its response.
  pub attempt-Stands :
      (t : RawTransactionConfig) (fs : List Frame)
      → Stands t (claim_all fs (begin_attempt t).poller)
  unfolding claim_all begin_attempt attempt_result
  attempt-Stands t [] = inl (refl, refl, refl)
  attempt-Stands t (f ∷ fs) =
      after_claim t fs (claim_frame ops builders interface (awaiting t) f)
        (claim_frame-ClaimsOnce t f) (attempt-Stands t fs)
