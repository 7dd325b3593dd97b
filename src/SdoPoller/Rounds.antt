-- ===== src/SdoPoller/Rounds.antt =====
-- sdo_poller.go: how often `run` polls each object, and when it returns.
use otelcol_receiver_canopen.Prelude.{
  ℕ, zero, suc, ◌≤◌, ◌≡◌, refl, ap, ◌∙◌, Bool, true, false, ◌&&◌, List, [], ◌∷◌, ◌++◌, map, All,
  arith, inl, inr, Bool-cases, ◌+◌,
}
use mathlib.Core.Path.{subst}
use otelcol_receiver_canopen.Config.Checked.{pass}
use otelcol_receiver_canopen.Config.Types.{Mode, SdoObjectConfig, SdoPollConfig}
use otelcol_receiver_canopen.Config.Sdo.{is_interval, validate_poll}
use otelcol_receiver_canopen.RawPoller.Retries.{Turn}
use otelcol_receiver_canopen.RawPoller.Backoff.{EndsWithin, Settles, retry_loop_settles}
use otelcol_receiver_canopen.RawPoller.Validated.{most_retries}
use otelcol_receiver_canopen.SdoPoller.Poll.{poll_until_success}
use otelcol_receiver_canopen.SdoPoller.Accepted.{once_object_ends}
use otelcol_receiver_canopen.SdoPoller.Schedule.{Polled, poll_round, polls_of, run}

abbrev pub polled_objects : List Polled → List SdoObjectConfig
polled_objects ps = map (λ (p : Polled). p.object) ps

-- `n` times over.
abbrev pub repeated : ℕ → List SdoObjectConfig → List SdoObjectConfig
repeated zero os = []
repeated (suc n) os = os ++ repeated n os

module _ (turns : ℕ → ℕ → Turn) (fuel : ℕ) (s : SdoPollConfig) where
  round_objects :
      (k : ℕ) (os : List SdoObjectConfig) → polled_objects (poll_round turns fuel s k os) ≡ os
  unfolding poll_round
  round_objects k [] = refl
  round_objects k (o ∷ os) = ap (◌∷◌ o) (round_objects (suc k) os)

  append_objects :
      (ps qs : List Polled) → polled_objects (ps ++ qs) ≡ polled_objects ps ++ polled_objects qs
  append_objects [] qs = refl
  append_objects (p ∷ ps) qs = ap (◌∷◌ p.object) (append_objects ps qs)

  -- In the mode "interval", while the context is not cancelled, the first `rounds` rounds poll all
  -- objects in order, that many times over, and the run has not returned.
  pub interval_run :
      (waits : ℕ → Bool) (rounds n k : ℕ)
      → s.mode ≡ Mode.interval
      → ((i : ℕ) → waits i ≡ true)
      → (polled_objects (run turns fuel s waits rounds n k).polls ≡ repeated rounds s.objects)
        × ((run turns fuel s waits rounds n k).returned ≡ false)
  unfolding run
  interval_run waits zero n k m w = (refl, refl)
  interval_run waits (suc rounds) n k m w =
      let k' = polls_of turns fuel s s.objects k in
      let (objects, going) = interval_run waits rounds (suc n) k' m w in
      let again : (is_interval s.mode && waits n) ≡ true = rw m (rw (w n) refl) in
      rw again (
        append_objects (poll_round turns fuel s k s.objects)
              (run turns fuel s waits rounds (suc n) k').polls
            ∙ ap
                (λ (os : List SdoObjectConfig).
                  os ++ polled_objects (run turns fuel s waits rounds (suc n) k').polls)
                (round_objects k s.objects)
            ∙ ap (◌++◌ s.objects) objects,
        going,
      )

  -- Without the mode "interval" there is one round.
  one_round :
      (waits : ℕ → Bool) (rounds n k : ℕ)
      → is_interval s.mode ≡ false
      → run turns fuel s waits (suc rounds) n k
        ≡ record { polls = poll_round turns fuel s k s.objects; returned = true }
  unfolding run
  one_round waits rounds n k m = rw m refl

abbrev IsWithin : ℕ → Polled → Type 0
IsWithin most p = EndsWithin most p.outcome.ending

round_ends :
    (turns : ℕ → ℕ → Turn) (fuel : ℕ) (s : SdoPollConfig) (most k : ℕ) (os : List SdoObjectConfig)
    → ((i : ℕ) → EndsWithin most (poll_until_success (turns i) fuel s).ending)
    → All (IsWithin most) (poll_round turns fuel s k os)
unfolding poll_round
round_ends turns fuel s most k [] h = tt
round_ends turns fuel s most k (o ∷ os) h = (h k, round_ends turns fuel s most (suc k) os h)

-- In the mode "once" of an accepted polling section, or with that mode filled in, the run returns
-- after one round, which polls each object once, in order, whatever happens to the attempts and to
-- the context; each poll ends after at most one attempt more than the retries. Fuel for that many
-- attempts is enough.
pub once_run_returns :
    (turns : ℕ → ℕ → Turn) (fuel : ℕ) (s : SdoPollConfig) (waits : ℕ → Bool) (rounds : ℕ)
    → (validate_poll s).0 ≡ pass
    → (validate_poll s).1.mode ≡ Mode.once
    → suc (most_retries s.max_retries) ≤ fuel
    → ((run turns fuel (validate_poll s).1 waits (suc rounds) 0 0).returned ≡ true)
      × (polled_objects (run turns fuel (validate_poll s).1 waits (suc rounds) 0 0).polls
          ≡ s.objects)
      × All
          (λ (p : Polled). EndsWithin (suc (most_retries s.max_retries)) p.outcome.ending)
          (run turns fuel (validate_poll s).1 waits (suc rounds) 0 0).polls
unfolding validate_poll
once_run_returns turns fuel s waits rounds h m k =
    let s' = (validate_poll s).1 in
    rw (one_round turns fuel s' waits rounds 0 0 (rw m refl)) (
      refl,
      round_objects turns fuel s' 0 s.objects,
      round_ends turns fuel s' (suc (most_retries s.max_retries)) 0 s.objects
          (λ i. once_object_ends (turns i) fuel s h m k),
    )

-- The polls of a round, each with an attempt that settles it.
poll_round-IsWithin :
    (turns : ℕ → ℕ → Turn) (s : SdoPollConfig) (most k : ℕ) (os : List SdoObjectConfig)
    → ((i : ℕ) → Settles most (turns i))
    → All (IsWithin (suc most)) (poll_round turns (suc most) s k os)
poll_round-IsWithin turns s most k os settles = round_ends turns (suc most) s (suc most) k os λ i.
    let (j, low, settled) = settles i in
    unfold poll_until_success in
    retry_loop_settles (turns i) s.retry s.max_retries _ most j (suc most) 0 _ (omega arith)
      (omega arith) low settled

All-append :
    (most : ℕ) (ps qs : List Polled)
    → All (IsWithin most) ps
    → All (IsWithin most) qs
    → All (IsWithin most) (ps ++ qs)
All-append most [] qs h k = k
All-append most (p ∷ ps) qs h k = (h.0, All-append most ps qs h.1 k)

pause_ends :
    (s : SdoPollConfig) (goes_on : Bool) → goes_on ≡ false → (is_interval s.mode && goes_on) ≡ false
pause_ends s goes_on h = ground arith

-- A run whose context is cancelled in the pause behind one of its rounds returns behind that round
-- at the latest, in any mode, and every poll in it ends within its first `most` + 1 attempts,
-- however many retries are configured, where one of these succeeds or finds the context cancelled.
pub cancelled_run_returns :
    (turns : ℕ → ℕ → Turn) (s : SdoPollConfig) (waits : ℕ → Bool) (most rounds n k : ℕ)
    → waits (n + rounds) ≡ false
    → ((i : ℕ) → Settles most (turns i))
    → ((run turns (suc most) s waits (suc rounds) n k).returned ≡ true)
      × All (IsWithin (suc most)) (run turns (suc most) s waits (suc rounds) n k).polls
unfolding run
cancelled_run_returns turns s waits most zero n k stop settles =
    let now : waits n ≡ false = subst (λ (i : ℕ). waits i ≡ false) (omega arith) stop in
    rw (pause_ends s (waits n) now) (refl, poll_round-IsWithin turns s most k s.objects settles)
cancelled_run_returns turns s waits most (suc rounds) n k stop settles =
    let here = poll_round-IsWithin turns s most k s.objects settles in
    let there : waits (suc n + rounds) ≡ false =
      subst (λ (i : ℕ). waits i ≡ false) (omega arith) stop in
    let (ends, rest) =
      cancelled_run_returns turns s waits most rounds (suc n)
        (polls_of turns (suc most) s s.objects k) there settles in
    elim (Bool-cases (is_interval s.mode && waits n)) [
      | inr q ↦ rw q (refl, here)
      | inl q ↦ rw q (ends, All-append (suc most) _ _ here rest)
    ]
