-- ===== src/SdoPoller/Schedule.antt =====
-- sdo_poller.go: `run`, the rounds over the objects.
use otelcol_receiver_canopen.Prelude.{
  ℕ, zero, suc, Bool, true, false, ◌&&◌, List, [], ◌∷◌, ◌++◌, if◌then◌else◌,
}
use otelcol_receiver_canopen.Config.Types.{SdoObjectConfig, SdoPollConfig}
use otelcol_receiver_canopen.Config.Sdo.{is_interval}
use otelcol_receiver_canopen.RawPoller.Retries.{Turn, Outcome}
use otelcol_receiver_canopen.SdoPoller.Poll.{poll_until_success}

-- The poll of an object: how its attempts went.
pub record Polled : Type 0 where
  pub object : SdoObjectConfig
  pub outcome : Outcome

-- The polls of a run, and whether it has returned.
pub record Run : Type 0 where
  pub polls : List Polled
  pub returned : Bool

-- What the world does to the attempts of poll number `k` is `turns k`.
module _ (turns : ℕ → ℕ → Turn) (fuel : ℕ) (settings : SdoPollConfig) where
  -- A round polls every object, also one whose context is cancelled.
  unfoldable pub poll_round : ℕ → List SdoObjectConfig → List Polled
  poll_round k [] = []
  poll_round k (o ∷ os) =
      record { object = o; outcome = poll_until_success (turns k) fuel settings }
      ∷ poll_round (suc k) os

  abbrev pub polls_of : List SdoObjectConfig → ℕ → ℕ
  polls_of [] k = k
  polls_of (o ∷ os) k = polls_of os (suc k)

  abbrev pub after_round : Bool → List Polled → Run → Run
  after_round again polls rest =
      if again
      then record { polls = polls ++ rest.polls; returned = rest.returned }
      else record { polls = polls; returned = true }

  -- `waits n` says whether the pause after round number `n` ends before the context does. The first
  -- `rounds` rounds are looked at.
  unfoldable pub run : (ℕ → Bool) → ℕ → ℕ → ℕ → Run
  run waits zero n k = record { polls = []; returned = false }
  run waits (suc rounds) n k =
      let rest = run waits rounds (suc n) (polls_of settings.objects k) in
      after_round (is_interval settings.mode && waits n) (poll_round k settings.objects) rest
