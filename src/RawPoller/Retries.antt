-- ===== src/RawPoller/Retries.antt =====
-- raw_poller.go: `poll`, the loop that repeats an attempt with a growing pause between two of them.
use otelcol_receiver_canopen.Prelude.{
  ℕ, zero, suc, ◌-◌, ◌*◌, ◌%◌, ◌+◌, ◌^◌, Bool, true, not, ◌&&◌, Option, none, some, List, [], ◌∷◌,
  if◌then◌else◌, nat_eq,
}
use otelcol_receiver_canopen.Prelude.Int.{ℤ, pos, negsuc, ltb_ℤ, signed}
use otelcol_receiver_canopen.Config.Types.{RawTransactionConfig}

-- What the world does to one attempt: whether it succeeds, and whether the context is cancelled when
-- it has failed or in the pause after it.
pub record Turn : Type 0 where
  pub succeeds : Bool
  pub is_cancelled : Bool
  pub cancelled_in_pause : Bool

pub data Ending : Type 0 where
  succeeded gave_up cancelled : ℕ → Ending
  unfinished : Ending

-- The pauses that were asked for, and how the loop ended after how many attempts.
pub record Outcome : Type 0 where
  pub pauses : List ℤ
  pub ending : Ending

abbrev pub ended : Ending → Outcome
ended e = record { pauses = []; ending = e }

abbrev pub after_pause : ℤ → Outcome → Outcome
after_pause d o = record { pauses = d ∷ o.pauses; ending = o.ending }

abbrev pub retries_remain : Option ℤ → ℕ → Bool
retries_remain none retries = true
retries_remain (some most) retries = ltb_ℤ (pos retries) most

-- `backoff *= 2` of an int64.
abbrev pub double : ℤ → ℤ
double (pos n) = signed 64 (2 * n % 2 ^ 64)
double (negsuc n) = signed 64 (2 ^ 64 - 1 - (2 * n + 1) % 2 ^ 64)

abbrev pub at_most : ℤ → ℤ → ℤ
at_most top d = if ltb_ℤ top d then top else d

abbrev pub or_default : ℤ → ℕ → ℤ
or_default (pos zero) d = pos d
or_default z d = z

-- One pass of the loop; `rest` is what the passes behind it do.
unfoldable pub one_pass : Turn → Bool → ℕ → ℤ → Outcome → Outcome
one_pass turn may_retry retries backoff rest =
    if turn.succeeds
    then ended (succeeded (suc retries))
    else if turn.is_cancelled
    then ended (cancelled (suc retries))
    else if not may_retry
    then ended (gave_up (suc retries))
    else if turn.cancelled_in_pause
    then after_pause backoff (ended (cancelled (suc retries)))
    else after_pause backoff rest

-- The loop, `retries` attempts behind it. Each pass is one attempt, so `fuel` bounds their number.
unfoldable pub retry_loop : (ℕ → Turn) → Bool → Option ℤ → ℤ → ℕ → ℕ → ℤ → Outcome
retry_loop turns retry max_retries max_backoff zero retries backoff = ended unfinished
retry_loop turns retry max_retries max_backoff (suc fuel) retries backoff =
    one_pass (turns retries) (retry && retries_remain max_retries retries) retries backoff (
      retry_loop turns retry max_retries max_backoff fuel (suc retries)
        (at_most max_backoff (double backoff)))

abbrev pub default_backoff : ℕ
default_backoff = 1_000_000_000

abbrev pub default_max_backoff : ℕ
default_max_backoff = 60_000_000_000

abbrev pub longest : RawTransactionConfig → ℤ
longest t = or_default t.max_backoff default_max_backoff

abbrev pub first_pause : RawTransactionConfig → ℤ
first_pause t = at_most (longest t) (or_default t.backoff default_backoff)

unfoldable pub poll : (ℕ → Turn) → ℕ → RawTransactionConfig → Outcome
poll turns fuel t = retry_loop turns t.retry t.max_retries (longest t) fuel 0 (first_pause t)
