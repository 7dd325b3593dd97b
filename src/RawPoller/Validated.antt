-- ===== src/RawPoller/Validated.antt =====
-- raw_poller.go on transactions that config.go accepts.
use otelcol_receiver_canopen.Prelude.{
  ℕ, zero, suc, ◌≤◌, ◌<◌, ◌^◌, ◌≡◌, Bool, true, false, ◌&&◌, ◌||◌, Option, none, some, All, arith,
}
use otelcol_receiver_canopen.Prelude.Int.{ℤ, pos, negsuc, pos_part}
use otelcol_receiver_canopen.Config.Checked.{pass}
use otelcol_receiver_canopen.Config.Types.{Mode, RawTransactionConfig, is_negative}
use otelcol_receiver_canopen.Config.Sdo.{is_once, is_none, negative_retries}
use otelcol_receiver_canopen.Config.Raw.{effective_mode, validate_transaction}
use otelcol_receiver_canopen.RawPoller.Retries.{
  Turn, poll, longest, first_pause, retry_loop, one_pass,
}
use otelcol_receiver_canopen.RawPoller.Backoff.{
  EndsWithin, Between, retry_loop_ends, retry_loop-Between,
}

-- The checks of an accepted transaction that its poll depends on.
record Accepted (t : RawTransactionConfig) : Type 0 where
  signs : (is_negative t.backoff || is_negative t.max_backoff) ≡ false
  retries_sign : negative_retries t.max_retries ≡ false
  retries_given : (is_once (effective_mode t) && (t.retry && is_none t.max_retries)) ≡ false

pass-Accepted : (t : RawTransactionConfig) → validate_transaction t ≡ pass → Accepted t
unfolding validate_transaction
pass-Accepted t h = record {
  signs = ground arith;
  retries_sign = ground arith;
  retries_given = ground arith;
}

-- The retries that are allowed, none where no number is given.
abbrev pub most_retries : Option ℤ → ℕ
most_retries none = 0
most_retries (some n) = pos_part n

-- A poll with no retries is over after one attempt.
no_retry_ends :
    (turns : ℕ → Turn) (m : Option ℤ) (top : ℤ) (fuel : ℕ) (b : ℤ)
    → 1 ≤ fuel
    → EndsWithin 1 (retry_loop turns false m top fuel 0 b).ending
unfolding retry_loop one_pass
no_retry_ends turns m top zero b h = absurd (omega arith)
no_retry_ends turns m top (suc fuel) b h = ground arith

pub once_ends :
    (turns : ℕ → Turn) (retry : Bool) (m : Option ℤ) (fuel : ℕ) (top b : ℤ)
    → negative_retries m ≡ false
    → (retry && is_none m) ≡ false
    → suc (most_retries m) ≤ fuel
    → EndsWithin (suc (most_retries m)) (retry_loop turns retry m top fuel 0 b).ending
once_ends turns false none fuel top b h k l = no_retry_ends turns none top fuel b l
once_ends turns true none fuel top b h k l = absurd (ground arith)
once_ends turns retry (some (pos n)) fuel top b h k l =
    retry_loop_ends turns retry n top fuel 0 b (omega arith) (omega arith)
once_ends turns retry (some (negsuc n)) fuel top b h k l = absurd (ground arith)

-- The poll of an accepted transaction of the mode "once" ends, after at most one attempt more than
-- its retries (one attempt when it has none), whatever happens to the attempts; fuel for that many
-- attempts is enough.
pub once_poll_ends :
    (turns : ℕ → Turn) (fuel : ℕ) (t : RawTransactionConfig)
    → validate_transaction t ≡ pass
    → effective_mode t ≡ Mode.once
    → suc (most_retries t.max_retries) ≤ fuel
    → EndsWithin (suc (most_retries t.max_retries)) (poll turns fuel t).ending
unfolding poll
once_poll_ends turns fuel t h m k =
    let a : Accepted t = pass-Accepted t h in
    once_ends turns t.retry t.max_retries fuel (longest t) (first_pause t) a.retries_sign
      (ground (arith, a.retries_given)) k

longest-pos : (t : RawTransactionConfig) → Accepted t → longest t ≡ pos (pos_part (longest t))
longest-pos t a = ground (arith, a.signs)

first_pause-pos :
    (t : RawTransactionConfig) → Accepted t → first_pause t ≡ pos (pos_part (first_pause t))
first_pause-pos t a = ground (arith, a.signs)

first_pause_bounds :
    (t : RawTransactionConfig)
    → Accepted t
    → (1 ≤ pos_part (first_pause t)) × (pos_part (first_pause t) ≤ pos_part (longest t))
first_pause_bounds t a = ground (arith, a.signs)

retry_loop-Between_signed :
    (turns : ℕ → Turn) (retry : Bool) (m : Option ℤ) (top : ℤ) (fuel : ℕ) (b : ℤ)
    → top ≡ pos (pos_part top)
    → b ≡ pos (pos_part b)
    → pos_part b ≤ pos_part top
    → pos_part top < 2 ^ 62
    → All (Between (pos_part b) (pos_part top)) (retry_loop turns retry m top fuel 0 b).pauses
retry_loop-Between_signed turns retry m (pos top) fuel (pos b) h k l f =
    retry_loop-Between turns retry m top fuel 0 b b (omega arith) l f
retry_loop-Between_signed turns retry m (negsuc top) fuel b h k l f = absurd (ground arith)
retry_loop-Between_signed turns retry m (pos top) fuel (negsuc b) h k l f = absurd (ground arith)

-- Every pause of an accepted transaction lasts at least as long as the first one, which is not
-- zero, and no longer than the largest backoff, when doubling that fits an int64.
pub poll-Between :
    (turns : ℕ → Turn) (fuel : ℕ) (t : RawTransactionConfig)
    → validate_transaction t ≡ pass
    → pos_part (longest t) < 2 ^ 62
    → (1 ≤ pos_part (first_pause t))
      × All (Between (pos_part (first_pause t)) (pos_part (longest t))) (poll turns fuel t).pauses
unfolding poll
poll-Between turns fuel t h k =
    let a : Accepted t = pass-Accepted t h in
    let (positive, le) = first_pause_bounds t a in
    (
      positive,
      retry_loop-Between_signed turns t.retry t.max_retries (longest t) fuel (first_pause t)
          (longest-pos t a) (first_pause-pos t a) le k,
    )
