-- ===== src/SdoPoller/Accepted.antt =====
-- sdo_poller.go: the retries of a polling section that config.go accepts.
use otelcol_receiver_canopen.Prelude.{ℕ, suc, ◌≤◌, ◌≡◌, false, ◌&&◌, arith}
use otelcol_receiver_canopen.Config.Checked.{pass}
use otelcol_receiver_canopen.Config.Types.{Mode, SdoPollConfig}
use otelcol_receiver_canopen.Config.Sdo.{
  is_once, is_none, negative_retries, poll_checks, validate_poll,
}
use otelcol_receiver_canopen.RawPoller.Retries.{Turn}
use otelcol_receiver_canopen.RawPoller.Backoff.{EndsWithin}
use otelcol_receiver_canopen.RawPoller.Validated.{most_retries, once_ends}
use otelcol_receiver_canopen.SdoPoller.Poll.{poll_until_success}

retries_checked :
    (s : SdoPollConfig)
    → poll_checks s ≡ pass
    → (negative_retries s.max_retries ≡ false)
      × ((is_once s.mode && s.retry && is_none s.max_retries) ≡ false)
unfolding poll_checks
retries_checked s h = (ground arith, ground arith)

-- The poll of an object, in the mode "once" of an accepted section, or with that mode filled in, ends
-- after at most one attempt more than the retries (one when there are none), whatever happens to the
-- attempts; fuel for that many attempts is enough.
pub once_object_ends :
    (turns : ℕ → Turn) (fuel : ℕ) (s : SdoPollConfig)
    → (validate_poll s).0 ≡ pass
    → (validate_poll s).1.mode ≡ Mode.once
    → suc (most_retries s.max_retries) ≤ fuel
    → EndsWithin
        (suc (most_retries s.max_retries))
        (poll_until_success turns fuel (validate_poll s).1).ending
unfolding poll_until_success validate_poll
once_object_ends turns fuel s h m k =
    let (sign, given) = retries_checked (validate_poll s).1 h in
    once_ends turns s.retry s.max_retries fuel _ _ sign (ground (arith, given)) k
