-- ===== src/Examples/Polling.antt =====
-- Runs of raw_poller.go, on transactions that config.go accepts.
use otelcol_receiver_canopen.Prelude.{
  ℕ, ◌==◌, not, inr, ◌≤◌, ◌≡◌, refl, true, false, some, [], ◌∷◌, All, nat_eq, arith,
}
use otelcol_receiver_canopen.Prelude.Int.{pos}
use otelcol_receiver_canopen.Prelude.Text.{hex, hex_upper}
use otelcol_receiver_canopen.Codec.Types.{uint16, valid, float_zero}
use otelcol_receiver_canopen.Transport.{Frame}
use otelcol_receiver_canopen.Config.Checked.{pass}
use otelcol_receiver_canopen.Config.Types.{
  MetricType, Mode, FieldConfig, RawMatchByte, RawTransactionConfig, RawConfig,
}
use otelcol_receiver_canopen.Config.Fields.{
  validate_metric_type, validate_attribute, validate_static_attributes, validate_byte_type,
  validate_field, validate_fields, validate_field_list, validate_object,
}
use otelcol_receiver_canopen.Config.Raw.{
  validate_match, validate_response, validate_mode, effective_mode, validate_transaction,
  validate_transactions, raw_matches_can_overlap, request_key, validate_cob_ids, validate_messages,
  validate_raw_frames, validate_raw,
}
use otelcol_receiver_canopen.RawPoller.Retries.{Turn, poll, retry_loop, one_pass, gave_up}
use otelcol_receiver_canopen.RawPoller.Backoff.{EndsWithin, Between}
use otelcol_receiver_canopen.RawPoller.Validated.{once_poll_ends, poll-Between}
use otelcol_receiver_canopen.RawPoller.Claims.{claimants, one_claimant}
use otelcol_receiver_canopen.RawPoller.Schedule.{is_once_only, run}
use otelcol_receiver_canopen.RawPoller.Rounds.{run_polls}
use otelcol_receiver_canopen.Prelude.{Bool}
use otelcol_receiver_canopen.Config.Types.{SdoObjectConfig, SdoPollConfig}
use otelcol_receiver_canopen.Config.Sdo.{validate_poll, poll_checks, validate_objects}
use otelcol_receiver_canopen.SdoPoller.Schedule as Sdo
use otelcol_receiver_canopen.SdoPoller.Schedule.{Polled}
use otelcol_receiver_canopen.SdoPoller.Rounds.{
  polled_objects, once_run_returns, cancelled_run_returns,
}
use otelcol_receiver_canopen.RawPoller.Requests.{begin_attempt, claim_all, Stands, attempt-Stands}
use otelcol_receiver_canopen.Sniffer.Fields.{Builders}
use otelcol_receiver_canopen.Examples.Sniffing.{no_floats}

abbrev pub level : FieldConfig
level = record {
  name = "level";
  bit_offset = pos 16;
  type = uint16;
  byte_len = pos 0;
  scale = float_zero;
  offset = float_zero;
  unit = "mm";
  metrics = true;
  logs = false;
  metric_type = MetricType.unset;
  attributes = [];
}

abbrev byte_is : ℕ → ℕ → RawMatchByte
byte_is i v = record { byte_offset = pos i; value = v }

abbrev pub ask : RawTransactionConfig
ask = record {
  name = "ask level";
  cob_id = 0x123;
  payload = 1 ∷ 7 ∷ [];
  timeout = pos 1_000_000_000;
  mode = Mode.once;
  interval_time = pos 0;
  retry = true;
  backoff = pos 1_000_000_000;
  max_backoff = pos 3_000_000_000;
  max_retries = some (pos 3);
  response = record { cob_id = 0x124; match = byte_is 0 0x81 ∷ []; fields = level ∷ [] };
}

abbrev ask_again : RawTransactionConfig
ask_again = record ask {
  name = "ask again";
  payload = 2 ∷ 7 ∷ [];
  response = record { cob_id = 0x124; match = byte_is 0 0x82 ∷ []; fields = level ∷ [] };
}

ask-pass : validate_transaction ask ≡ pass
unfolding validate_transaction validate_response validate_mode effective_mode validate_match
    validate_field_list validate_fields validate_field validate_byte_type validate_metric_type
    validate_static_attributes validate_attribute valid
ask-pass = refl

abbrev pair : RawConfig
pair = record {
  sniff = record { metrics = false; logs = false; cob_ids = []; messages = [] };
  transactions = ask ∷ ask_again ∷ [];
}

abbrev always_fails : ℕ → Turn
always_fails n = record { succeeds = false; is_cancelled = false; cancelled_in_pause = false }

-- One, two, three and again three seconds: the backoff stops at its largest.
failing : poll always_fails 9 ask ≡ record {
  pauses = pos 1_000_000_000 ∷ pos 2_000_000_000 ∷ pos 3_000_000_000 ∷ [];
  ending = gave_up 4;
}
unfolding poll retry_loop one_pass
failing = refl

once_poll_ends_example : EndsWithin 4 (poll always_fails 9 ask).ending
unfolding effective_mode
once_poll_ends_example = once_poll_ends always_fails 9 ask ask-pass refl (omega arith)

poll-Between_example :
    (1 ≤ 1_000_000_000) × All (Between 1_000_000_000 3_000_000_000) (poll always_fails 9 ask).pauses
poll-Between_example = poll-Between always_fails 9 ask ask-pass (omega arith)

pair-pass : validate_raw pair ≡ pass
unfolding validate_raw validate_raw_frames validate_cob_ids validate_messages validate_transactions
    validate_transaction validate_response validate_mode effective_mode validate_match
    validate_field_list validate_fields validate_field validate_byte_type validate_metric_type
    validate_static_attributes validate_attribute valid request_key raw_matches_can_overlap hex
    hex_upper
pair-pass = refl

-- The responses of both come on one COB-ID, told apart by their first byte.
abbrev reply : Frame
reply = record { id = 0x124; extended = false; payload = 0x82 ∷ 0 ∷ 5 ∷ 0 ∷ [] }

one_claimant_example : claimants reply (ask ∷ ask_again ∷ []) ≤ 1
one_claimant_example = one_claimant pair reply pair-pass

abbrev every_second : RawTransactionConfig
every_second = record ask {
  name = "every second";
  mode = Mode.interval;
  interval_time = pos 1_000_000_000;
}

abbrev never_cancelled : ℕ → Bool
never_cancelled k = true

run_polls_example :
    (run never_cancelled 3 0 (ask ∷ every_second ∷ []) (false ∷ false ∷ [])).all_polled
    ≡ ask ∷ every_second ∷ every_second ∷ every_second ∷ []
unfolding is_once_only effective_mode
run_polls_example = run_polls never_cancelled (λ k. refl) 2 (ask ∷ every_second ∷ []) refl

abbrev level_object : SdoObjectConfig
level_object = record { node_id = 5; index = 0x2100; sub_index = 1; fields = level ∷ [] }

abbrev pub poll_section : SdoPollConfig
poll_section = record {
  mode = Mode.unset;
  interval_time = pos 0;
  timeout = pos 0;
  retry = true;
  backoff = pos 0;
  max_backoff = pos 0;
  max_retries = some (pos 2);
  objects = level_object ∷ [];
}

poll_section-pass : (validate_poll poll_section).0 ≡ pass
unfolding validate_poll poll_checks validate_objects validate_object validate_field_list
    validate_fields validate_field validate_byte_type validate_metric_type
    validate_static_attributes validate_attribute valid
poll_section-pass = refl

once_run_returns_example :
    ((Sdo.run (λ _. always_fails) 3 (validate_poll poll_section).1 never_cancelled 1 0 0).returned
      ≡ true)
    × (polled_objects
          (Sdo.run (λ _. always_fails) 3 (validate_poll poll_section).1 never_cancelled 1 0 0).polls
        ≡ level_object ∷ [])
    × All
        (λ (p : Polled). EndsWithin 3 p.outcome.ending)
        (Sdo.run (λ _. always_fails) 3 (validate_poll poll_section).1 never_cancelled 1 0 0).polls
unfolding validate_poll
once_run_returns_example =
    once_run_returns (λ _. always_fails) 3 poll_section never_cancelled 0 poll_section-pass refl
      (omega arith)

-- Every poll is cut off at its second attempt, and the context ends in the pause behind round 2.
abbrev cut_off : ℕ → Turn
cut_off n = record { succeeds = false; is_cancelled = n == 1; cancelled_in_pause = false }

cancelled_run_returns_example :
    ((Sdo.run (λ _. cut_off) 3 poll_section (λ n. not (n == 2)) 3 0 0).returned ≡ true)
    × All
        (λ (p : Polled). EndsWithin 3 p.outcome.ending)
        (Sdo.run (λ _. cut_off) 3 poll_section (λ n. not (n == 2)) 3 0 0).polls
cancelled_run_returns_example =
    cancelled_run_returns (λ _. cut_off) poll_section (λ n. not (n == 2)) 2 2 0 0 refl
      λ i. (1, omega arith, inr refl)

abbrev both : Builders
both = record { metrics = true; logs = true }

attempt-Stands_example :
    Stands no_floats both "can0" ask
      (claim_all no_floats both "can0" (reply ∷ reply ∷ []) (begin_attempt ask).poller)
attempt-Stands_example = attempt-Stands no_floats both "can0" ask (reply ∷ reply ∷ [])
