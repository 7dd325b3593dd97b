-- ===== src/Examples/Receiving.antt =====
-- Runs of receiver.go and sdo_poller.go.
use otelcol_receiver_canopen.Prelude.{
  ℕ, ◌≡◌, refl, true, false, some, [], ◌∷◌, if◌then◌else◌, ◌==◌, nat_eq, arith,
}
use otelcol_receiver_canopen.Prelude.Maps.{lookup}
use otelcol_receiver_canopen.Transport.{Frame}
use otelcol_receiver_canopen.Config.Checked.{pass}
use otelcol_receiver_canopen.Config.Types.{PdoConfig, SdoObjectConfig, Config, default_config}
use otelcol_receiver_canopen.Config.Fields.{
  validate_metric_type, validate_attribute, validate_static_attributes, validate_byte_type,
  validate_field, validate_fields, validate_field_list, validate_pdo, validate_pdo_loop,
  validate_pdos,
}
use otelcol_receiver_canopen.Config.Sdo.{
  validate_channels, validate_objects, validate_sniff, poll_checks, validate_poll, passive_objects,
  cross_checks, validate_sdo,
}
use otelcol_receiver_canopen.Config.Raw.{
  validate_cob_ids, validate_messages, validate_raw_frames, validate_transactions, validate_raw,
}
use otelcol_receiver_canopen.Config.Validate.{
  check_outputs, check_fields, output_checks, first_checks, last_checks, validate,
}
use otelcol_receiver_canopen.Config.Enabled.{OutputsEnabled, IsKnown, accepted_outputs}
use otelcol_receiver_canopen.Codec.Types.{valid}
use otelcol_receiver_canopen.SdoObserver.Sender.{Cut, upload_dialogue}
use otelcol_receiver_canopen.SdoPoller.Poll.{start_poll, channel_of}
use otelcol_receiver_canopen.SdoPoller.Upload.{
  answer_all, client_frames, server_frames, object_of, upload_polled,
}
use otelcol_receiver_canopen.Receiver.Build.{build_pdo, build_sniffer_config}
use otelcol_receiver_canopen.Receiver.Pdos.{every_pdo_kept}
use otelcol_receiver_canopen.Receiver.Dispatch.{
  Receiver, start_receiver, dispatch_frame, poll_answers, raw_claims, sniff_frame,
}
use otelcol_receiver_canopen.Receiver.Outputs.{IsLossless, dispatch_frame-IsLossless}
use otelcol_receiver_canopen.Sniffer.Calm.{IsDone}
use otelcol_receiver_canopen.Receiver.Decodables.{FieldsShort}
use otelcol_receiver_canopen.Receiver.Lifecycle.{
  System, new_system, start, later, opens, opened, at_recv,
}
use otelcol_receiver_canopen.Receiver.Unbroken.{accepted_never_panics}
use otelcol_receiver_canopen.Receiver.Mixed.{PollMixed, RawMixed, SniffMixed}
use otelcol_receiver_canopen.Receiver.Dispatch.{Library}
use otelcol_receiver_canopen.Prelude.{◌⊎◌}
use otelcol_receiver_canopen.Prelude.{none}
use otelcol_receiver_canopen.SdoObserver.Observe as Observe
use otelcol_receiver_canopen.SdoObserver.Observe.{emitted, forget}
use otelcol_receiver_canopen.SdoObserver.Sender.{whole, from_client, watch}
use otelcol_receiver_canopen.SdoObserver.Reports.{uploaded}
use otelcol_receiver_canopen.SdoPoller.Poll.{ActivePoll, answer_frame}
use otelcol_receiver_canopen.SdoPoller.Results.{
  poll_result, from_result, abort_frame, aborted_attempt_fails,
}
use otelcol_receiver_canopen.SdoPoller.Sniffed.{sniffed_frames, polled_upload_observed}
use otelcol_receiver_canopen.SdoPoller.Upload.{server_id}
use otelcol_receiver_canopen.Examples.Polling.{level}
use otelcol_receiver_canopen.Examples.Sniffing.{no_floats}

abbrev pdo_named : ℕ → PdoConfig
pdo_named id = record {
  name = if id == 0x181 then "one" else "two";
  cob_id = id;
  fields = level ∷ [];
}

abbrev two_pdos : Config
two_pdos = record default_config {
  interface = "can0";
  pdo = pdo_named 0x181 ∷ pdo_named 0x182 ∷ [];
}

two_pdos-pass : validate_pdos two_pdos.pdo ≡ pass
unfolding validate_pdos validate_pdo_loop validate_pdo validate_field_list validate_fields
    validate_field validate_byte_type validate_metric_type validate_static_attributes
    validate_attribute valid default_config
two_pdos-pass = refl

every_pdo_kept_example :
    lookup 0x182 (build_sniffer_config two_pdos).pdos ≡ some (build_pdo (pdo_named 0x182))
unfolding default_config
every_pdo_kept_example = every_pdo_kept two_pdos 1 (pdo_named 0x182) two_pdos-pass refl

abbrev device_name : SdoObjectConfig
device_name = record { node_id = 5; index = 0x1008; sub_index = 0; fields = level ∷ [] }

abbrev nine_bytes : Cut
nine_bytes = record {
  full = (1 ∷ 2 ∷ 3 ∷ 4 ∷ 5 ∷ 6 ∷ 7 ∷ []) ∷ [];
  last = record { chunk = 8 ∷ 9 ∷ []; pad = 0 ∷ 0 ∷ 0 ∷ 0 ∷ 0 ∷ [] };
}

upload_polled_example :
    ((start_poll [] device_name).0
        ∷ (answer_all []
            (server_frames
              (channel_of [] device_name).server_to_client_cob_id
              (upload_dialogue 5 5 (object_of device_name) true (9 ∷ 0 ∷ 0 ∷ 0 ∷ []) nine_bytes))
            (start_poll [] device_name).1).0
      ≡ client_frames
          (channel_of [] device_name).client_to_server_cob_id
          (upload_dialogue 5 5 (object_of device_name) true (9 ∷ 0 ∷ 0 ∷ 0 ∷ []) nine_bytes))
    × ((answer_all []
          (server_frames
            (channel_of [] device_name).server_to_client_cob_id
            (upload_dialogue 5 5 (object_of device_name) true (9 ∷ 0 ∷ 0 ∷ 0 ∷ []) nine_bytes))
          (start_poll [] device_name).1).1.result
        ≡ some true)
upload_polled_example =
    upload_polled [] device_name 5 5 true (9 ∷ 0 ∷ 0 ∷ 0 ∷ []) nine_bytes (omega arith, omega arith)
      ((refl, tt), refl)

-- A library that panics on points of the wrong kind.
abbrev pub no_library : Library
no_library = record { floats = no_floats; append_invalid = λ p m. none }

abbrev running : Receiver
running = start_receiver two_pdos true true

abbrev reading : Frame
reading = record { id = 0x182; extended = false; payload = 0 ∷ 0 ∷ 7 ∷ 0 ∷ [] }

dispatch_frame-IsLossless_example : IsLossless running (dispatch_frame no_library reading running)
dispatch_frame-IsLossless_example = dispatch_frame-IsLossless no_library reading running

two_pdos_valid : (validate two_pdos).0 ≡ pass
unfolding validate first_checks last_checks output_checks check_outputs check_fields validate_sdo
    validate_sniff validate_channels validate_objects validate_poll poll_checks cross_checks
    passive_objects validate_raw validate_raw_frames validate_cob_ids validate_messages
    validate_transactions validate_pdos validate_pdo_loop validate_pdo validate_field_list
    validate_fields validate_field validate_byte_type validate_metric_type
    validate_static_attributes validate_attribute valid default_config
two_pdos_valid = refl

accepted_outputs_example :
    OutputsEnabled (validate two_pdos).1 × IsKnown (validate two_pdos).1.sdo.poll.mode
accepted_outputs_example = accepted_outputs two_pdos two_pdos_valid

two_pdos_short : FieldsShort (validate two_pdos).1
unfolding validate first_checks last_checks output_checks check_outputs check_fields validate_sdo
    validate_sniff validate_channels validate_objects validate_poll poll_checks cross_checks
    passive_objects validate_raw validate_raw_frames validate_cob_ids validate_messages
    validate_transactions validate_pdos validate_pdo_loop validate_pdo validate_field_list
    validate_fields validate_field validate_byte_type validate_metric_type
    validate_static_attributes validate_attribute valid default_config
two_pdos_short = record {
  of_pdos = (((omega arith, omega arith), tt), (((omega arith, omega arith), tt), tt));
  of_sniffed = tt;
  of_polled = tt;
  of_messages = tt;
  of_transactions = tt;
}

abbrev opened_two : System
opened_two = record (new_system (validate two_pdos).1 true true) {
  starting = opened;
  place = at_recv;
}

accepted_never_panics_example :
    (IsDone (poll_answers no_library opened_two.receiver.sdo_poller reading opened_two.receiver)
      ⊎ PollMixed no_library opened_two.receiver.sdo_poller reading opened_two.receiver)
    × (IsDone (raw_claims no_library opened_two.receiver.raw_poller reading opened_two.receiver)
        ⊎ RawMixed no_library opened_two.receiver.raw_poller reading opened_two.receiver)
    × (IsDone (sniff_frame no_library reading opened_two.receiver)
        ⊎ SniffMixed no_library reading opened_two.receiver)
accepted_never_panics_example =
    accepted_never_panics two_pdos true true no_library opened_two reading two_pdos_valid
      two_pdos_short (later start (opens refl refl))

polled_upload_observed_example :
    watch
      (from_client 5 5 (start_poll [] device_name).0.payload
        ∷ sniffed_frames 5 5 []
            (server_frames
              (server_id [] device_name)
              (upload_dialogue 5 5 (object_of device_name) true (9 ∷ 0 ∷ 0 ∷ 0 ∷ []) nine_bytes))
            (start_poll [] device_name).1)
      Observe.new
    ≡ (emitted (uploaded 5 (object_of device_name) (whole nine_bytes)) ∷ [], forget 5 Observe.new)
polled_upload_observed_example =
    polled_upload_observed 5 5 [] device_name true (9 ∷ 0 ∷ 0 ∷ 0 ∷ []) nine_bytes Observe.new refl
      (omega arith, omega arith) ((refl, tt), refl)

-- A poll in the middle of its segments.
abbrev half_way : ActivePoll
half_way = record (start_poll [] device_name).1 { segment = true; toggle = true }

aborted_attempt_fails_example :
    ((answer_frame [] (abort_frame [] half_way (0 ∷ 0 ∷ 4 ∷ 5 ∷ [])) half_way).0 ≡ none)
    × (poll_result true from_result
          (answer_all [] (abort_frame [] half_way (0 ∷ 0 ∷ 4 ∷ 5 ∷ []) ∷ reading ∷ []) half_way).1
        ≡ some false)
unfolding start_poll
aborted_attempt_fails_example =
    aborted_attempt_fails [] half_way (0 ∷ 0 ∷ 4 ∷ 5 ∷ []) (reading ∷ []) (omega arith, omega arith)
      refl
