-- ===== src/Examples/Running.antt =====
-- Runs of receiver.go from `Start` to `Shutdown`, and of factory.go.
use otelcol_receiver_canopen.Prelude.{
  ℕ, ◌≡◌, ◌↔◌, refl, String, true, false, some, [], ◌∷◌, All, arith, ◌⊎◌, ◌<◌, ◌%◌, ◌^◌, ap, Bool,
}
use otelcol_receiver_canopen.Transport.{Frame}
use otelcol_receiver_canopen.Transport.Conn.{
  timed_out, wrapped, deadline_exceeded, received, recv_failed,
}
use otelcol_receiver_canopen.Transport.Bus.{fresh_conn, from_ctx, recv}
use otelcol_receiver_canopen.Transport.Socket.{
  read_failed, end_of_stream, to_wire, frame_read, socket_recv, wire_roundtrip, WireFrame, id_bits,
  IsCanFrame,
}
use otelcol_receiver_canopen.Config.Types.{Config, default_config}
use otelcol_receiver_canopen.Prelude.Maps.{lookup}
use otelcol_receiver_canopen.Sniffer.Types.{new_sniffer, index_channels}
use otelcol_receiver_canopen.Sniffer.Dispatch.{
  handle_frame, by_raw, by_pdo, by_channel, by_function,
}
use otelcol_receiver_canopen.Sniffer.Handlers.{handle_heartbeat, heartbeat_state}
use otelcol_receiver_canopen.Receiver.Build.{
  build_sniffer_config, message_cob_ids, add_cob_ids, add_pdos,
}
use otelcol_receiver_canopen.Sniffer.Allowed.{IsAllowed}
use otelcol_receiver_canopen.Receiver.Dispatch.{
  new_receiver, builders_of, add_metrics, add_logs, Pass, dispatch_frame, poll_answers,
  start_sdo_poller, raw_claims, start_raw_poller, sniff_frame, adding, add_all,
}
use otelcol_receiver_canopen.Emit.Metrics.{add_points}
use otelcol_receiver_canopen.Receiver.Outputs.{joined}
use otelcol_receiver_canopen.Receiver.Lifecycle.{
  System, new_system, Reach, start, later, opens, makes_sdo_poller, makes_raw_poller, cancels,
  stops, waits, last_metrics, last_logs, shut_down, cancelled, at_recv, returns, goes_on, warns,
  on_recv_error, make_sdo_poller, make_raw_poller, flush_metrics_of, flush_logs_of, opened,
  loop_returned, Reach-trans,
}
use otelcol_receiver_canopen.Receiver.Sound.{Sound}
use otelcol_receiver_canopen.Receiver.Delivered.{Reach-Sound, shutdown_delivers}
use otelcol_receiver_canopen.Sniffer.Fields.{Ran, done, crashed}
use otelcol_receiver_canopen.Receiver.Passes.{after_pass, dispatch_frame-Reach}
use otelcol_receiver_canopen.Receiver.Errors.{read_errors_warn}
use otelcol_receiver_canopen.Factory.{Factory, create_metrics_receiver, create_logs_receiver}
use otelcol_receiver_canopen.Factory.Sharing.{new_factory, new_factory-Valid, for_logs, create_all}
use otelcol_receiver_canopen.Factory.Pipelines.{pipelines_share}
use otelcol_receiver_canopen.Examples.Receiving.{no_library}

-- A receiver that logs heartbeats, with both consumers.
abbrev logging : Config
logging = record default_config {
  interface = "can0";
  heartbeat = record { metrics = false; logs = true };
}

abbrev beat : Frame
beat = record { id = 0x705; extended = false; payload = 5 ∷ [] }

abbrev opening : System
opening = record (new_system logging true true) { starting = opened; place = at_recv }

-- The same receiver once it has started.
abbrev ready : System
ready = make_raw_poller (make_sdo_poller opening)

ready-Reach : Reach no_library (new_system logging true true) ready
unfolding make_sdo_poller make_raw_poller
ready-Reach =
    later (later (later start (opens refl refl)) (makes_sdo_poller refl)) (makes_raw_poller refl)

abbrev pass_or : Pass → Ran Pass → Pass
pass_or d (done p) = p
pass_or d crashed = d

abbrev logged : Pass
logged =
    pass_or (record { sent = []; metrics_out = []; logs_out = []; receiver = ready.receiver })
      (dispatch_frame no_library beat ready.receiver)

beat_passes : dispatch_frame no_library beat ready.receiver ≡ done logged
unfolding add_all add_metrics heartbeat_state adding add_points dispatch_frame poll_answers
    make_raw_poller make_sdo_poller start_sdo_poller new_receiver default_config raw_claims
    start_raw_poller sniff_frame handle_frame by_raw lookup new_sniffer build_sniffer_config
    message_cob_ids add_cob_ids by_pdo add_pdos by_channel index_channels by_function
    handle_heartbeat
beat_passes = refl

-- It takes one heartbeat and shuts down.
abbrev stopping : System
stopping = record (after_pass ready logged) { phase = cancelled; place = loop_returned }

abbrev over : System
over = record (flush_logs_of (flush_metrics_of stopping)) { phase = shut_down }

over-Reach : Reach no_library (new_system logging true true) over
unfolding make_sdo_poller make_raw_poller flush_metrics_of flush_logs_of new_receiver default_config
over-Reach =
    let passed =
      Reach-trans ready-Reach
        (dispatch_frame-Reach no_library ready beat logged refl beat_passes) in
    let stopped : Reach no_library (new_system logging true true) stopping =
      later (later passed (cancels tt refl)) (stops refl refl) in
    later (later (later stopped (waits refl tt refl refl)) (last_metrics refl)) (last_logs refl)

Reach-Sound_example : Sound logging true true over
Reach-Sound_example = Reach-Sound logging true true no_library over-Reach

shutdown_delivers_example :
    All (IsAllowed (builders_of logging)) over.receiver.history
    × (joined over.metrics_out ≡ add_metrics over.receiver.history [])
    × (joined over.logs_out ≡ add_logs over.receiver.history [])
shutdown_delivers_example = shutdown_delivers logging true true no_library over-Reach refl

read_errors_warn_example :
    ((on_recv_error false (wrapped "cantransport: receive") ≡ warns)
      ⊎ ((read_failed "i/o timeout" ≡ end_of_stream)
          × (on_recv_error false (wrapped "cantransport: receive") ≡ returns)))
    × (recv from_ctx timed_out fresh_conn ≡ some (recv_failed deadline_exceeded, fresh_conn))
    × (on_recv_error false deadline_exceeded ≡ goes_on)
unfolding socket_recv
read_errors_warn_example =
    read_errors_warn true (read_failed "i/o timeout") (wrapped "cantransport: receive") fresh_conn
      refl

-- An interface that keeps as many bits of an ID as its frame has.
abbrev cut_ids : WireFrame → WireFrame
cut_ids w = record w { id = w.id % 2 ^ id_bits w.extended }

short_id : (extended : Bool) (id : ℕ) → id < 2 ^ id_bits extended → id % 2 ^ id_bits extended ≡ id
short_id true id h = omega arith
short_id false id h = omega arith

cut_ids-same : (w : WireFrame) → IsCanFrame w → cut_ids w ≡ w
cut_ids-same w h = ap (λ (i : ℕ). record w { id = i }) (short_id w.extended w.id h.0)

wire_roundtrip_example :
    socket_recv true (frame_read (cut_ids (to_wire beat))) ≡ some (received beat)
wire_roundtrip_example = wire_roundtrip cut_ids cut_ids-same beat true (omega arith) (omega arith)

abbrev first_id : String
first_id = "canopen/1"

abbrev empty_factory : Factory
empty_factory = new_factory (λ _. new_receiver default_config false false)

pipelines_share_example :
    let s1 = (create_metrics_receiver first_id (some logging) empty_factory).1 in
    let s2 = create_all (for_logs "canopen/2" (some logging) ∷ []) s1 in
    let s3 = (create_logs_receiver first_id (some default_config) s2).1 in
    (p : ℕ) × (q : ℕ) × ((create_metrics_receiver first_id (some logging) empty_factory).0 ≡ some p)
    × ((create_logs_receiver first_id (some default_config) s2).0 ≡ some q)
    × ((p ≡ q) ↔ (first_id ≡ first_id))
    × ((s3.receiver p).metrics_consumer ≡ true)
    × ((s3.receiver q).logs_consumer ≡ true)
    × ((s3.receiver p).cfg ≡ (s1.receiver p).cfg)
pipelines_share_example =
    pipelines_share empty_factory first_id first_id logging default_config
      (for_logs "canopen/2" (some logging) ∷ []) (new_factory-Valid _)
