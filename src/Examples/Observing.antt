-- ===== src/Examples/Observing.antt =====
-- Runs of internal/sdoobserver/observer.go.
use otelcol_receiver_canopen.Prelude.{ℕ, ◌≡◌, refl, true, List, [], ◌∷◌, arith}
use otelcol_receiver_canopen.SdoObserver.Observe.{abort_event, emitted, new, forget}
use otelcol_receiver_canopen.SdoObserver.Channels.{
  Arrival, answers, answers_on, on_channel, channel_independence,
}
use otelcol_receiver_canopen.SdoObserver.Sender.{
  Object, Segment, Cut, download_dialogue, upload_dialogue, watch, object_frame, from_client,
  from_server,
}
use otelcol_receiver_canopen.SdoObserver.Reports.{downloaded, uploaded}
use otelcol_receiver_canopen.SdoObserver.Transfers.{download_reconstructed, upload_reconstructed}
use otelcol_receiver_canopen.SdoObserver.Expedited.{
  expedited_upload_reconstructed, expedited_download_reported,
}

abbrev device_name : Object
device_name = record { index = 0x1008; sub_index = 0 }

abbrev nine_bytes : Cut
nine_bytes = record {
  full = (1 ∷ 2 ∷ 3 ∷ 4 ∷ 5 ∷ 6 ∷ 7 ∷ []) ∷ [];
  last = record { chunk = 8 ∷ 9 ∷ []; pad = 0 ∷ 0 ∷ 0 ∷ 0 ∷ 0 ∷ [] };
}

abbrev size_of_nine : List ℕ
size_of_nine = 9 ∷ 0 ∷ 0 ∷ 0 ∷ []

abbrev two_bytes : Segment
two_bytes = record { chunk = 0xE8 ∷ 0x03 ∷ []; pad = 0 ∷ 0 ∷ [] }

download_reconstructed_example :
    watch (download_dialogue 5 5 device_name true size_of_nine nine_bytes) new ≡ (
      emitted (downloaded 5 device_name (1 ∷ 2 ∷ 3 ∷ 4 ∷ 5 ∷ 6 ∷ 7 ∷ 8 ∷ 9 ∷ [])) ∷ [],
      forget 5 new,
    )
download_reconstructed_example =
    download_reconstructed 5 5 device_name true size_of_nine nine_bytes new refl (omega arith)

upload_reconstructed_example :
    watch (upload_dialogue 5 5 device_name true size_of_nine nine_bytes) new
    ≡ (emitted (uploaded 5 device_name (1 ∷ 2 ∷ 3 ∷ 4 ∷ 5 ∷ 6 ∷ 7 ∷ 8 ∷ 9 ∷ [])) ∷ [], forget 5 new)
upload_reconstructed_example =
    upload_reconstructed 5 5 device_name true size_of_nine nine_bytes new refl (omega arith)

expedited_upload_reconstructed_example :
    watch
      (from_client 5 5 (object_frame 0x40 device_name (0 ∷ 0 ∷ 0 ∷ 0 ∷ []))
        ∷ from_server 5 5 (object_frame 0x4B device_name (0xE8 ∷ 0x03 ∷ 0 ∷ 0 ∷ []))
        ∷ [])
      new
    ≡ (emitted (uploaded 5 device_name (0xE8 ∷ 0x03 ∷ [])) ∷ [], forget 5 new)
expedited_upload_reconstructed_example =
    expedited_upload_reconstructed 5 5 device_name two_bytes new (omega arith)

abbrev written : Arrival
written = from_client 5 5 (object_frame 0x2B device_name (0xE8 ∷ 0x03 ∷ 0 ∷ 0 ∷ []))

-- "the object cannot be written"
abbrev read_only : List ℕ
read_only = 0x02 ∷ 0 ∷ 0x01 ∷ 0x06 ∷ []

expedited_download_reported_example :
    (watch (written ∷ from_server 5 5 (object_frame 0x60 device_name (0 ∷ 0 ∷ 0 ∷ 0 ∷ [])) ∷ []) new
      ≡ (emitted (downloaded 5 device_name (0xE8 ∷ 0x03 ∷ [])) ∷ [], new))
    × (watch (written ∷ from_server 5 5 (object_frame 0x80 device_name read_only) ∷ []) new ≡ (
      emitted (downloaded 5 device_name (0xE8 ∷ 0x03 ∷ []))
          ∷ emitted (abort_event 5 (object_frame 0x80 device_name read_only))
          ∷ [],
      forget 5 new,
    ))
expedited_download_reported_example =
    expedited_download_reported 5 5 device_name two_bytes read_only new (omega arith) refl

abbrev mixed : List Arrival
mixed =
    from_client 5 5 (object_frame 0x40 device_name (0 ∷ 0 ∷ 0 ∷ 0 ∷ []))
    ∷ from_client 6 6 (object_frame 0x40 device_name (0 ∷ 0 ∷ 0 ∷ 0 ∷ []))
    ∷ from_server 5 5 (object_frame 0x4B device_name (0xE8 ∷ 0x03 ∷ 0 ∷ 0 ∷ []))
    ∷ []

channel_independence_example : answers_on 5 (answers mixed new) ≡ answers (on_channel 5 mixed) new
channel_independence_example = channel_independence 5 mixed new
