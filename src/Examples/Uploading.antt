-- ===== src/Examples/Uploading.antt =====
-- An upload that internal/sniffer/sniffer.go sniffs on a configured SDO channel.
use otelcol_receiver_canopen.Prelude.{◌≡◌, refl, [], ◌∷◌, map, nat_eq, true, arith}
use otelcol_receiver_canopen.Prelude.Maps.{lookup}
use otelcol_receiver_canopen.SdoObserver.Observe.{forget}
use otelcol_receiver_canopen.SdoObserver.Sender.{Object, Cut, whole, upload_dialogue}
use otelcol_receiver_canopen.SdoObserver.Reports.{uploaded}
use otelcol_receiver_canopen.Sniffer.Types.{
  SdoObjectDef, ChannelEntry, Sniffer, sdo_key, new_sniffer,
}
use otelcol_receiver_canopen.Sniffer.Handlers.{leaving}
use otelcol_receiver_canopen.Sniffer.Heartbeats.{handle_frames}
use otelcol_receiver_canopen.Sniffer.Channel.{IsChannel, frame_on, fields_of, upload_decoded}
use otelcol_receiver_canopen.Examples.Sniffing.{no_floats, logs_only, watcher, word_at}

abbrev device_name : Object
device_name = record { index = 0x1008; sub_index = 0 }

abbrev nine_bytes : Cut
nine_bytes = record {
  full = (1 ∷ 2 ∷ 3 ∷ 4 ∷ 5 ∷ 6 ∷ 7 ∷ []) ∷ [];
  last = record { chunk = 8 ∷ 9 ∷ []; pad = 0 ∷ 0 ∷ 0 ∷ 0 ∷ 0 ∷ [] };
}

abbrev object : SdoObjectDef
object = record { node_id = 5; index = 0x1008; sub_index = 0; fields = word_at 0 ∷ word_at 56 ∷ [] }

abbrev channel : ChannelEntry
channel = record { node_id = 5; key = 0x640; client_cob_id = 0x640 }

-- Node 5 has its SDO channel on 0x640 and 0x5C0.
abbrev listener : Sniffer
listener = record watcher {
  sdo_by_cob_id = (0x640, channel) ∷ (0x5C0, channel) ∷ [];
  sdo_index = ((5, 0x1008, 0), object) ∷ [];
}

listener-IsChannel : IsChannel listener channel 0x5C0
unfolding new_sniffer lookup
listener-IsChannel = ((refl, refl, refl), (refl, refl, refl), omega arith)

upload_decoded_example :
    handle_frames no_floats logs_only
      (map
        (frame_on channel 0x5C0)
        (upload_dialogue 0x640 5 device_name true (9 ∷ 0 ∷ 0 ∷ 0 ∷ []) nine_bytes))
      listener
    ≡ leaving no_floats logs_only
        (record listener { sdo = forget 0x640 listener.sdo })
        (fields_of no_floats logs_only listener (uploaded 5 device_name (whole nine_bytes)) object)
unfolding lookup
upload_decoded_example =
    upload_decoded no_floats logs_only listener channel 0x5C0 listener-IsChannel device_name true
      (9 ∷ 0 ∷ 0 ∷ 0 ∷ []) nine_bytes object refl ((refl, tt), refl) refl
