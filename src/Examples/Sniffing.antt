-- ===== src/Examples/Sniffing.antt =====
-- Runs of internal/sniffer/sniffer.go.
use otelcol_receiver_canopen.Prelude.{replicate}
use otelcol_receiver_canopen.Publisher.{is_node, heartbeat_tick, publish}
use otelcol_receiver_canopen.Publisher.Heard.{read_back, simulated_node_logged}
use otelcol_receiver_canopen.Prelude.{◌≡◌, refl, true, false, List, [], ◌∷◌, map, nat_eq, arith}
use otelcol_receiver_canopen.Prelude.Maps.{lookup}
use otelcol_receiver_canopen.Prelude.Int.{pos}
use otelcol_receiver_canopen.Prelude.{
  ℕ, ◌==◌, nat_eq, All, Bool, true, false, if◌then◌else◌, Option, none, some,
}
use mathlib.Core.Path.{subst}
use otelcol_receiver_canopen.Codec.Types.{FloatOps, uint16}
use otelcol_receiver_canopen.Transport.{Frame}
use otelcol_receiver_canopen.Sniffer.Types.{Field, PdoDef, Sniffer, new_sniffer}
use otelcol_receiver_canopen.Sniffer.Fields.{Builders, done}
use otelcol_receiver_canopen.Sniffer.Calm.{IsSmall, Decodable}
use otelcol_receiver_canopen.Sniffer.Heartbeats.{
  Beat, heartbeat_frame, handle_frames, announced, remember, record_of, IsUncaptured,
  heartbeats_logged,
}

abbrev pub no_floats : FloatOps
no_floats = record {
  of_float32 = λ x. x;
  of_int64 = λ x. 0;
  of_uint64 = λ x. x;
  mul = λ x y. x;
  add = λ x y. x;
}

abbrev pub logs_only : Builders
logs_only = record { metrics = false; logs = true }

-- A sniffer that logs heartbeats and nothing else.
abbrev pub watcher : Sniffer
watcher =
    record (new_sniffer (record {
      interface_name = "can0";
      pdos = [];
      heartbeat_emit_metric = false;
      heartbeat_emit_log = true;
      emcy_emit_metric = true;
      emcy_emit_log = true;
      sdo_objects = [];
      sdo_channels = [];
      raw_emit_metric = false;
      raw_emit_log = false;
      raw_cob_ids = [];
      raw_messages = [];
    })) { sdo_by_cob_id = [] }

-- Nodes 5 and 6 boot, node 5 becomes operational and says so twice.
abbrev beats : List Beat
beats = (5, 0) ∷ (6, 0) ∷ (5, 5) ∷ (5, 5) ∷ []

changes : announced [] beats ≡ (5, 0) ∷ (6, 0) ∷ (5, 5) ∷ []
changes = refl

nothing_captured : IsUncaptured no_floats logs_only watcher
unfolding new_sniffer lookup
nothing_captured n = (refl, refl, refl)

heartbeats_logged_example :
    handle_frames no_floats logs_only (map heartbeat_frame beats) watcher
    ≡ done (
      map (record_of no_floats logs_only watcher) ((5, 0) ∷ (6, 0) ∷ (5, 5) ∷ []),
      record watcher { nmt_state = remember beats watcher.nmt_state },
    )
unfolding new_sniffer
heartbeats_logged_example =
    heartbeats_logged no_floats logs_only beats watcher
      (omega arith, (omega arith, (omega arith, (omega arith, tt)))) nothing_captured refl refl refl
      refl

abbrev emergency : Frame
emergency = record { id = 0x085; extended = false; payload = 0x10 ∷ 0x30 ∷ 4 ∷ [] }

-- One PDO of two unsigned words.
abbrev pub word_at : ℕ → Field
word_at offset = record {
  name = "word";
  bit_offset = pos offset;
  type = uint16;
  byte_len = pos 0;
  scale = 0;
  offset = 0;
  unit = "";
  emit_metric = false;
  emit_log = true;
  metric_sum = false;
  attributes = [];
}

abbrev words : PdoDef
words = record { name = "words"; cob_id = 0x181; fields = word_at 0 ∷ word_at 16 ∷ [] }

abbrev with_pdo : Sniffer
with_pdo = record watcher {
  cfg = record watcher.cfg { pdos = (0x181, words) ∷ [] };
  sdo_index = [];
}

abbrev fields_of : Option PdoDef → List Field
fields_of none = []
fields_of (some p) = p.fields

only_words :
    (c : Bool) (p : PdoDef) → (if c then some words else none) ≡ some p → All IsSmall p.fields
only_words true p e =
    subst (λ (o : Option PdoDef). All IsSmall (fields_of o)) e
      ((omega arith, omega arith), ((omega arith, omega arith), tt))
only_words false p e = absurd cc

with_pdo-Decodable : Decodable with_pdo
unfolding new_sniffer lookup
with_pdo-Decodable = record {
  of_pdos = λ id p e. only_words (0x181 == id) p e;
  of_objects = λ k o e. absurd cc;
  of_messages = λ id ms e. absurd cc;
}

abbrev word_frame : Frame
word_frame = record { id = 0x181; extended = false; payload = 1 ∷ 2 ∷ 3 ∷ [] }

simulated_node_logged_example :
    handle_frames no_floats logs_only
      (read_back (publish true 5 (replicate 3 heartbeat_tick)))
      watcher
    ≡ done (
      record_of no_floats logs_only watcher (5, 0)
          ∷ record_of no_floats logs_only watcher (5, 5)
          ∷ [],
      record watcher { nmt_state = remember ((5, 0) ∷ replicate 3 (5, 5)) watcher.nmt_state },
    )
unfolding is_node new_sniffer
simulated_node_logged_example =
    simulated_node_logged no_floats logs_only true 5 2 watcher refl nothing_captured refl refl refl
      refl
