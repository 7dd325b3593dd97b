-- ===== src/RawPoller/Attempts.antt =====
-- raw_poller.go: the transaction that waits for its response, `handleFrame` and the record it emits.
use otelcol_receiver_canopen.Prelude.{
  ℕ, String, Bool, true, false, not, ◌&&◌, ◌||◌, Option, none, some, List, [], ◌∷◌, ◌++◌,
  if◌then◌else◌, ◌==◌, nat_eq, string_key, get_elem?,
}
use otelcol_receiver_canopen.Prelude.Int.{pos, negsuc}
use otelcol_receiver_canopen.Prelude.Maps.{Map, insert}
use otelcol_receiver_canopen.Prelude.Text.{◌<>◌, hex}
use otelcol_receiver_canopen.Codec.Types.{FloatOps, Value, Any, text, apply_scale, body_value}
use otelcol_receiver_canopen.Codec.Decode.{Outcome, ok, err, panicked, decode}
use otelcol_receiver_canopen.Transport.{Frame}
use otelcol_receiver_canopen.Emit.Types.{MetricKind, gauge, sum, info, Emitted, metric, log}
use otelcol_receiver_canopen.Config.Types.{
  MetricType, FieldConfig, RawMatchByte, RawTransactionConfig, is_empty,
}
use otelcol_receiver_canopen.Sniffer.Fields.{
  Builders, Ran, done, crashed, ◌>>=◌, byte_matches, copy_into,
}

-- One condition; a negative offset panics.
abbrev pub response_byte : RawMatchByte → List ℕ → Ran Bool
response_byte m payload = elim m.byte_offset [
  | pos i ↦ done (byte_matches (get_elem? payload i) m.value)
  | negsuc i ↦ crashed
]

-- The loop stops at the first condition that fails.
abbrev pub also : Ran Bool → Ran Bool → Ran Bool
also (done true) b = b
also (done false) b = done false
also crashed b = crashed

unfoldable pub raw_transaction_matches : List RawMatchByte → List ℕ → Ran Bool
raw_transaction_matches [] payload = done true
raw_transaction_matches (m ∷ ms) payload =
    also (response_byte m payload) (raw_transaction_matches ms payload)

-- What the loop over the fields has gathered.
pub record Answer : Type 0 where
  pub points : List Emitted
  pub body_map : Map String Any
  pub log_attrs : Map String Any

abbrev metric_kind : MetricType → MetricKind
metric_kind MetricType.sum = sum
metric_kind _ = gauge

abbrev sole_body : Map String Any → Option Any
sole_body ((k, v) ∷ []) = some v
sole_body _ = none

abbrev several_bodies : Map String Any → Option (Map String Any)
several_bodies (e ∷ []) = none
several_bodies m = some m

module _ (ops : FloatOps) (builders : Builders) (attrs : Map String String) where
  abbrev pub answer_point : FieldConfig → Value → Emitted
  answer_point field v = metric (record {
    resource_attrs = attrs;
    name = field.name;
    unit = field.unit;
    kind = metric_kind field.metric_type;
    value = apply_scale ops v field.scale field.offset;
    attributes = field.attributes;
  })

  unfoldable pub answer_metric : FieldConfig → Value → Answer → Answer
  answer_metric field v a =
      if field.metrics && builders.metrics
      then record a { points = a.points ++ answer_point field v ∷ [] }
      else a

  unfoldable pub answer_log : FieldConfig → Value → Answer → Answer
  answer_log field v a =
      if field.logs && builders.logs
      then record a {
        body_map = insert field.name (body_value ops v field.scale field.offset) a.body_map;
        log_attrs = copy_into field.attributes a.log_attrs;
      }
      else a

  unfoldable pub answer_decoded : FieldConfig → Outcome Value → Answer → Ran Answer
  answer_decoded field (ok v) a = done (answer_log field v (answer_metric field v a))
  answer_decoded field (err e) a = done a
  answer_decoded field panicked a = crashed

  unfoldable pub answer_fields : List FieldConfig → List ℕ → Answer → Ran Answer
  answer_fields [] payload a = done a
  answer_fields (field ∷ rest) payload a = do
    a' ← answer_decoded field (decode ops payload field.type field.bit_offset field.byte_len) a
    answer_fields rest payload a'

  abbrev pub answer_record : String → Answer → Emitted
  answer_record name a = log (record {
    resource_attrs = attrs;
    severity = info;
    body = "canopen raw transaction " <> (name <> " decoded");
    body_value = sole_body a.body_map;
    body_map = several_bodies a.body_map;
    attributes = a.log_attrs;
  })

  unfoldable pub close_answer : String → Answer → List Emitted
  close_answer name a =
      if is_empty a.body_map || not builders.logs
      then a.points
      else a.points ++ answer_record name a ∷ []

-- `emitRawTransaction`; the interface's name is that of the configuration.
unfoldable pub emit_raw_transaction :
    FloatOps → Builders → String → RawTransactionConfig → Frame → Ran (List Emitted)
emit_raw_transaction ops builders interface t f =
    let attrs : Map String String =
      insert "canopen.cob_id" ("0x" <> hex 3 f.id) (("canopen.interface", interface) ∷ []) in
    let start : Answer = record {
      points = [];
      body_map = [];
      log_attrs = ("canopen.raw.transaction", text t.name) ∷ [];
    } in
    do
      a ← answer_fields ops builders attrs t.response.fields f.payload start
      done (close_answer ops builders attrs t.name a)

-- The transaction whose response is awaited, and the one place of its `result` channel.
pub record Poller : Type 0 where
  pub active : Option RawTransactionConfig
  pub answered : Bool

pub record Claim : Type 0 where
  pub claimed : Bool
  pub emitted : List Emitted
  pub poller : Poller

abbrev pub unclaimed : Poller → Claim
unclaimed p = record { claimed = false; emitted = []; poller = p }

-- A response is taken once: nothing is awaited behind it.
abbrev pub taken : List Emitted → Claim
taken es = record {
  claimed = true;
  emitted = es;
  poller = record { active = none; answered = true };
}

module _ (ops : FloatOps) (builders : Builders) (interface : String) where
  unfoldable pub on_match : Poller → RawTransactionConfig → Frame → Ran Bool → Ran Claim
  on_match p t f (done true) =
      emit_raw_transaction ops builders interface t f >>= λ es. done (taken es)
  on_match p t f (done false) = done (unclaimed p)
  on_match p t f crashed = crashed

  unfoldable pub on_active : Option RawTransactionConfig → Poller → Frame → Ran Claim
  on_active none p f = done (unclaimed p)
  on_active (some t) p f =
      if f.extended || not (f.id == t.response.cob_id)
      then done (unclaimed p)
      else on_match p t f (raw_transaction_matches t.response.match f.payload)

  -- `handleFrame`
  unfoldable pub claim_frame : Poller → Frame → Ran Claim
  claim_frame p f = on_active p.active p f
