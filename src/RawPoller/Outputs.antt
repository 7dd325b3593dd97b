-- ===== src/RawPoller/Outputs.antt =====
-- raw_poller.go: what a claimed response can emit.
use otelcol_receiver_canopen.Prelude.{
  ℕ, String, Bool, true, false, not, ◌||◌, Option, none, some, List, [], ◌∷◌, if◌then◌else◌, ◌==◌,
  nat_eq, All, arith,
}
use otelcol_receiver_canopen.Prelude.Maps.{Map}
use otelcol_receiver_canopen.Codec.Types.{FloatOps, Value}
use otelcol_receiver_canopen.Codec.Decode.{Outcome, ok, err, panicked, decode}
use otelcol_receiver_canopen.Transport.{Frame}
use otelcol_receiver_canopen.Emit.Types.{Emitted}
use otelcol_receiver_canopen.Config.Types.{FieldConfig, RawTransactionConfig}
use otelcol_receiver_canopen.Sniffer.Fields.{Builders, Ran, done, crashed, ◌>>=◌}
use otelcol_receiver_canopen.Sniffer.Allowed.{IsAllowed, All-append}
use otelcol_receiver_canopen.RawPoller.Attempts.{
  Answer, answer_metric, answer_log, answer_decoded, answer_fields, close_answer, answer_point,
  answer_record, emit_raw_transaction, Poller, Claim, taken, raw_transaction_matches, on_match,
  on_active, claim_frame,
}

abbrev Points : Builders → Ran Answer → Type 0
Points b (done a) = All (IsAllowed b) a.points
Points b crashed = Unit

abbrev Outputs : Builders → Ran (List Emitted) → Type 0
Outputs b (done es) = All (IsAllowed b) es
Outputs b crashed = Unit

-- What a claim emits is allowed by the builders.
abbrev pub Claims : Builders → Ran Claim → Type 0
Claims b (done c) = All (IsAllowed b) c.emitted
Claims b crashed = Unit

module _ (ops : FloatOps) (b : Builders) (attrs : Map String String) where
  answered_points :
      (field : FieldConfig) (v : Value) (a : Answer)
      → All (IsAllowed b) a.points
      → All
          (IsAllowed b)
          (answer_log ops b attrs field v (answer_metric ops b attrs field v a)).points
  unfolding answer_log answer_metric
  answered_points field v a h =
      ground (arith, All-append b a.points (answer_point ops b attrs field v ∷ []))

  answer_decoded-Points :
      (field : FieldConfig) (o : Outcome Value) (a : Answer) (next : Answer → Ran Answer)
      → All (IsAllowed b) a.points
      → ((a' : Answer) → All (IsAllowed b) a'.points → Points b (next a'))
      → Points b (answer_decoded ops b attrs field o a >>= next)
  unfolding answer_decoded
  answer_decoded-Points field (ok v) a next h k = k _ (answered_points field v a h)
  answer_decoded-Points field (err e) a next h k = k a h
  answer_decoded-Points field panicked a next h k = tt

  answer_fields-Points :
      (fields : List FieldConfig) (payload : List ℕ) (a : Answer)
      → All (IsAllowed b) a.points
      → Points b (answer_fields ops b attrs fields payload a)
  unfolding answer_fields
  answer_fields-Points [] payload a h = h
  answer_fields-Points (field ∷ rest) payload a h =
      answer_decoded-Points field (decode ops payload field.type field.bit_offset field.byte_len) a
        _ h λ a' h'. answer_fields-Points rest payload a' h'

  close_answer-All :
      (name : String) (a : Answer)
      → All (IsAllowed b) a.points
      → All (IsAllowed b) (close_answer ops b attrs name a)
  unfolding close_answer
  close_answer-All name a h =
      ground (arith, All-append b a.points (answer_record ops b attrs name a ∷ []))

  close_run :
      (name : String) (r : Ran Answer)
      → Points b r
      → Outputs b (r >>= λ a. done (close_answer ops b attrs name a))
  close_run name (done a) h = close_answer-All name a h
  close_run name crashed h = tt

module _ (ops : FloatOps) (b : Builders) (interface : String) where
  emit_raw_transaction-Outputs :
      (t : RawTransactionConfig) (f : Frame) → Outputs b (emit_raw_transaction ops b interface t f)
  unfolding emit_raw_transaction
  emit_raw_transaction-Outputs t f =
      close_run ops b _ t.name _ (answer_fields-Points ops b _ t.response.fields f.payload _ tt)

  taken_run : (r : Ran (List Emitted)) → Outputs b r → Claims b (r >>= λ es. done (taken es))
  taken_run (done es) h = h
  taken_run crashed h = tt

  on_match-Claims :
      (p : Poller) (t : RawTransactionConfig) (f : Frame) (m : Ran Bool)
      → Claims b (on_match ops b interface p t f m)
  unfolding on_match
  on_match-Claims p t f (done true) = taken_run _ (emit_raw_transaction-Outputs t f)
  on_match-Claims p t f (done false) = tt
  on_match-Claims p t f crashed = tt

  either-Claims :
      (t : Bool) (x y : Ran Claim) → Claims b x → Claims b y → Claims b (if t then x else y)
  either-Claims true x y h k = h
  either-Claims false x y h k = k

  on_active-Claims :
      (t : Option RawTransactionConfig) (p : Poller) (f : Frame)
      → Claims b (on_active ops b interface t p f)
  unfolding on_active
  on_active-Claims none p f = tt
  on_active-Claims (some t) p f =
      either-Claims (f.extended || not (f.id == t.response.cob_id)) _ _ tt
        (on_match-Claims p t f (raw_transaction_matches t.response.match f.payload))

  pub claim_frame-Claims : (p : Poller) (f : Frame) → Claims b (claim_frame ops b interface p f)
  unfolding claim_frame
  claim_frame-Claims p f = on_active-Claims p.active p f
