-- ===== src/RawPoller/Calm.antt =====
-- raw_poller.go: where no frame makes `handleFrame` panic.
use otelcol_receiver_canopen.Prelude.{
  ℕ, ◌^◌, ◌<◌, String, Bool, true, false, not, ◌||◌, Option, none, some, List, [], ◌∷◌,
  if◌then◌else◌, ◌==◌, nat_eq, All, arith,
}
use otelcol_receiver_canopen.Prelude.Int.{pos_part}
use otelcol_receiver_canopen.Prelude.Maps.{Map}
use otelcol_receiver_canopen.Codec.Types.{FloatOps, Value}
use otelcol_receiver_canopen.Codec.Decode.{Outcome, ok, err, panicked}
use otelcol_receiver_canopen.Codec.Calm.{IsCalm, decode-IsCalm}
use otelcol_receiver_canopen.Transport.{Frame}
use otelcol_receiver_canopen.Config.Types.{FieldConfig, RawMatchByte, RawTransactionConfig}
use otelcol_receiver_canopen.Config.Accepted.{AreInside}
use otelcol_receiver_canopen.Sniffer.Fields.{Builders, Ran, done, crashed, ◌>>=◌}
use otelcol_receiver_canopen.Sniffer.Calm.{IsDone}
use otelcol_receiver_canopen.RawPoller.Attempts.{
  Answer, answer_decoded, answer_fields, close_answer, emit_raw_transaction, Poller, Claim,
  unclaimed, taken, raw_transaction_matches, on_match, on_active, claim_frame,
}

-- A configured field whose end is an int.
abbrev pub IsShort : FieldConfig → Type 0
IsShort f = (pos_part f.bit_offset < 2 ^ 62) × (pos_part f.byte_len < 2 ^ 62)

-- A transaction that takes any response.
abbrev pub IsTakeable : RawTransactionConfig → Type 0
IsTakeable t = All IsShort t.response.fields × AreInside t.response.match

abbrev pub AwaitsTakeable : Option RawTransactionConfig → Type 0
AwaitsTakeable none = Unit
AwaitsTakeable (some t) = IsTakeable t

-- The claim is made or not, and what is awaited behind it is takeable.
abbrev pub ClaimsCalmly : Ran Claim → Type 0
ClaimsCalmly (done c) = AwaitsTakeable c.poller.active
ClaimsCalmly crashed = ⊥

matches-IsDone :
    (ms : List RawMatchByte) (payload : List ℕ)
    → AreInside ms
    → IsDone (raw_transaction_matches ms payload)
unfolding raw_transaction_matches
matches-IsDone [] payload h = tt
matches-IsDone (m ∷ ms) payload h = ground (arith, matches-IsDone ms payload)

module _ (ops : FloatOps) (b : Builders) where
  answer_decoded-IsDone :
      (attrs : Map String String) (field : FieldConfig) (o : Outcome Value) (a : Answer)
      (next : Answer → Ran Answer)
      → IsCalm o
      → ((a' : Answer) → IsDone (next a'))
      → IsDone (answer_decoded ops b attrs field o a >>= next)
  unfolding answer_decoded
  answer_decoded-IsDone attrs field (ok v) a next h k = k _
  answer_decoded-IsDone attrs field (err e) a next h k = k a
  answer_decoded-IsDone attrs field panicked a next h k = h

  answer_fields-IsDone :
      (attrs : Map String String) (fields : List FieldConfig) (payload : List ℕ) (a : Answer)
      → All IsShort fields
      → IsDone (answer_fields ops b attrs fields payload a)
  unfolding answer_fields
  answer_fields-IsDone attrs [] payload a h = tt
  answer_fields-IsDone attrs (field ∷ rest) payload a h =
      answer_decoded-IsDone attrs field _ a _
        (decode-IsCalm ops payload field.bit_offset field.byte_len field.type h.0.0 h.0.1)
        λ a'. answer_fields-IsDone attrs rest payload a' h.1

  closed_answer :
      (attrs : Map String String) (name : String) (r : Ran Answer)
      → IsDone r
      → ClaimsCalmly ((r >>= λ a. done (close_answer ops b attrs name a)) >>= λ es. done (taken es))
  closed_answer attrs name (done a) h = tt
  closed_answer attrs name crashed h = h

  emitted-ClaimsCalmly :
      (interface : String) (t : RawTransactionConfig) (f : Frame)
      → All IsShort t.response.fields
      → ClaimsCalmly (emit_raw_transaction ops b interface t f >>= λ es. done (taken es))
  unfolding emit_raw_transaction
  emitted-ClaimsCalmly interface t f h =
      closed_answer _ t.name _ (answer_fields-IsDone _ t.response.fields f.payload _ h)

  on_match-ClaimsCalmly :
      (interface : String) (p : Poller) (t : RawTransactionConfig) (f : Frame) (m : Ran Bool)
      → IsTakeable t
      → AwaitsTakeable p.active
      → IsDone m
      → ClaimsCalmly (on_match ops b interface p t f m)
  unfolding on_match
  on_match-ClaimsCalmly interface p t f (done true) h k d = emitted-ClaimsCalmly interface t f h.0
  on_match-ClaimsCalmly interface p t f (done false) h k d = k
  on_match-ClaimsCalmly interface p t f crashed h k d = d

  either_calmly :
      (c : Bool) (x y : Ran Claim)
      → ClaimsCalmly x
      → ClaimsCalmly y
      → ClaimsCalmly (if c then x else y)
  either_calmly true x y h k = h
  either_calmly false x y h k = k

  on_active-ClaimsCalmly :
      (interface : String) (o : Option RawTransactionConfig) (p : Poller) (f : Frame)
      → AwaitsTakeable o
      → AwaitsTakeable p.active
      → ClaimsCalmly (on_active ops b interface o p f)
  unfolding on_active
  on_active-ClaimsCalmly interface none p f h k = k
  on_active-ClaimsCalmly interface (some t) p f h k =
      either_calmly (f.extended || not (f.id == t.response.cob_id)) (done (unclaimed p)) _ k (
        on_match-ClaimsCalmly interface p t f _ h k (matches-IsDone t.response.match f.payload h.1))

  -- Whatever the frame, a poller that awaits a takeable response, or none, does not panic, and goes
  -- on like that.
  pub claim_frame-ClaimsCalmly :
      (interface : String) (p : Poller) (f : Frame)
      → AwaitsTakeable p.active
      → ClaimsCalmly (claim_frame ops b interface p f)
  unfolding claim_frame
  claim_frame-ClaimsCalmly interface p f h = on_active-ClaimsCalmly interface p.active p f h h
