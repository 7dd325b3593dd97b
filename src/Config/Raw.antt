-- ===== src/Config/Raw.antt =====
-- config.go: the checks of raw capture and raw transactions.
use otelcol_receiver_canopen.Prelude.{
  contains, ℕ, String, Bool, true, false, not, ◌&&◌, ◌||◌, List, [], ◌∷◌, ◌++◌, ltb, if◌then◌else◌,
  ◌==◌, nat_eq, string_key, length,
}
use otelcol_receiver_canopen.Prelude.Int.{ℤ, pos, ltb_ℤ}
use otelcol_receiver_canopen.Prelude.Text.{◌<>◌, hex, hex_upper}
use otelcol_receiver_canopen.Config.Checked.{
  Checked, pass, fail, ◌>>◌, require, each, empty_name, bad_cob_id, duplicate_cob_id,
  duplicate_name, bad_mode, bad_interval, bad_timeout, bad_backoff, bad_max_backoff,
  bad_max_retries, missing_max_retries, bad_byte_offset, no_match, bad_payload, duplicate_request,
  overlapping_match,
}
use otelcol_receiver_canopen.Config.Types.{
  Mode, RawMatchByte, RawMessageConfig, RawFrameConfig, RawResponseConfig, RawTransactionConfig,
  RawConfig, is_positive, is_negative, is_empty,
}
use otelcol_receiver_canopen.Config.Fields.{validate_field_list}
use otelcol_receiver_canopen.Config.Sdo.{is_once, negative_retries, is_none, int_eq}

unfoldable pub validate_match : RawMatchByte → Checked
validate_match m =
    require (not (is_negative m.byte_offset || ltb_ℤ (pos 7) m.byte_offset)) bad_byte_offset

abbrev pub standard_cob_id : ℕ → Bool
standard_cob_id id = not (id == 0 || ltb 0x7FF id)

unfoldable pub validate_message : RawMessageConfig → Checked
validate_message r = do
  require (not (r.name == "")) empty_name
  require (standard_cob_id r.cob_id) bad_cob_id
  each validate_match r.match
  validate_field_list r.fields

abbrev mode_of : Mode → ℤ → Mode
mode_of Mode.unset time = if is_positive time then Mode.interval else Mode.once
mode_of m time = m

unfoldable pub effective_mode : RawTransactionConfig → Mode
effective_mode t = mode_of t.mode t.interval_time

unfoldable pub validate_cob_ids : List ℕ → List ℕ → Checked
validate_cob_ids seen [] = pass
validate_cob_ids seen (id ∷ rest) = do
  require (not (ltb 0x7FF id)) bad_cob_id
  require (not (contains seen id)) duplicate_cob_id
  validate_cob_ids (id ∷ seen) rest

unfoldable pub validate_messages : List String → List RawMessageConfig → Checked
validate_messages seen [] = pass
validate_messages seen (r ∷ rest) = do
  validate_message r
  require (not (contains seen r.name)) duplicate_name
  validate_messages (r.name ∷ seen) rest

unfoldable pub validate_raw_frames : RawFrameConfig → Checked
validate_raw_frames r = do validate_cob_ids [] r.cob_ids; validate_messages [] r.messages

unfoldable pub validate_response : RawResponseConfig → Checked
validate_response r = do
  require (standard_cob_id r.cob_id) bad_cob_id
  require (not (is_empty r.match)) no_match
  each validate_match r.match
  validate_field_list r.fields

-- The `switch` on the effective mode.
unfoldable pub validate_mode : Mode → ℤ → Checked
validate_mode Mode.once time = require (not (is_positive time || is_negative time)) bad_interval
validate_mode Mode.interval time = require (is_positive time) bad_interval
validate_mode _ time = fail bad_mode

unfoldable pub validate_transaction : RawTransactionConfig → Checked
validate_transaction r = do
  require (not (r.name == "")) empty_name
  require (standard_cob_id r.cob_id) bad_cob_id
  require (not (is_empty r.payload || ltb 8 (length r.payload))) bad_payload
  require (is_positive r.timeout) bad_timeout
  require (not (is_negative r.interval_time)) bad_interval
  validate_mode (effective_mode r) r.interval_time
  require (not (is_negative r.backoff || is_negative r.max_backoff)) bad_backoff
  require (not (is_positive r.max_backoff && ltb_ℤ r.max_backoff r.backoff)) bad_max_backoff
  require (not (negative_retries r.max_retries)) bad_max_retries
  require (not (is_once (effective_mode r) && (r.retry && is_none r.max_retries)))
      missing_max_retries
  validate_response r.response

-- Two conditions that no byte meets together.
abbrev pub conflict : RawMatchByte → RawMatchByte → Bool
conflict l r = int_eq l.byte_offset r.byte_offset && not (l.value == r.value)

abbrev pub conflicts_with : RawMatchByte → List RawMatchByte → Bool
conflicts_with l [] = false
conflicts_with l (r ∷ rs) = conflict l r || conflicts_with l rs

unfoldable pub raw_matches_can_overlap : List RawMatchByte → List RawMatchByte → Bool
raw_matches_can_overlap [] right = true
raw_matches_can_overlap (l ∷ ls) right =
    not (conflicts_with l right) && raw_matches_can_overlap ls right

-- `fmt.Sprintf("0x%X:%X", ...)`
unfoldable pub request_key : RawTransactionConfig → String
request_key t = "0x" <> (hex 1 t.cob_id <> (":" <> hex_upper t.payload))

abbrev pub responses_overlap : RawTransactionConfig → RawTransactionConfig → Bool
responses_overlap previous current =
    previous.response.cob_id == current.response.cob_id
    && raw_matches_can_overlap previous.response.match current.response.match

-- The loop over the transactions; `previous` are those before, the oldest first.
unfoldable pub validate_transactions :
    List String → List String → List RawTransactionConfig → List RawTransactionConfig → Checked
validate_transactions names requests previous [] = pass
validate_transactions names requests previous (t ∷ rest) = do
  validate_transaction t
  require (not (contains names t.name)) duplicate_name
  require (not (contains requests (request_key t))) duplicate_request
  each (λ (p : RawTransactionConfig). require (not (responses_overlap p t)) overlapping_match)
      previous
  validate_transactions (t.name ∷ names) (request_key t ∷ requests) (previous ++ t ∷ []) rest

unfoldable pub validate_raw : RawConfig → Checked
validate_raw r = do validate_raw_frames r.sniff; validate_transactions [] [] [] r.transactions
