-- ===== src/Config/Accepted.antt =====
-- config.go: what an accepted configuration says of its raw section and its PDOs.
use otelcol_receiver_canopen.Prelude.{◌≡◌, List, [], ◌∷◌, ◌++◌, All, arith, String}
use otelcol_receiver_canopen.Prelude.Int.{neg_part}
use otelcol_receiver_canopen.Config.Checked.{Checked, pass, fail, each}
use otelcol_receiver_canopen.Config.Types.{
  RawMatchByte, RawMessageConfig, RawTransactionConfig, RawConfig, SdoConfig, Config,
}
use otelcol_receiver_canopen.Config.Enabled.{each-All}
use otelcol_receiver_canopen.Config.Fields.{validate_pdos}
use otelcol_receiver_canopen.Config.Sdo.{validate_sdo}
use otelcol_receiver_canopen.Config.Raw.{
  validate_match, validate_message, validate_messages, validate_raw_frames, validate_response,
  validate_transaction, validate_transactions, validate_raw, request_key,
}
use otelcol_receiver_canopen.Config.Validate.{
  first_checks, last_checks, validate, after_sdo, after_first,
}

after_sdo_last :
    (cfg : Config) (c : Checked) (s : SdoConfig)
    → (after_sdo cfg (c, s)).0 ≡ pass
    → last_checks (after_sdo cfg (c, s)).1 ≡ pass
after_sdo_last cfg pass s h = h
after_sdo_last cfg (fail e) s h = absurd cc

after_first_last :
    (cfg : Config) (c : Checked)
    → (after_first cfg c).0 ≡ pass
    → last_checks (after_first cfg c).1 ≡ pass
after_first_last cfg pass h = after_sdo_last cfg (validate_sdo cfg.sdo).0 (validate_sdo cfg.sdo).1 h
after_first_last cfg (fail e) h = absurd cc

last_checks_parts :
    (cfg : Config)
    → last_checks cfg ≡ pass
    → (validate_raw cfg.raw ≡ pass) × (validate_pdos cfg.pdo ≡ pass)
unfolding last_checks
last_checks_parts cfg h = ground arith

-- The raw section and the PDOs have passed as they are in the configuration that is accepted.
pub accepted_parts :
    (cfg : Config)
    → (validate cfg).0 ≡ pass
    → (validate_raw (validate cfg).1.raw ≡ pass) × (validate_pdos (validate cfg).1.pdo ≡ pass)
unfolding validate
accepted_parts cfg h = last_checks_parts _ (after_first_last cfg (first_checks cfg) h)

-- Conditions on bytes that stand at no negative offset.
abbrev pub AreInside : List RawMatchByte → Type 0
AreInside ms = All (λ (m : RawMatchByte). neg_part m.byte_offset ≡ 0) ms

validate_match_inside : (m : RawMatchByte) → validate_match m ≡ pass → neg_part m.byte_offset ≡ 0
unfolding validate_match
validate_match_inside m h = ground arith

matches-AreInside : (ms : List RawMatchByte) → each validate_match ms ≡ pass → AreInside ms
matches-AreInside ms h =
    each-All (λ (m : RawMatchByte). neg_part m.byte_offset ≡ 0) validate_match ms
      validate_match_inside h

messages-AreInside :
    (names : List String) (rs : List RawMessageConfig)
    → validate_messages names rs ≡ pass
    → All (λ (r : RawMessageConfig). AreInside r.match) rs
unfolding validate_messages validate_message
messages-AreInside names [] h = tt
messages-AreInside names (r ∷ rs) h = (
  matches-AreInside r.match (ground arith),
  messages-AreInside (r.name ∷ names) rs (ground arith),
)

transactions-AreInside :
    (names requests : List String) (previous ts : List RawTransactionConfig)
    → validate_transactions names requests previous ts ≡ pass
    → All (λ (t : RawTransactionConfig). AreInside t.response.match) ts
unfolding validate_transactions validate_transaction validate_response
transactions-AreInside names requests previous [] h = tt
transactions-AreInside names requests previous (t ∷ ts) h = (
  matches-AreInside t.response.match (ground arith),
  transactions-AreInside (t.name ∷ names) (request_key t ∷ requests) (previous ++ t ∷ []) ts
      (ground arith),
)

-- The messages and the responses of an accepted raw section look at no byte before the payload.
pub raw-AreInside :
    (raw : RawConfig)
    → validate_raw raw ≡ pass
    → All (λ (r : RawMessageConfig). AreInside r.match) raw.sniff.messages
      × All (λ (t : RawTransactionConfig). AreInside t.response.match) raw.transactions
unfolding validate_raw validate_raw_frames
raw-AreInside raw h = (
  messages-AreInside [] raw.sniff.messages (ground arith),
  transactions-AreInside [] [] [] raw.transactions (ground arith),
)
