-- ===== src/Config/Checked.antt =====
-- The `error` of a validation: `pass` is nil. Messages are reduced to their cause.
use otelcol_receiver_canopen.Prelude.{◌≡◌, refl, Bool, true, false, List, [], ◌∷◌}

pub data ConfigError : Type 0 where
  empty_interface bad_read_timeout nothing_enabled : ConfigError
  empty_name negative_bit_offset unsupported_type bad_byte_len unaligned_bytes : ConfigError
  metrics_of_bytes bad_metric_type bad_attribute no_fields duplicate_name : ConfigError
  bad_cob_id duplicate_cob_id bad_node_id duplicate_object : ConfigError
  bad_mode bad_interval bad_timeout bad_backoff bad_max_backoff : ConfigError
  bad_max_retries missing_max_retries ambiguous_channels conflicting_object : ConfigError
  bad_byte_offset no_match bad_payload duplicate_request overlapping_match : ConfigError
  metrics_disabled logs_disabled : ConfigError

pub data Checked : Type 0 where
  pass : Checked
  fail : ConfigError → Checked

-- `if err := a; err != nil { return err }`, then `b`.
infixl 5 ◌>>◌
abbrev pub ◌>>◌ : Checked → Checked → Checked
pass >> b = b
fail e >> b = fail e

abbrev pub require : Bool → ConfigError → Checked
require true e = pass
require false e = fail e

-- A loop that stops at the first error.
abbrev pub each {ℓ} : {A : Type ℓ} → (A → Checked) → List A → Checked
each check [] = pass
each check (x ∷ xs) = check x >> each check xs

-- What a passed sequence says of its parts.
pub require-pass : (b : Bool) (e : ConfigError) → require b e ≡ pass → b ≡ true
require-pass true e h = refl
require-pass false e h = cc

pub >>-pass : (a b : Checked) → (a >> b) ≡ pass → (a ≡ pass) × (b ≡ pass)
>>-pass pass b h = (refl, h)
>>-pass (fail e) b h = cc
