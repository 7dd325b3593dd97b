-- ===== src/Config/Enabled.antt =====
-- config.go: the outputs that an accepted configuration asks for.
use otelcol_receiver_canopen.Prelude.{
  ◌≡◌, refl, Bool, true, ◌||◌, List, [], ◌∷◌, All, arith, string_key,
}
use otelcol_receiver_canopen.Config.Checked.{Checked, pass, fail, each, >>-pass}
use otelcol_receiver_canopen.Config.Types.{
  Mode, FieldConfig, PdoConfig, SdoObjectConfig, RawMessageConfig, RawTransactionConfig, SdoConfig,
  SdoPollConfig, Config,
}
use otelcol_receiver_canopen.Config.Sdo.{
  is_once, is_interval, poll_checks, validate_poll, validate_sdo, validate_sniff, sdo_after_sniff,
  sdo_after_poll,
}
use otelcol_receiver_canopen.Config.Validate.{
  check_outputs, check_fields, output_checks, first_checks, last_checks, validate, after_sdo,
  after_first,
}

-- Outputs that are asked for are enabled.
abbrev pub IsEnabled : Config → Bool → Bool → Type 0
IsEnabled cfg metrics logs =
    (metrics ≡ true → cfg.metrics_enabled ≡ true) × (logs ≡ true → cfg.logs_enabled ≡ true)

abbrev pub AreEnabled : Config → List FieldConfig → Type 0
AreEnabled cfg fields = All (λ (s : FieldConfig). IsEnabled cfg s.metrics s.logs) fields

-- Every output of a configuration.
pub record OutputsEnabled (cfg : Config) : Type 0 where
  pub of_heartbeats : IsEnabled cfg cfg.heartbeat.metrics cfg.heartbeat.logs
  pub of_emergencies : IsEnabled cfg cfg.emcy.metrics cfg.emcy.logs
  pub of_raw_frames : IsEnabled cfg cfg.raw.sniff.metrics cfg.raw.sniff.logs
  pub of_pdos : All (λ (p : PdoConfig). AreEnabled cfg p.fields) cfg.pdo
  pub of_sniffed_objects :
      All (λ (o : SdoObjectConfig). AreEnabled cfg o.fields) cfg.sdo.sniff.objects
  pub of_polled_objects :
      All (λ (o : SdoObjectConfig). AreEnabled cfg o.fields) cfg.sdo.poll.objects
  pub of_messages : All (λ (r : RawMessageConfig). AreEnabled cfg r.fields) cfg.raw.sniff.messages
  pub of_transactions :
      All (λ (t : RawTransactionConfig). AreEnabled cfg t.response.fields) cfg.raw.transactions

pub each-All {ℓ κ} :
    {A : Type ℓ} (P : A → Type κ) (check : A → Checked) (xs : List A)
    → ((x : A) → check x ≡ pass → P x)
    → each check xs ≡ pass
    → All P xs
each-All P check [] h k = tt
each-All P check (x ∷ xs) h k =
    let (p, q) = >>-pass (check x) (each check xs) k in (h x p, each-All P check xs h q)

check_outputs-IsEnabled :
    (cfg : Config) (metrics logs : Bool)
    → check_outputs cfg metrics logs ≡ pass
    → IsEnabled cfg metrics logs
unfolding check_outputs
check_outputs-IsEnabled cfg metrics logs h = ground arith

check_fields-AreEnabled :
    (cfg : Config) (fields : List FieldConfig)
    → check_fields cfg fields ≡ pass
    → AreEnabled cfg fields
unfolding check_fields
check_fields-AreEnabled cfg fields h =
    each-All _ (λ (s : FieldConfig). check_outputs cfg s.metrics s.logs) fields
      (λ s. check_outputs-IsEnabled cfg s.metrics s.logs) h

output_checks-OutputsEnabled : (cfg : Config) → output_checks cfg ≡ pass → OutputsEnabled cfg
unfolding output_checks
output_checks-OutputsEnabled cfg h = record {
  of_heartbeats = check_outputs-IsEnabled cfg _ _ (ground arith);
  of_emergencies = check_outputs-IsEnabled cfg _ _ (ground arith);
  of_raw_frames = check_outputs-IsEnabled cfg _ _ (ground arith);
  of_pdos =
      each-All _ (λ (p : PdoConfig). check_fields cfg p.fields) cfg.pdo
        (λ p. check_fields-AreEnabled cfg p.fields) (ground arith);
  of_sniffed_objects =
      each-All _ (λ (o : SdoObjectConfig). check_fields cfg o.fields) cfg.sdo.sniff.objects
        (λ o. check_fields-AreEnabled cfg o.fields) (ground arith);
  of_polled_objects =
      each-All _ (λ (o : SdoObjectConfig). check_fields cfg o.fields) cfg.sdo.poll.objects
        (λ o. check_fields-AreEnabled cfg o.fields) (ground arith);
  of_messages =
      each-All _ (λ (r : RawMessageConfig). check_fields cfg r.fields) cfg.raw.sniff.messages
        (λ r. check_fields-AreEnabled cfg r.fields) (ground arith);
  of_transactions =
      each-All _ (λ (t : RawTransactionConfig). check_fields cfg t.response.fields)
        cfg.raw.transactions (λ t. check_fields-AreEnabled cfg t.response.fields) (ground arith);
}

-- A polling mode that the poller knows.
abbrev pub IsKnown : Mode → Type 0
IsKnown m = (is_once m || is_interval m) ≡ true

poll_checks-IsKnown : (p : SdoPollConfig) → poll_checks p ≡ pass → IsKnown p.mode
unfolding poll_checks
poll_checks-IsKnown p h = ground arith

sdo_after_poll-IsKnown :
    (s : SdoConfig) (c : Checked) (p : SdoPollConfig)
    → (c ≡ pass → IsKnown p.mode)
    → (sdo_after_poll s (c, p)).0 ≡ pass
    → IsKnown (sdo_after_poll s (c, p)).1.poll.mode
sdo_after_poll-IsKnown s pass p h k = h refl
sdo_after_poll-IsKnown s (fail e) p h k = cc

sdo_after_sniff-IsKnown :
    (s : SdoConfig) (c : Checked)
    → (sdo_after_sniff s c).0 ≡ pass
    → IsKnown (sdo_after_sniff s c).1.poll.mode
unfolding validate_poll
sdo_after_sniff-IsKnown s pass k = sdo_after_poll-IsKnown s _ _ (poll_checks-IsKnown _) k
sdo_after_sniff-IsKnown s (fail e) k = cc

after_sdo-accepted :
    (cfg : Config) (c : Checked) (s : SdoConfig)
    → (c ≡ pass → IsKnown s.poll.mode)
    → (after_sdo cfg (c, s)).0 ≡ pass
    → OutputsEnabled (after_sdo cfg (c, s)).1 × IsKnown (after_sdo cfg (c, s)).1.sdo.poll.mode
unfolding last_checks
after_sdo-accepted cfg pass s h k = (output_checks-OutputsEnabled _ (ground arith), h refl)
after_sdo-accepted cfg (fail e) s h k = cc

after_first-accepted :
    (cfg : Config) (c : Checked)
    → (after_first cfg c).0 ≡ pass
    → OutputsEnabled (after_first cfg c).1 × IsKnown (after_first cfg c).1.sdo.poll.mode
unfolding validate_sdo
after_first-accepted cfg pass k =
    after_sdo-accepted cfg _ _ (sdo_after_sniff-IsKnown cfg.sdo (validate_sniff cfg.sdo.sniff)) k
after_first-accepted cfg (fail e) k = cc

-- In an accepted configuration each output that a field or a kind of frame asks for is enabled, and
-- the SDO polling mode, filled in where it was empty, is one of the two that the poller knows.
pub accepted_outputs :
    (cfg : Config)
    → (validate cfg).0 ≡ pass
    → OutputsEnabled (validate cfg).1 × IsKnown (validate cfg).1.sdo.poll.mode
unfolding validate
accepted_outputs cfg k = after_first-accepted cfg (first_checks cfg) k
