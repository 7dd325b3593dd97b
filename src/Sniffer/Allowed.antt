-- ===== src/Sniffer/Allowed.antt =====
-- internal/sniffer/sniffer.go: what the emission of fields can add, by the builders that are there.
use otelcol_receiver_canopen.Prelude.{
  ℕ, ◌≡◌, refl, String, Bool, true, false, List, [], ◌∷◌, ◌++◌, if◌then◌else◌, nat_eq, All, arith,
}
use otelcol_receiver_canopen.Prelude.Maps.{Map}
use otelcol_receiver_canopen.Codec.Types.{FloatOps, Value, Any}
use otelcol_receiver_canopen.Codec.Decode.{Outcome, ok, err, panicked, decode}
use otelcol_receiver_canopen.Emit.Types.{MetricPoint, LogRecord, Emitted, metric, log}
use otelcol_receiver_canopen.Sniffer.Types.{Field, SnifferConfig}
use otelcol_receiver_canopen.Sniffer.Fields.{
  Builders, Ran, done, crashed, ◌>>=◌, field_point, Gathered, gather_metric, gather_log,
  gather_decoded, gather_fields, close_group, group_record, emit_fields,
}
use otelcol_receiver_canopen.Sniffer.Handlers.{Handled, when}

abbrev pub IsAllowed : Builders → Emitted → Type 0
IsAllowed b (metric p) = b.metrics ≡ true
IsAllowed b (log r) = b.logs ≡ true

-- Only allowed outputs, and the configuration is kept, unless the run panics.
abbrev pub Keeps : Builders → SnifferConfig → Handled → Type 0
Keeps b c (done (es, s)) = All (IsAllowed b) es × (s.cfg ≡ c)
Keeps b c crashed = Unit

abbrev pub Emits : Builders → Ran (List Emitted) → Type 0
Emits b (done es) = All (IsAllowed b) es
Emits b crashed = Unit

abbrev IsGathered : Builders → Gathered → Type 0
IsGathered b g = All (IsAllowed b) g.points × (g.have_log ≡ true → b.logs ≡ true)

abbrev Gathers : Builders → Ran Gathered → Type 0
Gathers b (done g) = IsGathered b g
Gathers b crashed = Unit

pub All-append :
    (b : Builders) (xs ys : List Emitted)
    → All (IsAllowed b) xs
    → All (IsAllowed b) ys
    → All (IsAllowed b) (xs ++ ys)
All-append b [] ys h k = k
All-append b (x ∷ xs) ys h k = (h.0, All-append b xs ys h.1 k)

All-when :
    (b : Builders) (t : Bool) (e : Emitted)
    → (t ≡ true → IsAllowed b e)
    → All (IsAllowed b) (when t e)
All-when b true e h = (h refl, tt)
All-when b false e h = tt

pub two_outputs :
    (b : Builders) (t u : Bool) (p : MetricPoint) (r : LogRecord)
    → (t ≡ true → b.metrics ≡ true)
    → (u ≡ true → b.logs ≡ true)
    → All (IsAllowed b) (when t (metric p) ++ when u (log r))
two_outputs b t u p r h k = All-append b _ _ (All-when b t (metric p) h) (All-when b u (log r) k)

pub either-Keeps :
    (b : Builders) (c : SnifferConfig) (t : Bool) (x y : Handled)
    → Keeps b c x
    → Keeps b c y
    → Keeps b c (if t then x else y)
either-Keeps b c true x y h k = h
either-Keeps b c false x y h k = k

module _ (ops : FloatOps) (b : Builders) (attrs : Map String String) where
  gather_metric-IsGathered :
      (field : Field) (v : Value) (g : Gathered)
      → IsGathered b g
      → IsGathered b (gather_metric ops b attrs field v g)
  unfolding gather_metric
  gather_metric-IsGathered field v g h =
      ground (arith, All-append b g.points (field_point ops b attrs field v ∷ []))

  gather_log-IsGathered :
      (field : Field) (v : Value) (g : Gathered)
      → IsGathered b g
      → IsGathered b (gather_log ops b attrs field v g)
  unfolding gather_log
  gather_log-IsGathered field v g h = ground arith

  -- Going on with the fields after one that has been decoded, or not.
  gather_decoded-Gathers :
      (field : Field) (o : Outcome Value) (g : Gathered) (next : Gathered → Ran Gathered)
      → IsGathered b g
      → ((g' : Gathered) → IsGathered b g' → Gathers b (next g'))
      → Gathers b (gather_decoded ops b attrs field o g >>= next)
  unfolding gather_decoded
  gather_decoded-Gathers field (ok v) g next h k =
      k _ (gather_log-IsGathered field v _ (gather_metric-IsGathered field v g h))
  gather_decoded-Gathers field (err e) g next h k = k g h
  gather_decoded-Gathers field panicked g next h k = tt

  gather_fields-Gathers :
      (fields : List Field) (payload : List ℕ) (g : Gathered)
      → IsGathered b g
      → Gathers b (gather_fields ops b attrs fields payload g)
  unfolding gather_fields
  gather_fields-Gathers [] payload g h = h
  gather_fields-Gathers (field ∷ rest) payload g h =
      gather_decoded-Gathers field (decode ops payload field.type field.bit_offset field.byte_len) g
        _ h λ g' h'. gather_fields-Gathers rest payload g' h'

  close_group-All :
      (body : String) (g : Gathered)
      → IsGathered b g
      → All (IsAllowed b) (close_group ops b attrs body g)
  unfolding close_group
  close_group-All body g h =
      ground (arith, All-append b g.points (group_record ops b attrs body g ∷ []))

  close_run :
      (body : String) (r : Ran Gathered)
      → Gathers b r
      → Emits b (r >>= λ g. done (close_group ops b attrs body g))
  close_run body (done g) h = close_group-All body g h
  close_run body crashed h = tt

  pub emit_fields-Emits :
      (fields : List Field) (payload : List ℕ) (context : Map String Any) (body : String)
      → Emits b (emit_fields ops b attrs fields payload context body)
  unfolding emit_fields
  emit_fields-Emits fields payload context body =
      close_run body _ (gather_fields-Gathers fields payload _ (tt, λ e. absurd cc))
