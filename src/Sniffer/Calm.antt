-- ===== src/Sniffer/Calm.antt =====
-- internal/sniffer/sniffer.go: what keeps the sniffer from a panic, and the handlers that do.
use otelcol_receiver_canopen.Prelude.{
  ℕ, ◌^◌, ◌<◌, ◌≡◌, refl, sym, ◌∙◌, ap, String, Bool, true, false, some, List, [], ◌∷◌,
  if◌then◌else◌, nat_eq, All, arith,
}
use otelcol_receiver_canopen.Prelude.Int.{pos_part, neg_part}
use otelcol_receiver_canopen.Prelude.Maps.{Map, lookup}
use otelcol_receiver_canopen.Codec.Types.{FloatOps, Value, Any}
use otelcol_receiver_canopen.Codec.Decode.{Outcome, ok, err, panicked}
use otelcol_receiver_canopen.Codec.Calm.{IsCalm, decode-IsCalm}
use otelcol_receiver_canopen.Transport.{Frame}
use otelcol_receiver_canopen.Emit.Types.{Emitted}
use otelcol_receiver_canopen.Sniffer.Types.{
  Field, PdoDef, SdoObjectDef, RawMatch, RawMessageDef, SdoKey, sdo_key, SnifferConfig, Sniffer,
}
use otelcol_receiver_canopen.Sniffer.Fields.{
  Builders, Ran, done, crashed, ◌>>=◌, all_hold, Gathered, gather_decoded, gather_fields,
  close_group, emit_fields,
}
use otelcol_receiver_canopen.Sniffer.Handlers.{
  Handled, heartbeat_state, handle_heartbeat, handle_emcy, handle_undecoded, leaving,
}

abbrev pub IsDone {ℓ} : {A : Type ℓ} → Ran A → Type 0
IsDone (done a) = Unit
IsDone crashed = ⊥

-- A field whose end is an int.
abbrev pub IsSmall : Field → Type 0
IsSmall f = (pos_part f.bit_offset < 2 ^ 62) × (pos_part f.byte_len < 2 ^ 62)

abbrev pub IsReadable : RawMessageDef → Type 0
IsReadable m = All IsSmall m.fields × All (λ (c : RawMatch). neg_part c.byte_offset ≡ 0) m.match

-- Everything that a frame can have decoded.
pub record Decodable (s : Sniffer) : Type 0 where
  pub of_pdos : (id : ℕ) (p : PdoDef) → lookup id s.cfg.pdos ≡ some p → All IsSmall p.fields
  pub of_objects :
      (k : SdoKey) (o : SdoObjectDef) → lookup k s.sdo_index ≡ some o → All IsSmall o.fields
  pub of_messages :
      (id : ℕ) (ms : List RawMessageDef)
      → lookup id s.cfg.raw_messages ≡ some ms
      → All IsReadable ms

pub still-Decodable :
    (s t : Sniffer) → t.cfg ≡ s.cfg → t.sdo_index ≡ s.sdo_index → Decodable s → Decodable t
still-Decodable s t c i d = record {
  of_pdos = λ id p e. d.of_pdos id p (ap (λ (u : SnifferConfig). lookup id u.pdos) (sym c) ∙ e);
  of_objects =
      λ k o e. d.of_objects k o (ap (λ (m : Map SdoKey SdoObjectDef). lookup k m) (sym i) ∙ e);
  of_messages = λ id ms e.
      d.of_messages id ms (ap (λ (u : SnifferConfig). lookup id u.raw_messages) (sym c) ∙ e);
}

-- The run is done and leaves what is decoded as it was.
abbrev pub Stays : Sniffer → Handled → Type 0
Stays s (done (es, s')) = (s'.cfg ≡ s.cfg) × (s'.sdo_index ≡ s.sdo_index)
Stays s crashed = ⊥

pub either-Stays :
    (s : Sniffer) (c : Bool) (x y : Handled) → Stays s x → Stays s y → Stays s (if c then x else y)
either-Stays s true x y h k = h
either-Stays s false x y h k = k

module _ (ops : FloatOps) (b : Builders) where
  module _ (attrs : Map String String) where
    gather_decoded-IsDone :
        (field : Field) (o : Outcome Value) (g : Gathered) (next : Gathered → Ran Gathered)
        → IsCalm o
        → ((g' : Gathered) → IsDone (next g'))
        → IsDone (gather_decoded ops b attrs field o g >>= next)
    unfolding gather_decoded
    gather_decoded-IsDone field (ok v) g next h k = k _
    gather_decoded-IsDone field (err e) g next h k = k g
    gather_decoded-IsDone field panicked g next h k = h

    gather_fields-IsDone :
        (fields : List Field) (payload : List ℕ) (g : Gathered)
        → All IsSmall fields
        → IsDone (gather_fields ops b attrs fields payload g)
    unfolding gather_fields
    gather_fields-IsDone [] payload g h = tt
    gather_fields-IsDone (field ∷ rest) payload g h =
        gather_decoded-IsDone field _ g _
          (decode-IsCalm ops payload field.bit_offset field.byte_len field.type h.0.0 h.0.1)
          λ g'. gather_fields-IsDone rest payload g' h.1

    close_run :
        (body : String) (r : Ran Gathered)
        → IsDone r
        → IsDone (r >>= λ g. done (close_group ops b attrs body g))
    close_run body (done g) h = tt
    close_run body crashed h = h

    pub emit_fields-IsDone :
        (fields : List Field) (payload : List ℕ) (context : Map String Any) (body : String)
        → All IsSmall fields
        → IsDone (emit_fields ops b attrs fields payload context body)
    unfolding emit_fields
    emit_fields-IsDone fields payload context body h =
        close_run body _ (gather_fields-IsDone fields payload _ h)

  pub leaving-Stays :
      (s : Sniffer) (r : Ran (List Emitted)) → IsDone r → Stays s (leaving ops b s r)
  leaving-Stays s (done es) h = (refl, refl)
  leaving-Stays s crashed h = h

  pub unchanged-Stays : (es : List Emitted) (s : Sniffer) → Stays s (done (es, s))
  unchanged-Stays es s = (refl, refl)

  pub heartbeat_state-Stays :
      (node_id state : ℕ) (s : Sniffer) → Stays s (done (heartbeat_state ops b node_id state s))
  unfolding heartbeat_state
  heartbeat_state-Stays node_id state s = (refl, refl)

  pub handle_heartbeat-Stays :
      (node_id : ℕ) (f : Frame) (s : Sniffer) → Stays s (handle_heartbeat ops b node_id f s)
  unfolding handle_heartbeat
  handle_heartbeat-Stays node_id f s = search (either-Stays, unchanged-Stays, heartbeat_state-Stays)

  pub handle_emcy-Stays :
      (node_id : ℕ) (f : Frame) (s : Sniffer) → Stays s (handle_emcy ops b node_id f s)
  unfolding handle_emcy
  handle_emcy-Stays node_id f s = search (either-Stays, unchanged-Stays)

  pub handle_undecoded-Stays : (f : Frame) (s : Sniffer) → Stays s (handle_undecoded ops b f s)
  unfolding handle_undecoded
  handle_undecoded-Stays f s = (refl, refl)

  pub all_hold-IsDone :
      (ms : List RawMatch) (payload : List ℕ)
      → All (λ (c : RawMatch). neg_part c.byte_offset ≡ 0) ms
      → IsDone (all_hold ms payload)
  unfolding all_hold
  all_hold-IsDone [] payload h = tt
  all_hold-IsDone (m ∷ ms) payload h = ground (arith, all_hold-IsDone ms payload)
