-- ===== src/Receiver/Decodables.antt =====
-- receiver.go: what the sniffer of an accepted configuration decodes.
use otelcol_receiver_canopen.Prelude.{
  ℕ, ◌≡◌, refl, ◌∙◌, sym, Bool, true, false, Option, none, some, List, [], ◌∷◌, ◌++◌, map,
  if◌then◌else◌, ◌==◌, nat_eq, All, Keyed,
}
use mathlib.Core.Path.{subst}
use otelcol_receiver_canopen.Prelude.Int.{neg_part}
use otelcol_receiver_canopen.Prelude.Maps.{Map, lookup, insert, lookup-insert}
use otelcol_receiver_canopen.Config.Types.{
  FieldConfig, PdoConfig, SdoObjectConfig, RawMatchByte, RawMessageConfig, RawTransactionConfig,
  Config,
}
use otelcol_receiver_canopen.Config.Accepted.{AreInside}
use otelcol_receiver_canopen.RawPoller.Calm.{IsShort}
use otelcol_receiver_canopen.Sniffer.Types.{
  PdoDef, SdoObjectDef, RawMatch, RawMessageDef, SdoKey, sdo_key, index_objects, add_object,
  object_key, new_sniffer,
}
use otelcol_receiver_canopen.Sniffer.Calm.{IsSmall, IsReadable, Decodable}
use otelcol_receiver_canopen.Receiver.Build.{
  build_fields, build_object, build_match, build_message, build_pdo, add_messages, messages_or_none,
  add_pdos, build_sniffer_config,
}

-- The fields that a configuration has decoded end at an int.
pub record FieldsShort (cfg : Config) : Type 0 where
  pub of_pdos : All (λ (p : PdoConfig). All IsShort p.fields) cfg.pdo
  pub of_sniffed : All (λ (o : SdoObjectConfig). All IsShort o.fields) cfg.sdo.sniff.objects
  pub of_polled : All (λ (o : SdoObjectConfig). All IsShort o.fields) cfg.sdo.poll.objects
  pub of_messages : All (λ (r : RawMessageConfig). All IsShort r.fields) cfg.raw.sniff.messages
  pub of_transactions :
      All (λ (t : RawTransactionConfig). All IsShort t.response.fields) cfg.raw.transactions

-- A predicate of every entry of a map.
abbrev Entries {ℓ κ μ} :
    {K : Type ℓ} ⦃e : Keyed K⦄ {V : Type κ} → (V → Type μ) → Map K V → Type (ℓ ⊔ κ ⊔ μ)
Entries {K = K} {V = V} P m = (k : K) (v : V) → lookup k m ≡ some v → P v

picked {ℓ κ} :
    {V : Type ℓ} (P : V → Type κ) (b : Bool) (v w : V) (o : Option V)
    → (if b then some v else o) ≡ some w
    → P v
    → (o ≡ some w → P w)
    → P w
picked P true v w o h k l = let same : v ≡ w = cc in subst P same k
picked P false v w o h k l = l h

insert-Entries {ℓ κ μ} :
    {K : Type ℓ} ⦃e : Keyed K⦄ {V : Type κ} (P : V → Type μ) (k : K) (v : V) (m : Map K V)
    → P v
    → Entries P m
    → Entries P (insert k v m)
insert-Entries P k v m h es j w found =
    picked P (k == j) v w (lookup j m) (sym (lookup-insert k j v m) ∙ found) h (es j w)

build_fields-IsSmall : (fs : List FieldConfig) → All IsShort fs → All IsSmall (build_fields fs)
unfolding build_fields
build_fields-IsSmall [] h = tt
build_fields-IsSmall (f ∷ fs) h = (h.0, build_fields-IsSmall fs h.1)

abbrev PdosSmall : Map ℕ PdoDef → Type 0
PdosSmall m = Entries (λ (p : PdoDef). All IsSmall p.fields) m

add_pdos-Entries :
    (pdos : List PdoConfig) (m : Map ℕ PdoDef)
    → All (λ (p : PdoConfig). All IsShort p.fields) pdos
    → PdosSmall m
    → PdosSmall (add_pdos pdos m)
unfolding add_pdos
add_pdos-Entries [] m h es = es
add_pdos-Entries (p ∷ rest) m h es = add_pdos-Entries rest (insert p.cob_id (build_pdo p) m) h.1 (
    insert-Entries (λ (q : PdoDef). All IsSmall q.fields) p.cob_id (build_pdo p) m
      (build_fields-IsSmall p.fields h.0) es)

abbrev ObjectsSmall : Map SdoKey SdoObjectDef → Type 0
ObjectsSmall m = Entries (λ (o : SdoObjectDef). All IsSmall o.fields) m

add_object-Entries :
    (m : Map SdoKey SdoObjectDef) (o : SdoObjectDef) (seen : Option SdoObjectDef)
    → All IsSmall o.fields
    → ObjectsSmall m
    → ObjectsSmall (add_object m o seen)
add_object-Entries m o none h es =
    insert-Entries (λ (d : SdoObjectDef). All IsSmall d.fields) (object_key o) o m h es
add_object-Entries m o (some first) h es = es

index_objects-Entries :
    (os : List SdoObjectDef) (m : Map SdoKey SdoObjectDef)
    → All (λ (o : SdoObjectDef). All IsSmall o.fields) os
    → ObjectsSmall m
    → ObjectsSmall (index_objects os m)
unfolding index_objects
index_objects-Entries [] m h es = es
index_objects-Entries (o ∷ rest) m h es =
    index_objects-Entries rest (add_object m o (lookup (object_key o) m)) h.1
      (add_object-Entries m o (lookup (object_key o) m) h.0 es)

built_objects :
    (os : List SdoObjectConfig)
    → All (λ (o : SdoObjectConfig). All IsShort o.fields) os
    → All (λ (o : SdoObjectDef). All IsSmall o.fields) (map build_object os)
built_objects [] h = tt
built_objects (o ∷ rest) h = (build_fields-IsSmall o.fields h.0, built_objects rest h.1)

both {ℓ κ} : {A : Type ℓ} (P : A → Type κ) (xs ys : List A) → All P xs → All P ys → All P (xs ++ ys)
both P [] ys h k = k
both P (x ∷ xs) ys h k = (h.0, both P xs ys h.1 k)

built_matches :
    (ms : List RawMatchByte)
    → AreInside ms
    → All (λ (c : RawMatch). neg_part c.byte_offset ≡ 0) (map build_match ms)
built_matches [] h = tt
built_matches (m ∷ rest) h = (h.0, built_matches rest h.1)

abbrev MessagesReadable : Map ℕ (List RawMessageDef) → Type 0
MessagesReadable m = Entries (λ (ms : List RawMessageDef). All IsReadable ms) m

listed-IsReadable :
    (o : Option (List RawMessageDef))
    → ((ms : List RawMessageDef) → o ≡ some ms → All IsReadable ms)
    → All IsReadable (messages_or_none o)
listed-IsReadable none h = tt
listed-IsReadable (some ms) h = h ms refl

add_messages-Entries :
    (rs : List RawMessageConfig) (m : Map ℕ (List RawMessageDef))
    → All (λ (r : RawMessageConfig). All IsShort r.fields) rs
    → All (λ (r : RawMessageConfig). AreInside r.match) rs
    → MessagesReadable m
    → MessagesReadable (add_messages rs m)
unfolding add_messages
add_messages-Entries [] m h k es = es
add_messages-Entries (r ∷ rest) m h k es =
    let readable : IsReadable (build_message r) =
      (build_fields-IsSmall r.fields h.0, built_matches r.match k.0) in
    add_messages-Entries rest _ h.1 k.1 (
      insert-Entries (λ (ms : List RawMessageDef). All IsReadable ms) r.cob_id
        (messages_or_none (lookup r.cob_id m) ++ build_message r ∷ []) m
        (both IsReadable (messages_or_none (lookup r.cob_id m)) (build_message r ∷ [])
          (listed-IsReadable (lookup r.cob_id m) (es r.cob_id)) (readable, tt))
        es)

-- The sniffer that is built for a configuration whose fields are short, and whose messages look at
-- no byte before the payload, decodes such fields only.
pub new_sniffer-Decodable :
    (cfg : Config)
    → FieldsShort cfg
    → All (λ (r : RawMessageConfig). AreInside r.match) cfg.raw.sniff.messages
    → Decodable (new_sniffer (build_sniffer_config cfg))
unfolding new_sniffer build_sniffer_config lookup
new_sniffer-Decodable cfg h k = record {
  of_pdos = add_pdos-Entries cfg.pdo [] h.of_pdos (λ id p e. absurd cc);
  of_objects =
      index_objects-Entries _ []
        (both _ (map build_object cfg.sdo.sniff.objects) (map build_object cfg.sdo.poll.objects)
          (built_objects cfg.sdo.sniff.objects h.of_sniffed)
          (built_objects cfg.sdo.poll.objects h.of_polled))
        (λ id p e. absurd cc);
  of_messages =
      add_messages-Entries cfg.raw.sniff.messages [] h.of_messages k (λ id p e. absurd cc);
}
