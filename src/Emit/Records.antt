-- ===== src/Emit/Records.antt =====
-- internal/emit/logs.go: the records of each resource.
use otelcol_receiver_canopen.Prelude.{
  ◌≡◌, refl, sym, ap, ◌∙◌, String, Bool, true, false, Option, none, some, List, [], ◌∷◌, ◌++◌, map,
  ◌==◌, string_key, Bool-cases, inl, inr,
}
use mathlib.Core.Path.{subst}
use mathlib.Core.List.{append-nil, append_assoc}
use otelcol_receiver_canopen.Prelude.Maps.{Map, lookup}
use otelcol_receiver_canopen.Codec.Types.{Any}
use otelcol_receiver_canopen.Emit.Types.{LogRecord}
use otelcol_receiver_canopen.Emit.Metrics.{change, resource_key}
use otelcol_receiver_canopen.Emit.Series.{lookup-change_same, lookup-change_other, same_name}
use otelcol_receiver_canopen.Emit.Logs.{
  of_value, of_map, of_text, Body, Stored, LogResource, LogsBuilder, stored, add_to_logs,
  add_record, add_records,
}

abbrev pub records_of : Option LogResource → List Stored
records_of none = []
records_of (some g) = g.records

abbrev when_keyed : Bool → LogRecord → List LogRecord
when_keyed true r = r ∷ []
when_keyed false r = []

-- The records of a resource's key among those that are added.
abbrev pub keyed : String → List LogRecord → List LogRecord
keyed k [] = []
keyed k (r ∷ rs) = when_keyed (resource_key r.resource_attrs == k) r ++ keyed k rs

-- What a record may be stored as: its value if it has one, else its map if it has one, else its text.
pub data IsRendered (r : LogRecord) : Stored → Type 0 where
  as_value :
      (v : Any)
      → r.body_value ≡ some v
      → IsRendered r
          (record { severity = r.severity; body = of_value v; attributes = r.attributes })
  as_map :
      (m : Map String Any)
      → r.body_value ≡ none
      → r.body_map ≡ some m
      → IsRendered r (record { severity = r.severity; body = of_map m; attributes = r.attributes })
  as_text :
      r.body_value ≡ none
      → r.body_map ≡ none
      → IsRendered r
          (record { severity = r.severity; body = of_text r.body; attributes = r.attributes })

-- One stored record for each, in order.
abbrev pub AreRendered : List LogRecord → List Stored → Type 0
AreRendered [] [] = Unit
AreRendered [] (x ∷ xs) = ⊥
AreRendered (r ∷ rs) [] = ⊥
AreRendered (r ∷ rs) (x ∷ xs) = IsRendered r x × AreRendered rs xs

by_body :
    (r : LogRecord) (x : Body)
    → x ≡ (stored r).body
    → IsRendered r (record { severity = r.severity; body = x; attributes = r.attributes })
    → IsRendered r (stored r)
unfolding stored
by_body r x e h =
    subst
      (λ (y : Body).
        IsRendered r (record { severity = r.severity; body = y; attributes = r.attributes }))
      e h

stored-IsRendered : (r : LogRecord) → IsRendered r (stored r)
unfolding stored
stored-IsRendered r = go r.body_value r.body_map refl refl
  where
    go :
        (o : Option Any) (m : Option (Map String Any))
        → r.body_value ≡ o
        → r.body_map ≡ m
        → IsRendered r (stored r)
    go (some v) m e e' = by_body r (of_value v) (rw e refl) (as_value v e)
    go none (some m) e e' = by_body r (of_map m) (rw e (rw e' refl)) (as_map m e e')
    go none none e e' = by_body r (of_text r.body) (rw e (rw e' refl)) (as_text e e')

all_stored-AreRendered : (rs : List LogRecord) → AreRendered rs (map stored rs)
all_stored-AreRendered [] = tt
all_stored-AreRendered (r ∷ rs) = (stored-IsRendered r, all_stored-AreRendered rs)

abbrev pub attrs_of : Option LogResource → Option (Map String String)
attrs_of none = none
attrs_of (some g) = some g.attrs

-- The attributes of a resource once some of its records have been added: the first ones stay.
abbrev pub first_attrs : Option (Map String String) → List LogRecord → Option (Map String String)
first_attrs (some attrs) rs = some attrs
first_attrs none [] = none
first_attrs none (r ∷ rs) = some r.resource_attrs

first_attrs-append :
    (o : Option (Map String String)) (rs ss : List LogRecord)
    → first_attrs (first_attrs o rs) ss ≡ first_attrs o (rs ++ ss)
first_attrs-append (some attrs) rs ss = refl
first_attrs-append none [] ss = refl
first_attrs-append none (r ∷ rs) ss = refl

stored-when_keyed :
    (c : Bool) (r : LogRecord) (rs : List LogRecord)
    → map stored (when_keyed c r ++ rs) ≡ map stored (when_keyed c r) ++ map stored rs
stored-when_keyed true r rs = refl
stored-when_keyed false r rs = refl

-- What an entry is after a record: its records, and its attributes.
abbrev Takes : Option LogResource → List LogRecord → Option LogResource → Type 0
Takes o rs o' =
    (records_of o' ≡ records_of o ++ map stored rs) × (attrs_of o' ≡ first_attrs (attrs_of o) rs)

add_to_logs-Takes : (r : LogRecord) (o : Option LogResource) → Takes o (r ∷ []) (add_to_logs r o)
unfolding add_to_logs
add_to_logs-Takes r none = (refl, refl)
add_to_logs-Takes r (some g) = (refl, refl)

none-Takes : (o : Option LogResource) → Takes o [] o
none-Takes none = (refl, refl)
none-Takes (some g) = (sym (append-nil g.records), refl)

-- A change that always has an entry to give does not panic.
change_total {ℓ} :
    {V : Type ℓ} (k : String) (f : Option V → Option V)
    → ((o : Option V) → (v : V) × (f o ≡ some v))
    → (m : Map String V) → (m' : Map String V) × (change k f m ≡ some m')
unfolding change
change_total k f gives [] = ((k, (gives none).0) ∷ [], rw (gives none).1 refl)
change_total k f gives ((j, v) ∷ m) = elim (Bool-cases (j == k)) [
  | inl q ↦ ((j, (gives (some v)).0) ∷ m, rw q (rw (gives (some v)).1 refl))
  | inr q ↦ let (m', e) = change_total k f gives m in ((j, v) ∷ m', rw q (rw e refl))
]

add_to_logs_total :
    (r : LogRecord) (o : Option LogResource) → (g : LogResource) × (add_to_logs r o ≡ some g)
unfolding add_to_logs
add_to_logs_total r none = (_, refl)
add_to_logs_total r (some g) = (_, refl)

add_record-Takes :
    (k : String) (r : LogRecord) (b b' : LogsBuilder)
    → add_record r b ≡ some b'
    → Takes (lookup k b) (when_keyed (resource_key r.resource_attrs == k) r) (lookup k b')
unfolding add_record
add_record-Takes k r b b' h =
    let key = resource_key r.resource_attrs in
    elim (Bool-cases (key == k)) [
      | inl q ↦ rw q (
          subst (λ (x : String). Takes (lookup x b) (r ∷ []) (lookup x b')) (same_name key k q)
            (rw (lookup-change_same key (add_to_logs r) b b' h)
              (add_to_logs-Takes r (lookup key b))))
      | inr q ↦
          rw q (rw (lookup-change_other key (add_to_logs r) b b' h k q) (none-Takes (lookup k b)))
    ]

-- What adding records makes of each entry, with the bodies as `stored` gives them.
add_records-Takes :
    (rs : List LogRecord) (b : LogsBuilder)
    → (b' : LogsBuilder) × (add_records rs b ≡ some b')
      × ((k : String) → Takes (lookup k b) (keyed k rs) (lookup k b'))
unfolding add_records
add_records-Takes [] b = (b, refl, λ k. none-Takes (lookup k b))
add_records-Takes (r ∷ rs) b =
    let (b1, e) : (b1 : LogsBuilder) × (add_record r b ≡ some b1) =
      unfold add_record in
      change_total (resource_key r.resource_attrs) (add_to_logs r) (add_to_logs_total r) b in
    let (b2, e', kept) = add_records-Takes rs b1 in
    (
      b2,
      rw e e',
      λ k.
          let here = when_keyed (resource_key r.resource_attrs == k) r in
          let (records, attrs) = add_record-Takes k r b b1 e in
          let (records', attrs') = kept k in
          (
            records'
                ∙ ap (λ (u : List Stored). u ++ map stored (keyed k rs)) records
                ∙ append_assoc (records_of (lookup k b)) (map stored here) (map stored (keyed k rs))
                ∙ ap (λ (u : List Stored). records_of (lookup k b) ++ u)
                    (sym (stored-when_keyed (resource_key r.resource_attrs == k) r (keyed k rs))),
            attrs'
                ∙ ap (λ (o : Option (Map String String)). first_attrs o (keyed k rs)) attrs
                ∙ first_attrs-append (attrs_of (lookup k b)) here (keyed k rs),
          ),
    )

-- Adding records puts under each resource's key exactly the records of that key behind those that
-- were there, in order, each with its severity and its attributes, and with its value as the body,
-- or its map where it has no value, or its text where it has neither; the attributes of the resource
-- are those of the first record of its key, although later ones of that key may have others.
pub add_records_kept :
    (rs : List LogRecord) (b : LogsBuilder)
    → (b' : LogsBuilder) × (add_records rs b ≡ some b')
      × ((k : String)
          → (new : List Stored) × AreRendered (keyed k rs) new
            × (records_of (lookup k b') ≡ records_of (lookup k b) ++ new)
            × (attrs_of (lookup k b') ≡ first_attrs (attrs_of (lookup k b)) (keyed k rs)))
add_records_kept rs b =
    let (b', e, kept) = add_records-Takes rs b in
    (
      b',
      e,
      λ k. (map stored (keyed k rs), all_stored-AreRendered (keyed k rs), (kept k).0, (kept k).1),
    )
