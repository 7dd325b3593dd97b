-- ===== src/Emit/Series.antt =====
-- internal/emit/metrics.go: the points of each resource and name.
use otelcol_receiver_canopen.Prelude.{
  ◌≡◌, ◌≢◌, refl, sym, ap, ◌∙◌, String, Bool, true, false, ◌&&◌, Option, none, some, List, [], ◌∷◌,
  ◌++◌, if◌then◌else◌, Keyed, ◌==◌, string_key, arith, beq_self, Option-cases, Bool-cases, inl, inr,
}
use mathlib.Core.Path.{subst}
use mathlib.Core.List.{append-nil, append_assoc}
use otelcol_receiver_canopen.Prelude.Maps.{Map, lookup}
use otelcol_receiver_canopen.Emit.Types.{MetricPoint}
use otelcol_receiver_canopen.Emit.Metrics.{
  DataPoint, Metric, Resource, MetricsBuilder, before, entry, change, resource_key, data_point,
  add_to_metric, with_metrics, add_to_resource, add_point, and_add, add_points,
}

-- A change has an effect on its own key alone.
module _ {ℓ κ} {K : Type ℓ} ⦃e : Keyed K⦄ {V : Type κ} where
  -- What is found under a key afterwards, unless the change panics.
  abbrev pub Finds : K → Option V → Option (Map K V) → Type κ
  Finds j w none = Unit
  Finds j w (some m) = lookup j m ≡ w

  entry-Finds :
      (i j : K) (o : Option V) (m : Map K V)
      → Finds j (if i == j then o else lookup j m) (entry i o m)
  unfolding lookup
  entry-Finds i j none m = tt
  entry-Finds i j (some v) m = refl

  before-Finds :
      (i j : K) (v : V) (w : Option V) (r : Option (Map K V))
      → Finds j w r
      → Finds j (if i == j then some v else w) (before (i, v) r)
  unfolding lookup
  before-Finds i j v w none h = tt
  before-Finds i j v w (some m) h = rw h refl

  same_entry :
      (i j k : K) (v : V) (f : Option V → Option V) (m : Map K V)
      → (i == k) ≡ true
      → (if i == j then f (some v) else lookup j m)
        ≡ (if k == j then f (lookup k ((i, v) ∷ m)) else lookup j ((i, v) ∷ m))
  unfolding lookup
  same_entry i j k v f m h =
      ground (arith, e.same_key_iff i k, e.same_key_iff i j, e.same_key_iff k j)

  other_entry :
      (i j k : K) (v : V) (f : Option V → Option V) (m : Map K V)
      → (i == k) ≡ false
      → (if i == j then some v else (if k == j then f (lookup k m) else lookup j m))
        ≡ (if k == j then f (lookup k ((i, v) ∷ m)) else lookup j ((i, v) ∷ m))
  unfolding lookup
  other_entry i j k v f m h =
      ground (arith, e.same_key_iff i k, e.same_key_iff i j, e.same_key_iff k j)

  pub change-Finds :
      (k j : K) (f : Option V → Option V) (m : Map K V)
      → Finds j (if k == j then f (lookup k m) else lookup j m) (change k f m)
  unfolding change
  change-Finds k j f [] = unfold lookup in entry-Finds k j (f none) []
  change-Finds k j f ((i, v) ∷ m) = elim (Bool-cases (i == k)) [
    | inl h ↦ rw h (
        subst (λ (w : Option V). Finds j w (entry i (f (some v)) m)) (same_entry i j k v f m h)
          (entry-Finds i j (f (some v)) m))
    | inr h ↦ rw h (
        subst (λ (w : Option V). Finds j w (before (i, v) (change k f m)))
          (other_entry i j k v f m h) (before-Finds i j v _ (change k f m) (change-Finds k j f m)))
  ]

  -- A change that panics at the entry panics.
  change-none :
      (k : K) (f : Option V → Option V) (m : Map K V) → f (lookup k m) ≡ none → change k f m ≡ none
  unfolding change lookup
  change-none k f [] h = rw h refl
  change-none k f ((i, v) ∷ m) h = ground (arith, change-none k f m)

  -- A change that does not panic has an entry to show.
  pub change-some :
      (k : K) (f : Option V → Option V) (m m' : Map K V)
      → change k f m ≡ some m'
      → f (lookup k m) ≢ none
  change-some k f m m' h e = let x : change k f m ≡ none = change-none k f m e in cc

  pub lookup-change :
      (k j : K) (f : Option V → Option V) (m m' : Map K V)
      → change k f m ≡ some m'
      → lookup j m' ≡ (if k == j then f (lookup k m) else lookup j m)
  lookup-change k j f m m' h =
      subst (Finds j (if k == j then f (lookup k m) else lookup j m)) h (change-Finds k j f m)

abbrev pub points_of : Option Metric → List DataPoint
points_of none = []
points_of (some m) = m.points

abbrev pub metrics_of : Option Resource → Map String Metric
metrics_of none = []
metrics_of (some r) = r.metrics

-- The points of a name under a resource's key.
abbrev pub series : String → String → MetricsBuilder → List DataPoint
series k n b = points_of (lookup n (metrics_of (lookup k b)))

abbrev pub when_named : Bool → MetricPoint → List DataPoint
when_named true p = data_point p ∷ []
when_named false p = []

-- The points of a key and a name among those that are added.
abbrev pub selected : String → String → List MetricPoint → List DataPoint
selected k n [] = []
selected k n (p ∷ ps) =
    when_named (resource_key p.resource_attrs == k && p.name == n) p ++ selected k n ps

-- A change with another key leaves an entry, and one with its key is found.
module _ {ℓ} {V : Type ℓ} (k : String) (f : Option V → Option V) (m m' : Map String V)
    (h : change k f m ≡ some m') where
  pub lookup-change_same : lookup k m' ≡ f (lookup k m)
  lookup-change_same = lookup-change k k f m m' h ∙ rw (beq_self k) refl

  pub lookup-change_other : (j : String) → (k == j) ≡ false → lookup j m' ≡ lookup j m
  lookup-change_other j q = lookup-change k j f m m' h ∙ rw q refl

pub same_name : (k n : String) → (k == n) ≡ true → k ≡ n
same_name k n q = (string_key.same_key_iff k n).0 q

-- The library's answer to a kind that the metric does not have is a panic, as its documentation warns.
module _ (append_invalid : MetricPoint → Metric → Option Metric)
    (panics : (p : MetricPoint) (m : Metric) → append_invalid p m ≡ none) where
  points_of-add_to_metric :
      (p : MetricPoint) (o : Option Metric)
      → add_to_metric append_invalid p o ≢ none
      → points_of (add_to_metric append_invalid p o) ≡ points_of o ++ data_point p ∷ []
  unfolding add_to_metric
  points_of-add_to_metric p none h = refl
  points_of-add_to_metric p (some m) h = ground (arith, panics p m)

  points_of-change :
      (n : String) (p : MetricPoint) (ms ms' : Map String Metric)
      → change p.name (add_to_metric append_invalid p) ms ≡ some ms'
      → points_of (lookup n ms') ≡ points_of (lookup n ms) ++ when_named (p.name == n) p
  points_of-change n p ms ms' h = elim (Bool-cases (p.name == n)) [
    | inl q ↦ rw q (
        subst
          (λ (x : String). points_of (lookup x ms') ≡ points_of (lookup x ms) ++ data_point p ∷ [])
          (same_name p.name n q)
          (ap points_of (lookup-change_same p.name (add_to_metric append_invalid p) ms ms' h)
            ∙ points_of-add_to_metric p _
                (change-some p.name (add_to_metric append_invalid p) ms ms' h)))
    | inr q ↦ rw q (
        ap points_of (lookup-change_other p.name (add_to_metric append_invalid p) ms ms' h n q)
        ∙ sym (append-nil (points_of (lookup n ms))))
  ]

  -- The points of a name in a resource that a point has been added to.
  resource_points :
      (n : String) (p : MetricPoint) (attrs : Map String String) (ms : Map String Metric)
      → with_metrics attrs (change p.name (add_to_metric append_invalid p) ms) ≢ none
      → points_of (
          lookup n
            (metrics_of (with_metrics attrs (change p.name (add_to_metric append_invalid p) ms))))
        ≡ points_of (lookup n ms) ++ when_named (p.name == n) p
  resource_points n p attrs ms h =
      elim (Option-cases (change p.name (add_to_metric append_invalid p) ms)) [
        | inl q ↦ absurd (h (rw q refl))
        | inr q ↦ rw q.1 (points_of-change n p ms q.0 q.1)
      ]

  added_points :
      (n : String) (p : MetricPoint) (o : Option Resource)
      → add_to_resource append_invalid p o ≢ none
      → points_of (lookup n (metrics_of (add_to_resource append_invalid p o)))
        ≡ points_of (lookup n (metrics_of o)) ++ when_named (p.name == n) p
  unfolding add_to_resource
  added_points n p none h = resource_points n p p.resource_attrs [] h
  added_points n p (some r) h = resource_points n p r.attrs r.metrics h

  series-add_point :
      (k n : String) (p : MetricPoint) (b b' : MetricsBuilder)
      → add_point append_invalid p b ≡ some b'
      → series k n b'
        ≡ series k n b ++ when_named (resource_key p.resource_attrs == k && p.name == n) p
  unfolding add_point
  series-add_point k n p b b' h = elim (Bool-cases (resource_key p.resource_attrs == k)) [
    | inl q ↦ rw q (
        subst (λ (x : String). series x n b' ≡ series x n b ++ when_named (p.name == n) p)
          (same_name (resource_key p.resource_attrs) k q)
          (ap (λ (o : Option Resource). points_of (lookup n (metrics_of o)))
              (lookup-change_same (resource_key p.resource_attrs) (add_to_resource append_invalid p)
                b b' h)
            ∙ added_points n p _ (
                change-some (resource_key p.resource_attrs) (add_to_resource append_invalid p) b b'
                  h)))
    | inr q ↦ rw q (
        ap (λ (o : Option Resource). points_of (lookup n (metrics_of o)))
          (lookup-change_other (resource_key p.resource_attrs) (add_to_resource append_invalid p) b
            b' h k q)
        ∙ sym (append-nil (series k n b)))
  ]

  -- When the points of an interval have been added without a panic, the series of each resource's key
  -- and name is what it was, and behind it exactly the added points of that key and name, in order.
  pub series-add_points :
      (k n : String) (ps : List MetricPoint) (b b' : MetricsBuilder)
      → add_points append_invalid ps b ≡ some b'
      → series k n b' ≡ series k n b ++ selected k n ps
  unfolding add_points
  series-add_points k n [] b b' h =
      let e : series k n b ++ [] ≡ series k n b = append-nil (series k n b) in cc
  series-add_points k n (p ∷ ps) b b' h = elim (Option-cases (add_point append_invalid p b)) [
    | inl q ↦
        let x : none ≡ some b' =
          subst (λ (o : Option MetricsBuilder). and_add o (add_points append_invalid ps) ≡ some b')
            q h in
        absurd cc
    | inr q ↦
        let x : add_points append_invalid ps q.0 ≡ some b' =
          subst (λ (o : Option MetricsBuilder). and_add o (add_points append_invalid ps) ≡ some b')
            q.1 h in
        series-add_points k n ps q.0 b' x
        ∙ ap (λ (u : List DataPoint). u ++ selected k n ps) (series-add_point k n p b q.0 q.1)
        ∙ append_assoc (series k n b) _ (selected k n ps)
  ]
