-- ===== src/Emit/Kinds.antt =====
-- internal/emit/metrics.go: when adding points panics.
use otelcol_receiver_canopen.Prelude.{
  ◌≡◌, refl, sym, ap, ◌∙◌, String, Bool, true, false, Option, none, some, List, [], ◌∷◌, ◌++◌,
  if◌then◌else◌, ◌==◌, string_key, Bool-cases, ◌⊎◌, inl, inr,
}
use mathlib.Core.Path.{subst}
use mathlib.Core.List.{Mem, mem-cons_of_mem, mem-cons_self}
use otelcol_receiver_canopen.Prelude.Maps.{Map, lookup}
use otelcol_receiver_canopen.Emit.Types.{MetricKind, gauge, sum, MetricPoint}
use otelcol_receiver_canopen.Emit.Metrics.{
  Metric, Resource, MetricsBuilder, change, resource_key, same_kind, new_metric, add_to_metric,
  add_to_resource, add_point, add_points, data_point,
}
use otelcol_receiver_canopen.Emit.Series.{metrics_of, lookup-change, same_name}

-- A change that has an entry to give does not panic.
change-total {ℓ} :
    {V : Type ℓ} (k : String) (f : Option V → Option V) (v : V) (m : Map String V)
    → f (lookup k m) ≡ some v
    → (m' : Map String V) × (change k f m ≡ some m')
unfolding change lookup
change-total k f v [] h = ((k, v) ∷ [], rw h refl)
change-total k f v ((j, u) ∷ m) h = elim (Bool-cases (j == k)) [
  | inl q ↦
      let e : f (some u) ≡ some v =
        subst (λ (c : Bool). f (if c then some u else lookup k m) ≡ some v) q h in
      ((j, v) ∷ m, rw q (rw e refl))
  | inr q ↦
      let e : f (lookup k m) ≡ some v =
        subst (λ (c : Bool). f (if c then some u else lookup k m) ≡ some v) q h in
      let (m', e') = change-total k f v m e in ((j, u) ∷ m', rw q (rw e' refl))
]

same_kind-eq : (k l : MetricKind) → same_kind k l ≡ true → k ≡ l
same_kind-eq gauge gauge h = refl
same_kind-eq sum sum h = refl
same_kind-eq gauge sum h = absurd cc
same_kind-eq sum gauge h = absurd cc

-- Two of the points have one key and one name, and are of different kinds.
abbrev pub HasMixed : List MetricPoint → Type 0
HasMixed ps =
    (p : MetricPoint) × (q : MetricPoint) × Mem p ps
    × Mem q ps
    × (resource_key p.resource_attrs ≡ resource_key q.resource_attrs)
    × (p.name ≡ q.name)
    × (same_kind p.kind q.kind ≡ false)

abbrev metric_at : String → String → MetricsBuilder → Option Metric
metric_at k n b = lookup n (metrics_of (lookup k b))

module _ (append_invalid : MetricPoint → Metric → Option Metric) where
  -- The metric behind a point, or one of another kind before it.
  metric_adds :
      (p : MetricPoint) (o : Option Metric)
      → ((m' : Metric) × (add_to_metric append_invalid p o ≡ some m') × (p.kind ≡ m'.kind))
        ⊎ ((m : Metric) × (o ≡ some m) × (same_kind p.kind m.kind ≡ false))
  unfolding add_to_metric
  metric_adds p none = inl (new_metric p, refl, refl)
  metric_adds p (some m) = elim (Bool-cases (same_kind p.kind m.kind)) [
    | inl h ↦ inl (
      record m { points = m.points ++ data_point p ∷ [] },
      rw h refl,
      same_kind-eq p.kind m.kind h,
    )
    | inr h ↦ inr (m, refl, h)
  ]

  resource_adds :
      (p : MetricPoint) (o : Option Resource) (m' : Metric)
      → add_to_metric append_invalid p (lookup p.name (metrics_of o)) ≡ some m'
      → (r : Resource) × (add_to_resource append_invalid p o ≡ some r)
        × ((n : String)
            → lookup n r.metrics ≡ (if p.name == n then some m' else lookup n (metrics_of o)))
  unfolding add_to_resource
  resource_adds p none m' h =
      let (ms, e) = change-total p.name (add_to_metric append_invalid p) m' [] h in
      (
        record { attrs = p.resource_attrs; metrics = ms },
        rw e refl,
        λ n. lookup-change p.name n (add_to_metric append_invalid p) [] ms e ∙ rw h refl,
      )
  resource_adds p (some r) m' h =
      let (ms, e) = change-total p.name (add_to_metric append_invalid p) m' r.metrics h in
      (
        record { attrs = r.attrs; metrics = ms },
        rw e refl,
        λ n. lookup-change p.name n (add_to_metric append_invalid p) r.metrics ms e ∙ rw h refl,
      )

  point_adds :
      (p : MetricPoint) (b : MetricsBuilder) (m' : Metric)
      → add_to_metric append_invalid p (metric_at (resource_key p.resource_attrs) p.name b)
        ≡ some m'
      → (b' : MetricsBuilder) × (add_point append_invalid p b ≡ some b')
        × ((k n : String) (m : Metric)
            → metric_at k n b' ≡ some m
            → ((resource_key p.resource_attrs ≡ k) × (p.name ≡ n) × (m' ≡ m))
              ⊎ (metric_at k n b ≡ some m))
  unfolding add_point
  point_adds p b m' h =
      let key = resource_key p.resource_attrs in
      let (r, e, found) = resource_adds p (lookup key b) m' h in
      let (b', e') = change-total key (add_to_resource append_invalid p) r b e in
      (
        b',
        e',
        λ k n m at. elim (Bool-cases (key == k)) [
          | inr q ↦
              let x : lookup k b' ≡ lookup k b =
                lookup-change key k (add_to_resource append_invalid p) b b' e' ∙ rw q refl in
              inr (subst (λ (o : Option Resource). lookup n (metrics_of o) ≡ some m) x at)
          | inl q ↦
              let x : lookup k b' ≡ some r =
                lookup-change key k (add_to_resource append_invalid p) b b' e' ∙ rw q e in
              let y : lookup n r.metrics ≡ some m =
                subst (λ (o : Option Resource). lookup n (metrics_of o) ≡ some m) x at in
              let z = sym (found n) ∙ y in
              elim (Bool-cases (p.name == n)) [
                | inl l ↦
                    let w : some m' ≡ some m =
                      subst (λ (c : Bool). (if c then some m' else metric_at key n b) ≡ some m) l
                        z in
                    inl (same_name key k q, same_name p.name n l, cc)
                | inr l ↦
                    let w : metric_at key n b ≡ some m =
                      subst (λ (c : Bool). (if c then some m' else metric_at key n b) ≡ some m) l
                        z in
                    inr (subst (λ (i : String). metric_at i n b ≡ some m) (same_name key k q) w)
              ]
        ],
      )

  -- Each metric has the kind of a point of its key and name that has been added.
  abbrev Witnessed : (MetricPoint → Type 0) → MetricsBuilder → Type 0
  Witnessed S b =
      (k n : String) (m : Metric)
      → metric_at k n b ≡ some m
      → (p : MetricPoint) × S p
        × (resource_key p.resource_attrs ≡ k)
        × (p.name ≡ n)
        × (p.kind ≡ m.kind)

  adds_from :
      (all ps : List MetricPoint) (b : MetricsBuilder)
      → ((p : MetricPoint) → Mem p ps → Mem p all)
      → Witnessed (λ p. Mem p all) b
      → ((b' : MetricsBuilder) × (add_points append_invalid ps b ≡ some b')) ⊎ HasMixed all
  unfolding add_points
  adds_from all [] b sub w = inl (b, refl)
  adds_from all (p ∷ ps) b sub w =
      let key = resource_key p.resource_attrs in
      elim (metric_adds p (metric_at key p.name b)) [
        | inr (m, at, other) ↦
            let (q, among, same_key, name, kind) = w key p.name m at in
            inr (p, q, sub p mem-cons_self, among, sym same_key, sym name, rw kind other)
        | inl (m', e, kind) ↦
            let (b', e', old) = point_adds p b m' e in
            let kept : Witnessed (λ p. Mem p all) b' = λ k n m at. elim (old k n m at) [
              | inl (i, j, l) ↦ (p, sub p mem-cons_self, i, j, kind ∙ ap (λ (x : Metric). x.kind) l)
              | inr before ↦ w k n m before
            ] in
            elim (adds_from all ps b' (λ q m. sub q (mem-cons_of_mem _ m)) kept) [
              | inl (b'', e'') ↦ inl (b'', rw e' e'')
              | inr mixed ↦ inr mixed
            ]
      ]

  -- Whatever the collector's library does when a point is appended to the wrong kind of points,
  -- adding the points of an interval panics only where two of them have one resource's key and one
  -- name and are of different kinds.
  pub add_points_or_mixed :
      (ps : List MetricPoint)
      → ((b : MetricsBuilder) × (add_points append_invalid ps [] ≡ some b)) ⊎ HasMixed ps
  unfolding lookup
  add_points_or_mixed ps = adds_from ps ps [] (λ p m. m) (λ k n m at. absurd cc)
