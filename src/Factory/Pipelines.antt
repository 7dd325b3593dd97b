-- ===== src/Factory/Pipelines.antt =====
-- factory.go: the receivers that two pipelines get.
use otelcol_receiver_canopen.Prelude.{
  ℕ, ◌<◌, ◌≡◌, ◌↔◌, refl, sym, ◌∙◌, ap, String, true, Option, some, List, beq_self, nat_eq,
}
use otelcol_receiver_canopen.Prelude.Maps.{lookup}
use otelcol_receiver_canopen.Prelude.{string_key}
use otelcol_receiver_canopen.Config.Types.{Config}
use otelcol_receiver_canopen.Factory.{
  Factory, get_or_create_receiver, create_metrics_receiver, create_logs_receiver,
}
use otelcol_receiver_canopen.Factory.Sharing.{
  Valid, get_or_create-Got, create-After, for_metrics, for_logs, Request, create, create_all,
  create_all-After,
}

-- What a call for metrics returns and leaves.
metrics_created :
    (id : String) (cfg : Config) (s : Factory)
    → Valid s
    → (p : ℕ) × (create_metrics_receiver id (some cfg) s).0 ≡ some p
      × lookup id (create_metrics_receiver id (some cfg) s).1.shared_receivers ≡ some p
      × ((create_metrics_receiver id (some cfg) s).1.receiver p).metrics_consumer ≡ true
unfolding create_metrics_receiver
metrics_created id cfg s v =
    let p = (get_or_create_receiver id cfg s).0 in
    (p, refl, (get_or_create-Got id cfg s v).entered, rw (beq_self p) refl)

logs_created :
    (id : String) (cfg : Config) (s : Factory)
    → Valid s
    → (p : ℕ) × (create_logs_receiver id (some cfg) s).0 ≡ some p
      × lookup id (create_logs_receiver id (some cfg) s).1.shared_receivers ≡ some p
      × ((create_logs_receiver id (some cfg) s).1.receiver p).logs_consumer ≡ true
unfolding create_logs_receiver
logs_created id cfg s v =
    let p = (get_or_create_receiver id cfg s).0 in
    (p, refl, (get_or_create-Got id cfg s v).entered, rw (beq_self p) refl)

same_entry : (p q : ℕ) (o : Option ℕ) → o ≡ some p → o ≡ some q → p ≡ q
same_entry p q o h k = cc

-- A metrics pipeline of one component and a logs pipeline of one, created later with any creations
-- in between: both get a receiver; it is the same one just when the components' IDs are the same;
-- at the end the first has its metrics consumer and the configuration that it had, and the second
-- its logs consumer.
pub pipelines_share :
    (s : Factory) (id id' : String) (cfg cfg' : Config) (rs : List Request)
    → Valid s
    → let s1 = (create_metrics_receiver id (some cfg) s).1 in
      let s2 = create_all rs s1 in
      let s3 = (create_logs_receiver id' (some cfg') s2).1 in
      (p : ℕ) × (q : ℕ) × ((create_metrics_receiver id (some cfg) s).0 ≡ some p)
      × ((create_logs_receiver id' (some cfg') s2).0 ≡ some q)
      × ((p ≡ q) ↔ (id ≡ id'))
      × ((s3.receiver p).metrics_consumer ≡ true)
      × ((s3.receiver q).logs_consumer ≡ true)
      × ((s3.receiver p).cfg ≡ (s1.receiver p).cfg)
pipelines_share s id id' cfg cfg' rs v =
    let s1 = (create_metrics_receiver id (some cfg) s).1 in
    let s2 = create_all rs s1 in
    let a1 = create-After (for_metrics id (some cfg)) s v in
    let a2 = create_all-After rs s1 a1.stays_valid in
    let a3 = create-After (for_logs id' (some cfg')) s2 a2.stays_valid in
    let (p, got, in1, has) = metrics_created id cfg s v in
    let (q, got', in3, has') = logs_created id' cfg' s2 a2.stays_valid in
    let lt1 : p < s1.made = a1.stays_valid.known id p in1 in
    let in2 = a2.kept id p in1 in
    let lt2 : p < s2.made = a2.stays_valid.known id p in2 in
    let in3' = a3.kept id p in2 in
    (
      p,
      q,
      got,
      got',
      (
        λ e. a3.stays_valid.injective id id' p in3' (in3 ∙ ap some (sym e)),
        λ e. same_entry p q _ in3' (
            ap (λ (x : String). lookup x (create (for_logs id' (some cfg')) s2).1.shared_receivers)
              e
            ∙ in3),
      ),
      a3.metrics_stay p lt2 (a2.metrics_stay p lt1 has),
      has',
      a3.same_cfg p lt2 ∙ a2.same_cfg p lt1,
    )
