-- ===== src/Factory/Sharing.antt =====
-- factory.go: which pipelines get the same receiver.
use otelcol_receiver_canopen.Prelude.{
  ℕ, ◌<◌, ◌≤◌, ◌≡◌, refl, ◌∙◌, String, true, Option, none, some, List, [], ◌∷◌, nat_eq, string_key,
  arith,
}
use otelcol_receiver_canopen.Prelude.Maps.{lookup, lookup-insert, lookup-insert_self}
use otelcol_receiver_canopen.Config.Types.{Config}
use otelcol_receiver_canopen.Receiver.Dispatch.{Receiver}
use otelcol_receiver_canopen.Factory.{
  Factory, put_receiver, add_receiver, found_or_new, get_or_create_receiver,
  create_metrics_receiver, create_logs_receiver,
}

-- Every receiver of the table has been made, and no two IDs have the same one.
pub record Valid (s : Factory) : Type 0 where
  pub known : (id : String) (p : ℕ) → lookup id s.shared_receivers ≡ some p → p < s.made
  pub injective :
      (i j : String) (p : ℕ)
      → lookup i s.shared_receivers ≡ some p
      → lookup j s.shared_receivers ≡ some p
      → i ≡ j

abbrev pub new_factory : (ℕ → Receiver) → Factory
new_factory heap = record { shared_receivers = []; made = 0; receiver = heap }

pub new_factory-Valid : (heap : ℕ → Receiver) → Valid (new_factory heap)
unfolding lookup
new_factory-Valid heap = record { known = λ id p h. absurd cc; injective = λ i j p h k. absurd cc }

-- What `getOrCreateReceiver` leaves: the returned receiver stands in the table under the ID, entries
-- that were there are kept, and a receiver that was there is unchanged.
pub record Got (id : String) (s : Factory) (p : ℕ) (s' : Factory) : Type 0 where
  pub entered : lookup id s'.shared_receivers ≡ some p
  pub kept :
      (j : String) (q : ℕ)
      → lookup j s.shared_receivers ≡ some q
      → lookup j s'.shared_receivers ≡ some q
  pub same : (q : ℕ) → q < s.made → s'.receiver q ≡ s.receiver q
  pub grown : s.made ≤ s'.made
  pub stays_valid : Valid s'

add_receiver-Got :
    (id : String) (cfg : Config) (s : Factory)
    → Valid s
    → lookup id s.shared_receivers ≡ none
    → Got id s (add_receiver id cfg s).0 (add_receiver id cfg s).1
unfolding add_receiver
add_receiver-Got id cfg s v new = record {
  entered = lookup-insert_self id s.made s.shared_receivers;
  kept = λ j q h.
      ground (arith, lookup-insert id j s.made s.shared_receivers, string_key.same_key_iff id j);
  same = λ q h. ground arith;
  grown = omega arith;
  stays_valid = record {
    known = λ j q h. ground (arith, lookup-insert id j s.made s.shared_receivers, v.known j q);
    injective = λ i j q h k. ground (
      arith,
      lookup-insert id i s.made s.shared_receivers,
      lookup-insert id j s.made s.shared_receivers,
      v.known i q,
      v.known j q,
      v.injective i j q,
      string_key.same_key_iff id i,
      string_key.same_key_iff id j,
    );
  };
}

found_or_new-Got :
    (o : Option ℕ) (id : String) (cfg : Config) (s : Factory)
    → Valid s
    → lookup id s.shared_receivers ≡ o
    → Got id s (found_or_new o id cfg s).0 (found_or_new o id cfg s).1
unfolding found_or_new
found_or_new-Got none id cfg s v e = add_receiver-Got id cfg s v e
found_or_new-Got (some p) id cfg s v e = record {
  entered = e;
  kept = λ j q h. h;
  same = λ q h. refl;
  grown = omega arith;
  stays_valid = v;
}

pub get_or_create-Got :
    (id : String) (cfg : Config) (s : Factory)
    → Valid s
    → Got id s (get_or_create_receiver id cfg s).0 (get_or_create_receiver id cfg s).1
unfolding get_or_create_receiver
get_or_create-Got id cfg s v = found_or_new-Got (lookup id s.shared_receivers) id cfg s v refl

-- One call of the factory, by the metrics or the logs pipelines.
pub data Request : Type 0 where
  for_metrics for_logs : String → Option Config → Request

abbrev pub create : Request → Factory → Option ℕ × Factory
create (for_metrics id cfg) s = create_metrics_receiver id cfg s
create (for_logs id cfg) s = create_logs_receiver id cfg s

unfoldable pub create_all : List Request → Factory → Factory
create_all [] s = s
create_all (r ∷ rs) s = create_all rs (create r s).1

-- Entries stay, and so do a receiver's configuration and the consumers it has.
pub record After (s s' : Factory) : Type 0 where
  pub kept :
      (j : String) (q : ℕ)
      → lookup j s.shared_receivers ≡ some q
      → lookup j s'.shared_receivers ≡ some q
  pub grown : s.made ≤ s'.made
  pub stays_valid : Valid s'
  pub same_cfg : (q : ℕ) → q < s.made → (s'.receiver q).cfg ≡ (s.receiver q).cfg
  pub metrics_stay :
      (q : ℕ)
      → q < s.made
      → (s.receiver q).metrics_consumer ≡ true
      → (s'.receiver q).metrics_consumer ≡ true
  pub logs_stay :
      (q : ℕ)
      → q < s.made
      → (s.receiver q).logs_consumer ≡ true
      → (s'.receiver q).logs_consumer ≡ true

After-refl : (s : Factory) → Valid s → After s s
After-refl s v = record {
  kept = λ j q h. h;
  grown = omega arith;
  stays_valid = v;
  same_cfg = λ q h. refl;
  metrics_stay = λ q h k. k;
  logs_stay = λ q h k. k;
}

After-trans : (s t u : Factory) → After s t → After t u → After s u
After-trans s t u a b = record {
  kept = λ j q h. b.kept j q (a.kept j q h);
  grown = omega (arith, a.grown, b.grown);
  stays_valid = b.stays_valid;
  same_cfg = λ q h. b.same_cfg q (omega (arith, a.grown)) ∙ a.same_cfg q h;
  metrics_stay = λ q h k. b.metrics_stay q (omega (arith, a.grown)) (a.metrics_stay q h k);
  logs_stay = λ q h k. b.logs_stay q (omega (arith, a.grown)) (a.logs_stay q h k);
}

-- A receiver that is replaced by one with the same configuration and no consumer less.
put_receiver-After :
    (s s' : Factory) (id : String) (p : ℕ) (r : Receiver)
    → Got id s p s'
    → r.cfg ≡ (s'.receiver p).cfg
    → ((s'.receiver p).metrics_consumer ≡ true → r.metrics_consumer ≡ true)
    → ((s'.receiver p).logs_consumer ≡ true → r.logs_consumer ≡ true)
    → After s (record s' { receiver = put_receiver s'.receiver p r })
put_receiver-After s s' id p r g c m l = record {
  kept = g.kept;
  grown = g.grown;
  stays_valid = record { known = g.stays_valid.known; injective = g.stays_valid.injective };
  same_cfg = λ q h. ground (arith, g.same q h);
  metrics_stay = λ q h k. ground (arith, g.same q h);
  logs_stay = λ q h k. ground (arith, g.same q h);
}

pub create-After : (r : Request) (s : Factory) → Valid s → After s (create r s).1
unfolding create_metrics_receiver create_logs_receiver
create-After (for_metrics id none) s v = After-refl s v
create-After (for_metrics id (some cfg)) s v =
    put_receiver-After s _ id _ _ (get_or_create-Got id cfg s v) refl (λ h. refl) (λ h. h)
create-After (for_logs id none) s v = After-refl s v
create-After (for_logs id (some cfg)) s v =
    put_receiver-After s _ id _ _ (get_or_create-Got id cfg s v) refl (λ h. h) (λ h. refl)

pub create_all-After : (rs : List Request) (s : Factory) → Valid s → After s (create_all rs s)
unfolding create_all
create_all-After [] s v = After-refl s v
create_all-After (r ∷ rs) s v =
    let a = create-After r s v in
    After-trans s (create r s).1 _ a (create_all-After rs (create r s).1 a.stays_valid)
