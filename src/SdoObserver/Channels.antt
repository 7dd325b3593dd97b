-- ===== src/SdoObserver/Channels.antt =====
-- Transfers on different channels do not disturb one another.
use mathlib.Core.Path.{subst, ap₂}
use otelcol_receiver_canopen.Prelude.{
  ℕ, ◌≡◌, ◌≢◌, refl, sym, ap, ◌∙◌, Bool, true, false, Bool-cases, inl, inr, Option, none, some,
  List, [], ◌∷◌, if◌then◌else◌, ◌==◌, nat_eq, nat_beq_iff, beq_self, beq-of_ne,
}
use otelcol_receiver_canopen.Prelude.Maps.{lookup, lookup-delete, lookup-insert, lookup-insert_self}
use otelcol_receiver_canopen.SdoObserver.Types.{
  Direction, client_to_server, server_to_client, other_direction, Transfer,
}
use otelcol_receiver_canopen.SdoObserver.Observe.{
  Step, Observer, Observed, forget, store, segment_of, server_of, observe_segment, observe_client,
  observe_server, upload_response, by_direction, observe_on_channel, apply_segment,
}

-- Two observers hold the same transfer on a channel.
abbrev pub SameAt : ℕ → Observer → Observer → Type 0
SameAt key o o' = lookup key o.transfers ≡ lookup key o'.transfers

forget-SameAt_ne : (key j : ℕ) (o : Observer) → key ≢ j → SameAt j (forget key o) o
forget-SameAt_ne key j o h = lookup-delete key j o.transfers ∙ rw (beq-of_ne key j h) refl

store-SameAt_ne : (key j : ℕ) (t : Transfer) (o : Observer) → key ≢ j → SameAt j (store key t o) o
store-SameAt_ne key j t o h = lookup-insert key j t o.transfers ∙ rw (beq-of_ne key j h) refl

forget-SameAt : (key : ℕ) (o o' : Observer) → SameAt key (forget key o) (forget key o')
forget-SameAt key o o' =
    lookup-delete key key o.transfers ∙ rw (lookup-delete key key o'.transfers, beq_self key) refl

store-SameAt :
    (key : ℕ) (t : Transfer) (o o' : Observer) → SameAt key (store key t o) (store key t o')
store-SameAt key t o o' =
    lookup-insert_self key t o.transfers ∙ sym (lookup-insert_self key t o'.transfers)

-- A step on one channel: it answers by what it finds on that channel, and leaves the others alone.
pub record IsLocal (key : ℕ) (s : Step) : Type 0 where
  pub others : (j : ℕ) (o : Observer) → key ≢ j → SameAt j (s o).1 o
  pub agrees :
      (o o' : Observer) → SameAt key o o' → ((s o).0 ≡ (s o').0) × SameAt key (s o).1 (s o').1

module _ (key : ℕ) where
  IsLocal-keep : (r : Observed) → IsLocal key (λ o. (r, o))
  IsLocal-keep r = record { others = λ j o h. refl; agrees = λ o o' e. (refl, e) }

  IsLocal-forget : (r : Observed) → IsLocal key (λ o. (r, forget key o))
  IsLocal-forget r = record {
    others = λ j o h. forget-SameAt_ne key j o h;
    agrees = λ o o' e. (refl, forget-SameAt key o o');
  }

  IsLocal-store : (r : Observed) (t : Transfer) → IsLocal key (λ o. (r, store key t o))
  IsLocal-store r t = record {
    others = λ j o h. store-SameAt_ne key j t o h;
    agrees = λ o o' e. (refl, store-SameAt key t o o');
  }

  IsLocal-if :
      (b : Bool) (s s' : Step)
      → IsLocal key s
      → IsLocal key s'
      → IsLocal key (λ o. if b then s o else s' o)
  IsLocal-if true s s' h h' = h
  IsLocal-if false s s' h h' = h'

  IsLocal-lookup :
      (f : Option Transfer → Step)
      → ((m : Option Transfer) → IsLocal key (f m))
      → IsLocal key (λ o. f (lookup key o.transfers) o)
  IsLocal-lookup f h = record {
    others = λ j o ne. (h (lookup key o.transfers)).others j o ne;
    agrees = λ o o' e. rw (sym e) ((h (lookup key o.transfers)).agrees o o' e);
  }

  ruleset local_rules = (IsLocal-keep, IsLocal-forget, IsLocal-store, IsLocal-if)

  apply_segment-IsLocal :
      (command : ℕ) (frame : List ℕ) (t : Transfer)
      → IsLocal key (apply_segment key command frame t)
  unfolding apply_segment
  apply_segment-IsLocal command frame t = search local_rules

  segment_of-IsLocal :
      (d : Direction) (command : ℕ) (frame : List ℕ) (m : Option Transfer)
      → IsLocal key (segment_of key d command frame m)
  unfolding segment_of
  segment_of-IsLocal d command frame none = search local_rules
  segment_of-IsLocal d command frame (some t) = search (local_rules, apply_segment-IsLocal)

  observe_segment-IsLocal :
      (d : Direction) (command : ℕ) (frame : List ℕ)
      → IsLocal key (observe_segment key d command frame)
  unfolding observe_segment
  observe_segment-IsLocal d command frame =
      IsLocal-lookup (segment_of key d command frame) (segment_of-IsLocal d command frame)

  observe_client-IsLocal :
      (node_id command : ℕ) (frame : List ℕ)
      → IsLocal key (observe_client key node_id command frame)
  unfolding observe_client
  observe_client-IsLocal node_id command frame = search (local_rules, observe_segment-IsLocal)

  upload_response-IsLocal :
      (command : ℕ) (frame : List ℕ) (t : Transfer)
      → IsLocal key (upload_response key command frame t)
  unfolding upload_response
  upload_response-IsLocal command frame t = search local_rules

  server_of-IsLocal :
      (command : ℕ) (frame : List ℕ) (m : Option Transfer)
      → IsLocal key (server_of key command frame m)
  unfolding server_of
  server_of-IsLocal command frame none = search local_rules
  server_of-IsLocal command frame (some t) =
      search (local_rules, upload_response-IsLocal, observe_segment-IsLocal)

  observe_server-IsLocal :
      (command : ℕ) (frame : List ℕ) → IsLocal key (observe_server key command frame)
  unfolding observe_server
  observe_server-IsLocal command frame =
      IsLocal-lookup (server_of key command frame) (server_of-IsLocal command frame)

  by_direction-IsLocal :
      (node_id : ℕ) (d : Direction) (frame : List ℕ)
      → IsLocal key (by_direction key node_id d frame)
  unfolding by_direction
  by_direction-IsLocal node_id client_to_server frame = search (local_rules, observe_client-IsLocal)
  by_direction-IsLocal node_id server_to_client frame = search (local_rules, observe_server-IsLocal)
  by_direction-IsLocal node_id (other_direction s) frame = search local_rules

  pub observe_on_channel-IsLocal :
      (node_id : ℕ) (d : Direction) (frame : List ℕ)
      → IsLocal key (observe_on_channel key node_id d frame)
  unfolding observe_on_channel
  observe_on_channel-IsLocal node_id d frame = search (local_rules, by_direction-IsLocal)

-- A frame as it arrives: the channel that the caller found for it, and what it passes on.
pub record Arrival : Type 0 where
  pub key : ℕ
  pub node_id : ℕ
  pub direction : Direction
  pub frame : List ℕ

abbrev pub step_on : Arrival → Step
step_on a = observe_on_channel a.key a.node_id a.direction a.frame

step_on-IsLocal : (a : Arrival) → IsLocal a.key (step_on a)
step_on-IsLocal a = observe_on_channel-IsLocal a.key a.node_id a.direction a.frame

-- What the observer answers to a sequence of frames, each answer with its channel.
unfoldable pub answers : List Arrival → Observer → List (ℕ × Observed)
answers [] o = []
answers (a ∷ arrivals) o = let (r, o') = step_on a o in (a.key, r) ∷ answers arrivals o'

abbrev pub on_channel : ℕ → List Arrival → List Arrival
on_channel key [] = []
on_channel key (a ∷ arrivals) =
    let rest = on_channel key arrivals in if a.key == key then a ∷ rest else rest

abbrev pub answers_on : ℕ → List (ℕ × Observed) → List (ℕ × Observed)
answers_on key [] = []
answers_on key ((k, r) ∷ rs) =
    let rest = answers_on key rs in if k == key then (k, r) ∷ rest else rest

independence :
    (key : ℕ) (arrivals : List Arrival) (o o' : Observer)
    → SameAt key o o'
    → answers_on key (answers arrivals o) ≡ answers (on_channel key arrivals) o'
unfolding answers
independence key [] o o' e = refl
independence key (a ∷ arrivals) o o' e = elim (Bool-cases (a.key == key)) [
  | inl p ↦
      let q : a.key ≡ key = (nat_beq_iff a.key key).0 p in
      let same = (step_on-IsLocal a).agrees o o' (subst (λ k. SameAt k o o') (sym q) e) in
      let after = subst (λ k. SameAt k (step_on a o).1 (step_on a o').1) q same.1 in
      rw p (
        ap₂ ◌∷◌ (ap (λ (r : Observed). (a.key, r)) same.0)
          (independence key arrivals (step_on a o).1 (step_on a o').1 after))
  | inr p ↦
      let ne : a.key ≢ key = λ q. cc (p, (nat_beq_iff a.key key).1 q) in
      rw p (independence key arrivals (step_on a o).1 o' ((step_on-IsLocal a).others key o ne ∙ e))
]

-- Frames on other channels, however they are interleaved, change nothing of what the observer
-- answers on a channel: its answers are those to the frames of that channel alone.
pub channel_independence :
    (key : ℕ) (arrivals : List Arrival) (o : Observer)
    → answers_on key (answers arrivals o) ≡ answers (on_channel key arrivals) o
channel_independence key arrivals o = independence key arrivals o o refl
