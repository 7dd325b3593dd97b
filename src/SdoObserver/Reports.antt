-- ===== src/SdoObserver/Reports.antt =====
-- observer.go: what is reported over the frames of one channel.
use otelcol_receiver_canopen.Prelude.{
  ℕ, ◌≡◌, refl, ap, ◌∙◌, none, List, [], ◌∷◌, ◌++◌, beq_self, nat_eq,
}
use mathlib.Core.List.{append_assoc}
use otelcol_receiver_canopen.Prelude.Maps.{Map, lookup, lookup-delete, delete-insert}
use otelcol_receiver_canopen.SdoObserver.Types.{
  Direction, client_to_server, server_to_client, Operation, upload, download, Event, Transfer,
}
use otelcol_receiver_canopen.SdoObserver.Observe.{Observer, silent, emitted, forget, store}
use otelcol_receiver_canopen.SdoObserver.Channels.{Arrival, step_on}
use otelcol_receiver_canopen.SdoObserver.Sender.{Object, concat, watch}

-- The event of a completed transfer.
abbrev pub transferred : ℕ → Direction → Operation → Object → List ℕ → Event
transferred node_id direction operation x payload = record {
  node_id = node_id;
  direction = direction;
  operation = operation;
  index = x.index;
  sub_index = x.sub_index;
  payload = payload;
  abort_code = none;
}

-- The events that a completed download and upload have.
abbrev pub downloaded : ℕ → Object → List ℕ → Event
downloaded node_id x payload = transferred node_id client_to_server download x payload

abbrev pub uploaded : ℕ → Object → List ℕ → Event
uploaded node_id x payload = transferred node_id server_to_client upload x payload

module _ (a : Arrival) (rest : List Arrival) (o o' : Observer) where
  pub watch_silent : step_on a o ≡ (silent, o') → watch (a ∷ rest) o ≡ watch rest o'
  unfolding watch
  watch_silent e = rw e refl

  pub watch_emitted :
      (event : Event)
      → step_on a o ≡ (emitted event, o')
      → watch (a ∷ rest) o ≡ (emitted event ∷ (watch rest o').0, (watch rest o').1)
  unfolding watch
  watch_emitted event e = rw e refl

pub watch-nil : (o : Observer) → watch [] o ≡ ([], o)
unfolding watch
watch-nil o = refl

-- One event and no error, and the channel is free again.
abbrev pub Reports : List Arrival → ℕ → Event → Observer → Type 0
Reports arrivals key event o = watch arrivals o ≡ (emitted event ∷ [], forget key o)

module _ (key node_id : ℕ) (x : Object) where
  pub forget-store : (t : Transfer) (o : Observer) → forget key (store key t o) ≡ forget key o
  forget-store t o =
      ap (λ (m : Map ℕ Transfer). record { transfers = m }) (delete-insert key t o.transfers)

  pub lookup-forget : (o : Observer) → lookup key (forget key o).transfers ≡ none
  lookup-forget o = lookup-delete key key o.transfers ∙ rw (beq_self key) refl

  -- After one silent frame the rest reports for the changed observer.
  pub Reports-store :
      (a : Arrival) (rest : List Arrival) (t : Transfer) (event : Event) (o : Observer)
      → step_on a o ≡ (silent, store key t o)
      → Reports rest key event (store key t o)
      → Reports (a ∷ rest) key event o
  Reports-store a rest t event o e h =
      watch_silent a rest o (store key t o) e
      ∙ h
      ∙ ap (λ (u : Observer). (emitted event ∷ [], u)) (forget-store t o)

  pub Reports-keep :
      (a : Arrival) (rest : List Arrival) (event : Event) (o : Observer)
      → step_on a o ≡ (silent, o)
      → Reports rest key event o
      → Reports (a ∷ rest) key event o
  Reports-keep a rest event o e h = watch_silent a rest o o e ∙ h

  pub Reports-last :
      (a : Arrival) (event : Event) (o : Observer)
      → step_on a o ≡ (emitted event, forget key o)
      → Reports (a ∷ []) key event o
  Reports-last a event o e =
      watch_emitted a [] o (forget key o) event e ∙ rw (watch-nil (forget key o)) refl

  pub Reports-last_ack :
      (a b : Arrival) (event : Event) (o : Observer)
      → step_on a o ≡ (emitted event, forget key o)
      → step_on b (forget key o) ≡ (silent, forget key o)
      → Reports (a ∷ b ∷ []) key event o
  Reports-last_ack a b event o e e' =
      watch_emitted a (b ∷ []) o (forget key o) event e
      ∙ rw (watch_silent b [] (forget key o) (forget key o) e', watch-nil (forget key o)) refl

  pub append-chunk :
      (payload chunk : List ℕ) (full : List (List ℕ)) (last : List ℕ)
      → (payload ++ chunk) ++ (concat full ++ last) ≡ payload ++ ((chunk ++ concat full) ++ last)
  append-chunk payload chunk full last = simp append_assoc
