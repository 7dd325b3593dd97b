-- ===== src/Sniffer/Heartbeats.antt =====
-- internal/sniffer/sniffer.go: the heartbeats of several nodes, and the changes that are logged.
use otelcol_receiver_canopen.Prelude.{
  ℕ, ◌+◌, ◌-◌, ◌<◌, ◌≡◌, refl, ◌∙◌, ap, bit_and, Bool, true, false, Option, none, some, List, [],
  ◌∷◌, ◌++◌, map, if◌then◌else◌, ◌==◌, nat_eq, All, arith,
}
use otelcol_receiver_canopen.Prelude.Bits.{bit_and_127}
use otelcol_receiver_canopen.Prelude.Maps.{Map, lookup, insert, lookup-insert}
use otelcol_receiver_canopen.Codec.Types.{FloatOps}
use otelcol_receiver_canopen.Transport.{Frame}
use otelcol_receiver_canopen.Emit.Types.{Emitted}
use otelcol_receiver_canopen.Sniffer.Types.{Sniffer}
use otelcol_receiver_canopen.Sniffer.Fields.{Builders, done, ◌>>=◌}
use otelcol_receiver_canopen.Sniffer.Handlers.{
  Handled, when, is_change, nmt_record, heartbeat_state, handle_heartbeat,
}
use otelcol_receiver_canopen.Sniffer.Dispatch.{
  by_function, by_channel, by_pdo, by_raw, handle_frame,
}

-- A node and the state that it announces.
abbrev pub Beat : Type 0
Beat = ℕ × ℕ

abbrev pub heartbeat_frame : Beat → Frame
heartbeat_frame (node_id, state) = record {
  id = 0x700 + node_id;
  extended = false;
  payload = state ∷ [];
}

-- The last state of a node in the beats of the past, the latest first.
abbrev pub last_heard : ℕ → List Beat → Option ℕ
last_heard n [] = none
last_heard n ((m, state) ∷ past) = if m == n then some state else last_heard n past

-- The beats whose state is not the one heard last from the same node.
abbrev pub announced : List Beat → List Beat → List Beat
announced past [] = []
announced past ((n, state) ∷ rest) =
    if is_change (last_heard n past) state
    then (n, state) ∷ announced ((n, state) ∷ past) rest
    else announced ((n, state) ∷ past) rest

abbrev pub remember : List Beat → Map ℕ ℕ → Map ℕ ℕ
remember [] m = m
remember ((n, state) ∷ rest) m = remember rest (insert n state m)

module _ (ops : FloatOps) (b : Builders) where
  -- The frames one after the other.
  abbrev pub handle_frames : List Frame → Sniffer → Handled
  handle_frames [] s = done ([], s)
  handle_frames (f ∷ fs) s = do
    (es, s') ← handle_frame ops b f s
    (rest, s'') ← handle_frames fs s'
    done (es ++ rest, s'')

  -- The COB-IDs of heartbeats are neither captured, nor a PDO's, nor an SDO channel's.
  abbrev pub IsUncaptured : Sniffer → Type 0
  IsUncaptured s =
      (n : ℕ)
      → (lookup (0x700 + n) s.cfg.raw_cob_ids ≡ none)
        × (lookup (0x700 + n) s.cfg.pdos ≡ none)
        × (lookup (0x700 + n) s.sdo_by_cob_id ≡ none)

  heartbeat_node : (n : ℕ) → n < 128 → bit_and (0x700 + n) 0x7F ≡ n
  heartbeat_node n h = bit_and_127 (0x700 + n) ∙ omega arith

  pub handle_frame-heartbeat :
      (n state : ℕ) (s : Sniffer)
      → n < 128
      → IsUncaptured s
      → handle_frame ops b (heartbeat_frame (n, state)) s ≡ done (heartbeat_state ops b n state s)
  unfolding handle_frame by_raw by_pdo by_channel by_function handle_heartbeat
  handle_frame-heartbeat n state s h free =
      let (raw, pdo, channel) = free n in
      let code : (0x700 + n - n) ≡ 0x700 = omega arith in
      rw raw (rw pdo (rw channel (rw (heartbeat_node n h) (rw code refl))))

  beat_output :
      (n state : ℕ) (s : Sniffer)
      → s.cfg.heartbeat_emit_metric ≡ false
      → s.cfg.heartbeat_emit_log ≡ true
      → b.logs ≡ true
      → heartbeat_state ops b n state s ≡ (
        when (is_change (lookup n s.nmt_state) state) (nmt_record ops b n state s),
        record s { nmt_state = insert n state s.nmt_state },
      )
  unfolding heartbeat_state
  beat_output n state s h k l = rw h (rw k (rw l refl))

  abbrev pub record_of : Sniffer → Beat → Emitted
  record_of s (n, state) = nmt_record ops b n state s

  heard_next :
      (n state j : ℕ) (past : List Beat) (m : Map ℕ ℕ)
      → ((i : ℕ) → lookup i m ≡ last_heard i past)
      → lookup j (insert n state m) ≡ last_heard j ((n, state) ∷ past)
  heard_next n state j past m h = lookup-insert n j state m ∙ rw (h j) refl

  when-map :
      (s : Sniffer) (c : Bool) (x : Beat) (xs : List Beat)
      → (when c (record_of s x) ++ map (record_of s) xs)
        ≡ map (record_of s) (if c then x ∷ xs else xs)
  when-map s true x xs = refl
  when-map s false x xs = refl

  logged_from :
      (past beats : List Beat) (s : Sniffer)
      → All (λ (x : Beat). x.0 < 128) beats
      → IsUncaptured s
      → s.cfg.heartbeat_emit_metric ≡ false
      → s.cfg.heartbeat_emit_log ≡ true
      → b.logs ≡ true
      → ((i : ℕ) → lookup i s.nmt_state ≡ last_heard i past)
      → handle_frames (map heartbeat_frame beats) s
        ≡ done (
          map (record_of s) (announced past beats),
          record s { nmt_state = remember beats s.nmt_state },
        )
  logged_from past [] s h free f g l heard = refl
  logged_from past ((n, state) ∷ rest) s h free f g l heard =
      rw (handle_frame-heartbeat n state s h.0 free) (
        rw (beat_output n state s f g l) (
          rw
            (logged_from ((n, state) ∷ past) rest
              (record s { nmt_state = insert n state s.nmt_state }) h.1 free f g l
              (λ j. heard_next n state j past s.nmt_state heard))
            (rw (heard n) (
              ap
                (λ (es : List Emitted).
                  done (es, record s { nmt_state = remember rest (insert n state s.nmt_state) }))
                (when-map s (is_change (last_heard n past) state) (n, state)
                  (announced ((n, state) ∷ past) rest))))))

  -- Over any sequence of heartbeats of any nodes below 128, a sniffer that has heard none yet, logs
  -- them, emits no metrics for them, and does not have their COB-IDs captured, adds one record for
  -- each beat whose state differs from the one heard last from its node, the first beat of a node
  -- included, in their order, and it remembers the last states.
  pub heartbeats_logged :
      (beats : List Beat) (s : Sniffer)
      → All (λ (x : Beat). x.0 < 128) beats
      → IsUncaptured s
      → s.cfg.heartbeat_emit_metric ≡ false
      → s.cfg.heartbeat_emit_log ≡ true
      → b.logs ≡ true
      → s.nmt_state ≡ []
      → handle_frames (map heartbeat_frame beats) s
        ≡ done (
          map (record_of s) (announced [] beats),
          record s { nmt_state = remember beats s.nmt_state },
        )
  unfolding lookup
  heartbeats_logged beats s h free f g l e = logged_from [] beats s h free f g l (λ i. rw e refl)
