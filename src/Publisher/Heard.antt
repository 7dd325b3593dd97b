-- ===== src/Publisher/Heard.antt =====
-- cmd/canopen-publisher/main.go: what the receiver makes of the published frames.
use otelcol_receiver_canopen.Prelude.{
  ℕ, zero, suc, ◌+◌, ◌<◌, ◌≡◌, refl, ◌∙◌, ap, Bool, true, false, none, some, List, [], ◌∷◌, map,
  All, replicate, arith, nat_eq, string_key, beq_self,
}
use otelcol_receiver_canopen.Prelude.Int.{ℤ, pos, negsuc}
use otelcol_receiver_canopen.Codec.Types.{FloatOps, bit_width, int16, zero_value}
use otelcol_receiver_canopen.Codec.Decode.{ok, decode}
use otelcol_receiver_canopen.Codec.Roundtrip.{FitsSigned, pattern_of, decode-le_bytes_signed}
use otelcol_receiver_canopen.Transport.{Frame}
use otelcol_receiver_canopen.Transport.Socket.{WireFrame, fill, of_wire}
use otelcol_receiver_canopen.Sniffer.Types.{Sniffer}
use otelcol_receiver_canopen.Sniffer.Fields.{Builders, done}
use otelcol_receiver_canopen.Sniffer.Heartbeats.{
  Beat, heartbeat_frame, announced, remember, handle_frames, IsUncaptured, record_of,
  heartbeats_logged,
}
use otelcol_receiver_canopen.Publisher.{
  heartbeat_tick, uint16_of, speed_frame, is_node, publish_loop, publish,
}

uint16-pattern : (z : ℤ) → FitsSigned 16 z → uint16_of z ≡ pattern_of 16 z
uint16-pattern (pos n) h = omega arith
uint16-pattern (negsuc n) h = omega arith

-- A speed that the node publishes is decoded, by a field of type int16 at the start of its PDO, to
-- that speed.
pub speed_decoded :
    (ops : FloatOps) (id : ℕ) (speed len : ℤ)
    → FitsSigned 16 speed
    → (f : Frame) × (of_wire (speed_frame id speed) ≡ some f)
      × (f.id ≡ 0x180 + id)
      × (decode ops f.payload int16 (pos 0) len
          ≡ ok (record (zero_value int16) { int_value = speed }))
unfolding of_wire fill bit_width
speed_decoded ops id speed len h = (
  _,
  refl,
  refl,
  rw (uint16-pattern speed h) (
      decode-le_bytes_signed ops int16 [] [] speed len tt h
        ((omega arith, (omega arith, tt)), omega arith)),
)

-- The frames that the receiver reads.
abbrev pub read_back : List WireFrame → List Frame
read_back [] = []
read_back (w ∷ ws) = elim (of_wire w) [ none ↦ read_back ws | some f ↦ f ∷ read_back ws ]

heartbeats_read :
    (emcy : Bool) (id n : ℕ)
    → read_back (publish_loop emcy id (replicate n heartbeat_tick))
      ≡ map heartbeat_frame (replicate n (id, 5))
unfolding publish_loop of_wire fill
heartbeats_read emcy id zero = refl
heartbeats_read true id (suc n) = ap (◌∷◌ (heartbeat_frame (id, 5))) (heartbeats_read true id n)
heartbeats_read false id (suc n) = ap (◌∷◌ (heartbeat_frame (id, 5))) (heartbeats_read false id n)

published_read :
    (emcy : Bool) (id n : ℕ)
    → is_node id ≡ true
    → read_back (publish emcy id (replicate n heartbeat_tick))
      ≡ map heartbeat_frame ((id, 0) ∷ replicate n (id, 5))
unfolding publish of_wire fill
published_read emcy id n h = rw h (ap (◌∷◌ (heartbeat_frame (id, 0))) (heartbeats_read emcy id n))

-- Once a node is operational its heartbeats announce nothing.
nothing_new : (id n : ℕ) (past : List Beat) → announced ((id, 5) ∷ past) (replicate n (id, 5)) ≡ []
nothing_new id zero past = refl
nothing_new id (suc n) past = rw (beq_self id) (nothing_new id n ((id, 5) ∷ past))

two_states :
    (id n : ℕ) → announced [] ((id, 0) ∷ replicate (suc n) (id, 5)) ≡ (id, 0) ∷ (id, 5) ∷ []
two_states id n =
    rw (beq_self id)
      (ap (λ (bs : List Beat). (id, 0) ∷ (id, 5) ∷ bs) (nothing_new id n ((id, 0) ∷ [])))

node_below : (id : ℕ) → is_node id ≡ true → id < 128
unfolding is_node
node_below id h = ground arith

beats_below : (id n : ℕ) → id < 128 → All (λ (x : Beat). x.0 < 128) (replicate n (id, 5))
beats_below id zero h = tt
beats_below id (suc n) h = (h, beats_below id n h)

-- A simulated node in its range, over any number of heartbeat ticks, at least one: a sniffer that
-- has heard no node, logs heartbeats, emits no metrics for them and does not have their COB-IDs
-- captured, logs its boot and then its operational state, once each, however often the state is
-- published.
pub simulated_node_logged :
    (ops : FloatOps) (b : Builders) (emcy : Bool) (id n : ℕ) (s : Sniffer)
    → is_node id ≡ true
    → IsUncaptured ops b s
    → s.cfg.heartbeat_emit_metric ≡ false
    → s.cfg.heartbeat_emit_log ≡ true
    → b.logs ≡ true
    → s.nmt_state ≡ []
    → handle_frames ops b (read_back (publish emcy id (replicate (suc n) heartbeat_tick))) s
      ≡ done (
        record_of ops b s (id, 0) ∷ record_of ops b s (id, 5) ∷ [],
        record s { nmt_state = remember ((id, 0) ∷ replicate (suc n) (id, 5)) s.nmt_state },
      )
simulated_node_logged ops b emcy id n s node free m l lb e =
    let below : id < 128 = node_below id node in
    let logged =
      heartbeats_logged ops b ((id, 0) ∷ replicate (suc n) (id, 5)) s
        (below, beats_below id (suc n) below) free m l lb e in
    rw (published_read emcy id (suc n) node) (
      logged
      ∙ ap
          (λ (bs : List Beat). done (
            map (record_of ops b s) bs,
            record s { nmt_state = remember ((id, 0) ∷ replicate (suc n) (id, 5)) s.nmt_state },
          ))
          (two_states id n))
