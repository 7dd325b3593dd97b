-- ===== src/Transport/Order.antt =====
-- fake.go: which connections a sent frame reaches, and the order in which `Recv` returns frames.
use otelcol_receiver_canopen.Prelude.{
  ℕ, zero, suc, ◌+◌, ◌≤◌, ◌<◌, ◌≡◌, ◌≢◌, refl, ◌∙◌, sym, ap, Bool, false, List, [], ◌∷◌, ◌++◌,
  if◌then◌else◌, ltb, length, nat_eq, length-append, arith, Option, some, beq-of_ne,
}
use mathlib.Core.List.{append-nil, append_assoc}
use otelcol_receiver_canopen.Transport.{Frame}
use otelcol_receiver_canopen.Transport.Conn.{alive, RecvResult, received}
use otelcol_receiver_canopen.Transport.Bus.{
  FakeConn, FakeBus, rx_capacity, deliver, broadcast, from_rx, recv, send,
}
use otelcol_receiver_canopen.Transport.Delivery.{deliver_others_lem}
use otelcol_receiver_canopen.Transport.Members.{Reach, later, broadcasts, Reach-WellFormed}

-- A frame behind those that wait, if there is room for it.
abbrev pub with_room : Frame → FakeConn → FakeConn
with_room f c = if ltb (length c.rx) rx_capacity then record c { rx = c.rx ++ f ∷ [] } else c

deliver_open :
    (pick : Bool) (f : Frame) (c : FakeConn) → c.is_done ≡ false → deliver pick f c ≡ with_room f c
unfolding deliver
deliver_open pick f c h = ground arith

-- On a reachable bus, a sent frame changes nothing for its sender; every other open connection that
-- the bus has made gets it behind the frames that wait there, or drops it if 256 of them do.
pub broadcast_reaches :
    (b : FakeBus) (picks : ℕ → Bool) (f : Frame) (from : ℕ)
    → Reach b
    → ((broadcast picks f from b).conn from ≡ b.conn from)
      × ((j : ℕ)
          → j < b.made
          → j ≢ from
          → (b.conn j).is_done ≡ false
          → (broadcast picks f from b).conn j ≡ with_room f (b.conn j))
unfolding broadcast
broadcast_reaches b picks f from r =
    let h = Reach-WellFormed r in
    (
      ground (arith, deliver_others_lem picks f from b.conns b.conn from h.distinct),
      λ j lt ne o.
          deliver_others_lem picks f from b.conns b.conn j h.distinct
          ∙ rw (h.enrolled j lt o)
              (rw (beq-of_ne j from ne) (deliver_open (picks j) f (b.conn j) o)),
    )

-- Frames sent one after the other; `picks k` is what the selects choose on frame number k.
unfoldable pub send_frames : (ℕ → ℕ → Bool) → ℕ → List Frame → FakeBus → FakeBus
send_frames picks from [] b = b
send_frames picks from (f ∷ fs) b =
    send_frames (λ k. picks (suc k)) from fs (send false alive (picks 0) f from b).1

abbrev then_drained : Option (RecvResult × FakeConn) → (FakeConn → List Frame) → List Frame
then_drained (some (received f, c)) rest = f ∷ rest c
then_drained _ rest = []

-- The frames that some calls of `Recv` return while there are frames.
unfoldable pub recv_frames : ℕ → FakeConn → List Frame
recv_frames zero c = []
recv_frames (suc n) c = then_drained (recv from_rx alive c) (recv_frames n)

recv_frames_lem : (rx : List Frame) (c : FakeConn) → c.rx ≡ rx → recv_frames (length rx) c ≡ rx
unfolding recv_frames recv
recv_frames_lem [] c h = refl
recv_frames_lem (f ∷ rx) c h = rw h (ap (◌∷◌ f) (recv_frames_lem rx (record c { rx = rx }) refl))

send_open :
    (b : FakeBus) (picks : ℕ → Bool) (f : Frame) (from : ℕ)
    → (b.conn from).is_done ≡ false
    → (send false alive picks f from b).1 ≡ broadcast picks f from b
unfolding send
send_open b picks f from h = ground arith

broadcast_made :
    (b : FakeBus) (picks : ℕ → Bool) (f : Frame) (from i : ℕ)
    → i < b.made
    → i < (broadcast picks f from b).made
unfolding broadcast
broadcast_made b picks f from i h = h

sent_frames :
    (fs : List Frame) (b : FakeBus) (picks : ℕ → ℕ → Bool) (from i : ℕ)
    → Reach b
    → i < b.made
    → i ≢ from
    → (b.conn from).is_done ≡ false
    → (b.conn i).is_done ≡ false
    → length (b.conn i).rx + length fs ≤ rx_capacity
    → ((send_frames picks from fs b).conn i).rx ≡ (b.conn i).rx ++ fs
unfolding send_frames
sent_frames [] b picks from i r lt ne o o' room = sym (append-nil (b.conn i).rx)
sent_frames (f ∷ fs) b picks from i r lt ne o o' room =
    let b' = broadcast (picks 0) f from b in
    let (same, reaches) = broadcast_reaches b (picks 0) f from r in
    let got : b'.conn i ≡ record (b.conn i) { rx = (b.conn i).rx ++ f ∷ [] } =
      reaches i lt ne o' ∙ ground arith in
    ap (λ (x : FakeBus). ((send_frames (λ k. picks (suc k)) from fs x).conn i).rx)
      (send_open b (picks 0) f from o)
    ∙ sent_frames fs b' (λ k. picks (suc k)) from i (later r (broadcasts (picks 0) f from))
        (broadcast_made b (picks 0) f from i lt) ne (ap (λ (c : FakeConn). c.is_done) same ∙ o)
        (ap (λ (c : FakeConn). c.is_done) got ∙ o')
        (omega
          (arith, ap (λ (c : FakeConn). length c.rx) got, length-append (b.conn i).rx (f ∷ [])))
    ∙ ap (λ (c : FakeConn). c.rx ++ fs) got
    ∙ append_assoc (b.conn i).rx (f ∷ []) fs

-- On a reachable bus, frames that an open connection sends one after the other to another open one,
-- whose buffer has room for all of them, are what that one's `Recv` returns, in the order sent and
-- behind the frames that waited.
pub frames_arrive_in_order :
    (fs : List Frame) (b : FakeBus) (picks : ℕ → ℕ → Bool) (from i : ℕ)
    → Reach b
    → i < b.made
    → i ≢ from
    → (b.conn from).is_done ≡ false
    → (b.conn i).is_done ≡ false
    → length (b.conn i).rx + length fs ≤ rx_capacity
    → recv_frames (length (b.conn i).rx + length fs) ((send_frames picks from fs b).conn i)
      ≡ (b.conn i).rx ++ fs
frames_arrive_in_order fs b picks from i r lt ne o o' room =
    rw (sym (length-append (b.conn i).rx fs)) (
      recv_frames_lem ((b.conn i).rx ++ fs) ((send_frames picks from fs b).conn i)
        (sent_frames fs b picks from i r lt ne o o' room))
