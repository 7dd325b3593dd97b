-- ===== src/Transport/Closing.antt =====
-- fake.go: a connection that has been closed.
use otelcol_receiver_canopen.Prelude.{
  ℕ, ◌≡◌, refl, Bool, true, false, nat_eq, contains, arith, beq_self,
}
use otelcol_receiver_canopen.Transport.{Frame}
use otelcol_receiver_canopen.Transport.Conn.{alive, err_closed, send_failed}
use otelcol_receiver_canopen.Transport.Bus.{
  FakeBus, broadcast, inject, forget, send, close_done, close,
}
use otelcol_receiver_canopen.Transport.Delivery.{IsDistinct, deliver_all_lem, deliver_others_lem}
use otelcol_receiver_canopen.Transport.Conns.{without-IsDistinct, without_gone}
use otelcol_receiver_canopen.Transport.Members.{Reach, Reach-WellFormed}

close_first :
    (i : ℕ) (b : FakeBus) → (b.conn i).close_once ≡ false → close i b ≡ forget i (close_done i b)
unfolding close
close_first i b h = ground arith

broadcast_off_bus :
    (b : FakeBus) (i : ℕ) (picks : ℕ → Bool) (f : Frame) (from : ℕ)
    → IsDistinct b.conns
    → contains b.conns i ≡ false
    → (broadcast picks f from b).conn i ≡ b.conn i
unfolding broadcast
broadcast_off_bus b i picks f from h k =
    ground (arith, deliver_others_lem picks f from b.conns b.conn i h)

inject_off_bus :
    (b : FakeBus) (i : ℕ) (picks : ℕ → Bool) (f : Frame)
    → IsDistinct b.conns
    → contains b.conns i ≡ false
    → (inject picks f b).conn i ≡ b.conn i
unfolding inject
inject_off_bus b i picks f h k = ground (arith, deliver_all_lem picks f b.conns b.conn i h)

closed_conn :
    (b : FakeBus) (i : ℕ)
    → ((forget i (close_done i b)).conn i).is_done ≡ true
      × ((forget i (close_done i b)).conn i).close_once ≡ true
unfolding forget close_done
closed_conn b i = rw (beq_self i) (refl, refl)

send_done :
    (b : FakeBus) (i : ℕ) (p : Bool) (picks : ℕ → Bool) (f : Frame)
    → (b.conn i).is_done ≡ true
    → send p alive picks f i b ≡ (send_failed err_closed, b)
unfolding send
send_done b i p picks f h = ground arith

close_again : (b : FakeBus) (i : ℕ) → (b.conn i).close_once ≡ true → close i b ≡ b
unfolding close
close_again b i h = ground arith

-- `Close` of a connection that is open, on a reachable bus: the connection is off the bus, so that no
-- frame that is broadcast or injected reaches it, its `Send` fails while the context has not ended,
-- whatever the choices of the selects, and a second `Close` changes nothing.
pub close_is_final :
    (b : FakeBus) (i : ℕ)
    → Reach b
    → (b.conn i).close_once ≡ false
    → (contains (close i b).conns i ≡ false)
      × ((picks : ℕ → Bool) (f : Frame) (from : ℕ)
          → (broadcast picks f from (close i b)).conn i ≡ (close i b).conn i)
      × ((picks : ℕ → Bool) (f : Frame) → (inject picks f (close i b)).conn i ≡ (close i b).conn i)
      × ((p : Bool) (picks : ℕ → Bool) (f : Frame)
          → send p alive picks f i (close i b) ≡ (send_failed err_closed, close i b))
      × (close i (close i b) ≡ close i b)
unfolding forget close_done
close_is_final b i r o =
    let h = (Reach-WellFormed r).distinct in
    let gone = without_gone i b.conns h in
    let apart = without-IsDistinct i b.conns h in
    let c = forget i (close_done i b) in
    let (shut, once) = closed_conn b i in
    rw (close_first i b o) (
      gone,
      λ picks f from. broadcast_off_bus c i picks f from apart gone,
      λ picks f. inject_off_bus c i picks f apart gone,
      λ p picks f. send_done c i p picks f shut,
      close_again c i once,
    )
