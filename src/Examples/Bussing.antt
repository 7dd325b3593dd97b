-- ===== src/Examples/Bussing.antt =====
-- Buses on which the theorems of fake.go are applied.
use otelcol_receiver_canopen.Prelude.{ℕ, ◌≡◌, refl, Bool, false, [], ◌∷◌, contains, arith, nat_eq}
use otelcol_receiver_canopen.Transport.{Frame}
use otelcol_receiver_canopen.Transport.Conn.{alive, err_closed, send_failed}
use otelcol_receiver_canopen.Transport.Bus.{
  FakeBus, new_fake_bus, dial, broadcast, deliver_others, deliver, inject, send, close,
}
use otelcol_receiver_canopen.Transport.Members.{
  Reach, start, later, dials, broadcasts, WellFormed, Reach-WellFormed,
}
use otelcol_receiver_canopen.Transport.Order.{send_frames, recv_frames, frames_arrive_in_order}
use otelcol_receiver_canopen.Transport.Closing.{close_is_final}

abbrev ping : ℕ → Frame
ping n = record { id = 0x180; extended = false; payload = n ∷ [] }

abbrev never : ℕ → Bool
never _ = false

-- Two connections, and a frame of the first that waits in the second.
abbrev two_conns : FakeBus
two_conns = broadcast never (ping 0) 0 (dial (dial new_fake_bus).1).1

two_conns-Reach : Reach two_conns
two_conns-Reach = later (later (later start dials) dials) (broadcasts never (ping 0) 0)

Reach-WellFormed_example : WellFormed two_conns
Reach-WellFormed_example = Reach-WellFormed two_conns-Reach

frames_arrive_in_order_example :
    recv_frames 3 ((send_frames (λ _. never) 0 (ping 1 ∷ ping 2 ∷ []) two_conns).conn 1)
    ≡ ping 0 ∷ ping 1 ∷ ping 2 ∷ []
unfolding dial broadcast deliver_others deliver
frames_arrive_in_order_example =
    frames_arrive_in_order (ping 1 ∷ ping 2 ∷ []) two_conns (λ _. never) 0 1 two_conns-Reach
      (omega arith) (ground arith) refl refl (omega arith)

close_is_final_example :
    (contains (close 1 two_conns).conns 1 ≡ false)
    × ((picks : ℕ → Bool) (f : Frame) (from : ℕ)
        → (broadcast picks f from (close 1 two_conns)).conn 1 ≡ (close 1 two_conns).conn 1)
    × ((picks : ℕ → Bool) (f : Frame)
        → (inject picks f (close 1 two_conns)).conn 1 ≡ (close 1 two_conns).conn 1)
    × ((p : Bool) (picks : ℕ → Bool) (f : Frame)
        → send p alive picks f 1 (close 1 two_conns) ≡ (send_failed err_closed, close 1 two_conns))
    × (close 1 (close 1 two_conns) ≡ close 1 two_conns)
unfolding dial broadcast deliver_others deliver
close_is_final_example = close_is_final two_conns 1 two_conns-Reach refl
