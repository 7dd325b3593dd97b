-- ===== src/Transport/Delivery.antt =====
-- fake.go: where `Inject` and `broadcast` put a frame.
use otelcol_receiver_canopen.Prelude.{
  ℕ, ◌≡◌, refl, Bool, false, not, ◌&&◌, List, [], ◌∷◌, if◌then◌else◌, ◌==◌, nat_eq, contains, arith,
}
use otelcol_receiver_canopen.Transport.{Frame}
use otelcol_receiver_canopen.Transport.Bus.{FakeConn, put, deliver, deliver_all, deliver_others}

abbrev pub IsDistinct : List ℕ → Type 0
IsDistinct [] = Unit
IsDistinct (i ∷ is) = (contains is i ≡ false) × IsDistinct is

module _ (picks : ℕ → Bool) (f : Frame) where
  pub deliver_all_lem :
      (is : List ℕ) (heap : ℕ → FakeConn) (j : ℕ)
      → IsDistinct is
      → deliver_all picks f is heap j
        ≡ (if contains is j then deliver (picks j) f (heap j) else heap j)
  unfolding deliver_all
  deliver_all_lem [] heap j h = refl
  deliver_all_lem (i ∷ is) heap j h =
      ground (arith, deliver_all_lem is (put heap i (deliver (picks i) f (heap i))) j h.1)

  pub deliver_others_lem :
      (from : ℕ) (is : List ℕ) (heap : ℕ → FakeConn) (j : ℕ)
      → IsDistinct is
      → deliver_others picks f from is heap j
        ≡ (if contains is j && not (j == from) then deliver (picks j) f (heap j) else heap j)
  unfolding deliver_others
  deliver_others_lem from [] heap j h = refl
  deliver_others_lem from (i ∷ is) heap j h = ground (
    arith,
    deliver_others_lem from is heap j h.1,
    deliver_others_lem from is (put heap i (deliver (picks i) f (heap i))) j h.1,
  )
