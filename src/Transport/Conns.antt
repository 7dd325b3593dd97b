-- ===== src/Transport/Conns.antt =====
-- fake.go: the connections on the bus, as a list without duplicates.
use otelcol_receiver_canopen.Prelude.{
  ℕ, ◌≡◌, refl, true, false, List, [], ◌∷◌, ◌++◌, contains, ◌==◌, nat_eq, arith, if◌then◌else◌,
  Bool-cases, inl, inr,
}
use otelcol_receiver_canopen.Transport.Bus.{without}
use otelcol_receiver_canopen.Transport.Delivery.{IsDistinct}

pub contains-append :
    (is : List ℕ) (i j : ℕ) → contains (is ++ i ∷ []) j ≡ (if i == j then true else contains is j)
contains-append [] i j = ground arith
contains-append (k ∷ is) i j = ground (arith, contains-append is i j)

pub append-IsDistinct :
    (is : List ℕ) (i : ℕ) → IsDistinct is → contains is i ≡ false → IsDistinct (is ++ i ∷ [])
append-IsDistinct [] i h k = (refl, tt)
append-IsDistinct (j ∷ is) i h k =
    (ground (arith, contains-append is i j), append-IsDistinct is i h.1 (ground arith))

pub without_other :
    (c : ℕ) (is : List ℕ) (j : ℕ) → contains (without c is) j ≡ true → contains is j ≡ true
unfolding without
without_other c [] j h = h
without_other c (i ∷ is) j h = ground (arith, without_other c is j)

pub without_kept :
    (c : ℕ) (is : List ℕ) (j : ℕ)
    → (c == j) ≡ false
    → contains is j ≡ true
    → contains (without c is) j ≡ true
unfolding without
without_kept c [] j h k = k
without_kept c (i ∷ is) j h k = ground (arith, without_kept c is j)

pub without-IsDistinct : (c : ℕ) (is : List ℕ) → IsDistinct is → IsDistinct (without c is)
unfolding without
without-IsDistinct c [] h = tt
without-IsDistinct c (i ∷ is) h = elim (Bool-cases (i == c)) [
  | inl p ↦ rw p h.1
  | inr p ↦ rw p (ground (arith, without_other c is i), without-IsDistinct c is h.1)
]

pub without_gone : (c : ℕ) (is : List ℕ) → IsDistinct is → contains (without c is) c ≡ false
unfolding without
without_gone c [] h = refl
without_gone c (i ∷ is) h = ground (arith, without_gone c is h.1)
