-- ===== src/Transport/Members.antt =====
-- fake.go: the states that the bus can reach, and which connections are on it.
use otelcol_receiver_canopen.Prelude.{
  ℕ, ◌≤◌, ◌<◌, ◌≡◌, refl, Bool, true, false, List, [], ◌∷◌, length, contains, nat_eq, length-append,
  arith, some, Bool-cases, inl, inr, ◌∙◌, sym,
}
use otelcol_receiver_canopen.Transport.{Frame}
use otelcol_receiver_canopen.Transport.Conn.{Context, RecvResult}
use otelcol_receiver_canopen.Transport.Bus.{
  FakeConn, FakeBus, rx_capacity, new_fake_bus, put, dial, deliver, inject, broadcast, forget,
  RecvCase, from_rx, from_done, from_ctx, take_frame, recv, close_done,
}
use otelcol_receiver_canopen.Transport.Conns.{
  contains-append, append-IsDistinct, without_other, without_kept, without-IsDistinct,
}
use otelcol_receiver_canopen.Transport.Delivery.{IsDistinct, deliver_all_lem, deliver_others_lem}

-- What one goroutine does at a time. The checks of `Send` only read; what follows them is
-- `broadcast`, and between the two halves of `Close` other goroutines run.
pub data Step (b : FakeBus) : FakeBus → Type 0 where
  dials : Step b (dial b).1
  injects : (picks : ℕ → Bool) (f : Frame) → Step b (inject picks f b)
  broadcasts : (picks : ℕ → Bool) (f : Frame) (from : ℕ) → Step b (broadcast picks f from b)
  receives :
      (i : ℕ) (c : RecvCase) (ctx : Context) (r : RecvResult) (conn : FakeConn)
      → recv c ctx (b.conn i) ≡ some (r, conn)
      → Step b (record b { conn = put b.conn i conn })
  closes : (i : ℕ) → i < b.made → (b.conn i).close_once ≡ false → Step b (close_done i b)
  forgets : (i : ℕ) → (b.conn i).is_done ≡ true → Step b (forget i b)

pub data Reach : FakeBus → Type 0 where
  start : Reach new_fake_bus
  later : {b b' : FakeBus} → Reach b → Step b b' → Reach b'

-- Each connection is on the bus at most once and has been made by it, one that is not closed is on
-- it, its buffer is within its capacity, and the bus itself is never closed.
pub record WellFormed (b : FakeBus) : Type 0 where
  pub distinct : IsDistinct b.conns
  pub known : (i : ℕ) → contains b.conns i ≡ true → i < b.made
  pub enrolled : (i : ℕ) → i < b.made → (b.conn i).is_done ≡ false → contains b.conns i ≡ true
  pub bounded : (i : ℕ) → length (b.conn i).rx ≤ rx_capacity
  pub stays_open : b.closed ≡ false

deliver_bounded :
    (pick : Bool) (f : Frame) (c : FakeConn)
    → length c.rx ≤ rx_capacity
    → length (deliver pick f c).rx ≤ rx_capacity
unfolding deliver
deliver_bounded pick f c h = ground (arith, length-append c.rx (f ∷ []))

deliver_done : (pick : Bool) (f : Frame) (c : FakeConn) → (deliver pick f c).is_done ≡ c.is_done
unfolding deliver
deliver_done pick f c = ground arith

take_frame_bounded :
    (c : FakeConn) (rx : List Frame) (r : RecvResult) (c' : FakeConn)
    → take_frame c rx ≡ some (r, c')
    → (length c'.rx ≤ length rx) × (c'.is_done ≡ c.is_done)
take_frame_bounded c [] r c' h = absurd cc
take_frame_bounded c (f ∷ rest) r c' h = ground arith

recv_bounded :
    (k : RecvCase) (ctx : Context) (c : FakeConn) (r : RecvResult) (c' : FakeConn)
    → recv k ctx c ≡ some (r, c')
    → (length c'.rx ≤ length c.rx) × (c'.is_done ≡ c.is_done)
unfolding recv
recv_bounded from_rx ctx c r c' h = take_frame_bounded c c.rx r c' h
recv_bounded from_done ctx c r c' h = ground arith
recv_bounded from_ctx ctx c r c' h = ground arith

new_fake_bus-WellFormed : WellFormed new_fake_bus
new_fake_bus-WellFormed = record {
  distinct = tt;
  known = λ i h. absurd (ground arith);
  enrolled = λ i h k. absurd (omega arith);
  bounded = λ i. omega arith;
  stays_open = refl;
}

dial-WellFormed : (b : FakeBus) → WellFormed b → WellFormed (dial b).1
unfolding dial
dial-WellFormed b h = record {
  distinct =
      append-IsDistinct b.conns b.made h.distinct (elim (Bool-cases (contains b.conns b.made)) [
        | inl p ↦ absurd (omega (arith, h.known b.made p))
        | inr p ↦ p
      ]);
  known = λ i k. ground (arith, contains-append b.conns b.made i, h.known i);
  enrolled = λ i l o. ground (arith, contains-append b.conns b.made i, h.enrolled i);
  bounded = λ i. ground (arith, h.bounded i);
  stays_open = h.stays_open;
}

-- Two states that differ in the connections' buffers.
rx-WellFormed :
    (b : FakeBus) (conn : ℕ → FakeConn)
    → ((i : ℕ) → (conn i).is_done ≡ (b.conn i).is_done)
    → ((i : ℕ) → length (conn i).rx ≤ rx_capacity)
    → WellFormed b
    → WellFormed (record b { conn = conn })
rx-WellFormed b conn d l h = record {
  distinct = h.distinct;
  known = h.known;
  enrolled = λ i lt o. h.enrolled i lt (sym (d i) ∙ o);
  bounded = l;
  stays_open = h.stays_open;
}

inject-WellFormed :
    (b : FakeBus) (picks : ℕ → Bool) (f : Frame) → WellFormed b → WellFormed (inject picks f b)
unfolding inject
inject-WellFormed b picks f h =
    rx-WellFormed b _
      (λ i. ground (
        arith,
        deliver_all_lem picks f b.conns b.conn i h.distinct,
        deliver_done (picks i) f (b.conn i),
      ))
      (λ i. ground (
        arith,
        deliver_all_lem picks f b.conns b.conn i h.distinct,
        deliver_bounded (picks i) f (b.conn i) (h.bounded i),
        h.bounded i,
      ))
      h

broadcast-WellFormed :
    (b : FakeBus) (picks : ℕ → Bool) (f : Frame) (from : ℕ)
    → WellFormed b
    → WellFormed (broadcast picks f from b)
unfolding broadcast
broadcast-WellFormed b picks f from h =
    rx-WellFormed b _
      (λ i. ground (
        arith,
        deliver_others_lem picks f from b.conns b.conn i h.distinct,
        deliver_done (picks i) f (b.conn i),
      ))
      (λ i. ground (
        arith,
        deliver_others_lem picks f from b.conns b.conn i h.distinct,
        deliver_bounded (picks i) f (b.conn i) (h.bounded i),
        h.bounded i,
      ))
      h

close_done-WellFormed : (b : FakeBus) (i : ℕ) → WellFormed b → WellFormed (close_done i b)
unfolding close_done
close_done-WellFormed b i h = record {
  distinct = h.distinct;
  known = h.known;
  enrolled = λ j lt o. ground (arith, h.enrolled j);
  bounded = λ j. ground (arith, h.bounded j);
  stays_open = h.stays_open;
}

forget-WellFormed :
    (b : FakeBus) (i : ℕ) → (b.conn i).is_done ≡ true → WellFormed b → WellFormed (forget i b)
unfolding forget
forget-WellFormed b i d h = record {
  distinct = without-IsDistinct i b.conns h.distinct;
  known = λ j k. h.known j (without_other i b.conns j k);
  enrolled = λ j lt o. without_kept i b.conns j (ground arith) (h.enrolled j lt o);
  bounded = h.bounded;
  stays_open = h.stays_open;
}

Step-WellFormed : {b b' : FakeBus} → Step b b' → WellFormed b → WellFormed b'
Step-WellFormed {b} dials h = dial-WellFormed b h
Step-WellFormed {b} (injects picks f) h = inject-WellFormed b picks f h
Step-WellFormed {b} (broadcasts picks f from) h = broadcast-WellFormed b picks f from h
Step-WellFormed {b} (receives i k ctx r c e) h =
    let (l, d) = recv_bounded k ctx (b.conn i) r c e in
    rx-WellFormed b (put b.conn i c) (λ j. ground (arith)) (λ j. ground (arith, h.bounded j)) h
Step-WellFormed {b} (closes i lt o) h = close_done-WellFormed b i h
Step-WellFormed {b} (forgets i d) h = forget-WellFormed b i d h

-- In every state that the bus reaches, by any interleaving of dials, sends, injections, receives
-- and the two halves of a close, each connection is on the bus at most once and has been made by
-- it, every open connection is on it, no buffer holds more than 256 frames, and the flag `closed`
-- of the bus is not set.
pub Reach-WellFormed : {b : FakeBus} → Reach b → WellFormed b
Reach-WellFormed start = new_fake_bus-WellFormed
Reach-WellFormed (later r st) = Step-WellFormed st (Reach-WellFormed r)
