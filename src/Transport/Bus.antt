-- ===== src/Transport/Bus.antt =====
-- internal/cantransport/fake.go: the in-memory bus and its connections.
use otelcol_receiver_canopen.Prelude.{
  ℕ, suc, Bool, true, false, not, ◌&&◌, ◌||◌, Option, none, some, List, [], ◌∷◌, ◌++◌, ltb,
  if◌then◌else◌, ◌==◌, nat_eq, length,
}
use otelcol_receiver_canopen.Transport.{Frame}
use otelcol_receiver_canopen.Transport.Conn.{
  Context, alive, canceled, timed_out, context_canceled, deadline_exceeded, err_closed, RecvResult,
  received, recv_failed, SendResult, sent, send_failed,
}

-- A `fakeConn`; `rx` is the buffer of its channel, and `close_once` says that `Close` has run.
pub record FakeConn : Type 0 where
  pub rx : List Frame
  pub is_done : Bool
  pub close_once : Bool

-- The bus and the connections that it has made: a pointer to one is its number. Nothing sets
-- `closed`.
pub record FakeBus : Type 0 where
  pub conns : List ℕ
  pub closed : Bool
  pub made : ℕ
  pub conn : ℕ → FakeConn

abbrev pub rx_capacity : ℕ
rx_capacity = 256

abbrev pub fresh_conn : FakeConn
fresh_conn = record { rx = []; is_done = false; close_once = false }

abbrev pub new_fake_bus : FakeBus
new_fake_bus = record { conns = []; closed = false; made = 0; conn = λ _. fresh_conn }

abbrev pub put : (ℕ → FakeConn) → ℕ → FakeConn → ℕ → FakeConn
put heap i c j = if i == j then c else heap j

-- `Dial`, and the connection it returns.
unfoldable pub dial : FakeBus → ℕ × FakeBus
dial b = (
  b.made,
  record b {
    conns = b.conns ++ b.made ∷ [];
    made = suc b.made;
    conn = put b.conn b.made fresh_conn;
  },
)

-- `deliver`: `picks_done` is the choice that `select` makes when the channel has room and the
-- connection is closed.
unfoldable pub deliver : Bool → Frame → FakeConn → FakeConn
deliver picks_done f c =
    if ltb (length c.rx) rx_capacity && not (c.is_done && picks_done)
    then record c { rx = c.rx ++ f ∷ [] }
    else c

module _ (picks : ℕ → Bool) (f : Frame) where
  -- The loop of `Inject`
  unfoldable pub deliver_all : List ℕ → (ℕ → FakeConn) → ℕ → FakeConn
  deliver_all [] heap = heap
  deliver_all (i ∷ is) heap = deliver_all is (put heap i (deliver (picks i) f (heap i)))

  -- The loop of `broadcast`
  unfoldable pub deliver_others : ℕ → List ℕ → (ℕ → FakeConn) → ℕ → FakeConn
  deliver_others from [] heap = heap
  deliver_others from (i ∷ is) heap =
      deliver_others from is
        (if not (i == from) then put heap i (deliver (picks i) f (heap i)) else heap)

  unfoldable pub inject : FakeBus → FakeBus
  inject b = record b { conn = deliver_all b.conns b.conn }

  unfoldable pub broadcast : ℕ → FakeBus → FakeBus
  broadcast from b = record b { conn = deliver_others from b.conns b.conn }

-- `forget` takes out the first entry.
unfoldable pub without : ℕ → List ℕ → List ℕ
without c [] = []
without c (i ∷ is) = let rest = without c is in if i == c then is else i ∷ rest

unfoldable pub forget : ℕ → FakeBus → FakeBus
forget c b = record b { conns = without c b.conns }

-- The cases of the `select` of `Recv`.
pub data RecvCase : Type 0 where
  from_rx from_done from_ctx : RecvCase

abbrev pub take_frame : FakeConn → List Frame → Option (RecvResult × FakeConn)
take_frame c [] = none
take_frame c (f ∷ rest) = some (received f, record c { rx = rest })

abbrev closed_result : FakeConn → Bool → Option (RecvResult × FakeConn)
closed_result c true = some (recv_failed err_closed, c)
closed_result c false = none

abbrev expired_result : FakeConn → Context → Option (RecvResult × FakeConn)
expired_result c alive = none
expired_result c canceled = some (recv_failed context_canceled, c)
expired_result c timed_out = some (recv_failed deadline_exceeded, c)

-- `Recv` by one of its cases; `none` while that case is not ready. The channel is never closed.
unfoldable pub recv : RecvCase → Context → FakeConn → Option (RecvResult × FakeConn)
recv from_rx ctx c = take_frame c c.rx
recv from_done ctx c = closed_result c c.is_done
recv from_ctx ctx c = expired_result c ctx

-- What the context gives `Send`, unless its `select` chooses that the connection is closed.
abbrev send_checked : Bool → Context → SendResult
send_checked true ctx = send_failed err_closed
send_checked false alive = sent
send_checked false canceled = send_failed context_canceled
send_checked false timed_out = send_failed deadline_exceeded

abbrev is_alive : Context → Bool
is_alive alive = true
is_alive _ = false

-- `Send`; `picks_ctx` is the choice of its `select` when the connection is closed and the context
-- has ended.
unfoldable pub send : Bool → Context → (ℕ → Bool) → Frame → ℕ → FakeBus → SendResult × FakeBus
send picks_ctx ctx picks f from b =
    let closed = (b.conn from).is_done && (is_alive ctx || not picks_ctx) in
    let result = send_checked closed ctx in
    if closed || not (is_alive ctx) then (result, b) else (result, broadcast picks f from b)

-- What `Close` does first, once: after it the connection is closed and still on the bus.
unfoldable pub close_done : ℕ → FakeBus → FakeBus
close_done i b = record b {
  conn = put b.conn i (record (b.conn i) { is_done = true; close_once = true });
}

unfoldable pub close : ℕ → FakeBus → FakeBus
close i b = if (b.conn i).close_once then b else forget i (close_done i b)
