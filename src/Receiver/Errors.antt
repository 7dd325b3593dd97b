-- ===== src/Receiver/Errors.antt =====
-- receiver.go: what `dispatchLoop` makes of the errors of the two kinds of connection.
use otelcol_receiver_canopen.Prelude.{
  String, ◌≡◌, refl, Bool, true, false, Option, none, some, ◌⊎◌, inl, inr,
}
use mathlib.Core.Path.{subst}
use otelcol_receiver_canopen.Transport.{Frame}
use otelcol_receiver_canopen.Transport.Conn.{
  timed_out, ConnError, deadline_exceeded, err_closed, wrapped, received, recv_failed,
}
use otelcol_receiver_canopen.Transport.Bus.{FakeConn, from_ctx, recv}
use otelcol_receiver_canopen.Transport.Socket.{
  of_wire, Reading, no_deadline, frame_read, read_failed, end_of_stream, socket_recv,
}
use otelcol_receiver_canopen.Receiver.Lifecycle.{returns, goes_on, warns, on_recv_error}

no_error :
    (o : Option Frame) (e : ConnError)
    → (elim o [ none ↦ none | some f ↦ some (received f) ]) ≡ some (recv_failed e)
    → ⊥
no_error none e h = cc
no_error (some f) e h = cc

wrapped_warns :
    (m : String) (e : ConnError)
    → some (recv_failed (wrapped m)) ≡ some (recv_failed e)
    → on_recv_error false e ≡ warns
unfolding on_recv_error
wrapped_warns m e h =
    let same : wrapped m ≡ e = cc in
    subst (λ (x : ConnError). on_recv_error false x ≡ warns) same refl

socket_errors_warn :
    (has_deadline : Bool) (r : Reading) (e : ConnError)
    → socket_recv has_deadline r ≡ some (recv_failed e)
    → (on_recv_error false e ≡ warns) ⊎ ((r ≡ end_of_stream) × (on_recv_error false e ≡ returns))
unfolding socket_recv on_recv_error
socket_errors_warn true (no_deadline m) e h = inl (wrapped_warns _ e h)
socket_errors_warn false (no_deadline m) e h = inl (wrapped_warns _ e h)
socket_errors_warn has_deadline (frame_read w) e h = absurd (no_error (of_wire w) e h)
socket_errors_warn has_deadline (read_failed m) e h = inl (wrapped_warns _ e h)
socket_errors_warn has_deadline end_of_stream e h =
    let same : err_closed ≡ e = cc in
    inr (refl, subst (λ (x : ConnError). on_recv_error false x ≡ returns) same refl)

-- While the context is not cancelled, every error of a SocketCAN connection makes the dispatch loop
-- warn and go on, or return where the stream has ended; a read that has timed out is among those
-- that warn, since its error is wrapped. The in-memory bus returns the context's own error, at which
-- the loop goes on without a warning.
pub read_errors_warn :
    (has_deadline : Bool) (r : Reading) (e : ConnError) (c : FakeConn)
    → socket_recv has_deadline r ≡ some (recv_failed e)
    → ((on_recv_error false e ≡ warns) ⊎ ((r ≡ end_of_stream) × (on_recv_error false e ≡ returns)))
      × (recv from_ctx timed_out c ≡ some (recv_failed deadline_exceeded, c))
      × (on_recv_error false deadline_exceeded ≡ goes_on)
unfolding on_recv_error recv
read_errors_warn has_deadline r e c h = (socket_errors_warn has_deadline r e h, refl, refl)
