-- ===== src/Transport/Conn.antt =====
-- internal/cantransport/cantransport.go: what the operations of a `Conn` return.
use otelcol_receiver_canopen.Prelude.{String}
use otelcol_receiver_canopen.Transport.{Frame}

-- A context, by what its `Err` gives.
pub data Context : Type 0 where
  alive canceled timed_out : Context

-- `==` on errors tells these apart: an error that `fmt.Errorf` made is none of the others.
pub data ConnError : Type 0 where
  context_canceled deadline_exceeded err_closed : ConnError
  wrapped : String → ConnError

pub data RecvResult : Type 0 where
  received : Frame → RecvResult
  recv_failed : ConnError → RecvResult

pub data SendResult : Type 0 where
  sent : SendResult
  send_failed : ConnError → SendResult
