-- ===== src/Transport.antt =====
-- internal/cantransport/cantransport.go: a classic CAN frame.
pub mod Conn
pub mod Bus
pub mod Members
pub mod Delivery
pub mod Conns
pub mod Order
pub mod Closing
pub mod Socket
use otelcol_receiver_canopen.Prelude.{ℕ, Bool, List}

pub record Frame : Type 0 where
  pub id : ℕ
  pub extended : Bool
  pub payload : List ℕ
