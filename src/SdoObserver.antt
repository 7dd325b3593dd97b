-- ===== src/SdoObserver.antt =====
-- internal/sdoobserver/observer.go, in parts: the events, the observer's step, and its guarantees.
pub mod Types
pub mod Observe
pub mod Channels
pub mod Sender
pub mod FrameFields
pub mod Segments
pub mod Reports
pub mod Transfers
pub mod Expedited
