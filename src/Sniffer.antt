-- ===== src/Sniffer.antt =====
-- internal/sniffer/sniffer.go, in parts: the definitions, the emission of fields, the handlers of
-- each kind of frame, and the classification of frames.
pub mod Types
pub mod Fields
pub mod Handlers
pub mod Sdo
pub mod Dispatch
pub mod Allowed
pub mod Outputs
pub mod Heartbeats
pub mod Channel
pub mod Calm
pub mod Total
