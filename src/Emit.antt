-- ===== src/Emit.antt =====
-- internal/emit, in parts: what is added, the builder of metrics, and what it holds.
pub mod Types
pub mod Metrics
pub mod Series
pub mod Keys
pub mod Kinds
pub mod Logs
pub mod Records
