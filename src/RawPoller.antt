-- ===== src/RawPoller.antt =====
-- The poller of raw transactions, raw_poller.go.
pub mod Attempts
pub mod Retries
pub mod Backoff
pub mod Validated
pub mod Claims
pub mod Outputs
pub mod Schedule
pub mod Rounds
pub mod Calm
pub mod Requests
