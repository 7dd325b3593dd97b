-- ===== src/Receiver.antt =====
-- The receiver, receiver.go.
pub mod Build
pub mod Dispatch
pub mod Pdos
pub mod Decodables
pub mod Adds
pub mod Outputs
pub mod Lifecycle
pub mod Pending
pub mod Sound
pub mod Delivered
pub mod Passes
pub mod Errors
pub mod Mixed
pub mod Safe
pub mod Unbroken
