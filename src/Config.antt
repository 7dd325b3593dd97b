-- ===== src/Config.antt =====
-- config.go, in parts: the settings, the checks of `Validate`, and what a valid configuration has.
pub mod Checked
pub mod Types
pub mod Fields
pub mod Sdo
pub mod Raw
pub mod Validate
pub mod Enabled
pub mod Accepted
