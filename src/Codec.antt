-- ===== src/Codec.antt =====
-- internal/codec/codec.go, in parts: the types, the decoder, and what the decoder guarantees.
pub mod Types
pub mod Decode
pub mod Field
pub mod Extract
pub mod Range
pub mod Roundtrip
pub mod Calm
