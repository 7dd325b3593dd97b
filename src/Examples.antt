-- ===== src/Examples.antt =====
-- Concrete runs of the program, and each theorem at an input that meets its hypotheses.
mod Decoding
mod Observing
mod Polling
mod Sniffing
mod Uploading
mod Receiving
mod Emitting
mod Bussing
mod Running
