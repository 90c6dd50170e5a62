-- ===== src/Msgp/RoundTrip.antt =====
-- The readers of msgp/read_bytes.go on what msgp/write_bytes.go appends.
pub mod Rules
pub mod Formats
pub mod Data
pub mod Numbers
pub mod Exts
pub mod Blobs
