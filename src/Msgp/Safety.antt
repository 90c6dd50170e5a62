-- ===== src/Msgp/Safety.antt =====
-- msgp/read_bytes.go: the readers on any input.
pub mod Rules
pub mod Numbers
pub mod Blobs
