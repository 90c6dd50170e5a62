-- ===== src/Msgp/Errors.antt =====
-- msgp/errors.go and msgp/read_bytes.go: what the readers answer to input that they do not expect.
pub mod Overflow
pub mod Truncated
