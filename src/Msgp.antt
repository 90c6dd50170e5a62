-- ===== src/Msgp.antt =====
-- The package msgp: MessagePack encoding of Go values over byte slices.
pub mod Wire
pub mod Integers
pub mod Slice
pub mod Append
pub mod Nilbits
pub mod Read
pub mod Skip
pub mod Safety
pub mod RoundTrip
pub mod Errors
pub mod Edit
pub mod Extension
pub mod Number
pub mod Stream
pub mod Writer
pub mod Value
mod Tests
