-- ===== src/Msgp/Wire.antt =====
-- msgp/defs.go, msgp/elsize.go, msgp/errors.go: the byte prefixes of MessagePack, what the first
-- byte of an object says of it, and the errors.
mod Consts
mod Types
mod Sizes
pub mod Tables
unfoldable pub use Consts.*
unfoldable pub use Types.*
unfoldable pub use Sizes.*
