-- ===== src/Msgp/Read.antt =====
-- msgp/read_bytes.go: the functions that read one object off a byte slice. A Go result
-- (value, rest, err) is the triple of the three, the nil slice and the empty one being `[]`, and
-- `none` is a panic. Aliasing between a result and the input is not modelled.
mod Guard
mod Headers
mod Ints
mod Uints
mod Floats
mod Blobs
mod Exts
unfoldable pub use Guard.*
unfoldable pub use Headers.*
unfoldable pub use Ints.*
unfoldable pub use Uints.*
unfoldable pub use Floats.*
unfoldable pub use Blobs.*
unfoldable pub use Exts.*
