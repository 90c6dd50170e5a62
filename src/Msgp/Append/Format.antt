-- ===== src/Msgp/Append/Format.antt =====
-- The MessagePack formats that msgp/write_bytes.go writes, stated without slices or bit masks: a
-- header in its smallest form, then the data.
use truepack.Prelude.{ℕ, ◌+◌, Bool, [], ◌∷◌, ◌++◌, leb, if◌then◌else◌}
use truepack.Msgp.Integers.{be16, be32, be64}
use truepack.Msgp.Wire.{
  mfalse, mtrue, mbin8, mbin16, mbin32, mext8, mfixext8, mfixext16, mstr8, mstr16, mstr32, marray16,
  marray32, mmap16, mmap32, complex64_extension, complex128_extension, time_extension, Bytes,
}

unfoldable pub map_header : ℕ → Bytes
map_header sz =
    if leb sz 15
    then (128 + sz) ∷ []
    else if leb sz 65535
    then mmap16 ∷ be16 sz
    else mmap32 ∷ be32 sz

unfoldable pub array_header : ℕ → Bytes
array_header sz =
    if leb sz 15
    then (144 + sz) ∷ []
    else if leb sz 65535
    then marray16 ∷ be16 sz
    else marray32 ∷ be32 sz

unfoldable pub str_header : ℕ → Bytes
str_header sz =
    if leb sz 31
    then (160 + sz) ∷ []
    else if leb sz 255
    then mstr8 ∷ sz ∷ []
    else if leb sz 65535
    then mstr16 ∷ be16 sz
    else mstr32 ∷ be32 sz

unfoldable pub bin_header : ℕ → Bytes
bin_header sz =
    if leb sz 255
    then mbin8 ∷ sz ∷ []
    else if leb sz 65535
    then mbin16 ∷ be16 sz
    else mbin32 ∷ be32 sz

unfoldable pub bool_bytes : Bool → Bytes
bool_bytes t = if t then mtrue ∷ [] else mfalse ∷ []

abbrev pub complex64_bytes : ℕ → ℕ → Bytes
complex64_bytes re im = mfixext8 ∷ complex64_extension ∷ (be32 re ++ be32 im)

abbrev pub complex128_bytes : ℕ → ℕ → Bytes
complex128_bytes re im = mfixext16 ∷ complex128_extension ∷ (be64 re ++ be64 im)

abbrev pub time_bytes : ℕ → ℕ → Bytes
time_bytes sec nsec = mext8 ∷ 12 ∷ time_extension ∷ (be64 sec ++ be32 nsec)
