-- ===== src/Msgp/Writer/Objects/Api.antt =====
-- msgp/write.go: the methods of Writer that write one object as one data type, the bytes that each
-- stands for, and a sequence of calls, which stops at the first error.
use truepack.Prelude.{
  ℕ, ◌^◌, ◌<◌, Bool, none, some, List, [], ◌∷◌, ◌++◌, ltb, leb, if◌then◌else◌, length, All,
}
use truepack.Msgp.Append.Format.{
  map_header, array_header, str_header, bin_header, bool_bytes, complex64_bytes, complex128_bytes,
  time_bytes,
}
use truepack.Msgp.Integers.{be16, be32, be64}
use truepack.Msgp.Wire.{
  mnil, mfloat32, mfloat64, muint8, muint16, muint32, muint64, mint8, mint16, mint32, mint64, Bytes,
}
use truepack.Msgp.Writer.{IoWriter, Writer, Written, and_then, write}
use truepack.Msgp.Writer.Objects.{
  write_map_header, write_array_header, write_nil, write_float64, write_float32, write_int64,
  write_int8, write_int16, write_int32, write_int, write_uint64, write_uint8, write_byte,
  write_uint16, write_uint32, write_uint, write_bytes_header, write_bytes, write_bool,
  write_string_header, write_string, write_string_from_bytes, write_complex64, write_complex128,
  write_time, write_map_str_str,
}

-- int8 and uint8 have the smallest form, unlike in msgp/write_bytes.go.
unfoldable pub int8_bytes : ℕ → Bytes
int8_bytes i = if ltb i 128 then i ∷ [] else if leb 224 i then i ∷ [] else mint8 ∷ i ∷ []

unfoldable pub uint8_bytes : ℕ → Bytes
uint8_bytes u = if leb u 127 then u ∷ [] else muint8 ∷ u ∷ []

abbrev pub string_bytes : Bytes → Bytes
string_bytes s = str_header (length s) ++ s

abbrev pub pairs_bytes : List (Bytes × Bytes) → Bytes
pairs_bytes [] = []
pairs_bytes ((key, val) ∷ mp) = string_bytes key ++ (string_bytes val ++ pairs_bytes mp)

pub data WriteOp : Type 0 where
  op_map_header : ℕ → WriteOp
  op_array_header : ℕ → WriteOp
  op_nil : WriteOp
  op_float64 : ℕ → WriteOp
  op_float32 : ℕ → WriteOp
  op_int64 : ℕ → WriteOp
  op_int32 : ℕ → WriteOp
  op_int16 : ℕ → WriteOp
  op_int8 : ℕ → WriteOp
  op_int : ℕ → WriteOp
  op_uint64 : ℕ → WriteOp
  op_uint32 : ℕ → WriteOp
  op_uint16 : ℕ → WriteOp
  op_uint8 : ℕ → WriteOp
  op_byte : ℕ → WriteOp
  op_uint : ℕ → WriteOp
  op_bytes_header : ℕ → WriteOp
  op_bytes : Bytes → WriteOp
  op_bool : Bool → WriteOp
  op_string_header : ℕ → WriteOp
  op_string : Bytes → WriteOp
  op_string_from_bytes : Bytes → WriteOp
  op_complex64 : ℕ → ℕ → WriteOp
  op_complex128 : ℕ → ℕ → WriteOp
  op_time : ℕ → ℕ → WriteOp
  op_map_str_str : List (Bytes × Bytes) → WriteOp
  op_write : Bytes → WriteOp

unfoldable pub encoding : WriteOp → Bytes
unfolding int8_bytes uint8_bytes
encoding (op_map_header sz) = map_header sz
encoding (op_array_header sz) = array_header sz
encoding op_nil = mnil ∷ []
encoding (op_float64 f) = mfloat64 ∷ be64 f
encoding (op_float32 f) = mfloat32 ∷ be32 f
encoding (op_int64 i) = mint64 ∷ be64 i
encoding (op_int32 i) = mint32 ∷ be32 i
encoding (op_int16 i) = mint16 ∷ be16 i
encoding (op_int8 i) = int8_bytes i
encoding (op_int i) = mint64 ∷ be64 i
encoding (op_uint64 u) = muint64 ∷ be64 u
encoding (op_uint32 u) = muint32 ∷ be32 u
encoding (op_uint16 u) = muint16 ∷ be16 u
encoding (op_uint8 u) = uint8_bytes u
encoding (op_byte u) = uint8_bytes u
encoding (op_uint u) = muint64 ∷ be64 u
encoding (op_bytes_header sz) = bin_header sz
encoding (op_bytes b) = bin_header (length b) ++ b
encoding (op_bool b) = bool_bytes b
encoding (op_string_header sz) = str_header sz
encoding (op_string s) = string_bytes s
encoding (op_string_from_bytes s) = string_bytes s
encoding (op_complex64 re im) = complex64_bytes re im
encoding (op_complex128 re im) = complex128_bytes re im
encoding (op_time sec nsec) = time_bytes sec nsec
encoding (op_map_str_str mp) = map_header (length mp) ++ pairs_bytes mp
encoding (op_write p) = p

-- A length fits in the header's 32 bits, an 8-bit integer is a byte.
abbrev pub InRange : WriteOp → Type 0
InRange (op_int8 i) = i < 256
InRange (op_uint8 u) = u < 256
InRange (op_byte u) = u < 256
InRange (op_bytes b) = length b < 2 ^ 32
InRange (op_string s) = length s < 2 ^ 32
InRange (op_string_from_bytes s) = length s < 2 ^ 32
InRange (op_map_str_str mp) =
    (length mp < 2 ^ 32) × All (λ (key, val). (length key < 2 ^ 32) × (length val < 2 ^ 32)) mp
InRange op = Unit {0}

abbrev pub encodings : List WriteOp → Bytes
encodings [] = []
encodings (op ∷ ops) = encoding op ++ encodings ops

module _ {W X : Type 0} (io : IoWriter W X) where
  unfoldable pub write_object : Writer W → WriteOp → Written io
  write_object mw (op_map_header sz) = write_map_header io mw sz
  write_object mw (op_array_header sz) = write_array_header io mw sz
  write_object mw op_nil = write_nil io mw
  write_object mw (op_float64 f) = write_float64 io mw f
  write_object mw (op_float32 f) = write_float32 io mw f
  write_object mw (op_int64 i) = write_int64 io mw i
  write_object mw (op_int32 i) = write_int32 io mw i
  write_object mw (op_int16 i) = write_int16 io mw i
  write_object mw (op_int8 i) = write_int8 io mw i
  write_object mw (op_int i) = write_int io mw i
  write_object mw (op_uint64 u) = write_uint64 io mw u
  write_object mw (op_uint32 u) = write_uint32 io mw u
  write_object mw (op_uint16 u) = write_uint16 io mw u
  write_object mw (op_uint8 u) = write_uint8 io mw u
  write_object mw (op_byte u) = write_byte io mw u
  write_object mw (op_uint u) = write_uint io mw u
  write_object mw (op_bytes_header sz) = write_bytes_header io mw sz
  write_object mw (op_bytes b) = write_bytes io mw b
  write_object mw (op_bool b) = write_bool io mw b
  write_object mw (op_string_header sz) = write_string_header io mw sz
  write_object mw (op_string s) = write_string io mw s
  write_object mw (op_string_from_bytes s) = write_string_from_bytes io mw s
  write_object mw (op_complex64 re im) = write_complex64 io mw re im
  write_object mw (op_complex128 re im) = write_complex128 io mw re im
  write_object mw (op_time sec nsec) = write_time io mw sec nsec
  write_object mw (op_map_str_str mp) = write_map_str_str io mw mp
  write_object mw (op_write p) = write io mw p

  unfoldable pub write_all : Writer W → List WriteOp → Written io
  unfolding and_then write_object
  write_all mw [] = some (mw, none)
  write_all mw (op ∷ ops) = and_then io (write_object mw op) (λ m. write_all m ops)
