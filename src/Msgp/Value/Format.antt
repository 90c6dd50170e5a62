-- ===== src/Msgp/Value/Format.antt =====
-- msgp/write_bytes.go: the bytes of an interface value, and the values that AppendIntf takes.
use truepack.Prelude.{◌^◌, ◌<◌, Bool, true, false, ◌&&◌, [], ◌∷◌, ◌++◌, ◌==◌, length, All}
use truepack.Msgp.Append.Format.{
  map_header, array_header, str_header, bin_header, bool_bytes, complex64_bytes, complex128_bytes,
  time_bytes,
}
use truepack.Msgp.Edit.Format.{key_bytes}
use truepack.Msgp.Extension.Laws.{ext_header}
use truepack.Msgp.Integers.{byte, be16, be32, be64}
use truepack.Msgp.Value.{
  Value, val_nil, val_bool, val_float32, val_float64, val_complex64, val_complex128, val_string,
  val_bytes, val_int8, val_int16, val_int32, val_int64, val_int, val_uint8, val_uint16, val_uint32,
  val_uint64, val_uint, val_time, val_extension, val_map_str_str, val_map_str_intf, val_map,
  val_map_other, val_slice, val_byte_slice, val_array, val_ptr, val_nil_ptr, val_other, Values,
  no_values, value_more, Entries, no_entries, entry_more, value_count, entry_count,
}
use truepack.Msgp.Wire.{
  mnil, mfloat32, mfloat64, muint8, muint16, muint32, muint64, mint8, mint16, mint32, mint64, Bytes,
}
use truepack.Msgp.Writer.Objects.Api.{pairs_bytes}

unfoldable mutual
  pub value_bytes : Value → Bytes
  value_bytes val_nil = mnil ∷ []
  value_bytes (val_bool i) = bool_bytes i
  value_bytes (val_float32 i) = mfloat32 ∷ be32 i
  value_bytes (val_float64 i) = mfloat64 ∷ be64 i
  value_bytes (val_complex64 re im) = complex64_bytes re im
  value_bytes (val_complex128 re im) = complex128_bytes re im
  value_bytes (val_string i) = str_header (length i) ++ i
  value_bytes (val_bytes i) = bin_header (length i) ++ i
  value_bytes (val_int8 i) = mint8 ∷ byte i ∷ []
  value_bytes (val_int16 i) = mint16 ∷ be16 i
  value_bytes (val_int32 i) = mint32 ∷ be32 i
  value_bytes (val_int64 i) = mint64 ∷ be64 i
  value_bytes (val_int i) = mint64 ∷ be64 i
  value_bytes (val_uint i) = muint64 ∷ be64 i
  value_bytes (val_uint8 i) = muint8 ∷ byte i ∷ []
  value_bytes (val_uint16 i) = muint16 ∷ be16 i
  value_bytes (val_uint32 i) = muint32 ∷ be32 i
  value_bytes (val_uint64 i) = muint64 ∷ be64 i
  value_bytes (val_time sec nsec) = time_bytes sec nsec
  value_bytes (val_extension i) =
      ext_header (length i.data_slice.visible) i.typ ++ i.data_slice.visible
  value_bytes (val_map_str_intf i) = map_header (entry_count i) ++ entries_bytes i
  value_bytes (val_map_str_str i) = map_header (length i) ++ pairs_bytes i
  value_bytes (val_slice i) = array_header (value_count i) ++ values_bytes i
  value_bytes (val_byte_slice i) = array_header (value_count i) ++ values_bytes i
  value_bytes (val_array i) = array_header (value_count i) ++ values_bytes i
  value_bytes (val_ptr i) = value_bytes i
  value_bytes val_nil_ptr = mnil ∷ []
  value_bytes (val_map m) = map_header (entry_count m) ++ entries_bytes m
  value_bytes (val_map_other n) = map_header 0
  value_bytes val_other = []

  pub values_bytes : Values → Bytes
  values_bytes no_values = []
  values_bytes (value_more i k) = value_bytes i ++ values_bytes k

  pub entries_bytes : Entries → Bytes
  entries_bytes no_entries = []
  entries_bytes (entry_more key val m) = key_bytes key ++ (value_bytes val ++ entries_bytes m)

-- No part has an unsupported type.
unfoldable mutual
  pub supported : Value → Bool
  supported (val_map_str_intf i) = supported_entries i
  supported (val_slice i) = supported_values i
  supported (val_byte_slice i) = supported_values i
  supported (val_array i) = supported_values i
  supported (val_ptr i) = supported i
  supported (val_map m) = supported_entries m
  supported (val_map_other n) = n == 0
  supported val_other = false
  supported _ = true

  pub supported_values : Values → Bool
  supported_values no_values = true
  supported_values (value_more i k) = supported i && supported_values k

  pub supported_entries : Entries → Bool
  supported_entries no_entries = true
  supported_entries (entry_more key val m) = supported val && supported_entries m

-- Lengths are below 2 ^ 32, and the type of an extension is a byte.
abbrev mutual
  pub Fits : Value → Type 0
  Fits (val_string i) = length i < 2 ^ 32
  Fits (val_bytes i) = length i < 2 ^ 32
  Fits (val_extension i) = (length i.data_slice.visible < 2 ^ 32) × (i.typ < 256)
  Fits (val_map_str_str i) =
      (length i < 2 ^ 32) × All (λ (key, val). (length key < 2 ^ 32) × (length val < 2 ^ 32)) i
  Fits (val_map_str_intf i) = (entry_count i < 2 ^ 32) × FitsEntries i
  Fits (val_map m) = (entry_count m < 2 ^ 32) × FitsEntries m
  Fits (val_map_other n) = n < 2 ^ 32
  Fits (val_slice i) = (value_count i < 2 ^ 32) × FitsValues i
  Fits (val_byte_slice i) = (value_count i < 2 ^ 32) × FitsValues i
  Fits (val_array i) = (value_count i < 2 ^ 32) × FitsValues i
  Fits (val_ptr i) = Fits i
  Fits _ = Unit {0}

  pub FitsValues : Values → Type 0
  FitsValues no_values = Unit {0}
  FitsValues (value_more i k) = Fits i × FitsValues k

  pub FitsEntries : Entries → Type 0
  FitsEntries no_entries = Unit {0}
  FitsEntries (entry_more key val m) = (length key < 2 ^ 32) × Fits val × FitsEntries m
