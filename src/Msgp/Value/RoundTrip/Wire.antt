-- ===== src/Msgp/Value/RoundTrip/Wire.antt =====
-- msgp/read_bytes.go: the value that ReadIntfBytes makes of the bytes of another, and which values these are.
use truepack.Prelude.{ℕ, suc, ◌+◌, ◌^◌, ◌≤◌, ◌<◌, ◌≡◌, refl, ap, List, [], ◌∷◌, length}
use truepack.Msgp.Skip.{extension_kind}
use truepack.Msgp.Value.{
  Value, val_nil, val_float32, val_float64, val_complex64, val_complex128, val_string, val_int8,
  val_int16, val_int32, val_int64, val_int, val_uint8, val_uint16, val_uint32, val_uint64, val_uint,
  val_time, val_extension, val_map_str_str, val_map_str_intf, val_map, val_map_other, val_slice,
  val_byte_slice, val_array, val_ptr, val_nil_ptr, Values, no_values, value_more, Entries,
  no_entries, entry_more, value_count, entry_count,
}
use truepack.Msgp.Value.Format.{values_bytes, entries_bytes}
use truepack.Msgp.Value.Maps.{Apart, Distinct}
use truepack.Msgp.Wire.{Bytes, extension_type}

-- The value that is read for one that was written: integers of no width have 64 bits, a pointer is what it
-- points to, an array is a slice, a map has interface values, an extension no spare bytes.
abbrev pub wire_pairs : List (Bytes × Bytes) → Entries
wire_pairs [] = no_entries
wire_pairs ((key, val) ∷ m) = entry_more key (val_string val) (wire_pairs m)

unfoldable mutual
  pub wire_value : Value → Value
  wire_value (val_int i) = val_int64 i
  wire_value (val_uint i) = val_uint64 i
  wire_value (val_extension r) =
      val_extension
        (record { data_slice = record { visible = r.data_slice.visible; spare = [] }; typ = r.typ })
  wire_value (val_map_str_str m) = val_map_str_intf (wire_pairs m)
  wire_value (val_map_str_intf m) = val_map_str_intf (wire_entries m)
  wire_value (val_map m) = val_map_str_intf (wire_entries m)
  wire_value (val_map_other n) = val_map_str_intf no_entries
  wire_value (val_slice vs) = val_slice (wire_values vs)
  wire_value (val_byte_slice vs) = val_slice (wire_values vs)
  wire_value (val_array vs) = val_slice (wire_values vs)
  wire_value (val_ptr v) = wire_value v
  wire_value val_nil_ptr = val_nil
  wire_value v = v

  pub wire_values : Values → Values
  wire_values no_values = no_values
  wire_values (value_more v vs) = value_more (wire_value v) (wire_values vs)

  pub wire_entries : Entries → Entries
  wire_entries no_entries = no_entries
  wire_entries (entry_more k v m) = entry_more k (wire_value v) (wire_entries m)

-- Integers and floats have their widths, a time its nanoseconds below a second, and the keys of a map
-- differ. A complex number needs a byte that follows it, one of the value or of the `behind` ones behind
-- the value, since NextType takes it for an extension at the end of the input. Extensions whose type is
-- that of a complex number or a time are left out.
abbrev mutual
  pub Readable : ℕ → Value → Type 0
  Readable behind (val_float32 i) = i < 2 ^ 32
  Readable behind (val_float64 i) = i < 2 ^ 64
  Readable behind (val_complex64 re im) = (1 ≤ behind) × (re < 2 ^ 32) × (im < 2 ^ 32)
  Readable behind (val_complex128 re im) = (1 ≤ behind) × (re < 2 ^ 64) × (im < 2 ^ 64)
  Readable behind (val_int8 i) = i < 2 ^ 8
  Readable behind (val_int16 i) = i < 2 ^ 16
  Readable behind (val_int32 i) = i < 2 ^ 32
  Readable behind (val_int64 i) = i < 2 ^ 64
  Readable behind (val_int i) = i < 2 ^ 64
  Readable behind (val_uint8 i) = i < 2 ^ 8
  Readable behind (val_uint16 i) = i < 2 ^ 16
  Readable behind (val_uint32 i) = i < 2 ^ 32
  Readable behind (val_uint64 i) = i < 2 ^ 64
  Readable behind (val_uint i) = i < 2 ^ 64
  Readable behind (val_time sec nsec) = (sec < 2 ^ 64) × (nsec < 1000000000)
  Readable behind (val_extension r) = extension_kind r.typ ≡ extension_type
  Readable behind (val_map_str_str m) = Distinct (wire_pairs m)
  Readable behind (val_map_str_intf m) = Distinct m × ReadableEntries behind m
  Readable behind (val_map m) = Distinct m × ReadableEntries behind m
  Readable behind (val_slice vs) = ReadableValues behind vs
  Readable behind (val_byte_slice vs) = ReadableValues behind vs
  Readable behind (val_array vs) = ReadableValues behind vs
  Readable behind (val_ptr v) = Readable behind v
  Readable behind _ = Unit {0}

  pub ReadableValues : ℕ → Values → Type 0
  ReadableValues behind no_values = Unit {0}
  ReadableValues behind (value_more v vs) =
      Readable (behind + length (values_bytes vs)) v × ReadableValues behind vs

  pub ReadableEntries : ℕ → Entries → Type 0
  ReadableEntries behind no_entries = Unit {0}
  ReadableEntries behind (entry_more k v m) =
      Readable (behind + length (entries_bytes m)) v × ReadableEntries behind m

pub count_values : (vs : Values) → value_count (wire_values vs) ≡ value_count vs
unfolding wire_value
count_values no_values = refl
count_values (value_more v vs) = ap suc (count_values vs)

pub count_entries : (m : Entries) → entry_count (wire_entries m) ≡ entry_count m
unfolding wire_value
count_entries no_entries = refl
count_entries (entry_more k v m) = ap suc (count_entries m)

pub count_pairs : (m : List (Bytes × Bytes)) → entry_count (wire_pairs m) ≡ length m
count_pairs [] = refl
count_pairs ((k, v) ∷ m) = ap suc (count_pairs m)

pub wire-Apart : (k : Bytes) (m : Entries) → Apart k m → Apart k (wire_entries m)
unfolding wire_value
wire-Apart k no_entries h = tt
wire-Apart k (entry_more k' v m) (e, h) = (e, wire-Apart k m h)
